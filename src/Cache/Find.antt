-- ===== src/Cache/Find.antt =====
-- The line of src/modules/storage/cache.c for a sector, read in if need be.
use bax_os_dev.Base.{
  ℕ, suc, ◌+◌, ◌-◌, ◌<◌, Bool, true, false, Option, none, some, ◌==◌, if◌then◌else◌, ◌≡◌, refl, ap,
  ◌∙◌, arith, inl, inr,
}
use bax_os_dev.Cache.{Cache, no_sector, line_sectors, bucket_of, has_data}
use bax_os_dev.Cache.Cached.{hooked, IsCached, hooked-below}
use bax_os_dev.Base.{Option-cases, ◌≢◌, ◌⊎◌}
use bax_os_dev.Chains.Tables.{IsListed-lookup}
use bax_os_dev.Cache.{find}
use bax_os_dev.Cache.Calls.{Answers, slot, keep, line_for, sectors_of}
use bax_os_dev.Cache.Hook.{keep-IsCached, keep-line}
use bax_os_dev.Cache.Slot.{Slotted, slot-Slotted}

-- What the disk gives, where it gives anything, is what it has.
abbrev pub ReadsRight : (ℕ → ℕ) → (ℕ → ℕ → Option (ℕ → ℕ)) → Type 0
ReadsRight content disk =
    (lba n : ℕ) (f : ℕ → ℕ) → disk lba n ≡ some f → (k : ℕ) → k < n → f k ≡ content (lba + k)

-- The line found has what the disk has from that sector on, or there is none.
abbrev pub LineFor : (ℕ → ℕ) → ℕ → ℕ × Cache → Type 0
LineFor content first (at, t) =
    IsCached content t
    × ((at ≡ 0)
        ⊎ ((i : ℕ) × (at ≡ suc i)
            × ((k : ℕ) → k < line_sectors → sectors_of i t k ≡ content (first + k))))

data_there : (s : Cache) (i : ℕ) → hooked s i ≡ true → (s.lines i).sectors ≢ none
unfolding hooked has_data
data_there s i on e = ground (arith, ap has_data_of e)
  where
    has_data_of : Option (ℕ → ℕ) → Bool
    has_data_of o = elim o [ none ↦ false | some d ↦ true ]

found-LineFor :
    (content : ℕ → ℕ) (first : ℕ) (s : Cache) (i : ℕ)
    → IsCached content s
    → hooked s i ≡ true
    → (s.lines i).first ≡ first
    → LineFor content first (suc i, s)
unfolding hooked has_data
found-LineFor content first s i c on at = elim (Option-cases ((s.lines i).sectors)) [
  | inl e ↦ absurd (data_there s i on e)
  | inr (f, e) ↦ (
    c,
    inr (
      i,
      refl,
      λ k lt.
          ap
            (λ (o : Option (ℕ → ℕ)). let g : ℕ → ℕ = elim o [ none ↦ (λ n. 0) | some h ↦ h ] in g k)
            e
          ∙ c.held i f on e k lt
          ∙ ap (λ (n : ℕ). content (n + k)) at,
    ),
  )
]

find-LineFor :
    (content : ℕ → ℕ) (first : ℕ) (s : Cache)
    → IsCached content s
    → (find first s ≡ 0) ⊎ ((i : ℕ) × (find first s ≡ suc i) × LineFor content first (suc i, s))
unfolding find
find-LineFor content first s c =
    elim (IsListed-lookup s.room (λ j. (s.lines j).first == first)
      (λ j o. hooked-below s j (ground arith)) (c.table (bucket_of s.room first))) [
        | inl (e, absent) ↦ inl e
        | inr (i, e, on, hit) ↦
            inr (i, e, found-LineFor content first s i c (ground arith) (ground arith))
      ]

module _ (content : ℕ → ℕ) (disk : ℕ → ℕ → Option (ℕ → ℕ)) (right : ReadsRight content disk)
    (m : Answers) (first : ℕ) (s : Cache) (c : IsCached content s)
    (file : (first == no_sector) ≡ false) where
  from_disk : ℕ → Cache → ℕ × Cache
  from_disk i t = elim (disk first line_sectors) [
    | none ↦ (0, t)
    | some f ↦ (i, keep (i - 1) first f t)
  ]

  from_disk-LineFor :
      (i : ℕ) (t : Cache)
      → IsCached content t
      → i < t.room
      → (t.lines i).first ≡ no_sector
      → has_data (t.lines i) ≡ true
      → LineFor content first (from_disk (suc i) t)
  unfolding from_disk
  from_disk-LineFor i t still lt empty full = elim (Option-cases (disk first line_sectors)) [
    | inl e ↦ rw (from_disk, e) (still, inl refl)
    | inr (f, e) ↦
        let less : suc i - 1 ≡ i = omega arith in
        let got = right first line_sectors f e in
        rw (from_disk, e, less)
          (
            keep-IsCached content t i first f still lt empty full file got,
            inr (
              i,
              refl,
              λ k kl.
                  ap
                    (λ (o : Option (ℕ → ℕ)).
                      let g : ℕ → ℕ = elim o [ none ↦ (λ n. 0) | some h ↦ h ] in g k)
                    (keep-line content t i first f still lt empty full file got)
                  ∙ got k kl,
            ),
          )
  ]

  Slotted-LineFor :
      (r : ℕ × Cache)
      → Slotted content r
      → LineFor content first (if r.0 == 0 then (0, r.1) else from_disk (r.0) (r.1))
  Slotted-LineFor r (still, inl e) = rw e (still, inl refl)
  Slotted-LineFor r (still, inr (i, e, lt, empty, full)) =
      let some_line : (suc i == 0) ≡ false = ground arith in
      rw (e, some_line) (from_disk-LineFor i (r.1) still lt empty full)

  pub line_for-LineFor : LineFor content first (line_for disk m first s)
  unfolding line_for from_disk
  line_for-LineFor = elim (find-LineFor content first s c) [
    | inl e ↦ rw e (Slotted-LineFor (slot m s) (slot-Slotted content m s c))
    | inr (i, e, found) ↦
        let some_line : (suc i == 0) ≡ false = ground arith in rw (e, some_line) found
  ]
