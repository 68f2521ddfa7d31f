-- ===== src/Cache/Cached.antt =====
-- What is true of the lines of src/modules/storage/cache.c between its calls.
use bax_os_dev.Base.{
  ℕ, zero, suc, ◌+◌, ◌≤◌, ◌<◌, Bool, true, false, not, ◌&&◌, some, ltb, ◌==◌, if◌then◌else◌, ◌≡◌,
  refl, ap, ◌∙◌, arith, Bool-cases, inl, inr,
}
use bax_os_dev.Chains.Tables.{IsTable}
use bax_os_dev.Cache.{Cache, no_sector, line_sectors, bucket_of, nexts, has_data}

unfoldable pub hooked : Cache → ℕ → Bool
hooked s i = ltb i s.room && (not ((s.lines i).first == no_sector) && has_data (s.lines i))

abbrev pub buckets : Cache → ℕ → ℕ
buckets s i = bucket_of s.room ((s.lines i).first)

abbrev pub IsLineTable : Cache → (ℕ → Bool) → Type 0
IsLineTable s on = IsTable s.heads (nexts s) on (buckets s)

unfoldable pub tally : ℕ → (ℕ → Bool) → ℕ
tally zero on = 0
tally (suc n) on = if on n then suc (tally n on) else tally n on

abbrev pub with_data : Cache → ℕ → Bool
with_data s i = has_data (s.lines i)

-- Each line that holds something holds what the disk has there, is found under its first sector,
-- and the lines with memory are as many as the count says.
pub record IsCached (content : ℕ → ℕ) (s : Cache) : Type 0 where
  pub table : IsLineTable s (hooked s)
  pub held :
      (i : ℕ) (f : ℕ → ℕ)
      → hooked s i ≡ true
      → (s.lines i).sectors ≡ some f
      → (k : ℕ) → k < line_sectors
      → f k ≡ content ((s.lines i).first + k)
  pub counted : s.count ≡ tally s.room (with_data s)

pub hooked-below : (s : Cache) (i : ℕ) → hooked s i ≡ true → i < s.room
unfolding hooked
hooked-below s i on = ground arith

pub tally-same :
    (n : ℕ) (on also : ℕ → Bool) → ((i : ℕ) → i < n → also i ≡ on i) → tally n also ≡ tally n on
unfolding tally
tally-same zero on also same = refl
tally-same (suc n) on also same =
    ground (arith, same n (omega arith), tally-same n on also (λ i lt. same i (omega arith)))

-- One more.
pub tally-more :
    (n i : ℕ) (on also : ℕ → Bool)
    → i < n
    → on i ≡ false
    → also i ≡ true
    → ((j : ℕ) → (j == i) ≡ false → also j ≡ on j)
    → tally n also ≡ suc (tally n on)
unfolding tally
tally-more zero i on also lt off o same = absurd (omega arith)
tally-more (suc n) i on also lt off o same = elim (Bool-cases (n == i)) [
  | inl at ↦
      let eq : n ≡ i = ground arith in
      let rest = tally-same n on also (λ j below. same j (ground (arith, eq))) in
      let off_n : on n ≡ false = ap on eq ∙ off in
      let on_n : also n ≡ true = ap also eq ∙ o in ground (arith, rest)
  | inr ne ↦ ground (arith, same n ne, tally-more n i on also (ground arith) off o same)
]

tally-le : (n : ℕ) (on : ℕ → Bool) → tally n on ≤ n
unfolding tally
tally-le zero on = omega arith
tally-le (suc n) on = ground (arith, tally-le n on)

-- Where as many are on as there are, each is.
pub tally-full : (n : ℕ) (on : ℕ → Bool) → n ≤ tally n on → (i : ℕ) → i < n → on i ≡ true
unfolding tally
tally-full zero on full i lt = absurd (omega arith)
tally-full (suc n) on full i lt =
    let last : on n ≡ true = ground (arith, tally-le n on) in
    elim (Bool-cases (i == n)) [
      | inl same ↦ let at : i ≡ n = ground arith in rw at last
      | inr ne ↦ tally-full n on (ground (arith, tally-le n on)) i (ground arith)
    ]
