-- ===== src/Cache/Cap.antt =====
-- The line used longest ago, and giving lines back, in src/modules/storage/cache.c.
use bax_os_dev.Base.{
  ℕ, zero, suc, ◌+◌, ◌-◌, ◌*◌, ◌≤◌, ◌<◌, Bool, true, false, ◌&&◌, none, ltb, ◌==◌, if◌then◌else◌,
  ◌≡◌, refl, sym, ap, ◌∙◌, arith, Bool-cases, inl, inr, subst,
}
use bax_os_dev.Chains.Updates.{update_other, update_self}
use bax_os_dev.Cache.{Cache, no_sector, has_data}
use bax_os_dev.Cache.{let_out}
use bax_os_dev.Cache.Calls.{give_back}
use bax_os_dev.Cache.Cached.{hooked, tally, with_data, IsCached, tally-more}
use bax_os_dev.Base.{◌/◌, ltb→lt, ◌⊎◌}
use bax_os_dev.Cache.{line_size, oldest_below, oldest}
use bax_os_dev.Cache.Calls.{cache_shrink, cap_from, cap}
use bax_os_dev.Cache.Fill.{replaced-IsCached}
use bax_os_dev.Cache.Unhook.{let_out-IsLetOut}

-- No line has memory, or this one has, and none that has was used longer ago.
abbrev pub IsOldest : Cache → ℕ → ℕ → Type 0
IsOldest s n r =
    ((r ≡ 0) × ((j : ℕ) → j < n → has_data (s.lines j) ≡ false))
    ⊎ ((i : ℕ) × (r ≡ suc i)
        × (i < n)
        × (has_data (s.lines i) ≡ true)
        × ((j : ℕ) → j < n → has_data (s.lines j) ≡ true → (s.lines i).used ≤ (s.lines j).used))

extend_none :
    (s : Cache) (n : ℕ)
    → ((j : ℕ) → j < n → has_data (s.lines j) ≡ false)
    → has_data (s.lines n) ≡ false
    → (j : ℕ) → j < suc n
    → has_data (s.lines j) ≡ false
extend_none s n absent last j lt = elim (Bool-cases (j == n)) [
  | inl same ↦ let at : j ≡ n = ground arith in rw at last
  | inr ne ↦ absent j (ground arith)
]

extend_best :
    (s : Cache) (n b : ℕ)
    → ((j : ℕ) → j < n → has_data (s.lines j) ≡ true → b ≤ (s.lines j).used)
    → (has_data (s.lines n) ≡ true → b ≤ (s.lines n).used)
    → (j : ℕ) → j < suc n
    → has_data (s.lines j) ≡ true
    → b ≤ (s.lines j).used
extend_best s n b best last j lt = elim (Bool-cases (j == n)) [
  | inl same ↦ let at : j ≡ n = ground arith in rw at last
  | inr ne ↦ best j (ground arith)
]

pub oldest_below-IsOldest : (s : Cache) (n : ℕ) → IsOldest s n (oldest_below n s)
unfolding oldest_below
oldest_below-IsOldest s zero = inl (refl, λ j lt. absurd (omega arith))
oldest_below-IsOldest s (suc n) = elim (oldest_below-IsOldest s n) [
  | inl (e, absent) ↦ elim (Bool-cases (has_data (s.lines n))) [
    | inl full ↦ inr (
      n,
      ground (arith, e, full),
      omega arith,
      full,
      extend_best s n ((s.lines n).used) (λ j lt h. absurd (ground (arith, absent j lt)))
          (λ h. omega arith),
    )
    | inr empty ↦ inl (ground (arith, e, empty), extend_none s n absent empty)
  ]
  | inr (i, e, lt, full, best) ↦
      let less : oldest_below n s - 1 ≡ i = omega (arith, e) in
      let age : (s.lines (oldest_below n s - 1)).used ≡ (s.lines i).used =
        ap (λ (j : ℕ). (s.lines j).used) less in
      elim (Bool-cases (has_data (s.lines n) && ltb ((s.lines n).used) ((s.lines i).used))) [
        | inl newer ↦ inr (
          n,
          ground (arith, e, age),
          omega arith,
          ground arith,
          extend_best s n ((s.lines n).used)
              (λ j lt h.
                omega
                  (arith, best j lt h, ltb→lt ((s.lines n).used) ((s.lines i).used) (ground arith)))
              (λ h. omega arith),
        )
        | inr older ↦ inr (
          i,
          ground (arith, e, age),
          omega arith,
          full,
          extend_best s n ((s.lines i).used) best (λ h. ground (arith, h)),
        )
      ]
]

-- `oldest` returns a line that has memory, and none that has memory was used longer ago; or it
-- returns that there is none, and none has memory.
pub oldest-IsOldest : (s : Cache) → IsOldest s s.room (oldest s)
unfolding oldest
oldest-IsOldest s = oldest_below-IsOldest s s.room

pub hooked_empty : (t : Cache) (i : ℕ) → (t.lines i).first ≡ no_sector → hooked t i ≡ false
unfolding hooked
hooked_empty t i empty = ground (arith, empty)

module _ (content : ℕ → ℕ) (s : Cache) (i : ℕ) (lt : i < s.room)
    (full : has_data (s.lines i) ≡ true) (c : IsCached content s) where
  -- A line given back leaves the others as they were, one less with memory.
  give_back-IsCached : IsCached content (give_back i s) × (suc ((give_back i s).count) ≡ s.count)
  unfolding give_back has_data
  give_back-IsCached =
      let o = let_out-IsLetOut content s i lt full c in
      let t = let_out i s in
      let l = record (t.lines i) { sectors = none } in
      let u = give_back i s in
      let less : tally t.room (with_data t) ≡ suc (tally t.room (with_data u)) =
        tally-more t.room i (with_data u) (with_data t) (omega (arith, o.room, lt))
          (ap has_data (update_self t.lines i l)) (o.memory i ∙ full)
          (λ j ne. ap has_data (sym (update_other t.lines i l j ne))) in
      let count : t.count - 1 ≡ tally t.room (with_data u) =
        omega (arith, o.cached.counted, less) in
      (
        replaced-IsCached content t i (t.count - 1) l o.cached (hooked_empty t i o.empty) o.empty
            count,
        omega (arith, o.cached.counted, less, o.count),
      )

tally_none : (n : ℕ) (on : ℕ → Bool) → ((i : ℕ) → i < n → on i ≡ false) → tally n on ≡ 0
unfolding tally
tally_none zero on off = refl
tally_none (suc n) on off =
    ground (arith, off n (omega arith), tally_none n on (λ i lt. off i (omega arith)))

-- What `cap` does.
abbrev pub Capped : (ℕ → ℕ) → ℕ → Cache → ℕ × Cache → Type 0
Capped content most s (given, t) =
    IsCached content t
    × (given + t.count ≡ s.count)
    × (if ltb most s.count then t.count ≡ most else t.count ≡ s.count)

cap_from_zero : (most : ℕ) (s : Cache) → cap_from 0 most s ≡ (0, s)
unfolding cap_from
cap_from_zero most s = refl

cap_from_few :
    (fuel most : ℕ) (s : Cache) → ltb most s.count ≡ false → cap_from (suc fuel) most s ≡ (0, s)
unfolding cap_from
cap_from_few fuel most s few = rw few

cap_from_many :
    (fuel most : ℕ) (s : Cache) (i : ℕ)
    → ltb most s.count ≡ true
    → oldest s ≡ suc i
    → cap_from (suc fuel) most s
      ≡ (suc ((cap_from fuel most (give_back i s)).0), (cap_from fuel most (give_back i s)).1)
unfolding cap_from
cap_from_many fuel most s i many e =
    let less : suc i - 1 ≡ i = omega arith in
    let some_line : (suc i == 0) ≡ false = ground arith in rw (e, less, many, some_line)

Capped-suc :
    (content : ℕ → ℕ) (most : ℕ) (s u : Cache) (r : ℕ × Cache)
    → ltb most s.count ≡ true
    → suc u.count ≡ s.count
    → Capped content most u r
    → Capped content most s (suc (r.0), r.1)
Capped-suc content most s u r many count (still, given, left) =
    (still, omega (arith, given, count), ground (arith, left, count))

cap_from-Capped :
    (content : ℕ → ℕ) (fuel most : ℕ) (s : Cache)
    → s.count ≤ fuel + most
    → IsCached content s
    → Capped content most s (cap_from fuel most s)
unfolding oldest
cap_from-Capped content zero most s le c =
    subst (Capped content most s) (sym (cap_from_zero most s)) (c, omega arith, ground arith)
cap_from-Capped content (suc fuel) most s le c = elim (Bool-cases (ltb most s.count)) [
  | inr few ↦
      subst (Capped content most s) (sym (cap_from_few fuel most s few))
        (c, omega arith, ground arith)
  | inl many ↦ elim (oldest_below-IsOldest s s.room) [
    | inl (e, absent) ↦ absurd (ground (arith, c.counted, tally_none s.room (with_data s) absent))
    | inr (i, e, lt, full, best) ↦
        let (still, count) = give_back-IsCached content s i lt full c in
        subst (Capped content most s) (sym (cap_from_many fuel most s i many e)) (
          Capped-suc content most s (give_back i s) (cap_from fuel most (give_back i s)) many count
            (cap_from-Capped content fuel most (give_back i s) (omega (arith, count)) still))
  ]
]

-- Over a cache whose lines hold what the disk has, `cap` leaves the number it is given, or all
-- there are if they are no more; and the lines left hold what the disk has.
pub cap-Capped :
    (content : ℕ → ℕ) (most : ℕ) (s : Cache)
    → IsCached content s
    → Capped content most s (cap most s)
unfolding cap
cap-Capped content most s c = cap_from-Capped content s.count most s (omega arith) c

-- Over a cache whose lines hold what the disk has, `cache_shrink` outside a read gives as many
-- bytes as it is asked for, or all there are; what it gives and what is left are what there was,
-- and the lines left hold what the disk has.
pub cache_shrink-Shrinks :
    (content : ℕ → ℕ) (bytes : ℕ) (s : Cache)
    → IsCached content s
    → let (given, t) = cache_shrink false bytes s in
      IsCached content t
      × (given + t.count * line_size ≡ s.count * line_size)
      × ((bytes ≤ given) ⊎ (t.count ≡ 0))
unfolding cache_shrink
cache_shrink-Shrinks content bytes s c = elim (Bool-cases (ltb (bytes / line_size) s.count)) [
  | inl few ↦
      let most = s.count - (bytes + line_size - 1) / line_size in
      let (still, given, left) = cap-Capped content most s c in
      rw few (still, omega (arith, given), inl (ground (arith, given, left)))
  | inr all ↦
      let (still, given, left) = cap-Capped content 0 s c in
      rw all (still, omega (arith, given), inr (ground (arith, given, left)))
]
