-- ===== src/Cache/Slot.antt =====
-- A line of src/modules/storage/cache.c to fill: a new one, or the oldest.
use bax_os_dev.Base.{
  ℕ, zero, suc, ◌+◌, ◌-◌, ◌≤◌, ◌<◌, true, false, not, ◌&&◌, some, ◌==◌, if◌then◌else◌, ◌≡◌, refl,
  ap, ◌∙◌, arith, Bool-cases, inl, inr,
}
use bax_os_dev.Chains.Updates.{update_other, update_self}
use bax_os_dev.Cache.{Line, Cache, no_sector, has_data}
use bax_os_dev.Cache.{let_out}
use bax_os_dev.Cache.Cached.{hooked, tally, with_data, IsCached, tally-more}
use bax_os_dev.Base.{if-both, ◌⊎◌}
use bax_os_dev.Cache.{no_line, oldest, let_out}
use bax_os_dev.Cache.Calls.{Answers, roomier, free_below, bought, slot, may_grow}
use bax_os_dev.Cache.Fill.{replaced-IsCached}
use bax_os_dev.Cache.Unhook.{let_out-IsLetOut}
use bax_os_dev.Cache.Cap.{oldest_below-IsOldest}
use bax_os_dev.Cache.Enlarge.{enlarge-IsCached}

roomier-IsCached :
    (content : ℕ → ℕ) (m : Answers) (s : Cache)
    → IsCached content s
    → IsCached content (roomier m s)
unfolding roomier
roomier-IsCached content m s c = elim (Bool-cases (may_grow m s && s.count == s.room && m.block)) [
  | inl more ↦ rw more (enlarge-IsCached content s c (ground arith))
  | inr same ↦ rw same c
]

-- None is without memory, or this one is.
free_below-finds :
    (room n : ℕ) (s : Cache)
    → n ≤ room
    → (free_below room n s ≡ 0)
      ⊎ ((i : ℕ) × (free_below room n s ≡ suc i) × (i < room) × (has_data (s.lines i) ≡ false))
unfolding free_below
free_below-finds room zero s le = inl refl
free_below-finds room (suc n) s le = elim (Bool-cases (has_data (s.lines (room - suc n)))) [
  | inl full ↦ rw full (free_below-finds room n s (omega arith))
  | inr empty ↦ rw empty (inr (room - suc n, refl, omega arith, empty))
]

-- A line that has memory, holds nothing and is on no chain, or none.
abbrev pub Slotted : (ℕ → ℕ) → ℕ × Cache → Type 0
Slotted content (at, t) =
    IsCached content t
    × ((at ≡ 0)
        ⊎ ((i : ℕ) × (at ≡ suc i)
            × (i < t.room)
            × ((t.lines i).first ≡ no_sector)
            × (has_data (t.lines i) ≡ true)))

bought-Slotted :
    (content : ℕ → ℕ) (s : Cache) (i : ℕ)
    → i < s.room
    → has_data (s.lines i) ≡ false
    → IsCached content s
    → Slotted content (suc i, bought i s)
unfolding bought has_data hooked
bought-Slotted content s i lt empty c =
    let l : Line = record no_line { first = no_sector; sectors = some (λ k. 0) } in
    let u = bought i s in
    let more : tally s.room (with_data u) ≡ suc (tally s.room (with_data s)) =
      tally-more s.room i (with_data s) (with_data u) lt empty
        (ap has_data (update_self s.lines i l))
        (λ j ne. ap has_data (update_other s.lines i l j ne)) in
    (
      replaced-IsCached content s i (s.count + 1) l c (ground arith) refl
          (omega (arith, c.counted, more)),
      inr (
        i,
        refl,
        lt,
        ap (λ (x : Line). x.first) (update_self s.lines i l),
        ap has_data (update_self s.lines i l),
      ),
    )

oldest-Slotted :
    (content : ℕ → ℕ) (s : Cache)
    → IsCached content s
    → Slotted content (if oldest s == 0 then (0, s) else (oldest s, let_out (oldest s - 1) s))
unfolding oldest
oldest-Slotted content s c = elim (oldest_below-IsOldest s s.room) [
  | inl (e, absent) ↦ rw e (c, inl refl)
  | inr (i, e, lt, full, best) ↦
      let less : suc i - 1 ≡ i = omega arith in
      let some_line : (suc i == 0) ≡ false = ground arith in
      let o = let_out-IsLetOut content s i lt full c in
      rw (e, less, some_line)
        (o.cached, inr (i, refl, omega (arith, lt, o.room), o.empty, o.memory i ∙ full))
]

pub slot-Slotted :
    (content : ℕ → ℕ) (m : Answers) (s : Cache) → IsCached content s → Slotted content (slot m s)
unfolding slot
slot-Slotted content m s c =
    let t = roomier m s in
    let still = roomier-IsCached content m s c in
    elim (free_below-finds t.room t.room t (omega arith)) [
      | inl e ↦
          let never : (may_grow m s && not (free_below t.room t.room t == 0) && m.lent) ≡ false =
            ground (arith, e) in
          rw never (oldest-Slotted content t still)
      | inr (i, e, lt, empty) ↦
          let less : suc i - 1 ≡ i = omega arith in
          let old : ℕ × Cache =
            if oldest t == 0 then (0, t) else (oldest t, let_out (oldest t - 1) t) in
          rw (e, less)
            (if-both (Slotted content) (may_grow m s && not (suc i == 0) && m.lent)
              (suc i, bought i t) old (bought-Slotted content t i lt empty still)
              (oldest-Slotted content t still))
    ]
