-- ===== src/Shared/Drop.antt =====
-- Letting go of a page, and holding it once more: `shared_drop` and `shared_hold` of
-- src/kernel/share.c.
use bax_os_dev.Base.{
  none, some, ℕ, suc, ◌+◌, ◌-◌, ◌%◌, ◌^◌, ◌<◌, true, false, ◌==◌, if◌then◌else◌, ◌≡◌, refl, sym, ap,
  ◌∙◌, arith, Bool-cases, inl, inr, ◌⊎◌, subst, if-true, if-false,
}
use bax_os_dev.Memory.{Mem}
use bax_os_dev.Pages.{pages_free}
use bax_os_dev.Chains.Updates.{update_field, update_other}
use bax_os_dev.Shared.{Entry, Shared, of_frame}
use bax_os_dev.Shared.Calls.{unlist, release, shared_drop, shared_hold}
use bax_os_dev.Shared.Held.{Held, held_of, instead}
use bax_os_dev.Shared.Sound.{view, live, keyed, unused, is_at, IsSound}
use bax_os_dev.Shared.LetGo.{let_go-Sound, view-live}
use bax_os_dev.Shared.Counts.{
  count_at, count_at-HasTables, count_at-Sound, Shares, SharesNone, of_frame-cases,
}

module _ (s : Shared) (page i : ℕ) (e : of_frame page s ≡ suc i) where
  one_less : suc i - 1 ≡ i
  one_less = omega arith

  not_zero : (suc i == 0) ≡ false
  not_zero = ground arith

  shared_hold-at : shared_hold page s ≡ count_at i (((s.entries i).refs + 1) % 2 ^ 32) s
  unfolding shared_hold
  shared_hold-at = rw (e, one_less, not_zero)

  shared_drop-at :
      (m : Mem)
      → let refs = ((s.entries i).refs + 2 ^ 32 - 1) % 2 ^ 32 in
        shared_drop page (s, m) ≡ (
          if refs == 0
          then (release i (unlist page i (count_at i refs s)), pages_free page 1 m)
          else (count_at i refs s, m))
  unfolding shared_drop
  shared_drop-at m =
      let refs = ((s.entries i).refs + 2 ^ 32 - 1) % 2 ^ 32 in
      elim (Bool-cases (refs == 0)) [
        | inl last ↦ rw (e, one_less, not_zero, last)
        | inr more ↦ rw (e, one_less, not_zero, more)
      ]

live-refs : (s : Shared) (i : ℕ) → live s i ≡ true → 0 < (s.entries i).refs
unfolding live
live-refs s i on = ground arith

-- The outcome of holding a page once more.
abbrev pub Holds : Shared → ℕ → Shared → Type 0
Holds s page t =
    (SharesNone s page × (t ≡ s))
    ⊎ ((i : ℕ) × (p : Held) × Shares s page i p
        × IsSound t
        × ((j : ℕ) → view t j ≡ instead i (some (record p { refs = p.refs + 1 })) (view s) j))

shared_hold_none : (s : Shared) (page : ℕ) → of_frame page s ≡ 0 → shared_hold page s ≡ s
unfolding shared_hold
shared_hold_none s page e = rw e

-- In a sound table whose counts are below the largest there is, holding a page that an entry has
-- adds one to the count of that entry, every other one is as it was, and the table stays sound. A
-- page that no entry has changes nothing.
pub shared_hold-Holds :
    (s : Shared) (page : ℕ)
    → IsSound s
    → ((i : ℕ) (p : Held) → view s i ≡ some p → p.refs + 1 < 2 ^ 32)
    → Holds s page (shared_hold page s)
shared_hold-Holds s page sound bound = elim (of_frame-cases s page sound) [
  | inl (e, absent) ↦ subst (Holds s page) (sym (shared_hold_none s page e)) (inl (absent, refl))
  | inr (i, e, on, at) ↦
      let there = view-live s i on in
      let p = held_of (s.entries i) in
      let lt : p.refs + 1 < 2 ^ 32 = bound i p there in
      let wraps : (p.refs + 1) % 2 ^ 32 ≡ p.refs + 1 = omega arith in
      subst (Holds s page) (sym (shared_hold-at s page i e ∙ ap (λ (c : ℕ). count_at i c s) wraps))
        (let st = count_at-Sound s i (p.refs + 1) on (ground arith) lt sound in
          inr (i, p, (there, ground arith), st.0, st.1))
]

-- The outcome of letting go of a page, in the table and in the allocator.
abbrev pub Dropped : Shared → Mem → ℕ → Shared × Mem → Type 0
Dropped s m page (t, n) =
    (SharesNone s page × (t ≡ s) × (n ≡ m))
    ⊎ ((i : ℕ) × (p : Held) × Shares s page i p
        × IsSound t
        × (if p.refs == 1
            then (n ≡ pages_free page 1 m) × ((j : ℕ) → view t j ≡ instead i none (view s) j)
            else (n ≡ m)
              × ((j : ℕ)
                  → view t j ≡ instead i (some (record p { refs = p.refs - 1 })) (view s) j)))

shared_drop_none :
    (s : Shared) (m : Mem) (page : ℕ) → of_frame page s ≡ 0 → shared_drop page (s, m) ≡ (s, m)
unfolding shared_drop
shared_drop_none s m page e = rw e

Dropped-last :
    (s : Shared) (m : Mem) (page i c : ℕ)
    → IsSound s
    → live s i ≡ true
    → is_at page (s.entries i) ≡ true
    → (s.entries i).refs ≡ 1
    → Dropped s m page (release i (unlist page i (count_at i c s)), pages_free page 1 m)
Dropped-last s m page i c sound on at one =
    let e = record (s.entries i) { refs = c } in
    let (still, left) =
      let_go-Sound s (count_at i c s) page i refl
        (count_at-HasTables i c s (keyed s) (live s) (unused s) sound.tables)
        (λ j. update_field (λ (x : Entry). x.start) s.entries i e j refl)
        (λ j. update_field (λ (x : Entry). x.frame) s.entries i e j refl)
        (λ j ne. ap held_of (update_other s.entries i e j ne)) sound.proper on at in
    inr (i, held_of (s.entries i), (view-live s i on, ground arith), still, rw one (refl, left))

Dropped-one :
    (s : Shared) (m : Mem) (page i : ℕ)
    → IsSound s
    → live s i ≡ true
    → is_at page (s.entries i) ≡ true
    → 1 < (s.entries i).refs
    → Dropped s m page (count_at i ((s.entries i).refs - 1) s, m)
Dropped-one s m page i sound on at more =
    let p = held_of (s.entries i) in
    let fits : p.refs < 2 ^ 32 = sound.proper.fits i p (view-live s i on) in
    let (still, left) = count_at-Sound s i (p.refs - 1) on (ground arith) (omega arith) sound in
    let others : (p.refs == 1) ≡ false = ground arith in
    inr (i, p, (view-live s i on, ground arith), still, rw others (refl, left))

-- In a sound table, letting go of a page that an entry has takes one off its count; with the last,
-- the entry is free and the page goes back to the allocator, once. Every other entry is as it was
-- and the table stays sound. A page that no entry has changes nothing.
pub shared_drop-Dropped :
    (s : Shared) (m : Mem) (page : ℕ) → IsSound s → Dropped s m page (shared_drop page (s, m))
shared_drop-Dropped s m page sound = elim (of_frame-cases s page sound) [
  | inl (e, absent) ↦
      subst (Dropped s m page) (sym (shared_drop_none s m page e)) (inl (absent, refl, refl))
  | inr (i, e, on, at) ↦
      let n = (s.entries i).refs in
      let fits : n < 2 ^ 32 = sound.proper.fits i (held_of (s.entries i)) (view-live s i on) in
      let some_held : 0 < n = live-refs s i on in
      let c = (n + 2 ^ 32 - 1) % 2 ^ 32 in
      let wraps : c ≡ n - 1 = omega arith in
      let last : Shared × Mem = (release i (unlist page i (count_at i c s)), pages_free page 1 m) in
      subst (Dropped s m page) (sym (shared_drop-at s page i e m)) (elim (Bool-cases (c == 0)) [
        | inl zero ↦
            if-true (Dropped s m page) (c == 0) last (count_at i c s, m) zero
              (Dropped-last s m page i c sound on at (ground (arith, wraps)))
        | inr more ↦
            if-false (Dropped s m page) (c == 0) last (count_at i c s, m) more
              (subst (λ (d : ℕ). Dropped s m page (count_at i d s, m)) (sym wraps)
                (Dropped-one s m page i sound on at (ground (arith, wraps))))
      ])
]
