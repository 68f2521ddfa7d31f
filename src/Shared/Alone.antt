-- ===== src/Shared/Alone.antt =====
-- `shared_take` of src/kernel/share.c: a page for oneself, where nobody else has it.
use bax_os_dev.Base.{
  none, some, ℕ, suc, ◌-◌, Bool, true, false, ◌==◌, if◌then◌else◌, ◌≡◌, refl, sym, ap, ◌∙◌, arith,
  Bool-cases, inl, inr, ◌⊎◌, subst, if-true, if-false,
}
use bax_os_dev.Shared.{Shared, of_frame}
use bax_os_dev.Shared.Calls.{unlist, release, shared_take}
use bax_os_dev.Shared.Held.{Held, held_of, IsProper, instead}
use bax_os_dev.Shared.Sound.{view, live, IsSound}
use bax_os_dev.Shared.LetGo.{let_go-Sound, view-live, view-some}
use bax_os_dev.Shared.Counts.{Shares, of_frame-cases}

module _ (s : Shared) (page i : ℕ) (e : of_frame page s ≡ suc i) where
  one_less : suc i - 1 ≡ i
  one_less = omega arith

  not_zero : (suc i == 0) ≡ false
  not_zero = ground arith

  shared_take-at :
      shared_take page s
      ≡ (if (s.entries i).refs == 1 then (true, release i (unlist page i s)) else (false, s))
  unfolding shared_take
  shared_take-at = elim (Bool-cases ((s.entries i).refs == 1)) [
    | inl one ↦ rw (e, one_less, not_zero, one)
    | inr more ↦ rw (e, one_less, not_zero, more)
  ]

shared_take_none : (s : Shared) (page : ℕ) → of_frame page s ≡ 0 → shared_take page s ≡ (false, s)
unfolding shared_take
shared_take_none s page e = rw e

-- Another entry that says it has the page of `i` is `i`.
alone :
    (s : Shared) (i j : ℕ) (q : Held)
    → IsProper (view s)
    → live s i ≡ true
    → view s j ≡ some q
    → q.frame ≡ (s.entries i).frame
    → ((s.entries i).refs == 1) ≡ false
    → (q.refs == 1) ≡ false
alone s i j q proper on there same more =
    let one =
      proper.one_frame j i q (held_of (s.entries i)) there (view-live s i on) (ground arith) in
    let eq : j ≡ i = ground arith in
    let (lj, e) = view-some s j q there in
    let refs : q.refs ≡ (s.entries i).refs =
      sym (ap (λ (h : Held). h.refs) e) ∙ ap (λ k. (s.entries k).refs) eq in
    rw refs more

-- The outcome of taking: nothing, or the only count there is.
abbrev pub Taken : Shared → ℕ → Bool × Shared → Type 0
Taken s page (took, t) =
    ((took ≡ false) × (t ≡ s) × ((i : ℕ) (p : Held) → Shares s page i p → (p.refs == 1) ≡ false))
    ⊎ ((took ≡ true)
        × ((i : ℕ) × (p : Held) × Shares s page i p
            × (p.refs ≡ 1)
            × IsSound t
            × ((j : ℕ) → view t j ≡ instead i none (view s) j)))

-- In a sound table, taking a page returns false and changes nothing where no entry has the page
-- with a count of 1; where one has, it returns true, that entry is free, every other one is as it
-- was, and the table stays sound.
pub shared_take-Takes : (s : Shared) (page : ℕ) → IsSound s → Taken s page (shared_take page s)
shared_take-Takes s page sound = elim (of_frame-cases s page sound) [
  | inl (e, absent) ↦
      subst (Taken s page) (sym (shared_take_none s page e))
        (inl (refl, refl, λ i p (there, at). absurd (ground (arith, absent i p there))))
  | inr (i, e, on, at) ↦
      let there = view-live s i on in
      let p = held_of (s.entries i) in
      let u = release i (unlist page i s) in
      subst (Taken s page) (sym (shared_take-at s page i e)) (elim (Bool-cases (p.refs == 1)) [
        | inl one ↦
            if-true (Taken s page) (p.refs == 1) (true, u) (false, s) one
              (let st =
                  let_go-Sound s s page i refl sound.tables (λ j. refl) (λ j. refl) (λ j ne. refl)
                    sound.proper on at in
                inr (refl, (i, p, (there, ground arith), ground arith, st.0, st.1)))
        | inr more ↦
            if-false (Taken s page) (p.refs == 1) (true, u) (false, s) more
              (inl
                (refl, refl, λ j q (tj, aj). alone s i j q sound.proper on tj (ground arith) more))
      ])
]
