-- ===== src/Shared/Add.antt =====
-- `shared_add` and `shared_adopt` of src/kernel/share.c: a page that one has, and others may find.
use bax_os_dev.Base.{
  Option, none, some, Option-cases, ℕ, ◌-◌, ◌^◌, ◌<◌, Bool, true, false, ◌==◌, if◌then◌else◌, ◌≡◌,
  refl, sym, ap, ◌∙◌, arith, Bool-cases, inl, inr, ◌⊎◌, subst,
}
use bax_os_dev.Shared.{Shared, link_key, link_frame}
use bax_os_dev.Shared.Calls.{fill, grow, some_free, shared_add, shared_adopt, one_used}
use bax_os_dev.Shared.Held.{Held}
use bax_os_dev.Shared.Sound.{view, IsSound}
use bax_os_dev.Shared.Grow.{grow-Sound}
use bax_os_dev.Shared.Gains.{IsNew, new_page, Gains, add-Gains, adopt-Gains}

-- There is no room and no memory for more of it, or there is an entry, in a table that says the same.
abbrev pub HasRoom : (ℕ → Bool) → Shared → Type 0
HasRoom memory s =
    ((some_free memory s ≡ none) × (s.free_head ≡ 0) × (grow memory s ≡ none))
    ⊎ ((t : Shared) × (some_free memory s ≡ some t)
        × IsSound t
        × ((j : ℕ) → view t j ≡ view s j)
        × ((t.free_head == 0) ≡ false))

some_free-HasRoom :
    (memory : ℕ → Bool) (s : Shared) → s.room < 2 ^ 31 → IsSound s → HasRoom memory s
unfolding some_free
some_free-HasRoom memory s lt sound = elim (Bool-cases (s.free_head == 0)) [
  | inr left ↦ inr (s, rw left, sound, (λ j. refl), left)
  | inl none_left ↦ elim (Option-cases (grow memory s)) [
    | inl refused ↦ inl (rw none_left refused, ground arith, refused)
    | inr (t, grown) ↦
        let (still, same, free) = grow-Sound memory s t lt sound grown in
        inr (t, rw none_left grown, still, same, free)
  ]
]

-- The outcome of adding a page: there is no memory for it, or a free entry has become the page.
abbrev pub Added : (ℕ → Bool) → Shared → Held → Bool × Shared → Type 0
Added memory s e (ok, t) =
    ((ok ≡ false) × (t ≡ s) × (s.free_head ≡ 0) × (grow memory s ≡ none))
    ⊎ ((ok ≡ true) × Gains s e t)

Gains-grown :
    (s t u : Shared) (e : Held) → ((j : ℕ) → view t j ≡ view s j) → Gains t e u → Gains s e u
Gains-grown s t u e same (still, (i, free, left)) = (
  still,
  (
    i,
    sym (same i) ∙ free,
    λ j. left j ∙ ap (λ (o : Option Held). if j == i then some e else o) (same j),
  ),
)

IsNew-grown : (s t : Shared) (e : Held) → ((j : ℕ) → view t j ≡ view s j) → IsNew s e → IsNew t e
IsNew-grown s t e same new j q there = new j q (sym (same j) ∙ there)

module _ (memory : ℕ → Bool) (s t : Shared) (e : some_free memory s ≡ some t) where
  shared_add_some :
      (start index page : ℕ)
      → shared_add memory start index page s ≡ (
        true,
        one_used
            (link_frame (t.free_head - 1) (link_key (t.free_head - 1) (fill start index page t))),
      )
  unfolding shared_add
  shared_add_some start index page = rw (shared_add, e)

  shared_adopt_some :
      (page : ℕ)
      → shared_adopt memory page s
        ≡ (true, one_used (link_frame (t.free_head - 1) (fill 0 0 page t)))
  unfolding shared_adopt
  shared_adopt_some page = rw (shared_adopt, e)

module _ (memory : ℕ → Bool) (s : Shared) (e : some_free memory s ≡ none) where
  shared_add_none : (start index page : ℕ) → shared_add memory start index page s ≡ (false, s)
  unfolding shared_add
  shared_add_none start index page = rw (shared_add, e)

  shared_adopt_none : (page : ℕ) → shared_adopt memory page s ≡ (false, s)
  unfolding shared_adopt
  shared_adopt_none page = rw (shared_adopt, e)

pub shared_add-Added :
    (memory : ℕ → Bool) (start index page : ℕ) (s : Shared)
    → s.room < 2 ^ 31
    → (start == 0) ≡ false
    → IsSound s
    → IsNew s (new_page start index page)
    → Added memory s (new_page start index page) (shared_add memory start index page s)
shared_add-Added memory start index page s lt file sound new =
    let e = new_page start index page in
    elim (some_free-HasRoom memory s lt sound) [
      | inl (none_free, empty, refused) ↦
          subst (Added memory s e) (sym (shared_add_none memory s none_free start index page))
            (inl (refl, refl, empty, refused))
      | inr (t, free, still, same, free_left) ↦
          subst (Added memory s e) (sym (shared_add_some memory s t free start index page)) (
            inr (
              refl,
              Gains-grown s t _ e same
                  (add-Gains start index page t free_left still (IsNew-grown s t e same new) file),
            ))
    ]

-- In a sound table whose room can double in 32 bits, adopting a page of memory that is in no entry
-- returns false and changes nothing only where there is no free entry and no memory for more;
-- otherwise an entry that was free has the page, as no page of a file, with a count of 1, every
-- other one is as it was, and the table is sound.
pub shared_adopt-Added :
    (memory : ℕ → Bool) (page : ℕ) (s : Shared)
    → s.room < 2 ^ 31
    → IsSound s
    → IsNew s (new_page 0 0 page)
    → Added memory s (new_page 0 0 page) (shared_adopt memory page s)
shared_adopt-Added memory page s lt sound new =
    let e = new_page 0 0 page in
    elim (some_free-HasRoom memory s lt sound) [
      | inl (none_free, empty, refused) ↦
          subst (Added memory s e) (sym (shared_adopt_none memory s none_free page))
            (inl (refl, refl, empty, refused))
      | inr (t, free, still, same, free_left) ↦
          subst (Added memory s e) (sym (shared_adopt_some memory s t free page)) (
            inr (
              refl,
              Gains-grown s t _ e same
                  (adopt-Gains 0 0 page t free_left still (IsNew-grown s t e same new) refl),
            ))
    ]
