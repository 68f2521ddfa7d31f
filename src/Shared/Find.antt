-- ===== src/Shared/Find.antt =====
-- `shared_find` of src/kernel/share.c: the page of a file that somebody has already.
use bax_os_dev.Base.{
  some, ℕ, suc, ◌+◌, ◌-◌, ◌*◌, ◌%◌, ◌^◌, ◌<◌, Bool, true, false, ◌&&◌, ◌==◌, ◌≡◌, refl, sym, ap,
  ◌∙◌, arith, Bool-cases, inl, inr, ◌⊎◌, subst,
}
use bax_os_dev.Shared.{Shared, keys}
use bax_os_dev.Chains.{lookup}
use bax_os_dev.Shared.{page_bytes, key_hash}
use bax_os_dev.Shared.Calls.{shared_find}
use bax_os_dev.Shared.Held.{Held, held_of, instead}
use bax_os_dev.Shared.Sound.{view, live, keyed, IsSound, by_key-HasOr, keyed-below}
use bax_os_dev.Shared.LetGo.{view-live, view-some}
use bax_os_dev.Shared.Counts.{count_at, count_at-Sound}

-- The outcome of looking for a page of a file: nobody has it, or its entry has one more.
abbrev pub Found : Shared → ℕ → ℕ → ℕ × Shared → Type 0
Found s start index (page, t) =
    ((page ≡ 0)
      × (t ≡ s)
      × ((i : ℕ) (p : Held) → view s i ≡ some p → (p.start == start && p.index == index) ≡ false))
    ⊎ ((i : ℕ) × (p : Held) × (view s i ≡ some p)
        × (p.start ≡ start)
        × (p.index ≡ index)
        × (page ≡ p.frame * page_bytes)
        × IsSound t
        × ((j : ℕ) → view t j ≡ instead i (some (record p { refs = p.refs + 1 })) (view s) j))

module _ (s : Shared) (start index : ℕ) where
  hit : ℕ → Bool
  hit j = (s.entries j).start == start && (s.entries j).index == index

  arrival : ℕ
  arrival = lookup s.room hit (keys s) (s.by_key (key_hash s.room start index))

  shared_find-at :
      (i : ℕ)
      → (s.room == 0) ≡ false
      → arrival ≡ suc i
      → shared_find start index s
        ≡ ((s.entries i).frame * page_bytes, count_at i (((s.entries i).refs + 1) % 2 ^ 32) s)
  unfolding shared_find arrival hit
  shared_find-at i room e =
      let less : suc i - 1 ≡ i = omega arith in
      let some_at : (suc i == 0) ≡ false = ground arith in rw (shared_find, e, less, room, some_at)

  shared_find_none : arrival ≡ 0 → shared_find start index s ≡ (0, s)
  unfolding shared_find arrival hit
  shared_find_none e = elim (Bool-cases (s.room == 0)) [
    | inl empty ↦ rw (shared_find, e, empty)
    | inr some_room ↦ rw (shared_find, e, some_room)
  ]

-- In a sound table whose counts are below the largest there is, looking for a page of a file
-- returns 0 and changes nothing where no entry is that page; otherwise it returns where the page
-- is, and that entry has one count more, every other one is as it was, and the table stays sound.
pub shared_find-Found :
    (s : Shared) (start index : ℕ)
    → IsSound s
    → (start == 0) ≡ false
    → ((i : ℕ) (p : Held) → view s i ≡ some p → p.refs + 1 < 2 ^ 32)
    → Found s start index (shared_find start index s)
unfolding keyed arrival hit
shared_find-Found s start index sound file bound = elim (by_key-HasOr s start index sound) [
  | inl (e, absent) ↦ subst (Found s start index) (sym (shared_find_none s start index e)) (
      inl (
        refl,
        refl,
        λ i p there.
            let (on, same) = view-some s i p there in
            let a : (s.entries i).start ≡ p.start = ap (λ (h : Held). h.start) same in
            let b : (s.entries i).index ≡ p.index = ap (λ (h : Held). h.index) same in
            ground (arith, absent i),
      ))
  | inr (i, e, found) ↦
      let on : live s i ≡ true = ground arith in
      let there = view-live s i on in
      let p = held_of (s.entries i) in
      let lt : p.refs + 1 < 2 ^ 32 = bound i p there in
      let wraps : (p.refs + 1) % 2 ^ 32 ≡ p.refs + 1 = omega arith in
      let room : (s.room == 0) ≡ false = ground (arith, keyed-below s i) in
      let (still, left) = count_at-Sound s i (p.refs + 1) on (ground arith) lt sound in
      subst (Found s start index)
        (sym (
          shared_find-at s start index i room e
          ∙ ap (λ (c : ℕ). (p.frame * page_bytes, count_at i c s)) wraps))
        (inr (i, p, there, ground arith, ground arith, refl, still, left))
]
