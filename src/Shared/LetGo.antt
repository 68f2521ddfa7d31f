-- ===== src/Shared/LetGo.antt =====
-- What the table of src/kernel/share.c says once the last has let go of a page.
use bax_os_dev.Base.{
  none, some, ℕ, suc, ◌<◌, true, false, not, ◌||◌, ◌==◌, ◌≡◌, sym, ap, ◌∙◌, arith, Bool-cases, inl,
  inr,
}
use mathlib.Core.Option.{some-injective}
use bax_os_dev.Shared.{Shared, of_frame}
use bax_os_dev.Shared.Tables.{IsFrameTable}
use bax_os_dev.Shared.Calls.{unlist, release}
use bax_os_dev.Shared.Held.{Held, held_of, IsProper, IsProper-instead, IsProper-same, instead}
use bax_os_dev.Shared.Sound.{
  view, live, keyed, unused, is_at, HasTables, HasTables-same, IsSound, of_frame-HasOr, live-below,
  keyed-below,
}
use bax_os_dev.Shared.Release.{minus, release-HasTables, release-other, release_self, release-room}

module _ (s u : Shared) (i : ℕ) (room : u.room ≡ s.room)
    (others : (j : ℕ) → (j == i) ≡ false → held_of (u.entries j) ≡ held_of (s.entries j))
    (gone : (u.entries i).refs ≡ 0) where
  live-let_go : (j : ℕ) → live u j ≡ minus (live s) i j
  unfolding live
  live-let_go j = elim (Bool-cases (j == i)) [
    | inl same ↦ let at : j ≡ i = ground arith in rw at (ground (arith, gone))
    | inr ne ↦ ground (arith, room, ap (λ (x : Held). x.refs) (others j ne))
  ]

  keyed-let_go : (j : ℕ) → keyed u j ≡ minus (keyed s) i j
  unfolding keyed
  keyed-let_go j = elim (Bool-cases (j == i)) [
    | inl same ↦ ground (arith, live-let_go j)
    | inr ne ↦ ground (arith, live-let_go j, ap (λ (x : Held). x.start) (others j ne))
  ]

  unused-let_go : i < s.room → (j : ℕ) → unused u j ≡ (i == j || unused s j)
  unfolding unused
  unused-let_go lt j = elim (Bool-cases (j == i)) [
    | inl same ↦ let at : j ≡ i = ground arith in rw at (ground (arith, gone, room))
    | inr ne ↦ ground (arith, room, ap (λ (x : Held). x.refs) (others j ne))
  ]

  pub view-let_go : (j : ℕ) → view u j ≡ instead i none (view s) j
  unfolding view
  view-let_go j = elim (Bool-cases (j == i)) [
    | inl same ↦ ground (arith, live-let_go j)
    | inr ne ↦ rw (ne, live-let_go j, others j ne) (ground arith)
  ]

  pub IsSound-let_go :
      i < s.room
      → HasTables u (minus (keyed s) i) (minus (live s) i) (λ j. i == j || unused s j)
      → IsProper (view s)
      → IsSound u
  IsSound-let_go lt h proper = record {
    tables = HasTables-same keyed-let_go live-let_go (unused-let_go lt) h;
    proper =
        IsProper-same (instead i none (view s)) (view u) view-let_go
          (IsProper-instead (view s) i none (λ p e. absurd (cc)) proper);
  }

keyed-start : (s : Shared) (i : ℕ) → live s i ≡ true → ((s.entries i).start == 0) ≡ not (keyed s i)
unfolding keyed
keyed-start s i on = ground arith

pub unused-keyed : (s : Shared) (j : ℕ) → unused s j ≡ true → keyed s j ≡ false
unfolding unused keyed live
unused-keyed s j o = ground arith

live-unused : (s : Shared) (j : ℕ) → live s j ≡ true → unused s j ≡ false
unfolding unused live
live-unused s j o = ground arith

pub view-live : (s : Shared) (i : ℕ) → live s i ≡ true → view s i ≡ some (held_of (s.entries i))
unfolding view
view-live s i on = rw on

-- What the table says of an entry, the entry says.
pub view-some :
    (s : Shared) (i : ℕ) (p : Held)
    → view s i ≡ some p
    → (live s i ≡ true) × (held_of (s.entries i) ≡ p)
unfolding view
view-some s i p e = elim (Bool-cases (live s i)) [
  | inl on ↦ (on, some-injective (held_of (s.entries i)) p (sym (view-live s i on) ∙ e))
  | inr off ↦ absurd (grind arith)
]

of_frame-one :
    (s t : Shared) (page i : ℕ)
    → t.room ≡ s.room
    → IsFrameTable t (live s)
    → ((j : ℕ) → (t.entries j).frame ≡ (s.entries j).frame)
    → IsProper (view s)
    → live s i ≡ true
    → is_at page (s.entries i) ≡ true
    → of_frame page t ≡ suc i
of_frame-one s t page i room f same proper on at =
    elim (of_frame-HasOr t (live s) (λ j o. omega (arith, room, live-below s j o)) f page) [
      | inl (e, absent) ↦ absurd (ground (arith, absent i, same i))
      | inr (j, e, found) ↦
          let lj : live s j ≡ true = ground arith in
          let one =
            proper.one_frame j i (held_of (s.entries j)) (held_of (s.entries i)) (view-live s j lj)
              (view-live s i on) (ground (arith, same j)) in
          let eq : j ≡ i = ground arith in e ∙ ap suc eq
    ]

-- Letting go of the last: `t` is the table with the count of `i` as the call has it by then.
module _ (s t : Shared) (page i : ℕ) (room : t.room ≡ s.room)
    (tables : HasTables t (keyed s) (live s) (unused s))
    (starts : (j : ℕ) → (t.entries j).start ≡ (s.entries j).start)
    (frames : (j : ℕ) → (t.entries j).frame ≡ (s.entries j).frame)
    (others : (j : ℕ) → (j == i) ≡ false → held_of (t.entries j) ≡ held_of (s.entries j))
    (proper : IsProper (view s)) (on : live s i ≡ true) (at : is_at page (s.entries i) ≡ true) where
  pub let_go-Sound :
      let u = release i (unlist page i t) in
      IsSound u × ((j : ℕ) → view u j ≡ instead i none (view s) j)
  let_go-Sound =
      let e = of_frame-one s t page i room tables.by_frame frames proper on at in
      let kb : (j : ℕ) → keyed s j ≡ true → j < t.room =
        λ j o. omega (arith, room, keyed-below s j o) in
      let fb : (j : ℕ) → live s j ≡ true → j < t.room =
        λ j o. omega (arith, room, live-below s j o) in
      let start : ((t.entries i).start == 0) ≡ not (keyed s i) =
        ap (λ (x : ℕ). x == 0) (starts i) ∙ keyed-start s i on in
      let apart : (j : ℕ) → unused s j ≡ true → keyed s j ≡ false = unused-keyed s in
      let u = release i (unlist page i t) in
      let same : (j : ℕ) → (j == i) ≡ false → held_of (u.entries j) ≡ held_of (s.entries j) =
        λ j ne.
          release-other t (keyed s) (live s) (unused s) page i e kb fb start tables j ne
          ∙ others j ne in
      let gone = release_self t (keyed s) (live s) (unused s) page i e kb fb start tables in
      let h =
        release-HasTables t (keyed s) (live s) (unused s) page i e kb fb start apart
          (live-unused s i on) tables in
      let r = release-room t page i ∙ room in
      (IsSound-let_go s u i r same gone (live-below s i on) h proper, view-let_go s u i r same gone)
