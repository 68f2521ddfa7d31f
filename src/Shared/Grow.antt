-- ===== src/Shared/Grow.antt =====
-- `grow` of src/kernel/share.c: twice the room, and every chain built again.
use bax_os_dev.Base.{
  some, ◌≤◌, ℕ, ◌*◌, ◌^◌, ◌<◌, Bool, true, false, not, ◌&&◌, ◌||◌, ltb, ◌==◌, if◌then◌else◌, ◌≡◌,
  refl, sym, ap, ◌∙◌, arith, Bool-cases, inl, inr, subst,
}
use mathlib.Core.Option.{some-injective}
use bax_os_dev.Shared.{no_entry, Shared}
use bax_os_dev.Chains.Tables.{IsListed-some}
use bax_os_dev.Shared.Calls.{place_below, grow, bigger_room}
use bax_os_dev.Shared.Held.{Held, IsProper, IsProper-same}
use bax_os_dev.Shared.Sound.{view, live, keyed, unused, HasTables-same, IsSound}
use bax_os_dev.Shared.Placed.{from, IsPlaced, place_below-IsPlaced, starts_empty}

-- The larger arrays, before the loop.
abbrev pub roomier : Shared → Shared
roomier s = record s {
  entries = λ i. if ltb i s.room then s.entries i else no_entry;
  by_key = λ h. 0;
  by_frame = λ h. 0;
  room = bigger_room s.room;
  free_head = 0;
}

grow-some :
    (memory : ℕ → Bool) (s t : Shared)
    → grow memory s ≡ some t
    → t ≡ place_below (bigger_room s.room) (roomier s)
unfolding grow
grow-some memory s t e =
    let n = bigger_room s.room in
    elim (Bool-cases (not (memory (n * 24)) || not (memory (n * 4)))) [
      | inl refused ↦ absurd (grind arith)
      | inr granted ↦ some-injective t (place_below n (roomier s)) (sym e ∙ rw granted)
    ]

roomier-view : (s : Shared) → s.room ≤ bigger_room s.room → (j : ℕ) → view (roomier s) j ≡ view s j
unfolding view live
roomier-view s le j = elim (Bool-cases (ltb j s.room)) [
  | inl inside ↦
      let bigger : ltb j (bigger_room s.room) ≡ true = ground arith in rw (inside, bigger)
  | inr out ↦
      let free : (ltb j (bigger_room s.room) && false) ≡ false = ground arith in rw (out, free)
]

roomier-unused : (s : Shared) → s.room < bigger_room s.room → unused (roomier s) s.room ≡ true
unfolding unused
roomier-unused s lt =
    let out : ltb s.room s.room ≡ false = ground arith in
    let bigger : ltb s.room (bigger_room s.room) ≡ true = ground arith in rw (out, bigger)

module _ (s t : Shared) (n : ℕ) (p : IsPlaced s n t) where
  placed-live : (j : ℕ) → live t j ≡ live s j
  unfolding live
  placed-live j = rw (p.room, ap (λ (h : Held). h.refs) (p.same j))

  placed-keyed : (j : ℕ) → keyed t j ≡ keyed s j
  unfolding keyed
  placed-keyed j = rw (placed-live j, ap (λ (h : Held). h.start) (p.same j))

  placed-unused : (j : ℕ) → unused t j ≡ unused s j
  unfolding unused
  placed-unused j = rw (p.room, ap (λ (h : Held). h.refs) (p.same j))

  placed-view : (j : ℕ) → view t j ≡ view s j
  unfolding view
  placed-view j = rw (placed-live j, p.same j)

from_all : (on : ℕ → Bool) (j : ℕ) → from 0 on j ≡ on j
from_all on j = ground arith

placed-Sound : (s t : Shared) → IsPlaced s 0 t → IsProper (view s) → IsSound t
placed-Sound s t p proper = record {
  tables =
      HasTables-same (λ j. placed-keyed s t 0 p j ∙ sym (from_all (keyed s) j))
        (λ j. placed-live s t 0 p j ∙ sym (from_all (live s) j))
        (λ j. placed-unused s t 0 p j ∙ sym (from_all (unused s) j)) p.tables;
  proper = IsProper-same (view s) (view t) (placed-view s t 0 p) proper;
}

-- Where the room can double in 32 bits, a sound table that has grown is sound, says the same of
-- every entry, and has a free entry.
pub grow-Sound :
    (memory : ℕ → Bool) (s t : Shared)
    → s.room < 2 ^ 31
    → IsSound s
    → grow memory s ≡ some t
    → IsSound t × ((j : ℕ) → view t j ≡ view s j) × ((t.free_head == 0) ≡ false)
unfolding bigger_room
grow-Sound memory s t lt sound e =
    let r = roomier s in
    let bound : s.room < r.room = ground arith in
    let p : IsPlaced r 0 t = subst (IsPlaced r 0) (sym (grow-some memory s t e)) (
      place_below-IsPlaced r r.room r (omega arith)
        (starts_empty r (λ h. refl) (λ h. refl) refl)) in
    let rv = roomier-view s (omega arith) in
    let still = placed-Sound r t p (IsProper-same (view s) (view r) rv sound.proper) in
    let free : unused t s.room ≡ true = placed-unused r t 0 p s.room ∙ roomier-unused s bound in
    (still, (λ j. placed-view r t 0 p j ∙ rv j), IsListed-some s.room free still.tables.free)
