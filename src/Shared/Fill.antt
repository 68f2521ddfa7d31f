-- ===== src/Shared/Fill.antt =====
-- A free entry of src/kernel/share.c filled in and put on its chains.
use bax_os_dev.Base.{
  some, ℕ, suc, ◌-◌, Bool, true, false, not, ◌&&◌, ◌||◌, ◌==◌, ◌≡◌, refl, sym, ap, ◌∙◌, arith,
  Bool-cases, inl, inr,
}
use bax_os_dev.Chains.Updates.{update_other, ne_of_tests}
use bax_os_dev.Chains.{update}
use bax_os_dev.Shared.{Entry, no_entry, Shared, frame_number}
use bax_os_dev.Chains.Tables.{IsListed-pop, IsListed-same}
use bax_os_dev.Shared.Tables.{keys_spared, frames_spared, key_data}
use bax_os_dev.Shared.Calls.{fill}
use bax_os_dev.Shared.Held.{Held, held_of, instead, Suits, IsProper, IsProper-same, IsProper-put}
use bax_os_dev.Shared.Sound.{view, live, keyed, unused, HasTables, HasTables-same, IsSound}
use bax_os_dev.Shared.Release.{minus}
use bax_os_dev.Shared.Link.{plus}

module _ (start index page : ℕ) (s : Shared) (some_free : (s.free_head == 0) ≡ false) where
  -- The entry that is spare, and what is put in it.
  abbrev pub spare : ℕ
  spare = s.free_head - 1

  abbrev pub filled : Entry
  filled = record no_entry { start = start; index = index; frame = frame_number page; refs = 1 }

  pub head-spare : s.free_head ≡ suc spare
  head-spare = ground arith

  pub fill-HasTables :
      (k f r : ℕ → Bool)
      → HasTables s k f r
      → ((j : ℕ) → r j ≡ true → (k j ≡ false) × (f j ≡ false))
      → HasTables (fill start index page s) k f (minus r spare)
  unfolding fill
  fill-HasTables k f r h apart =
      let i = spare in
      let es = update s.entries i filled in
      let (on, rest) = IsListed-pop i head-spare h.free in
      let (k_off, f_off) = apart i on in
      let other : (on : ℕ → Bool) → on i ≡ false → (j : ℕ) → on j ≡ true → es j ≡ s.entries j =
        λ on off j o. update_other s.entries i filled j (ne_of_tests on i j off o) in
      record {
        by_key =
            keys_spared s es k k (λ j. refl)
              (λ j o. ap (λ (x : Entry). x.next_key) (other k k_off j o))
              (λ j o. ap (key_data s) (other k k_off j o)) h.by_key;
        by_frame =
            frames_spared s es f f (λ j. refl)
              (λ j o. ap (λ (x : Entry). x.next_frame) (other f f_off j o))
              (λ j o. ap (λ (x : Entry). x.frame) (other f f_off j o)) h.by_frame;
        free =
            IsListed-same
              (λ j o. ap (λ (x : Entry). x.next_key) (other (minus r i) (ground arith) j o))
              (λ j. refl) rest;
      }

-- What a table says where a free entry is filled in and the others are as they were.
module _ (s t : Shared) (i : ℕ) (e : Held) (refs : e.refs ≡ 1) (room : t.room ≡ s.room)
    (at : held_of (t.entries i) ≡ e)
    (others : (j : ℕ) → (j == i) ≡ false → held_of (t.entries j) ≡ held_of (s.entries j))
    (was : unused s i ≡ true) where
  filled-live : (j : ℕ) → live t j ≡ plus (live s) i j
  unfolding live unused
  filled-live j = elim (Bool-cases (j == i)) [
    | inl same ↦
        let eq : j ≡ i = ground arith in rw eq (ground (arith, ap (λ (h : Held). h.refs) at, room))
    | inr ne ↦ ground (arith, ap (λ (h : Held). h.refs) (others j ne), room)
  ]

  filled-keyed : (j : ℕ) → keyed t j ≡ ((i == j && not (e.start == 0)) || keyed s j)
  unfolding keyed live unused
  filled-keyed j = elim (Bool-cases (j == i)) [
    | inl same ↦
        let eq : j ≡ i = ground arith in
        rw eq (ground (arith, ap (λ (h : Held). h.refs) at, ap (λ (h : Held). h.start) at, room))
    | inr ne ↦ ground (
      arith,
      ap (λ (h : Held). h.refs) (others j ne),
      ap (λ (h : Held). h.start) (others j ne),
      room,
    )
  ]

  filled-unused : (j : ℕ) → unused t j ≡ minus (unused s) i j
  unfolding unused
  filled-unused j = elim (Bool-cases (j == i)) [
    | inl same ↦
        let eq : j ≡ i = ground arith in rw eq (ground (arith, ap (λ (h : Held). h.refs) at, room))
    | inr ne ↦ ground (arith, ap (λ (h : Held). h.refs) (others j ne), room)
  ]

  filled-view : (j : ℕ) → view t j ≡ instead i (some e) (view s) j
  unfolding view
  filled-view j = elim (Bool-cases (j == i)) [
    | inl same ↦
        let eq : j ≡ i = ground arith in
        let on : plus (live s) i i ≡ true = ground arith in rw (same, eq, filled-live i, on, at)
    | inr ne ↦
        let on : plus (live s) i j ≡ live s j = ground arith in
        rw (ne, filled-live j, on, others j ne)
  ]

  pub filled-Sound :
      (k f : ℕ → Bool)
      → HasTables t k f (minus (unused s) i)
      → ((j : ℕ) → k j ≡ ((i == j && not (e.start == 0)) || keyed s j))
      → ((j : ℕ) → f j ≡ plus (live s) i j)
      → Suits (view s) i e
      → IsProper (view s)
      → IsSound t × ((j : ℕ) → view t j ≡ instead i (some e) (view s) j)
  filled-Sound k f h ek ef suits proper = (
    record {
      tables =
          HasTables-same (λ j. filled-keyed j ∙ sym (ek j)) (λ j. filled-live j ∙ sym (ef j))
            filled-unused h;
      proper =
          IsProper-same (instead i (some e) (view s)) (view t) filled-view
            (IsProper-put (view s) i e suits proper);
    },
    filled-view,
  )
