-- ===== src/Shared/Unlinked.antt =====
-- An entry of src/kernel/share.c that is no page of a file any more.
use bax_os_dev.Base.{
  some, ℕ, true, false, ◌==◌, ◌≡◌, refl, ap, ◌∙◌, arith, Bool-cases, inl, inr, if-both,
}
use bax_os_dev.Chains.Updates.{update_self}
use bax_os_dev.Shared.{Entry, Shared}
use bax_os_dev.Shared.{unlink_key, cut_key}
use bax_os_dev.Shared.Steps.{
  unlink_key-arrives, unlink_key-other, unlink_key-rest, unlink_key-IsKeyTable,
  unlink_key-IsFrameTable, unlink_key-IsFreeList,
}
use bax_os_dev.Shared.Held.{Held, held_of, instead, Suits, IsProper-same, IsProper-put}
use bax_os_dev.Shared.Sound.{
  view, live, keyed, unused, HasTables, HasTables-same, IsSound, keyed-below,
}
use bax_os_dev.Shared.Release.{minus}
use bax_os_dev.Shared.LetGo.{view-live, unused-keyed}

module _ (s : Shared) (i : ℕ) (sound : IsSound s) (on : keyed s i ≡ true) where
  unlinked_tables : HasTables (unlink_key i s) (minus (keyed s) i) (live s) (unused s)
  unlinked_tables =
      let h = sound.tables in
      let below = keyed-below s in
      record {
        by_key = unlink_key-IsKeyTable s (keyed s) below i on h.by_key;
        by_frame = unlink_key-IsFrameTable s (keyed s) below i on h.by_key (live s) h.by_frame;
        free =
            unlink_key-IsFreeList s (keyed s) below i on h.by_key (unused s) (unused-keyed s)
              h.free;
      }

  module _ {ℓ} {A : Type ℓ} (f : Entry → A) where
    unlinked_rest :
        (j : ℕ)
        → ((e : Entry) (v w : ℕ) → f (record e { start = v; next_key = w }) ≡ f e)
        → f ((unlink_key i s).entries j) ≡ f (s.entries j)
    unlinked_rest j =
        unlink_key-rest s (keyed s) (keyed-below s) f i j
          (unlink_key-arrives s (keyed s) (keyed-below s) i on sound.tables.by_key)

    unlinked_other :
        (j : ℕ)
        → (j == i) ≡ false
        → ((e : Entry) (w : ℕ) → f (record e { next_key = w }) ≡ f e)
        → f ((unlink_key i s).entries j) ≡ f (s.entries j)
    unlinked_other j =
        unlink_key-other s (keyed s) (keyed-below s) f i j
          (unlink_key-arrives s (keyed s) (keyed-below s) i on sound.tables.by_key)

  unlinked_start : ((unlink_key i s).entries i).start ≡ 0
  unfolding unlink_key
  unlinked_start =
      ap (λ (x : Entry). x.start)
        (update_self ((cut_key i s).entries) i (record ((cut_key i s).entries i) { start = 0 }))

pub unlink_key-room : (i : ℕ) (s : Shared) → (unlink_key i s).room ≡ s.room
unfolding unlink_key cut_key
unlink_key-room i s = if-both (λ (t : Shared). t.room ≡ s.room) _ _ s refl refl

abbrev pub nameless : Held → Held
nameless p = record p { start = 0 }

module _ (s : Shared) (i : ℕ) (sound : IsSound s) (on : keyed s i ≡ true) where
  unlinked_live : (j : ℕ) → live (unlink_key i s) j ≡ live s j
  unfolding live
  unlinked_live j =
      rw (unlink_key-room i s, unlinked_rest s i sound on (λ (x : Entry). x.refs) j (λ x v w. refl))

  unlinked_unused : (j : ℕ) → unused (unlink_key i s) j ≡ unused s j
  unfolding unused
  unlinked_unused j =
      rw (unlink_key-room i s, unlinked_rest s i sound on (λ (x : Entry). x.refs) j (λ x v w. refl))

  unlinked_keyed : (j : ℕ) → keyed (unlink_key i s) j ≡ minus (keyed s) i j
  unfolding keyed
  unlinked_keyed j = elim (Bool-cases (j == i)) [
    | inl same ↦
        let at : j ≡ i = ground arith in rw at (ground (arith, unlinked_start s i sound on))
    | inr ne ↦
        rw
          (unlinked_live j, unlinked_other s i sound on (λ (x : Entry). x.start) j ne (λ x w. refl))
          (ground arith)
  ]

  keyed-live : live s i ≡ true
  unfolding keyed
  keyed-live = ground arith

  unlinked_held : held_of ((unlink_key i s).entries i) ≡ nameless (held_of (s.entries i))
  unlinked_held =
      let rest : nameless (held_of ((unlink_key i s).entries i))
          ≡ nameless (held_of (s.entries i)) =
        unlinked_rest s i sound on (λ (x : Entry). nameless (held_of x)) i (λ x v w. refl) in
      ap (λ (n : ℕ). record (held_of ((unlink_key i s).entries i)) { start = n })
        (unlinked_start s i sound on)
      ∙ rest

  pub unlinked_view :
      (j : ℕ)
      → view (unlink_key i s) j ≡ instead i (some (nameless (held_of (s.entries i)))) (view s) j
  unfolding view
  unlinked_view j = elim (Bool-cases (j == i)) [
    | inl same ↦
        let at : j ≡ i = ground arith in rw (same, at, unlinked_live i, keyed-live, unlinked_held)
    | inr ne ↦ rw (ne, unlinked_live j, unlinked_other s i sound on held_of j ne (λ x w. refl))
  ]

  pub unlinked-Sound : IsSound (unlink_key i s)
  unlinked-Sound =
      let p = held_of (s.entries i) in
      let there = view-live s i keyed-live in
      let proper = sound.proper in
      let suits : Suits (view s) i (nameless p) = record {
        new_key = λ j q e same. absurd (ground arith);
        new_frame = λ j q. proper.one_frame i j p q there;
        counted = proper.fits i p there;
      } in
      record {
        tables =
            HasTables-same unlinked_keyed unlinked_live unlinked_unused
              (unlinked_tables s i sound on);
        proper =
            IsProper-same (instead i (some (nameless p)) (view s)) (view (unlink_key i s))
              unlinked_view (IsProper-put (view s) i (nameless p) suits proper);
      }
