-- ===== src/Shared/Release.antt =====
-- An entry of src/kernel/share.c that nobody holds any more: off its chains, and free.
use bax_os_dev.Base.{
  ℕ, suc, ◌<◌, Bool, true, false, not, ◌&&◌, ◌||◌, ◌==◌, ◌≡◌, refl, ap, ◌∙◌, arith, Bool-cases, inl,
  inr, if-both,
}
use bax_os_dev.Chains.Updates.{update_other, update_self}
use bax_os_dev.Shared.{
  Entry, Shared, frame_place, of_frame, cut_frame, put_frame, unlink_key, cut_key,
}
use bax_os_dev.Shared.Calls.{unlist, release}
use bax_os_dev.Shared.Tables.{keys_spared, free_spared, key_data}
use bax_os_dev.Shared.Steps.{
  unlink_key-arrives, unlink_key-other, put_frame-rest, cut_frame-IsFrameTable,
  unlink_key-IsKeyTable, unlink_key-IsFrameTable, unlink_key-IsFreeList, release-IsFreeList,
  release-IsKeyTable, release-IsFrameTable,
}
use bax_os_dev.Shared.Held.{held_of}
use bax_os_dev.Shared.Sound.{HasTables, HasTables-same}

abbrev pub minus : (ℕ → Bool) → ℕ → ℕ → Bool
minus on i j = on j && not (j == i)

module _ (s : Shared) (k f r : ℕ → Bool) (page i : ℕ) (e : of_frame page s ≡ suc i)
    (k_below : (j : ℕ) → k j ≡ true → j < s.room)
    (f_below : (j : ℕ) → f j ≡ true → j < s.room) where
  cut_frame-HasTables :
      HasTables s k f r → HasTables (cut_frame (frame_place page s) i s) k (minus f i) r
  cut_frame-HasTables h =
      let at = frame_place page s in
      let v = (s.entries i).next_frame in
      record {
        by_key =
            keys_spared s (put_frame at v s.entries) k k (λ j. refl)
              (λ j o. put_frame-rest (λ (x : Entry). x.next_key) at v s.entries j (λ x. refl))
              (λ j o. put_frame-rest (key_data s) at v s.entries j (λ x. refl)) h.by_key;
        by_frame = cut_frame-IsFrameTable s f f_below page i e h.by_frame;
        free =
            free_spared s (put_frame at v s.entries) r r (λ j. refl)
              (λ j o. put_frame-rest (λ (x : Entry). x.next_key) at v s.entries j (λ x. refl))
              h.free;
      }

  -- Off the chain of frames, and off the chain of keys where it has a page of a file.
  unlist-HasTables :
      ((s.entries i).start == 0) ≡ not (k i)
      → ((j : ℕ) → r j ≡ true → k j ≡ false)
      → HasTables s k f r
      → HasTables (unlist page i s) (minus k i) (minus f i) r
  unfolding unlist
  unlist-HasTables start apart h =
      let t = cut_frame (frame_place page s) i s in
      let c = cut_frame-HasTables h in
      elim (Bool-cases (k i)) [
        | inl on ↦
            let none : ((s.entries i).start == 0) ≡ false = start ∙ ap not on in
            rw none (record {
              by_key = unlink_key-IsKeyTable t k k_below i on c.by_key;
              by_frame = unlink_key-IsFrameTable t k k_below i on c.by_key (minus f i) c.by_frame;
              free = unlink_key-IsFreeList t k k_below i on c.by_key r apart c.free;
            })
        | inr off ↦
            let none : ((s.entries i).start == 0) ≡ true = start ∙ ap not off in
            rw none (HasTables-same (λ j. grind arith) (λ j. refl) (λ j. refl) c)
      ]

  pub release-HasTables :
      ((s.entries i).start == 0) ≡ not (k i)
      → ((j : ℕ) → r j ≡ true → k j ≡ false)
      → r i ≡ false
      → HasTables s k f r
      → HasTables (release i (unlist page i s)) (minus k i) (minus f i) (λ j. i == j || r j)
  release-HasTables start apart used h =
      let t = unlist page i s in
      let c = unlist-HasTables start apart h in
      record {
        by_key = release-IsKeyTable t (minus k i) i (ground arith) c.by_key;
        by_frame = release-IsFrameTable t (minus f i) i c.by_frame;
        free = release-IsFreeList t r i used c.free;
      }

  -- The other entries keep what they say of their pages, and `i` keeps none.
  module _ (start : ((s.entries i).start == 0) ≡ not (k i)) (h : HasTables s k f r) where
    unlist-other :
        (j : ℕ) → (j == i) ≡ false → held_of ((unlist page i s).entries j) ≡ held_of (s.entries j)
    unfolding unlist
    unlist-other j ne =
        let at = frame_place page s in
        let v = (s.entries i).next_frame in
        let t = cut_frame at i s in
        let c = cut_frame-HasTables h in
        let same = put_frame-rest held_of at v s.entries j (λ x. refl) in
        elim (Bool-cases (k i)) [
          | inl on ↦
              let none : ((s.entries i).start == 0) ≡ false = start ∙ ap not on in
              rw none (
                unlink_key-other t k k_below held_of i j
                  (unlink_key-arrives t k k_below i on c.by_key) ne (λ x w. refl)
                ∙ same)
          | inr off ↦
              let none : ((s.entries i).start == 0) ≡ true = start ∙ ap not off in rw none same
        ]

    pub release-other :
        (j : ℕ)
        → (j == i) ≡ false
        → held_of ((release i (unlist page i s)).entries j) ≡ held_of (s.entries j)
    unfolding release
    release-other j ne =
        let t = unlist page i s in
        let e = record (t.entries i) { refs = 0; next_key = t.free_head } in
        ap held_of (update_other t.entries i e j ne) ∙ unlist-other j ne

    pub release_self : ((release i (unlist page i s)).entries i).refs ≡ 0
    unfolding release
    release_self =
        let t = unlist page i s in
        let e = record (t.entries i) { refs = 0; next_key = t.free_head } in
        ap (λ (x : Entry). x.refs) (update_self t.entries i e)

cut_key-room : (i : ℕ) (s : Shared) → (cut_key i s).room ≡ s.room
unfolding cut_key
cut_key-room i s = if-both (λ (t : Shared). t.room ≡ s.room) _ _ s refl refl

pub release-room : (s : Shared) (page i : ℕ) → (release i (unlist page i s)).room ≡ s.room
unfolding release unlist unlink_key
release-room s page i =
    let t = cut_frame (frame_place page s) i s in
    if-both (λ (u : Shared). u.room ≡ s.room) ((s.entries i).start == 0) t (unlink_key i t) refl
      (cut_key-room i t)
