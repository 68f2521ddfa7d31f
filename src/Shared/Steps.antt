-- ===== src/Shared/Steps.antt =====
-- Entries of src/kernel/share.c taken off their chains, and put among the free.
use bax_os_dev.Base.{
  ℕ, suc, ◌<◌, Bool, true, false, not, ◌&&◌, ◌||◌, ◌==◌, ◌≡◌, refl, ap, ◌∙◌, arith, Bool-cases, inl,
  inr,
}
use bax_os_dev.Chains.Updates.{update_field, update_other, update_self, ne_of_tests}
use bax_os_dev.Chains.{Place, head, after, value, update, put_head, put_next}
use bax_os_dev.Chains.Tables.{IsListed-link, IsTable-same}
use bax_os_dev.Chains.Removal.{IsTable-unlink}
use bax_os_dev.Shared.{
  Entry, Shared, frame_hash, keys, frames, key_of, frame_of, put_key, put_frame, key_place, cut_key,
  unlink_key, frame_number, frame_place, of_frame, cut_frame,
}
use bax_os_dev.Shared.Calls.{release}
use bax_os_dev.Shared.Tables.{
  IsKeyTable, IsFrameTable, IsFreeList, keys_spared, frames_spared, free_spared, key_data, with_key,
  with_frame,
}
use bax_os_dev.Chains.Tables.{IsTable-seek}
use bax_os_dev.Chains.Removal.{put_next_off}

-- Writing a link at a place writes that link, and nothing else of an entry.
pub put_key-next :
    (p : Place) (v : ℕ) (es : ℕ → Entry) (j : ℕ)
    → (put_key p v es j).next_key ≡ put_next p v (λ i. (es i).next_key) j
unfolding put_key put_next
put_key-next (head h) v es j = refl
put_key-next (after i) v es j = elim (Bool-cases (j == i)) [ inl same ↦ rw same | inr ne ↦ rw ne ]

pub put_key-rest {ℓ} :
    {A : Type ℓ} (f : Entry → A) (p : Place) (v : ℕ) (es : ℕ → Entry) (j : ℕ)
    → ((e : Entry) → f (with_key e v) ≡ f e)
    → f (put_key p v es j) ≡ f (es j)
unfolding put_key
put_key-rest f (head h) v es j same = refl
put_key-rest f (after i) v es j same = update_field f es i (with_key (es i) v) j (same (es i))

pub put_frame-next :
    (p : Place) (v : ℕ) (es : ℕ → Entry) (j : ℕ)
    → (put_frame p v es j).next_frame ≡ put_next p v (λ i. (es i).next_frame) j
unfolding put_frame put_next
put_frame-next (head h) v es j = refl
put_frame-next (after i) v es j = elim (Bool-cases (j == i)) [ inl same ↦ rw same | inr ne ↦ rw ne ]

pub put_frame-rest {ℓ} :
    {A : Type ℓ} (f : Entry → A) (p : Place) (v : ℕ) (es : ℕ → Entry) (j : ℕ)
    → ((e : Entry) → f (with_frame e v) ≡ f e)
    → f (put_frame p v es j) ≡ f (es j)
unfolding put_frame
put_frame-rest f (head h) v es j same = refl
put_frame-rest f (after i) v es j same = update_field f es i (with_frame (es i) v) j (same (es i))

module _ (s : Shared) (on : ℕ → Bool) (below : (j : ℕ) → on j ≡ true → j < s.room) where
  pub cut_frame-IsFrameTable :
      (page i : ℕ)
      → of_frame page s ≡ suc i
      → IsFrameTable s on
      → IsFrameTable (cut_frame (frame_place page s) i s) (λ j. on j && not (j == i))
  unfolding of_frame frame_place
  cut_frame-IsFrameTable page i e f =
      let frame = frame_number page in
      let at = frame_place page s in
      let v = (s.entries i).next_frame in
      let t = cut_frame at i s in
      let out =
        IsTable-unlink (frame_of s) s.by_frame (frames s) on f s.room
          (λ j. (s.entries j).frame == frame) below i (frame_hash s.room frame) e in
      IsTable-same (frame_of s) t.by_frame (put_next at v (frames s)) (λ j. on j && not (j == i))
        out (frames t) (λ j. on j && not (j == i)) (frame_of t)
        (λ j o. put_frame-next at v s.entries j) (λ j. refl)
        (λ j o.
          put_frame-rest (λ (x : Entry). frame_hash s.room x.frame) at v s.entries j (λ x. refl))

  -- The loop of `unlink_key` comes to the entry, where it is on its chain.
  pub unlink_key-arrives :
      (i : ℕ) → on i ≡ true → IsKeyTable s on → value s.by_key (keys s) (key_place i s) ≡ suc i
  unlink_key-arrives i o k =
      elim (IsTable-seek (key_of s) s.by_key (keys s) on k s.room (λ j. j == i) below
        (key_of s i)) [
          | inl (e, absent) ↦ absurd (ground (arith, absent i (ground arith)))
          | inr (j, e, listed, same) ↦ let at : j ≡ i = ground arith in e ∙ ap suc at
        ]

  -- What `unlink_key` comes to for an entry that is on its chain.
  without_key : ℕ → Shared
  without_key i =
      let at = key_place i s in
      let v = (s.entries i).next_key in
      let es = put_key at v s.entries in
      record s {
        by_key = put_head at v s.by_key;
        entries = update es i (record (es i) { start = 0 });
      }

  unlink_key-on :
      (i : ℕ) → value s.by_key (keys s) (key_place i s) ≡ suc i → unlink_key i s ≡ without_key i
  unfolding unlink_key cut_key without_key
  unlink_key-on i e =
      let here : (value s.by_key (keys s) (key_place i s) == suc i) ≡ true = ground arith in rw here

  without_key-rest {ℓ} :
      {A : Type ℓ} (f : Entry → A) (i j : ℕ)
      → ((e : Entry) (v w : ℕ) → f (record e { start = v; next_key = w }) ≡ f e)
      → f ((without_key i).entries j) ≡ f (s.entries j)
  unfolding without_key
  without_key-rest f i j same =
      let at = key_place i s in
      let v = (s.entries i).next_key in
      let es = put_key at v s.entries in
      update_field f es i (record (es i) { start = 0 }) j (same (es i) 0 ((es i).next_key))
      ∙ put_key-rest f at v s.entries j (λ x. same x x.start v)

  -- What does not read `start` or `next_key` reads the same of every entry.
  pub unlink_key-rest {ℓ} :
      {A : Type ℓ} (f : Entry → A) (i j : ℕ)
      → value s.by_key (keys s) (key_place i s) ≡ suc i
      → ((e : Entry) (v w : ℕ) → f (record e { start = v; next_key = w }) ≡ f e)
      → f ((unlink_key i s).entries j) ≡ f (s.entries j)
  unlink_key-rest f i j e same = rw (unlink_key-on i e) (without_key-rest f i j same)

  -- An entry other than the one taken out keeps all but that link.
  pub unlink_key-other {ℓ} :
      {A : Type ℓ} (f : Entry → A) (i j : ℕ)
      → value s.by_key (keys s) (key_place i s) ≡ suc i
      → (j == i) ≡ false
      → ((e : Entry) (w : ℕ) → f (with_key e w) ≡ f e)
      → f ((unlink_key i s).entries j) ≡ f (s.entries j)
  unfolding without_key
  unlink_key-other f i j e ne same =
      let at = key_place i s in
      let v = (s.entries i).next_key in
      let es = put_key at v s.entries in
      rw (unlink_key-on i e) (
        ap f (update_other es i (record (es i) { start = 0 }) j ne)
        ∙ put_key-rest f at v s.entries j (λ x. same x v))

  pub unlink_key-IsKeyTable :
      (i : ℕ)
      → on i ≡ true
      → IsKeyTable s on
      → IsKeyTable (unlink_key i s) (λ j. on j && not (j == i))
  unfolding without_key
  unlink_key-IsKeyTable i o k =
      let e = unlink_key-arrives i o k in
      let at = key_place i s in
      let v = (s.entries i).next_key in
      let es = put_key at v s.entries in
      let t = without_key i in
      let out =
        IsTable-unlink (key_of s) s.by_key (keys s) on k s.room (λ j. j == i) below i (key_of s i)
          e in
      let x = record (es i) { start = 0 } in
      let other : (j : ℕ) → (on j && not (j == i)) ≡ true → (j == i) ≡ false =
        λ j o. ground arith in
      rw (unlink_key-on i e) (
        IsTable-same (key_of s) t.by_key (put_next at v (keys s)) (λ j. on j && not (j == i)) out
          (keys t) (λ j. on j && not (j == i)) (key_of t)
          (λ j o.
            ap (λ (x : Entry). x.next_key) (update_other es i x j (other j o))
            ∙ put_key-next at v s.entries j)
          (λ j. refl)
          (λ j o.
            ap (key_data s) (update_other es i x j (other j o))
            ∙ put_key-rest (key_data s) at v s.entries j (λ x. refl)))

  module _ (i : ℕ) (o : on i ≡ true) (k : IsKeyTable s on) (also : ℕ → Bool) where
    pub unlink_key-IsFrameTable : IsFrameTable s also → IsFrameTable (unlink_key i s) also
    unfolding without_key
    unlink_key-IsFrameTable f = rw (unlink_key-on i (unlink_key-arrives i o k)) (
        frames_spared s ((without_key i).entries) also also (λ j. refl)
          (λ j o. without_key-rest (λ (x : Entry). x.next_frame) i j (λ x v w. refl))
          (λ j o. without_key-rest (λ (x : Entry). x.frame) i j (λ x v w. refl)) f)

    pub unlink_key-IsFreeList :
        ((j : ℕ) → also j ≡ true → on j ≡ false)
        → IsFreeList s also
        → IsFreeList (unlink_key i s) also
    unfolding without_key
    unlink_key-IsFreeList apart l =
        let e = unlink_key-arrives i o k in
        let at = key_place i s in
        let v = (s.entries i).next_key in
        let es = put_key at v s.entries in
        rw (unlink_key-on i e) (
          free_spared s ((without_key i).entries) also also (λ j. refl)
            (λ j f.
              update_field (λ (x : Entry). x.next_key) es i (record (es i) { start = 0 }) j refl
              ∙ put_key-next at v s.entries j
              ∙ put_next_off (key_of s) s.by_key (keys s) on k s.room (λ j. j == i) below i
                  (key_of s i) e v j (apart j f))
            l)

-- The entry `i` among the free ones, its links as the call leaves them.
module _ (s : Shared) (on : ℕ → Bool) (i : ℕ) (off : on i ≡ false) where
  pub release-IsFreeList : IsFreeList s on → IsFreeList (release i s) (λ j. i == j || on j)
  unfolding release
  release-IsFreeList l =
      let e = record (s.entries i) { refs = 0; next_key = s.free_head } in
      IsListed-link i off (ap (λ (x : Entry). x.next_key) (update_self s.entries i e))
        (λ j o.
          ap (λ (x : Entry). x.next_key) (update_other s.entries i e j (ne_of_tests on i j off o)))
        l

  pub release-IsKeyTable : IsKeyTable s on → IsKeyTable (release i s) on
  unfolding release
  release-IsKeyTable =
      let e = record (s.entries i) { refs = 0; next_key = s.free_head } in
      keys_spared s (update s.entries i e) on on (λ j. refl)
        (λ j o.
          ap (λ (x : Entry). x.next_key) (update_other s.entries i e j (ne_of_tests on i j off o)))
        (λ j o. update_field (key_data s) s.entries i e j refl)

pub release-IsFrameTable :
    (s : Shared) (on : ℕ → Bool) (i : ℕ) → IsFrameTable s on → IsFrameTable (release i s) on
unfolding release
release-IsFrameTable s on i =
    let e = record (s.entries i) { refs = 0; next_key = s.free_head } in
    frames_spared s (update s.entries i e) on on (λ j. refl)
      (λ j o. update_field (λ (x : Entry). x.next_frame) s.entries i e j refl)
      (λ j o. update_field (λ (x : Entry). x.frame) s.entries i e j refl)
