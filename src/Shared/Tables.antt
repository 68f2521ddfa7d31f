-- ===== src/Shared/Tables.antt =====
-- What each step on the chains of src/kernel/share.c leaves of the three: by key, by frame, free.
use bax_os_dev.Base.{ℕ, Bool, true, false, ◌||◌, ◌==◌, ◌≡◌, refl, ap}
use bax_os_dev.Chains.Updates.{update_field, update_other, update_self, ne_of_tests}
use bax_os_dev.Chains.{update}
use bax_os_dev.Chains.Tables.{IsListed, IsListed-same, IsTable, IsTable-same, IsTable-link}
use bax_os_dev.Shared.{
  Entry, Shared, key_hash, frame_hash, keys, frames, key_of, frame_of, link_key, link_frame,
}

abbrev pub IsKeyTable : Shared → (ℕ → Bool) → Type 0
IsKeyTable s on = IsTable s.by_key (keys s) on (key_of s)

abbrev pub IsFrameTable : Shared → (ℕ → Bool) → Type 0
IsFrameTable s on = IsTable s.by_frame (frames s) on (frame_of s)

abbrev pub IsFreeList : Shared → (ℕ → Bool) → Type 0
IsFreeList s on = IsListed (keys s) s.free_head on

-- Entries that agree with the old ones on what a table reads.
module _ (s : Shared) (es : ℕ → Entry) (on also : ℕ → Bool) (tests : (j : ℕ) → also j ≡ on j) where
  pub keys_spared :
      ((j : ℕ) → on j ≡ true → (es j).next_key ≡ (s.entries j).next_key)
      → ((j : ℕ) → on j ≡ true → key_hash s.room ((es j).start) ((es j).index) ≡ key_of s j)
      → IsKeyTable s on
      → IsKeyTable (record s { entries = es }) also
  keys_spared links buckets k =
      let t = record s { entries = es } in
      IsTable-same (key_of s) s.by_key (keys s) on k (keys t) also (key_of t) links tests buckets

  pub frames_spared :
      ((j : ℕ) → on j ≡ true → (es j).next_frame ≡ (s.entries j).next_frame)
      → ((j : ℕ) → on j ≡ true → (es j).frame ≡ (s.entries j).frame)
      → IsFrameTable s on
      → IsFrameTable (record s { entries = es }) also
  frames_spared links buckets f =
      let t = record s { entries = es } in
      IsTable-same (frame_of s) s.by_frame (frames s) on f (frames t) also (frame_of t) links tests
        (λ j o. ap (frame_hash s.room) (buckets j o))

  pub free_spared :
      ((j : ℕ) → on j ≡ true → (es j).next_key ≡ (s.entries j).next_key)
      → IsFreeList s on
      → IsFreeList (record s { entries = es }) also
  free_spared links l = IsListed-same links tests l

abbrev pub key_data : Shared → Entry → ℕ
key_data s e = key_hash s.room e.start e.index

abbrev pub with_key : Entry → ℕ → Entry
with_key e v = record e { next_key = v }

abbrev pub with_frame : Entry → ℕ → Entry
with_frame e v = record e { next_frame = v }

module _ (s : Shared) (on : ℕ → Bool) (i : ℕ) where
  pub link_key-IsKeyTable :
      on i ≡ false → IsKeyTable s on → IsKeyTable (link_key i s) (λ j. i == j || on j)
  unfolding link_key
  link_key-IsKeyTable off k =
      let e = with_key (s.entries i) (s.by_key (key_of s i)) in
      let t = link_key i s in
      let linked =
        IsTable-link (key_of s) s.by_key (keys s) on k (keys t) i off
          (ap (λ (x : Entry). x.next_key) (update_self s.entries i e))
          (λ j o.
            ap (λ (x : Entry). x.next_key)
              (update_other s.entries i e j (ne_of_tests on i j off o))) in
      IsTable-same (key_of s) t.by_key (keys t) (λ j. i == j || on j) linked (keys t)
        (λ j. i == j || on j) (key_of t) (λ j o. refl) (λ j. refl)
        (λ j o. update_field (key_data s) s.entries i e j refl)

  pub link_key-IsFrameTable : IsFrameTable s on → IsFrameTable (link_key i s) on
  unfolding link_key
  link_key-IsFrameTable =
      let e = with_key (s.entries i) (s.by_key (key_of s i)) in
      frames_spared s (update s.entries i e) on on (λ j. refl)
        (λ j o. update_field (λ (x : Entry). x.next_frame) s.entries i e j refl)
        (λ j o. update_field (λ (x : Entry). x.frame) s.entries i e j refl)

  pub link_key-IsFreeList : on i ≡ false → IsFreeList s on → IsFreeList (link_key i s) on
  unfolding link_key
  link_key-IsFreeList off =
      let e = with_key (s.entries i) (s.by_key (key_of s i)) in
      free_spared s (update s.entries i e) on on (λ j. refl)
        (λ j o.
          ap (λ (x : Entry). x.next_key) (update_other s.entries i e j (ne_of_tests on i j off o)))

  pub link_frame-IsFrameTable :
      on i ≡ false → IsFrameTable s on → IsFrameTable (link_frame i s) (λ j. i == j || on j)
  unfolding link_frame
  link_frame-IsFrameTable off f =
      let e = with_frame (s.entries i) (s.by_frame (frame_of s i)) in
      let t = link_frame i s in
      let linked =
        IsTable-link (frame_of s) s.by_frame (frames s) on f (frames t) i off
          (ap (λ (x : Entry). x.next_frame) (update_self s.entries i e))
          (λ j o.
            ap (λ (x : Entry). x.next_frame)
              (update_other s.entries i e j (ne_of_tests on i j off o))) in
      IsTable-same (frame_of s) t.by_frame (frames t) (λ j. i == j || on j) linked (frames t)
        (λ j. i == j || on j) (frame_of t) (λ j o. refl) (λ j. refl)
        (λ j o. update_field (λ (x : Entry). frame_hash s.room x.frame) s.entries i e j refl)

  pub link_frame-IsKeyTable : IsKeyTable s on → IsKeyTable (link_frame i s) on
  unfolding link_frame
  link_frame-IsKeyTable =
      let e = with_frame (s.entries i) (s.by_frame (frame_of s i)) in
      keys_spared s (update s.entries i e) on on (λ j. refl)
        (λ j o. update_field (λ (x : Entry). x.next_key) s.entries i e j refl)
        (λ j o. update_field (key_data s) s.entries i e j refl)

  pub link_frame-IsFreeList : IsFreeList s on → IsFreeList (link_frame i s) on
  unfolding link_frame
  link_frame-IsFreeList =
      let e = with_frame (s.entries i) (s.by_frame (frame_of s i)) in
      free_spared s (update s.entries i e) on on (λ j. refl)
        (λ j o. update_field (λ (x : Entry). x.next_key) s.entries i e j refl)
