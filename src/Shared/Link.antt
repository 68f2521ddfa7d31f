-- ===== src/Shared/Link.antt =====
-- An entry of src/kernel/share.c put on its chains: what the three of them hold then.
use bax_os_dev.Base.{ℕ, Bool, false, ◌||◌, ◌==◌, ◌≡◌, refl}
use bax_os_dev.Chains.Updates.{update_field}
use bax_os_dev.Shared.{Shared, link_key, link_frame, key_of, frame_of}
use bax_os_dev.Shared.Tables.{
  link_key-IsKeyTable, link_key-IsFrameTable, link_key-IsFreeList, link_frame-IsFrameTable,
  link_frame-IsKeyTable, link_frame-IsFreeList, with_key, with_frame,
}
use bax_os_dev.Shared.Held.{held_of}
use bax_os_dev.Shared.Sound.{HasTables}

abbrev pub plus : (ℕ → Bool) → ℕ → ℕ → Bool
plus on i j = i == j || on j

module _ (s : Shared) (k f r : ℕ → Bool) (i : ℕ) (h : HasTables s k f r) where
  pub link_key-HasTables : k i ≡ false → r i ≡ false → HasTables (link_key i s) (plus k i) f r
  link_key-HasTables off used = record {
    by_key = link_key-IsKeyTable s k i off h.by_key;
    by_frame = link_key-IsFrameTable s f i h.by_frame;
    free = link_key-IsFreeList s r i used h.free;
  }

  pub link_frame-HasTables : f i ≡ false → HasTables (link_frame i s) k (plus f i) r
  link_frame-HasTables off = record {
    by_key = link_frame-IsKeyTable s k i h.by_key;
    by_frame = link_frame-IsFrameTable s f i off h.by_frame;
    free = link_frame-IsFreeList s r i h.free;
  }

-- The links are no part of what an entry says of its page.
pub link_key-held :
    (i j : ℕ) (s : Shared) → held_of ((link_key i s).entries j) ≡ held_of (s.entries j)
unfolding link_key
link_key-held i j s =
    update_field held_of s.entries i (with_key (s.entries i) (s.by_key (key_of s i))) j refl

pub link_frame-held :
    (i j : ℕ) (s : Shared) → held_of ((link_frame i s).entries j) ≡ held_of (s.entries j)
unfolding link_frame
link_frame-held i j s =
    update_field held_of s.entries i (with_frame (s.entries i) (s.by_frame (frame_of s i))) j refl

pub link_key-room : (i : ℕ) (s : Shared) → (link_key i s).room ≡ s.room
unfolding link_key
link_key-room i s = refl

pub link_frame-room : (i : ℕ) (s : Shared) → (link_frame i s).room ≡ s.room
unfolding link_frame
link_frame-room i s = refl
