-- ===== src/Shared.antt =====
-- The pages that processes share, src/kernel/share.c: found by the page of the file they are, and
-- by where they are.
pub mod Calls
pub mod Tables
pub mod Steps
pub mod Held
pub mod Sound
pub mod Release
pub mod LetGo
pub mod Counts
pub mod Alone
pub mod Drop
pub mod Link
pub mod Placed
pub mod Grow
pub mod Fill
pub mod Gains
pub mod Add
pub mod Find
pub mod Unlinked
pub mod Written
pub mod Again
use bax_os_dev.Base.{
  ℕ, zero, suc, ◌+◌, ◌-◌, ◌*◌, ◌/◌, ◌%◌, ◌^◌, Bool, true, false, not, ◌&&◌, Option, none, some, ltb,
  leb, ◌==◌, if◌then◌else◌, bit_and, bit_xor,
}
use bax_os_dev.Chains.{Place, head, after, value, update, put_head, seek, lookup}

abbrev pub page_bytes : ℕ
page_bytes = 4096

abbrev pub page_sectors : ℕ
page_sectors = 8

abbrev pub first_room : ℕ
first_room = 256

-- One-based links; `refs` is 0 in an entry that is free, `start` in a page written over.
pub record Entry : Type 0 where
  pub start : ℕ
  pub index : ℕ
  pub frame : ℕ
  pub refs : ℕ
  pub next_key : ℕ
  pub next_frame : ℕ

abbrev pub no_entry : Entry
no_entry = record { start = 0; index = 0; frame = 0; refs = 0; next_key = 0; next_frame = 0 }

pub record Shared : Type 0 where
  pub entries : ℕ → Entry
  pub by_key : ℕ → ℕ
  pub by_frame : ℕ → ℕ
  pub room : ℕ
  pub used : ℕ
  pub free_head : ℕ

-- Before the first page, with the arrays NULL.
unfoldable pub nothing_shared : Shared
nothing_shared = record {
  entries = λ i. no_entry;
  by_key = λ h. 0;
  by_frame = λ h. 0;
  room = 0;
  used = 0;
  free_head = 0;
}

unfoldable pub key_hash : ℕ → ℕ → ℕ → ℕ
key_hash room start index =
    bit_and (bit_xor (start * 2654435761 % 2 ^ 32) (index * 40503 % 2 ^ 32))
      ((room + 2 ^ 32 - 1) % 2 ^ 32)

unfoldable pub frame_hash : ℕ → ℕ → ℕ
frame_hash room frame = bit_and (frame * 2654435761 % 2 ^ 32) ((room + 2 ^ 32 - 1) % 2 ^ 32)

abbrev pub keys : Shared → ℕ → ℕ
keys s i = (s.entries i).next_key

abbrev pub frames : Shared → ℕ → ℕ
frames s i = (s.entries i).next_frame

abbrev pub key_of : Shared → ℕ → ℕ
key_of s i = key_hash s.room ((s.entries i).start) ((s.entries i).index)

abbrev pub frame_of : Shared → ℕ → ℕ
frame_of s i = frame_hash s.room ((s.entries i).frame)

-- `*at = v` where `at` is on a chain of keys, or of frames.
unfoldable pub put_key : Place → ℕ → (ℕ → Entry) → ℕ → Entry
put_key (head h) v entries = entries
put_key (after i) v entries = update entries i (record (entries i) { next_key = v })

unfoldable pub put_frame : Place → ℕ → (ℕ → Entry) → ℕ → Entry
put_frame (head h) v entries = entries
put_frame (after i) v entries = update entries i (record (entries i) { next_frame = v })

unfoldable pub link_key : ℕ → Shared → Shared
link_key i s =
    let h = key_of s i in
    record s {
      entries = update s.entries i (record (s.entries i) { next_key = s.by_key h });
      by_key = update s.by_key h (suc i);
    }

-- The lines that follow it where an entry is put on its chain of frames.
unfoldable pub link_frame : ℕ → Shared → Shared
link_frame i s =
    let h = frame_of s i in
    record s {
      entries = update s.entries i (record (s.entries i) { next_frame = s.by_frame h });
      by_frame = update s.by_frame h (suc i);
    }

abbrev pub key_place : ℕ → Shared → Place
key_place i s = seek s.room (λ j. j == i) s.by_key (keys s) (head (key_of s i))

-- The loop's body behind the loop: the entry out of its chain, where it is on it.
unfoldable pub cut_key : ℕ → Shared → Shared
cut_key i s =
    let at = key_place i s in
    let v = (s.entries i).next_key in
    if value s.by_key (keys s) at == suc i
    then record s { by_key = put_head at v s.by_key; entries = put_key at v s.entries }
    else s

unfoldable pub unlink_key : ℕ → Shared → Shared
unlink_key i s =
    let t = cut_key i s in
    record t { entries = update t.entries i (record (t.entries i) { start = 0 }) }

abbrev pub frame_number : ℕ → ℕ
frame_number page = page / page_bytes % 2 ^ 32

-- `*link`, and what it points to: one-based, 0 where no entry has that page.
unfoldable pub frame_place : ℕ → Shared → Place
frame_place page s =
    let frame = frame_number page in
    seek s.room (λ j. (s.entries j).frame == frame) s.by_frame (frames s)
      (head (frame_hash s.room frame))

unfoldable pub of_frame : ℕ → Shared → ℕ
of_frame page s = value s.by_frame (frames s) (frame_place page s)

abbrev pub cut_frame : Place → ℕ → Shared → Shared
cut_frame at i s =
    let v = (s.entries i).next_frame in
    record s { by_frame = put_head at v s.by_frame; entries = put_frame at v s.entries }
