-- ===== src/Shared/Sound.antt =====
-- What is true of the table of src/kernel/share.c between its calls, and what finding in it finds.
use bax_os_dev.Base.{
  Option, none, some, ℕ, suc, ◌<◌, Bool, true, false, not, ◌&&◌, ltb, ◌==◌, if◌then◌else◌, ◌≡◌,
  refl, ap, arith, Bool-cases, inl, inr, ◌⊎◌,
}
use bax_os_dev.Chains.{lookup}
use bax_os_dev.Chains.Tables.{IsListed-same, IsTable-same, IsTable-seek, IsListed-lookup, Finds}
use bax_os_dev.Shared.{
  Entry, Shared, key_hash, frame_hash, keys, frames, key_of, frame_of, frame_number, frame_place,
  of_frame,
}
use bax_os_dev.Shared.Held.{Held, held_of, IsProper}
use bax_os_dev.Shared.Tables.{IsKeyTable, IsFrameTable, IsFreeList}

unfoldable pub live : Shared → ℕ → Bool
live s j = ltb j s.room && not ((s.entries j).refs == 0)

unfoldable pub keyed : Shared → ℕ → Bool
keyed s j = live s j && not ((s.entries j).start == 0)

unfoldable pub unused : Shared → ℕ → Bool
unused s j = ltb j s.room && (s.entries j).refs == 0

-- The chains by key, those by frame and the free ones hold just these entries.
pub record HasTables (s : Shared) (k f r : ℕ → Bool) : Type 0 where
  pub by_key : IsKeyTable s k
  pub by_frame : IsFrameTable s f
  pub free : IsFreeList s r

pub HasTables-same :
    {s : Shared} {k f r k' f' r' : ℕ → Bool}
    → ((j : ℕ) → k' j ≡ k j)
    → ((j : ℕ) → f' j ≡ f j)
    → ((j : ℕ) → r' j ≡ r j)
    → HasTables s k f r
    → HasTables s k' f' r'
HasTables-same {s} {k} {f} {r} {k'} {f'} {r'} ek ef er h = record {
  by_key =
      IsTable-same (key_of s) s.by_key (keys s) k h.by_key (keys s) k' (key_of s) (λ j o. refl) ek
        (λ j o. refl);
  by_frame =
      IsTable-same (frame_of s) s.by_frame (frames s) f h.by_frame (frames s) f' (frame_of s)
        (λ j o. refl) ef (λ j o. refl);
  free = IsListed-same (λ j o. refl) er h.free;
}

-- Of a file and an index, whether an entry is that page.
abbrev pub is_page : ℕ → ℕ → Entry → Bool
is_page start index e = e.start == start && e.index == index

abbrev pub is_at : ℕ → Entry → Bool
is_at page e = e.frame == frame_number page

unfoldable pub view : Shared → ℕ → Option Held
view s j = if live s j then some (held_of (s.entries j)) else none

-- Each chain holds the entries it is for, and what they say is proper.
pub record IsSound (s : Shared) : Type 0 where
  pub tables : HasTables s (keyed s) (live s) (unused s)
  pub proper : IsProper (view s)

pub live-below : (s : Shared) (j : ℕ) → live s j ≡ true → j < s.room
unfolding live
live-below s j o = ground arith

pub keyed-below : (s : Shared) (j : ℕ) → keyed s j ≡ true → j < s.room
unfolding keyed live
keyed-below s j o = ground arith

-- An entry that a test is true of, or none.
abbrev pub HasOr : (ℕ → Bool) → ℕ → Type 0
HasOr test r = ((r ≡ 0) × ((j : ℕ) → test j ≡ false)) ⊎ ((j : ℕ) × (r ≡ suc j) × (test j ≡ true))

-- The loop through a bucket finds what passes, where what passes hashes there.
HasOr-bucket :
    (on hit : ℕ → Bool) (bucket : ℕ → ℕ) (h r : ℕ)
    → ((j : ℕ) → hit j ≡ true → bucket j ≡ h)
    → Finds (λ j. on j && bucket j == h) hit r
    → HasOr (λ j. on j && hit j) r
HasOr-bucket on hit bucket h r there (inl (e, absent)) = inl (
  e,
  λ j. elim (Bool-cases (hit j)) [
    | inl found ↦ let b : bucket j ≡ h = there j found in ground (arith, absent j)
    | inr miss ↦ rw miss (ground arith)
  ],
)
HasOr-bucket on hit bucket h r there (inr (j, e, o, found)) = inr (j, e, ground arith)

pub of_frame-HasOr :
    (s : Shared) (on : ℕ → Bool)
    → ((j : ℕ) → on j ≡ true → j < s.room)
    → IsFrameTable s on
    → (page : ℕ) → HasOr (λ j. on j && is_at page (s.entries j)) (of_frame page s)
unfolding of_frame frame_place
of_frame-HasOr s on below f page =
    let frame = frame_number page in
    let hit : ℕ → Bool = λ j. (s.entries j).frame == frame in
    HasOr-bucket on hit (frame_of s) (frame_hash s.room frame) (of_frame page s)
      (λ j found. ap (frame_hash s.room) (ground arith))
      (IsTable-seek (frame_of s) s.by_frame (frames s) on f s.room hit below
        (frame_hash s.room frame))

pub key_of-page :
    (s : Shared) (start index j : ℕ)
    → is_page start index (s.entries j) ≡ true
    → key_of s j ≡ key_hash s.room start index
key_of-page s start index j found =
    let a : (s.entries j).start ≡ start = ground arith in
    let b : (s.entries j).index ≡ index = ground arith in rw (a, b)

pub by_key-HasOr :
    (s : Shared) (start index : ℕ)
    → IsSound s
    → let hit : ℕ → Bool = λ j. (s.entries j).start == start && (s.entries j).index == index in
      HasOr
        (λ j. keyed s j && hit j)
        (lookup s.room hit (keys s) (s.by_key (key_hash s.room start index)))
by_key-HasOr s start index sound =
    let hit : ℕ → Bool = λ j. (s.entries j).start == start && (s.entries j).index == index in
    let h = key_hash s.room start index in
    HasOr-bucket (keyed s) hit (key_of s) h (lookup s.room hit (keys s) (s.by_key h))
      (λ j found. key_of-page s start index j found)
      (IsListed-lookup s.room hit (λ j o. keyed-below s j (ground arith)) (sound.tables.by_key h))
