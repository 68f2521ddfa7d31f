-- ===== src/Tests/Shared.antt =====
-- src/kernel/share.c on a table of one page.
use bax_os_dev.Base.{
  ℕ, ◌*◌, ◌<◌, ◌^◌, Bool, true, false, ◌≡◌, refl, arith, inl, inr, some, [], ◌==◌,
}
use mathlib.Core.Option
use bax_os_dev.Memory.{Mem}
use bax_os_dev.Chains.{lookup, seek, value}
use bax_os_dev.Shared.{
  link_key, link_frame, key_hash, frame_hash, of_frame, frame_place, Shared, nothing_shared,
  no_entry, frame_number, page_bytes,
}
use bax_os_dev.Shared.Calls.{
  fill, place_below, place_entry, shared_add, shared_find, shared_take, shared_drop, shared_written,
  some_free, grow, bigger_room, overlaps,
}
use bax_os_dev.Shared.Held.{Held}
use bax_os_dev.Shared.Sound.{view, IsSound}
use bax_os_dev.Shared.Gains.{IsNew, new_page, Gains}
use bax_os_dev.Shared.Add.{shared_add-Added}
use bax_os_dev.Shared.Grow.{grow-Sound}
use bax_os_dev.Shared.Find.{Found, shared_find-Found}
use bax_os_dev.Shared.Alone.{Taken, shared_take-Takes}
use bax_os_dev.Shared.Drop.{Dropped, shared_drop-Dropped}
use bax_os_dev.Shared.Written.{shared_written-Written, wiped, is_over, OnDisk}
use bax_os_dev.Shared.Again.{
  nothing_shared-Sound, nothing-view, Counted, bound_grown, OnDisk-instead, shared_find-shared_add,
  shared_find-shared_written,
}

abbrev plenty : ℕ → Bool
plenty bytes = true

abbrev library_page : Held
library_page = new_page 800 3 409600

abbrev one_page : Shared
one_page = (shared_add plenty 800 3 409600 nothing_shared).1

IsNew-to_nothing : IsNew nothing_shared library_page
IsNew-to_nothing j q there = absurd (ground (arith, nothing-view j, there))

no_counts : Counted nothing_shared
no_counts i p there = absurd (ground (arith, nothing-view i, there))

room_of_nothing : nothing_shared.room < 2 ^ 31
unfolding nothing_shared
room_of_nothing = omega arith

added : (shared_add plenty 800 3 409600 nothing_shared).0 ≡ true
unfolding shared_add some_free grow nothing_shared bigger_room
added = refl

one_gained : Gains nothing_shared library_page one_page
one_gained =
    elim (shared_add-Added plenty 800 3 409600 nothing_shared room_of_nothing refl
      nothing_shared-Sound IsNew-to_nothing) [
        | inl (no_room, same, empty, refused) ↦ absurd (ground (arith, added, no_room))
        | inr (room, gained) ↦ gained
      ]

one_counted : Counted one_page
one_counted =
    bound_grown nothing_shared one_page (one_gained.1.0) library_page (one_gained.1.2) (omega arith)
      no_counts

shared_find-shared_add_example : (shared_find 800 3 one_page).0 ≡ frame_number 409600 * page_bytes
shared_find-shared_add_example =
    shared_find-shared_add plenty 800 3 409600 nothing_shared room_of_nothing refl
      nothing_shared-Sound IsNew-to_nothing no_counts added

shared_find-Found_example : Found one_page 800 4 (shared_find 800 4 one_page)
shared_find-Found_example = shared_find-Found one_page 800 4 (one_gained.0) refl one_counted

shared_take-Takes_example : Taken one_page 409600 (shared_take 409600 one_page)
shared_take-Takes_example = shared_take-Takes one_page 409600 (one_gained.0)

abbrev no_memory : Mem
no_memory = record { runs = []; loose = []; loose_count = 0 }

shared_drop-Dropped_example :
    Dropped one_page no_memory 409600 (shared_drop 409600 (one_page, no_memory))
shared_drop-Dropped_example = shared_drop-Dropped one_page no_memory 409600 (one_gained.0)

nothing-OnDisk : OnDisk (view nothing_shared)
nothing-OnDisk i p there = absurd (ground (arith, nothing-view i, there))

one-OnDisk : OnDisk (view one_page)
one-OnDisk =
    OnDisk-instead (view nothing_shared) (view one_page) (one_gained.1.0) library_page
      (one_gained.1.2) (omega arith) nothing-OnDisk

over_page : is_over 824 1 (new_page 800 3 0) ≡ true
unfolding is_over
over_page = refl

shared_find-shared_written_example : (shared_find 800 3 (shared_written 824 1 one_page)).0 ≡ 0
shared_find-shared_written_example =
    shared_find-shared_written 824 1 800 3 one_page (omega arith) one-OnDisk (one_gained.0)
      one_counted over_page

grown : (t : Shared) × (grow plenty nothing_shared ≡ some t)
unfolding grow
grown = (_, refl)

grow-Sound_example :
    IsSound (grown.0)
    × ((j : ℕ) → view (grown.0) j ≡ view nothing_shared j)
    × (((grown.0).free_head == 0) ≡ false)
grow-Sound_example =
    grow-Sound plenty nothing_shared (grown.0) room_of_nothing nothing_shared-Sound (grown.1)

shared_written-Written_example :
    IsSound (shared_written 824 1 one_page)
    × ((j : ℕ)
        → view (shared_written 824 1 one_page) j ≡ Option.map (wiped 824 1) (view one_page j))
shared_written-Written_example =
    shared_written-Written 824 1 one_page (omega arith) (omega arith) one-OnDisk (one_gained.0)

-- A page that ends at 2 ^ 32: a write to its first sector is not seen.
last_page_missed :
    (is_over 0xFFFF_FFF8 1 (new_page 0xFFFF_FFF8 0 409600) ≡ true)
    × (overlaps 0xFFFF_FFF8 1 (record no_entry { start = 0xFFFF_FFF8; refs = 1 }) ≡ false)
unfolding is_over overlaps
last_page_missed = (refl, refl)

-- Two processes map the page, and each lets go of it: the second gives it back.
abbrev two_hold : Shared
two_hold = (shared_find 800 3 one_page).1

still_held : (shared_drop 409600 (two_hold, no_memory)).1 ≡ no_memory
unfolding shared_find shared_drop shared_add some_free grow bigger_room nothing_shared fill link_key
    link_frame key_hash frame_hash place_below place_entry of_frame frame_place lookup seek value
still_held = refl
