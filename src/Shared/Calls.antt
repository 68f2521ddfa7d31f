-- ===== src/Shared/Calls.antt =====
-- The calls of src/kernel/share.c, and what they are made of.
use bax_os_dev.Base.{
  ℕ, zero, suc, ◌+◌, ◌-◌, ◌*◌, ◌%◌, ◌^◌, Bool, true, false, not, ◌&&◌, ◌||◌, Option, none, some,
  ltb, ◌==◌, if◌then◌else◌,
}
use bax_os_dev.Memory.{Mem}
use bax_os_dev.Pages.{pages_free}
use bax_os_dev.Chains.{update, lookup}
use bax_os_dev.Shared.{
  page_bytes, page_sectors, first_room, Entry, no_entry, Shared, key_hash, keys, frame_number,
  link_key, link_frame, unlink_key, frame_place, of_frame, cut_frame,
}

-- The body of the loop of `grow`: an entry onto the free ones, or onto its chains.
unfoldable pub place_entry : ℕ → Shared → Shared
place_entry i s =
    let e = s.entries i in
    if e.refs == 0
    then record s {
      entries = update s.entries i (record e { next_key = s.free_head });
      free_head = suc i;
    }
    else link_frame i (if e.start == 0 then s else link_key i s)

unfoldable pub place_below : ℕ → Shared → Shared
place_below zero s = s
place_below (suc i) s = place_below i (place_entry i s)

unfoldable pub bigger_room : ℕ → ℕ
bigger_room room = if room == 0 then first_room else room * 2 % 2 ^ 32

-- `memory` says of a size whether `mem_alloc` finds that many bytes.
unfoldable pub grow : (ℕ → Bool) → Shared → Option Shared
grow memory s =
    let bigger = bigger_room s.room in
    if not (memory (bigger * 24)) || not (memory (bigger * 4))
    then none
    else some (
        place_below bigger (record s {
          entries = λ i. if ltb i s.room then s.entries i else no_entry;
          by_key = λ h. 0;
          by_frame = λ h. 0;
          room = bigger;
          free_head = 0;
        }))

unfoldable pub shared_find : ℕ → ℕ → Shared → ℕ × Shared
shared_find start index s =
    let hit = λ (j : ℕ). (s.entries j).start == start && (s.entries j).index == index in
    let at = lookup s.room hit (keys s) (s.by_key (key_hash s.room start index)) in
    let e = s.entries (at - 1) in
    if s.room == 0 || at == 0 then (0, s) else (
      e.frame * page_bytes,
      record s { entries = update s.entries (at - 1) (record e { refs = (e.refs + 1) % 2 ^ 32 }) },
    )

-- `if (free_head == 0 && !grow())`.
unfoldable pub some_free : (ℕ → Bool) → Shared → Option Shared
some_free memory s = if s.free_head == 0 then grow memory s else some s

-- A free entry taken and filled in.
unfoldable pub fill : ℕ → ℕ → ℕ → Shared → Shared
fill start index page s =
    let i = s.free_head - 1 in
    record s {
      entries =
          update s.entries i
            (record no_entry { start = start; index = index; frame = frame_number page; refs = 1 });
      free_head = (s.entries i).next_key;
    }

abbrev pub one_used : Shared → Shared
one_used s = record s { used = (s.used + 1) % 2 ^ 32 }

unfoldable pub shared_add : (ℕ → Bool) → ℕ → ℕ → ℕ → Shared → Bool × Shared
shared_add memory start index page s = elim (some_free memory s) [
  | none ↦ (false, s)
  | some t ↦
      let i = t.free_head - 1 in
      (true, one_used (link_frame i (link_key i (fill start index page t))))
]

unfoldable pub shared_adopt : (ℕ → Bool) → ℕ → Shared → Bool × Shared
shared_adopt memory page s = elim (some_free memory s) [
  | none ↦ (false, s)
  | some t ↦ (true, one_used (link_frame (t.free_head - 1) (fill 0 0 page t)))
]

-- The entry off both its chains.
unfoldable pub unlist : ℕ → ℕ → Shared → Shared
unlist page i s =
    let t = cut_frame (frame_place page s) i s in
    if (s.entries i).start == 0 then t else unlink_key i t

-- `e->next_key = free_head; free_head = i + 1; used--`, with `refs` at 0.
unfoldable pub release : ℕ → Shared → Shared
release i s = record s {
  entries = update s.entries i (record (s.entries i) { refs = 0; next_key = s.free_head });
  free_head = suc i;
  used = (s.used + 2 ^ 32 - 1) % 2 ^ 32;
}

unfoldable pub shared_take : ℕ → Shared → Bool × Shared
shared_take page s =
    let at = of_frame page s in
    if at == 0 || not ((s.entries (at - 1)).refs == 1)
    then (false, s)
    else (true, release (at - 1) (unlist page (at - 1) s))

unfoldable pub shared_hold : ℕ → Shared → Shared
shared_hold page s =
    let at = of_frame page s in
    let e = s.entries (at - 1) in
    if at == 0 then s else record s {
      entries = update s.entries (at - 1) (record e { refs = (e.refs + 1) % 2 ^ 32 });
    }

-- With the page given back to the allocator when the last lets go.
unfoldable pub shared_drop : ℕ → Shared × Mem → Shared × Mem
shared_drop page (s, m) =
    let at = of_frame page s in
    let e = s.entries (at - 1) in
    let refs = (e.refs + 2 ^ 32 - 1) % 2 ^ 32 in
    let t = record s { entries = update s.entries (at - 1) (record e { refs = refs }) } in
    if at == 0
    then (s, m)
    else if not (refs == 0)
    then (t, m)
    else (release (at - 1) (unlist page (at - 1) t), pages_free page 1 m)

-- Whether an entry's page is among the sectors written.
unfoldable pub overlaps : ℕ → ℕ → Entry → Bool
overlaps lba count e =
    let first = (e.start + e.index * page_sectors) % 2 ^ 32 in
    not (e.refs == 0)
    && not (e.start == 0)
    && ltb first ((lba + count) % 2 ^ 32)
    && ltb lba ((first + page_sectors) % 2 ^ 32)

-- The loop of `shared_written` over the last `n` entries.
unfoldable pub written_from : ℕ → ℕ → ℕ → Shared → Shared
written_from lba count zero s = s
written_from lba count (suc n) s =
    let i = s.room - suc n in
    written_from lba count n (if overlaps lba count (s.entries i) then unlink_key i s else s)

unfoldable pub shared_written : ℕ → ℕ → Shared → Shared
shared_written lba count s = written_from lba count s.room s

unfoldable pub shared_bytes : Shared → ℕ
shared_bytes s = s.used * page_bytes + s.room * (24 + 2 * 4)
