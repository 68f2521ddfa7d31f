-- ===== src/Cache.antt =====
-- The disk cache, src/modules/storage/cache.c: lines of 128 sectors, found by their first sector.
pub mod Calls
pub mod Cached
pub mod Unhook
pub mod Fill
pub mod Cap
pub mod Hook
pub mod Enlarge
pub mod Slot
pub mod Find
pub mod Read
use mathlib.Core.Option
use bax_os_dev.Base.{
  ℕ, zero, suc, ◌+◌, ◌-◌, ◌*◌, ◌/◌, ◌%◌, ◌^◌, Bool, true, false, not, ◌&&◌, ◌||◌, Option, none,
  some, List, [], ◌∷◌, ◌++◌, ltb, ◌==◌, if◌then◌else◌,
}
use bax_os_dev.Chains.{Place, head, value, update, put_head, put_next, seek, lookup}

abbrev pub line_sectors : ℕ
line_sectors = 128

abbrev pub line_size : ℕ
line_size = 65536

abbrev pub no_sector : ℕ
no_sector = 4294967295

abbrev pub first_room : ℕ
first_room = 8

-- `first` is NONE in a line that holds nothing; `sectors` is what `data` holds, a number for each of
-- them, and none in a line that has given its memory back.
pub record Line : Type 0 where
  pub first : ℕ
  pub used : ℕ
  pub next : ℕ
  pub sectors : Option (ℕ → ℕ)

pub record Cache : Type 0 where
  pub lines : ℕ → Line
  pub heads : ℕ → ℕ
  pub room : ℕ
  pub count : ℕ
  pub clock : ℕ
  pub limit : ℕ
  pub off : Bool

abbrev pub no_line : Line
no_line = record { first = 0; used = 0; next = 0; sectors = none }

abbrev pub bucket_of : ℕ → ℕ → ℕ
bucket_of room first = first / line_sectors % room

abbrev pub nexts : Cache → ℕ → ℕ
nexts s i = (s.lines i).next

unfoldable pub put_link : Place → ℕ → (ℕ → Line) → ℕ → Line
put_link (head h) v lines = lines
put_link (Place.after i) v lines = update lines i (record (lines i) { next = v })

abbrev pub line_place : ℕ → Cache → Place
line_place i s =
    seek s.room (λ j. j == i) s.heads (nexts s) (head (bucket_of s.room ((s.lines i).first)))

unfoldable pub off_chain : ℕ → Cache → Cache
off_chain i s =
    let at = line_place i s in
    let v = (s.lines i).next in
    if value s.heads (nexts s) at == suc i
    then record s { heads = put_head at v s.heads; lines = put_link at v s.lines }
    else s

unfoldable pub unhook : ℕ → Cache → Cache
unhook i s =
    let t = off_chain i s in
    record t { lines = update t.lines i (record (t.lines i) { first = no_sector }) }

-- The line with that first sector, one-based, or 0.
unfoldable pub find : ℕ → Cache → ℕ
find first s =
    lookup s.room (λ j. (s.lines j).first == first) (nexts s) (s.heads (bucket_of s.room first))

unfoldable pub has_data : Line → Bool
has_data l = elim l.sectors [ none ↦ false | some d ↦ true ]

-- The lines from 0 up, below `n`: the one used longest ago of those with memory, one-based, or 0.
unfoldable pub oldest_below : ℕ → Cache → ℕ
oldest_below zero s = 0
oldest_below (suc i) s =
    let best = oldest_below i s in
    if has_data (s.lines i) && (best == 0 || ltb ((s.lines i).used) ((s.lines (best - 1)).used))
    then suc i
    else best

unfoldable pub oldest : Cache → ℕ
oldest s = oldest_below s.room s

unfoldable pub let_out : ℕ → Cache → Cache
let_out i s = if (s.lines i).first == no_sector then s else unhook i s

-- What the module starts with, once it is loaded: lines without memory, and empty chains.
unfoldable pub empty_cache : Cache
empty_cache = record {
  lines = λ i. no_line;
  heads = λ h. 0;
  room = first_room;
  count = 0;
  clock = 0;
  limit = 0;
  off = false;
}
