-- ===== src/Lzma2.antt =====
-- src/tuxpac/unpack.c, `lzma2`: the chunks of a block, some stored and some packed. The fuel bounds
-- the chunks; `none` is fuel that has run out.
pub mod Ends
pub mod Stored
use bax_os_dev.Base.{
  ℕ, zero, suc, ◌+◌, ◌-◌, ◌*◌, ◌/◌, ◌%◌, ◌^◌, Bool, true, false, not, ◌&&◌, ◌||◌, Option, none,
  some, ltb, leb, ◌==◌, if◌then◌else◌,
}
use bax_os_dev.Source.{Source, src_byte}
use bax_os_dev.Window.{Window, Sink, put}
use bax_os_dev.Lzma.{rc_init}
use bax_os_dev.Chunk.{Lzma, lzma_reset, lzma_chunk}

abbrev pub with_source : Source → Lzma → Lzma
with_source s l = record l { coder = record l.coder { source = s } }

abbrev pub with_window : Window → Lzma → Lzma
with_window w l = record l { window = w }

-- `src_byte(in)`
abbrev pub take_byte : Lzma → ℕ × Lzma
take_byte l = let (b, s) = src_byte l.coder.source in (b, with_source s l)

-- Two bytes, the higher first, and one more: how long a chunk is.
abbrev pub take_size : ℕ → Lzma → ℕ × Lzma
take_size above l =
    let (high, l1) = take_byte l in
    let (low, l2) = take_byte l1 in (above * 2 ^ 16 + high * 2 ^ 8 + low + 1, l2)

-- `total = 0`, where the chunk resets the dictionary.
abbrev pub reset_total : Bool → Lzma → Lzma
reset_total resets l = if resets then with_window (record l.window { total = 0 }) l else l

-- `while (in->count < end && !in->bad)`: a round counts a byte or finds the source bad.
unfoldable pub skip_to : ℕ → ℕ → Source → Source
skip_to zero end s = s
skip_to (suc fuel) end s =
    let rest = skip_to fuel end (src_byte s).1 in if ltb s.count end && not s.bad then rest else s

-- The properties of a packed chunk, `lc`, `lp` and `pb` in one byte. False is a byte that is refused.
unfoldable pub set_properties : ℕ → Lzma → Bool × Lzma
set_properties b l =
    if ltb 224 b
    then (false, l)
    else (leb (b % 9 + b / 9 % 5) 4, record l { lc = b % 9; lp = b / 9 % 5; pb = b / 45 })

module _ (sink : Sink) where
  -- The bytes of a stored chunk.
  unfoldable pub stored_bytes : ℕ → Lzma → Lzma
  stored_bytes zero l = l
  stored_bytes (suc n) l =
      let (b, l1) = take_byte l in
      let rest = stored_bytes n (with_window (put sink b l1.window) l1) in
      if l.coder.source.bad then l else rest

  unfoldable pub stored_chunk : ℕ → Lzma → Lzma
  stored_chunk c l = let (n, l1) = take_size 0 l in stored_bytes n (reset_total (c == 1) l1)

  -- A packed chunk behind its header: `un` bytes come out of it, and `pk` bytes are its size.
  unfoldable pub packed_data : ℕ → ℕ → Lzma → Bool × Lzma
  packed_data un pk l =
      let s = l.coder.source in
      let (ok, l1) = lzma_chunk sink un (record l { coder = rc_init s }) in
      if ok then (true, with_source (skip_to pk (s.count + pk) l1.coder.source) l1) else (false, l1)

  -- A packed chunk: whether it was unpacked, and `props` afterwards.
  unfoldable pub packed_chunk : ℕ → Bool → Lzma → Bool × Bool × Lzma
  packed_chunk c props l =
      let (un, l1) = take_size (c % 2 ^ 5) l in
      let (pk, l2) = take_size 0 l1 in
      let reset = c / 2 ^ 5 % 4 in
      let l3 = reset_total (reset == 3) l2 in
      let (b, l4) = take_byte l3 in
      let (fine, l5) = if leb 2 reset then set_properties b l4 else (true, l3) in
      let (ok, l6) = packed_data un pk (if leb 1 reset then lzma_reset l5 else l5) in
      let props' = props || leb 2 reset in
      if fine && props' then (ok, props', l6) else (false, props', l5)

  -- What follows the first byte of a chunk.
  unfoldable pub chunk_of : ℕ → Bool → Lzma → Bool × Bool × Lzma
  chunk_of c props l =
      if c == 1 || c == 2
      then (true, props, stored_chunk c l)
      else if ltb c 0x80
      then (false, props, l)
      else packed_chunk c props l

  -- The loop of `lzma2`.
  unfoldable pub chunks_from : ℕ → Bool → Lzma → Option (Bool × Lzma)
  chunks_from zero props l = none
  chunks_from (suc fuel) props l =
      let (c, l1) = take_byte l in
      let (ok, props', l2) = chunk_of c props l1 in
      let rest = chunks_from fuel props' l2 in
      if l1.coder.source.bad || l1.window.wstop
      then some (false, l1)
      else if c == 0
      then some (true, l1)
      else if ok
      then rest
      else some (false, l2)

  -- `lzma2`
  unfoldable pub lzma2 : ℕ → Lzma → Option (Bool × Lzma)
  lzma2 fuel l = chunks_from fuel false l
