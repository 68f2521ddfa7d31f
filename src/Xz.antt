-- ===== src/Xz.antt =====
-- src/tuxpac/unpack.c, `unxz`: the header of the file and its blocks. The fuel bounds the blocks and
-- the chunks of each; `none` is fuel that has run out.
pub mod Ends
use bax_os_dev.Base.{
  ℕ, zero, suc, ◌+◌, ◌-◌, ◌*◌, ◌/◌, ◌%◌, ◌^◌, Bool, true, false, not, ◌&&◌, ◌||◌, Option, none,
  some, List, [], ◌∷◌, ◌++◌, take, drop, length, get_or, replicate, ltb, leb, ◌==◌, if◌then◌else◌,
}
use bax_os_dev.Source.{Source, src_byte, src_read}
use bax_os_dev.Window.{Window, Sink, window_open, window_close}
use bax_os_dev.Probs.{fresh_probs}
use bax_os_dev.Chunk.{Lzma}
use bax_os_dev.Lzma2.{with_source, lzma2}

-- The loop of `vli`: round `i` adds seven bits, above those of the rounds before.
unfoldable pub vli_from : ℕ → ℕ → List ℕ → ℕ → ℕ → ℕ → ℕ × ℕ
vli_from zero i h at end v = (v, at)
vli_from (suc fuel) i h at end v =
    let b = get_or h at 0 in
    let v' = v + b % 2 ^ 7 * 2 ^ (7 * i) in
    let rest = vli_from fuel (i + 1) h (at + 1) end v' in
    if leb end at then (v, at) else if ltb b 0x80 then (v', at + 1) else rest

-- `vli`: the number, and where what follows it is.
unfoldable pub vli : List ℕ → ℕ → ℕ → ℕ × ℕ
vli h at end = vli_from 9 0 h at end 0

-- What the header of a block says: the size it unpacks to, 0 if it does not; the filter, the size of
-- its properties, and the byte they are.
pub record Header : Type 0 where
  pub size : ℕ
  pub filter : ℕ
  pub props : ℕ
  pub dict : ℕ

-- The header of a block of `hs` bytes, the flags of which are `h[1]`.
unfoldable pub header_of : List ℕ → ℕ → Header
header_of h hs =
    let flags = get_or h 1 0 in
    let at1 = if flags / 2 ^ 6 % 2 == 0 then 2 else (vli h 2 hs).1 in
    let (size, at2) = if flags / 2 ^ 7 % 2 == 0 then (0, at1) else vli h at1 hs in
    let (filter, at3) = vli h at2 hs in
    let (props, at4) = vli h at3 hs in
    record { size = size; filter = filter; props = props; dict = get_or h at4 0 }

-- The size of the window: the dictionary, or less if all of the output is known to be less.
unfoldable pub window_size : ℕ → ℕ → ℕ
window_size size byte =
    let dict = if byte == 40 then 0xFFFF_FFFF else (2 + byte % 2) * 2 ^ (byte / 2 + 11) in
    let least = if not (size == 0) && ltb size dict then size else dict in
    if ltb least 4096 then 4096 else least

-- The decoder of the first block. It is reset, and the range decoder read, before it is used.
unfoldable pub opened : ℕ → Source → Lzma
opened size s = record {
  probs = fresh_probs;
  coder = record { range = 0; code = 0; source = s };
  reps = record { rep0 = 0; rep1 = 0; rep2 = 0; rep3 = 0 };
  lc = 0;
  lp = 0;
  pb = 0;
  state = 0;
  window = window_open size;
}

-- The loop of `unxz`: the source, the buffer `h`, and `p` with the window once a block was opened.
pub record Unxz : Type 0 where
  pub source : Source
  pub buffer : List ℕ
  pub size : ℕ
  pub work : Option Lzma

-- `while ((in->count - start) % 4 != 0 && !in->bad)`: three bytes at most.
unfoldable pub pad_from : ℕ → ℕ → Source → Source
pad_from zero start s = s
pad_from (suc fuel) start s =
    let rest = pad_from fuel start (src_byte s).1 in
    if (s.count - start) % 4 == 0 || s.bad then s else rest

-- The decoder that a block goes on with, or a new one.
unfoldable pub decoder : Header → Unxz → Lzma
decoder d x = elim x.work [
  | none ↦ opened (window_size (if x.size == 0 then d.size else x.size) d.dict) x.source
  | some l ↦ with_source x.source l
]

-- The magic bytes of the file.
abbrev pub is_xz : List ℕ → Bool
is_xz h =
    get_or h 0 0 == 0xFD
    && (get_or h 1 0 == b'7'
        && (get_or h 2 0 == b'z'
            && (get_or h 3 0 == b'X' && (get_or h 4 0 == b'Z' && get_or h 5 0 == 0))))

-- The bytes of a check, by its kind.
abbrev pub check_size_of : ℕ → ℕ
check_size_of check = if check == 0 then 0 else 4 * 2 ^ ((check - 1) / 3)

module _ (sink : Sink) where
  -- A block behind its header. The three results: whether the loop goes on, `ok`, and the state.
  unfoldable pub block_data : ℕ → ℕ → ℕ → Header → Unxz → Option (Bool × Bool × Unxz)
  block_data fuel check_size start d x = elim (lzma2 sink fuel (decoder d x)) [
    | none ↦ none
    | some (ok, l) ↦
        let size = if x.size == 0 then d.size else x.size in
        let padded = pad_from 3 start l.coder.source in
        let (_, _, after) = src_read check_size padded in
        some (
          ok,
          ok,
          record x {
            source = if ok then after else l.coder.source;
            size = (elim x.work [ none ↦ size | some w ↦ x.size ]);
            work = some l;
          },
        )
  ]

  -- A round of the loop.
  unfoldable pub xz_block : ℕ → ℕ → Unxz → Option (Bool × Bool × Unxz)
  xz_block fuel check_size x =
      let start = x.source.count in
      let (hb, s1) = src_byte x.source in
      let hs = (hb + 1) * 4 in
      let (whole, bytes, s2) = src_read (hs - 1) s1 in
      let h = take 1 x.buffer ++ (bytes ++ drop (1 + length bytes) x.buffer) in
      let x2 = record x { source = s2; buffer = h } in
      let d = header_of h hs in
      let rest = block_data fuel check_size start d x2 in
      if s1.bad || hb == 0
      then some (false, not s1.bad, record x { source = s1 })
      else if not whole || not (get_or h 1 0 % 4 == 0)
      then some (false, false, x2)
      else if not (d.filter == 0x21) || (not (d.props == 1) || ltb 40 d.dict)
      then some (false, false, x2)
      else rest

  unfoldable pub xz_blocks : ℕ → ℕ → Unxz → Option (Bool × Unxz)
  xz_blocks zero check_size x = none
  xz_blocks (suc fuel) check_size x = elim (xz_block fuel check_size x) [
    | none ↦ none
    | some (goes_on, ok, x') ↦
        let rest = xz_blocks fuel check_size x' in if goes_on then rest else some (ok, x')
  ]

  -- What follows the loop.
  abbrev pub finish : Bool × Unxz → Bool × Option Window
  finish (ok, x) = elim x.work [
    | none ↦ (ok, none)
    | some l ↦ let (closed, w) = window_close sink ok x.source.bad l.window in (closed, some w)
  ]

  -- `unxz`, where `xalloc` found the memory, with what the buffer held before.
  unfoldable pub unxz : ℕ → List ℕ → ℕ → Source → Option (Bool × Option Window)
  unxz fuel buffer size src =
      let (whole, got, s) = src_read 12 src in
      let h = got ++ drop (length got) buffer in
      let x : Unxz = record { source = s; buffer = h; size = size; work = none } in
      let check_size = check_size_of (get_or h 7 0 % 2 ^ 4) in
      if not whole || not (is_xz h)
      then some (false, none)
      else elim (xz_blocks fuel check_size x) [ none ↦ none | some r ↦ some (finish r) ]
