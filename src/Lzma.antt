-- ===== src/Lzma.antt =====
-- src/tuxpac/unpack.c, the range decoder of the xz part and what is decoded bit by bit with it.
pub mod Range
pub mod Trees
pub mod Shrinks
use bax_os_dev.Base.{
  ℕ, zero, suc, ◌+◌, ◌-◌, ◌*◌, ◌/◌, ◌%◌, ◌^◌, Bool, true, false, List, [], ◌∷◌, get_or, set, ltb,
  leb, ◌==◌, if◌then◌else◌, bit_or,
}
use bax_os_dev.Source.{Source, src_byte}

-- What a uint32_t keeps of a number.
abbrev pub wrap32 : ℕ → ℕ
wrap32 x = x % 2 ^ 32

-- `range` and `code`, over the source `in`.
pub record Coder : Type 0 where
  pub range : ℕ
  pub code : ℕ
  pub source : Source

-- `code = code << 8 | src_byte(in)`: the byte takes the place of eight zeroes.
abbrev pub shift_in : ℕ → ℕ → ℕ
shift_in code byte = wrap32 (code * 256) + byte % 256

-- `range <<= 8` and a byte more for the code, where the range has become small.
unfoldable pub normalise : Coder → Coder
normalise c =
    let (byte, source) = src_byte c.source in
    if ltb c.range (2 ^ 24)
    then record { range = wrap32 (c.range * 256); code = shift_in c.code byte; source = source }
    else c

-- The four bytes that `rc_init` reads into the code.
unfoldable pub init_from : ℕ → ℕ → Source → ℕ × Source
init_from zero code s = (code, s)
init_from (suc n) code s = let (byte, s') = src_byte s in init_from n (shift_in code byte) s'

-- `rc_init`
unfoldable pub rc_init : Source → Coder
rc_init s =
    let (_, s') = src_byte s in
    let (code, s'') = init_from 4 0 s' in record { range = 0xFFFF_FFFF; code = code; source = s'' }

-- What a bit's decoding gives: the bit, its probability from now on, and the coder.
pub record Decoded : Type 0 where
  pub bit : ℕ
  pub prob : ℕ
  pub coder : Coder

-- `(range >> 11) * *p`
abbrev pub bound_of : ℕ → ℕ → ℕ
bound_of range p = wrap32 (range / 2048 * p)

-- `bit`. A probability is a uint16_t.
unfoldable pub bit : ℕ → Coder → Decoded
bit p c =
    let bound = bound_of c.range p in
    if ltb c.code bound
    then record {
      bit = 0;
      prob = (p + (2048 - p) / 32) % 2 ^ 16;
      coder = normalise (record c { range = bound });
    }
    else record {
      bit = 1;
      prob = (p - p / 32) % 2 ^ 16;
      coder = normalise (record c { range = c.range - bound; code = c.code - bound });
    }

-- A value decoded, the probabilities from now on, and the coder.
pub record Value : Type 0 where
  pub value : ℕ
  pub probs : List ℕ
  pub coder : Coder

-- The loop of `tree`: `m` is one bit and the bits decoded so far.
unfoldable pub tree_from : ℕ → ℕ → List ℕ → Coder → Value
tree_from zero m probs c = record { value = m; probs = probs; coder = c }
tree_from (suc n) m probs c =
    let d = bit (get_or probs m 0) c in tree_from n (m * 2 + d.bit) (set probs m d.prob) d.coder

-- `tree`
unfoldable pub tree : ℕ → List ℕ → Coder → Value
tree n probs c = let v = tree_from n 1 probs c in record v { value = v.value - 2 ^ n }

-- The loop of `rtree`: `s` has the bits decoded so far, the first one lowest; `i` is how many.
unfoldable pub rtree_from : ℕ → ℕ → ℕ → ℕ → List ℕ → Coder → Value
rtree_from zero i m s probs c = record { value = s; probs = probs; coder = c }
rtree_from (suc n) i m s probs c =
    let d = bit (get_or probs m 0) c in
    rtree_from n (i + 1) (m * 2 + d.bit) (bit_or s (d.bit * 2 ^ i)) (set probs m d.prob) d.coder

-- `rtree`
unfoldable pub rtree : ℕ → List ℕ → Coder → Value
rtree n probs c = rtree_from n 0 1 0 probs c

-- The loop of `direct`, `r` being the bits so far.
unfoldable pub direct_from : ℕ → ℕ → Coder → ℕ × Coder
direct_from zero r c = (r, c)
direct_from (suc n) r c =
    let range = c.range / 2 in
    let b = if leb range c.code then 1 else 0 in
    direct_from n (wrap32 (r * 2) + b) (
      normalise
        (record c { range = range; code = (if leb range c.code then c.code - range else c.code) }))

-- `direct`
unfoldable pub direct : ℕ → Coder → ℕ × Coder
direct n c = direct_from n 0 c
