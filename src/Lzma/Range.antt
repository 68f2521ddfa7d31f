-- ===== src/Lzma/Range.antt =====
-- The range decoder of src/tuxpac/unpack.c never leaves its range.
use bax_os_dev.Base.{ℕ, ◌+◌, ◌-◌, ◌*◌, ◌/◌, ◌^◌, ◌≤◌, ◌<◌, Bool-cases, inl, inr, ltb, arith, ltb→lt}
use bax_os_dev.Source.{Source}
use bax_os_dev.Lzma.{Coder, normalise, bound_of, bit, rc_init}

-- The range keeps 25 bits or more, and the code is in it.
pub record InRange (c : Coder) : Type 0 where
  pub wide : 2 ^ 24 ≤ c.range
  pub word : c.range < 2 ^ 32
  pub inside : c.code < c.range

-- A probability that a bit may have: never so small or so large that a bit would be certain.
pub record IsProb (p : ℕ) : Type 0 where
  pub least : 31 ≤ p
  pub most : p ≤ 2017

-- One byte is enough to make a range of 16 bits wide again.
normalise-InRange :
    (c : Coder) → 2 ^ 16 ≤ c.range → c.range < 2 ^ 32 → c.code < c.range → InRange (normalise c)
unfolding normalise
normalise-InRange c wide word inside = ground arith

bound_lem :
    (range p : ℕ)
    → 2 ^ 24 ≤ range
    → range < 2 ^ 32
    → IsProb p
    → (2 ^ 16 ≤ bound_of range p) × (bound_of range p + 2 ^ 16 ≤ range)
bound_lem range p wide word h =
    let q = range / 2048 in
    let low : q * 31 ≤ q * p = grind arith in
    let high : q * p ≤ q * 2017 = grind arith in omega arith

-- Given a probability from 31 to 2017 and a code inside a range of 25 to 32 bits, decoding a bit
-- keeps the code inside such a range and the new probability between those bounds, whatever the
-- source gives; and the bit is 0 or 1.
pub bit-InRange :
    (p : ℕ) (c : Coder)
    → InRange c
    → IsProb p
    → let d = bit p c in InRange d.coder × IsProb d.prob × (d.bit < 2)
unfolding bit
bit-InRange p c r h =
    let bound = bound_of c.range p in
    let b = bound_lem c.range p r.wide r.word h in
    elim (Bool-cases (ltb c.code bound)) [
      | inl e ↦
          let less : c.code < bound = ltb→lt c.code bound e in
          rw e (
            normalise-InRange (record c { range = bound }) (omega arith) (omega arith) less,
            omega arith,
            omega arith,
          )
      | inr e ↦
          let over : bound ≤ c.code = ground (arith, e) in
          rw e (
            normalise-InRange (record c { range = c.range - bound; code = c.code - bound })
                (omega arith) (omega arith) (omega arith),
            omega arith,
            omega arith,
          )
    ]

-- `rc_init` leaves the code in the range, where its four bytes are not all 0xFF.
pub rc_init-InRange : (s : Source) → (rc_init s).code < 0xFFFF_FFFF → InRange (rc_init s)
unfolding rc_init
rc_init-InRange s h = record { wide = omega arith; word = omega arith; inside = h }
