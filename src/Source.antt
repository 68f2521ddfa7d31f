-- ===== src/Source.antt =====
-- src/tuxpac/unpack.c, the sources: bytes read one by one or many at a time through a buffer.
pub mod Stream
pub mod Shrinks
use bax_os_dev.Base.{
  ℕ, zero, suc, ◌+◌, ◌-◌, Bool, true, false, Option, none, some, List, [], ◌∷◌, ◌++◌, length, take,
  drop, ltb, if◌then◌else◌,
}

-- `struct source`: what is left of the buffer, what the next calls of `fill` put into it (none, or
-- an empty one, is a call that returns 0), how many bytes were read, and whether it ran out.
pub record Source : Type 0 where
  pub held : List ℕ
  pub chunks : List (List ℕ)
  pub count : ℕ
  pub bad : Bool

-- The test that both readers begin with: a buffer with a byte in it, filled if it has none. `none`
-- is a source that is bad or that has run out.
unfoldable pub refill : Source → Option Source
refill s = elim s.held [
  | (b ∷ bs) ↦ some s
  | [] ↦ if s.bad then none else elim s.chunks [
    | [] ↦ none
    | (c ∷ cs) ↦ elim c [ [] ↦ none | (b ∷ bs) ↦ some (record s { held = b ∷ bs; chunks = cs }) ]
  ]
]

-- `src_byte`
unfoldable pub src_byte : Source → ℕ × Source
src_byte s = elim (refill s) [
  | none ↦ (0, record s { bad = true })
  | some s' ↦ elim s'.held [
    | [] ↦ (0, s')
    | (b ∷ bs) ↦ (b, record s' { held = bs; count = s'.count + 1 })
  ]
]

-- `src_read`. A round takes what the buffer has of the bytes that are wanted; the fuel bounds the
-- rounds.
unfoldable pub read_from : ℕ → ℕ → List ℕ → Source → Bool × List ℕ × Source
read_from zero n out s = (false, out, s)
read_from (suc fuel) zero out s = (true, out, s)
read_from (suc fuel) (suc n) out s = elim (refill s) [
  | none ↦ (false, out, record s { bad = true })
  | some s' ↦
      let k = if ltb (length s'.held) (suc n) then length s'.held else suc n in
      read_from fuel (suc n - k) (out ++ take k s'.held)
        (record s' { held = drop k s'.held; count = s'.count + k })
]

unfoldable pub src_read : ℕ → Source → Bool × List ℕ × Source
src_read n s = read_from (n + 1) n [] s
