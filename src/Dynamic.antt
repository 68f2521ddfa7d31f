-- ===== src/Dynamic.antt =====
-- src/tuxpac/unpack.c, `dynamic`: a block that begins with its own tables.
pub mod Ends
use bax_os_dev.Base.{
  ℕ, zero, suc, ◌+◌, ◌-◌, ◌*◌, ◌/◌, ◌%◌, ◌^◌, Bool, true, false, not, ◌&&◌, ◌||◌, Option, none,
  some, List, [], ◌∷◌, ◌++◌, length, get_or, set, take, drop, replicate, ltb, leb, ◌==◌,
  if◌then◌else◌, bit_and,
}
use bax_os_dev.Window.{Sink}
use bax_os_dev.Inflate.{Huff, construct}
use bax_os_dev.Deflate.{Inflate, is_bad, get_bits, get_symbol, codes, order}

-- The lengths of the code for lengths: `n` of them off the reader, by `order`.
unfoldable pub code_lengths : List ℕ → ℕ → List ℕ → Inflate → List ℕ × Inflate
code_lengths [] n lens z = (lens, z)
code_lengths (at ∷ ats) zero lens z = code_lengths ats zero (set lens at 0) z
code_lengths (at ∷ ats) (suc n) lens z =
    let (v, z1) = get_bits 3 z in code_lengths ats n (set lens at v) z1

-- How often a symbol of the code for lengths repeats what, given the lengths so far.
unfoldable pub repeat_of : ℕ → List ℕ → Inflate → ℕ × ℕ × Inflate
repeat_of sym lens z =
    let (two, z2) = get_bits 2 z in
    let (three, z3) = get_bits 3 z in
    let (seven, z7) = get_bits 7 z in
    if sym == 16
    then (3 + two, get_or lens (length lens - 1) 0, z2)
    else if sym == 17
    then (3 + three, 0, z3)
    else (11 + seven, 0, z7)

-- The loop of `dynamic` that decodes `total` lengths. `none` is fuel that has run out before there
-- are as many; `some (none, z)` is a return with false.
unfoldable pub all_lengths : ℕ → ℕ → List ℕ → Inflate → Option (Option (List ℕ) × Inflate)
all_lengths zero total lens z = if leb total (length lens) then some (some lens, z) else none
all_lengths (suc fuel) total lens z =
    let (symbol, z1) = get_symbol z.lencode z in
    if leb total (length lens) then some (some lens, z) else elim symbol [
      | none ↦ some (none, z1)
      | some sym ↦
          let (n, len, z2) = repeat_of sym lens z1 in
          let one = all_lengths fuel total (lens ++ (sym ∷ [])) z1 in
          let more = all_lengths fuel total (lens ++ replicate n len) z2 in
          if is_bad z1
          then some (none, z1)
          else if ltb sym 16
          then one
          else if sym == 16 && length lens == 0
          then some (none, z1)
          else if ltb total (length lens + n)
          then some (none, z2)
          else more
    ]

-- Whether `construct` made a table that `dynamic` takes: a complete code, or one of one symbol.
abbrev pub is_usable : ℕ → Option ℕ × Huff → Bool
is_usable n (none, h) = false
is_usable n (some left, h) = left == 0 || n - get_or h.count 0 0 == 1

module _ (sink : Sink) where
  -- The part of `dynamic` from the tables on, given all the lengths.
  unfoldable pub coded : ℕ → ℕ → ℕ → List ℕ → Inflate → Option (Bool × Inflate)
  coded fuel nlen ndist lens z =
      let lit = construct z.lencode.symbol (take nlen lens) in
      let dist = construct z.distcode.symbol (take ndist (drop nlen lens)) in
      let z1 = record z { lencode = lit.1 } in
      let z2 = record z1 { distcode = dist.1 } in
      let rest = codes sink fuel z2 in
      if get_or lens 256 0 == 0
      then some (false, z)
      else if not (is_usable nlen lit)
      then some (false, z1)
      else if not (is_usable ndist dist)
      then some (false, z2)
      else rest

  -- `dynamic`
  unfoldable pub dynamic : ℕ → Inflate → Option (Bool × Inflate)
  dynamic fuel z0 =
      let (a, z1) = get_bits 5 z0 in
      let (b, z2) = get_bits 5 z1 in
      let (c, z3) = get_bits 4 z2 in
      let nlen = a + 257 in
      let ndist = b + 1 in
      let (small, z4) = code_lengths order (c + 4) (replicate 19 0) z3 in
      let table = construct z4.lencode.symbol small in
      let z5 = record z4 { lencode = table.1 } in
      let all = all_lengths (nlen + ndist) (nlen + ndist) [] z5 in
      if ltb 286 nlen || ltb 30 ndist then some (false, z3) else elim table.0 [
        | none ↦ some (false, z5)
        | some left ↦ if not (left == 0) then some (false, z5) else elim all [
          | none ↦ none
          | some (none, z6) ↦ some (false, z6)
          | some (some lens, z6) ↦ coded fuel nlen ndist lens z6
        ]
      ]
