-- ===== src/Deflate.antt =====
-- src/tuxpac/unpack.c, the data of a deflate block: `codes`, `stored` and `fixed`. The fuel bounds
-- the rounds of a loop whose end depends on the source; `none` is fuel that has run out.
pub mod Reads
pub mod Ends
use bax_os_dev.Base.{
  ℕ, zero, suc, ◌+◌, ◌-◌, ◌*◌, ◌/◌, ◌%◌, ◌^◌, Bool, true, false, not, ◌&&◌, ◌||◌, Option, none,
  some, List, [], ◌∷◌, ◌++◌, length, get_or, set, take, drop, replicate, ltb, leb, ◌==◌,
  if◌then◌else◌, bit_and,
}
use bax_os_dev.Source.{Source, src_byte}
use bax_os_dev.Window.{Window, Sink, put, copy}
use bax_os_dev.Inflate.{BitReader, Huff, bits, decode, construct}

-- `lbase`, `lext`, `dbase` and `dext`
abbrev pub lbase : List ℕ
lbase =
    3 ∷ 4 ∷ 5 ∷ 6 ∷ 7 ∷ 8 ∷ 9 ∷ 10 ∷ 11 ∷ 13 ∷ 15 ∷ 17 ∷ 19 ∷ 23 ∷ 27 ∷ 31 ∷ 35 ∷ 43 ∷ 51 ∷ 59 ∷ 67
    ∷ 83 ∷ 99 ∷ 115 ∷ 131 ∷ 163 ∷ 195 ∷ 227 ∷ 258 ∷ []

abbrev pub lext : List ℕ
lext =
    0 ∷ 0 ∷ 0 ∷ 0 ∷ 0 ∷ 0 ∷ 0 ∷ 0 ∷ 1 ∷ 1 ∷ 1 ∷ 1 ∷ 2 ∷ 2 ∷ 2 ∷ 2 ∷ 3 ∷ 3 ∷ 3 ∷ 3 ∷ 4 ∷ 4 ∷ 4 ∷ 4
    ∷ 5 ∷ 5 ∷ 5 ∷ 5 ∷ 0 ∷ []

abbrev pub dbase : List ℕ
dbase =
    1 ∷ 2 ∷ 3 ∷ 4 ∷ 5 ∷ 7 ∷ 9 ∷ 13 ∷ 17 ∷ 25 ∷ 33 ∷ 49 ∷ 65 ∷ 97 ∷ 129 ∷ 193 ∷ 257 ∷ 385 ∷ 513 ∷ 769
    ∷ 1025 ∷ 1537 ∷ 2049 ∷ 3073 ∷ 4097 ∷ 6145 ∷ 8193 ∷ 12289 ∷ 16385 ∷ 24577 ∷ []

abbrev pub dext : List ℕ
dext =
    0 ∷ 0 ∷ 0 ∷ 0 ∷ 1 ∷ 1 ∷ 2 ∷ 2 ∷ 3 ∷ 3 ∷ 4 ∷ 4 ∷ 5 ∷ 5 ∷ 6 ∷ 6 ∷ 7 ∷ 7 ∷ 8 ∷ 8 ∷ 9 ∷ 9 ∷ 10 ∷ 10
    ∷ 11 ∷ 11 ∷ 12 ∷ 12 ∷ 13 ∷ 13 ∷ []

-- `order`, of `dynamic`
abbrev pub order : List ℕ
order = 16 ∷ 17 ∷ 18 ∷ 0 ∷ 8 ∷ 7 ∷ 9 ∷ 6 ∷ 10 ∷ 5 ∷ 11 ∷ 4 ∷ 12 ∷ 3 ∷ 13 ∷ 2 ∷ 14 ∷ 1 ∷ 15 ∷ []

-- The bits, the two tables, and the window. What `lengths` has is written anew by each user.
pub record Inflate : Type 0 where
  pub reader : BitReader
  pub lencode : Huff
  pub distcode : Huff
  pub window : Window

abbrev pub is_bad : Inflate → Bool
is_bad z = z.reader.source.bad

-- Bits or a symbol off the reader.
abbrev pub get_bits : ℕ → Inflate → ℕ × Inflate
get_bits need z = let (v, r) = bits need z.reader in (v, record z { reader = r })

abbrev pub get_symbol : Huff → Inflate → Option ℕ × Inflate
get_symbol h z = let (sym, r) = decode h z.reader in (sym, record z { reader = r })

-- A byte off the source under the reader.
abbrev pub get_byte : Inflate → ℕ × Inflate
get_byte z =
    let (b, s) = src_byte z.reader.source in
    (b, record z { reader = record z.reader { source = s } })

module _ (sink : Sink) where
  -- The part of `codes` for a match: whether it goes on.
  unfoldable pub match_of : ℕ → Inflate → Bool × Inflate
  match_of sym z =
      let (extra, z1) = get_bits (get_or lext sym 0) z in
      let (dist, z2) = get_symbol z1.distcode z1 in
      elim dist [
        | none ↦ (false, z2)
        | some d ↦
            let (more, z3) = get_bits (get_or dext d 0) z2 in
            let (ok, w) =
              copy sink (get_or dbase d 0 + more) (get_or lbase sym 0 + extra) z3.window in
            if leb 30 d then (false, z2) else (ok, record z3 { window = w })
      ]

  -- `codes`
  unfoldable pub codes : ℕ → Inflate → Option (Bool × Inflate)
  codes zero z = none
  codes (suc fuel) z =
      let (symbol, z1) = get_symbol z.lencode z in
      elim symbol [
        | none ↦ some (false, z1)
        | some sym ↦
            let z2 = record z1 { window = put sink (sym % 2 ^ 8) z1.window } in
            let put_next = codes fuel z2 in
            let (ok, z3) = match_of (sym - 257) z1 in
            let match_next = codes fuel z3 in
            if is_bad z1 || z1.window.wstop
            then some (false, z1)
            else if ltb sym 256
            then put_next
            else if sym == 256
            then some (true, z1)
            else if leb 29 (sym - 257)
            then some (false, z1)
            else if ok
            then match_next
            else some (false, z3)
      ]

  -- The loop of `stored`.
  unfoldable pub stored_from : ℕ → Inflate → Inflate
  stored_from zero z = z
  stored_from (suc len) z =
      let (b, z1) = get_byte z in
      let rest = stored_from len (record z1 { window = put sink b z1.window }) in
      if is_bad z then z else rest

  -- `stored`
  unfoldable pub stored : Inflate → Bool × Inflate
  stored z0 =
      let z = record z0 { reader = record z0.reader { bitbuf = 0; bitcnt = 0 } } in
      let (l0, z1) = get_byte z in
      let (l1, z2) = get_byte z1 in
      let (n0, z3) = get_byte z2 in
      let (n1, z4) = get_byte z3 in
      let len = l0 % 2 ^ 8 + l1 % 2 ^ 8 * 2 ^ 8 in
      let nlen = n0 % 2 ^ 8 + n1 % 2 ^ 8 * 2 ^ 8 in
      let z5 = stored_from len z4 in
      if len + nlen == 0xFFFF then (not (is_bad z5), z5) else (false, z4)

  abbrev pub fixed_lengths : List ℕ
  fixed_lengths = replicate 144 8 ++ (replicate 112 9 ++ (replicate 24 7 ++ replicate 8 8))

  -- `fixed`
  unfoldable pub fixed : ℕ → Inflate → Option (Bool × Inflate)
  fixed fuel z = codes fuel (record z {
    lencode = (construct z.lencode.symbol fixed_lengths).1;
    distcode = (construct z.distcode.symbol (replicate 30 5)).1;
  })
