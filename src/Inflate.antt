-- ===== src/Inflate.antt =====
-- src/tuxpac/unpack.c, the gzip part: bits out of the bytes of a source, and Huffman codes.
pub mod Bits
pub mod Codes
pub mod Tables
use mathlib.Core.Option
use bax_os_dev.Base.{
  ℕ, zero, suc, ◌+◌, ◌-◌, ◌*◌, ◌/◌, ◌%◌, ◌^◌, Option, none, some, List, [], ◌∷◌, get_or, set,
  replicate, length, drop, ltb, ◌==◌, if◌then◌else◌,
}
use bax_os_dev.Source.{Source, src_byte}

-- `bitbuf` and `bitcnt`, over the source `in`.
pub record BitReader : Type 0 where
  pub bitbuf : ℕ
  pub bitcnt : ℕ
  pub source : Source

-- The loop of `bits`, which `need` rounds at most end. The bits held are below those of the byte,
-- so `|=` adds.
unfoldable pub fill_bits : ℕ → ℕ → BitReader → BitReader
fill_bits zero need b = b
fill_bits (suc fuel) need b =
    let (byte, source) = src_byte b.source in
    let rest = fill_bits fuel need (record {
      bitbuf = (b.bitbuf + byte % 256 * 2 ^ b.bitcnt) % 2 ^ 32;
      bitcnt = b.bitcnt + 8;
      source = source;
    }) in
    if ltb b.bitcnt need then rest else b

-- `bits`
unfoldable pub bits : ℕ → BitReader → ℕ × BitReader
bits need b =
    let b' = fill_bits need need b in
    (b'.bitbuf % 2 ^ need, record b' { bitbuf = b'.bitbuf / 2 ^ need; bitcnt = b'.bitcnt - need })

-- `struct huff`: how many codes there are of each length, and the symbols by code.
pub record Huff : Type 0 where
  pub count : List ℕ
  pub symbol : List ℕ

-- The loop of `decode`, over the counts of the lengths from 1 on: the index into `symbol`. `code`
-- is even before a bit is put into it, so `|=` adds.
unfoldable pub decode_from : List ℕ → ℕ → ℕ → ℕ → BitReader → Option ℕ × BitReader
decode_from [] code first index b = (none, b)
decode_from (count ∷ counts) code first index b =
    let (d, b') = bits 1 b in
    let next = decode_from counts ((code + d) * 2) ((first + count) * 2) (index + count) b' in
    if ltb (code + d) (first + count) then (some (index + (code + d - first)), b') else next

-- `decode`: `none` is -1.
unfoldable pub decode : Huff → BitReader → Option ℕ × BitReader
decode h b =
    let (found, b') = decode_from (drop 1 h.count) 0 0 0 b in
    (Option.map (λ i. get_or h.symbol i 0) found, b')

-- What a uint16_t keeps of a number.
abbrev pub wrap16 : ℕ → ℕ
wrap16 x = x % 2 ^ 16

-- The loop of `construct` that counts the lengths.
unfoldable pub count_lengths : List ℕ → List ℕ → List ℕ
count_lengths count [] = count
count_lengths count (l ∷ ls) = count_lengths (set count l (wrap16 (get_or count l 0 + 1))) ls

-- The loop that finds how many codes are left over; `none` is a negative number.
unfoldable pub left_over : List ℕ → ℕ → Option ℕ
left_over [] left = some left
left_over (count ∷ counts) left =
    let next = left_over counts (left * 2 - count) in if ltb (left * 2) count then none else next

-- `offs` from 1 on: where the symbols of each length begin.
unfoldable pub offsets : List ℕ → ℕ → List ℕ
offsets [] at = []
offsets (count ∷ counts) at = at ∷ offsets counts (wrap16 (at + count))

-- The loop that puts the symbols in order; `s` is the next one.
unfoldable pub place : List ℕ → ℕ → List ℕ → List ℕ → List ℕ
place [] s offs symbol = symbol
place (l ∷ ls) s offs symbol =
    let at = get_or offs l 0 in
    if l == 0
    then place ls (s + 1) offs symbol
    else place ls (s + 1) (set offs l (wrap16 (at + 1))) (set symbol at (wrap16 s))

-- `construct`, given what `symbol` has from before: the codes left over, and the table.
unfoldable pub construct : List ℕ → List ℕ → Option ℕ × Huff
construct symbol lens =
    let count = count_lengths (replicate 16 0) lens in
    let placed = place lens 0 (0 ∷ offsets (drop 1 count) 0) symbol in
    if get_or count 0 0 == length lens
    then (some 0, record { count = count; symbol = symbol })
    else elim (left_over (drop 1 count) 1) [
      | none ↦ (none, record { count = count; symbol = symbol })
      | some left ↦ (some left, record { count = count; symbol = placed })
    ]
