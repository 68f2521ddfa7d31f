-- ===== src/Tests/Inflate.antt =====
-- src/tuxpac/unpack.c: bits, a Huffman table of three symbols, and blocks.
use bax_os_dev.Base.{
  ℕ, ◌^◌, ◌%◌, ◌/◌, ◌<◌, ◌≡◌, refl, List, [], ◌∷◌, arith, replicate, drop, length, some, none,
  false, leb, ap, sym, ◌-◌, ◌==◌, if◌then◌else◌,
}
use bax_os_dev.Source.{refill, src_byte}
use bax_os_dev.Inflate.{
  BitReader, Huff, bits, fill_bits, decode, construct, count_lengths, left_over, offsets, place,
}
use bax_os_dev.Inflate.Bits.{IsHeld, to_come, bits_lem}
use bax_os_dev.Inflate.Codes.{Feeds, sum, code_word, decode_lem}
use bax_os_dev.Inflate.Tables.{number_of, code_space, construct_lem}

abbrev reader : BitReader
reader = record {
  bitbuf = 3;
  bitcnt = 2;
  source = record { held = 0xA5 ∷ []; chunks = []; count = 0; bad = false };
}

bits_lem_example :
    let (v, b') = bits 5 reader in
    (v ≡ to_come reader % 2 ^ 5) × (to_come b' ≡ to_come reader / 2 ^ 5) × IsHeld b'
bits_lem_example = bits_lem 5 reader (omega arith) (omega arith)

five_bits : (bits 5 reader).0 ≡ 23
unfolding bits fill_bits src_byte refill
five_bits = refl

abbrev lens : List ℕ
lens = 1 ∷ 2 ∷ 2 ∷ []

abbrev table : Huff
table = record { count = 0 ∷ 1 ∷ 2 ∷ replicate 13 0; symbol = 0 ∷ 1 ∷ 2 ∷ replicate 285 0 }

constructed : construct (replicate 288 0) lens ≡ (some 0, table)
unfolding construct count_lengths left_over offsets place
constructed = refl

construct_lem_example : (construct (replicate 288 0) lens).0 ≡ (
    if number_of 0 lens == length lens
    then some 0
    else if leb (code_space lens) (2 ^ 15)
    then some (2 ^ 15 - code_space lens)
    else none)
construct_lem_example = construct_lem (replicate 288 0) lens (omega arith) (omega arith)

abbrev after_two : BitReader
after_two = record reader { bitbuf = 0; bitcnt = 0 }

two_ones : Feeds (1 ∷ 1 ∷ []) reader after_two
unfolding bits fill_bits
two_ones = (refl, (refl, refl))

second_in_table : 2 < sum (drop 1 table.count)
unfolding sum
second_in_table = omega arith

code_of_two : code_word (drop 1 table.count) 0 2 ≡ (2, 3)
unfolding code_word
code_of_two = refl

decode_lem_example : decode table reader ≡ (some 2, after_two)
decode_lem_example =
    decode_lem table 2 (1 ∷ 1 ∷ []) reader after_two second_in_table two_ones
      (ap (λ c. c.0) (sym code_of_two)) (ap (λ c. c.1) (sym code_of_two))
