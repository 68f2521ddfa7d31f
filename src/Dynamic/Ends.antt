-- ===== src/Dynamic/Ends.antt =====
-- `dynamic` of src/tuxpac/unpack.c ends.
use bax_os_dev.Base.{
  ℕ, zero, suc, ◌+◌, ◌≤◌, ◌≡◌, refl, arith, true, false, length-append, length-replicate,
  Bool-cases, inl, inr, Option, none, some, Option-cases, if-both, List, [], ◌∷◌, ◌++◌, length,
  replicate, set, get_or, take, drop, ◌&&◌, ◌||◌, not, ltb, leb, ◌==◌, if◌then◌else◌,
}
use bax_os_dev.Window.{Sink}
use bax_os_dev.Inflate.{BitReader, Huff, decode, construct}
use bax_os_dev.Deflate.{Inflate, is_bad, get_bits, get_symbol, order}
use bax_os_dev.Deflate.Reads.{Reads, Reads-none, Reads-append, Reads-less, bits-Reads, decode-Reads}
use bax_os_dev.Deflate.Ends.{Enough, Enough-less, Ends, Ends-after, fails, codes-Ends}
use bax_os_dev.Dynamic.{code_lengths, repeat_of, all_lengths, is_usable, coded, dynamic}

get_bits-Reads : (n : ℕ) (z : Inflate) → Reads 0 z.reader (get_bits n z).1.reader
get_bits-Reads n z = Reads-less n 0 z.reader _ (omega arith) (bits-Reads n z.reader)

get_symbol-Reads : (h : Huff) (z : Inflate) → Reads 0 z.reader (get_symbol h z).1.reader
get_symbol-Reads h z = Reads-less _ 0 z.reader _ (omega arith) (decode-Reads h z.reader)

code_lengths-Reads :
    (ats : List ℕ) (n : ℕ) (lens : List ℕ) (z : Inflate)
    → Reads 0 z.reader (code_lengths ats n lens z).1.reader
unfolding code_lengths
code_lengths-Reads [] n lens z = Reads-none z.reader
code_lengths-Reads (at ∷ ats) zero lens z = code_lengths-Reads ats zero (set lens at 0) z
code_lengths-Reads (at ∷ ats) (suc n) lens z =
    let (v, z1) = get_bits 3 z in
    Reads-append 0 0 z.reader z1.reader _ (get_bits-Reads 3 z)
      (code_lengths-Reads ats n (set lens at v) z1)

repeat_of-Reads :
    (sym : ℕ) (lens : List ℕ) (z : Inflate) → Reads 0 z.reader (repeat_of sym lens z).2.reader
unfolding repeat_of
repeat_of-Reads s lens z = elim (Bool-cases (s == 16)) [
  | inl e ↦ rw (repeat_of, e) (get_bits-Reads 2 z)
  | inr e ↦ elim (Bool-cases (s == 17)) [
    | inl f ↦ rw (repeat_of, e, f) (get_bits-Reads 3 z)
    | inr f ↦ rw (repeat_of, e, f) (get_bits-Reads 7 z)
  ]
]

-- What the loop of the lengths gives, with the bits it has read: a result, and not fuel that has
-- run out.
abbrev LengthsEnd : BitReader → Option (Option (List ℕ) × Inflate) → Type 0
LengthsEnd r none = ⊥
LengthsEnd r (some (lens, z)) = Reads 0 r z.reader

LengthsEnd-after :
    (r r2 : BitReader) (o : Option (Option (List ℕ) × Inflate))
    → Reads 0 r r2
    → LengthsEnd r2 o
    → LengthsEnd r o
LengthsEnd-after r r2 none f h = h
LengthsEnd-after r r2 (some (lens, z)) f h = Reads-append 0 0 r r2 z.reader f h

-- A repetition gives three lengths at least.
repeat_of-least : (sym : ℕ) (lens : List ℕ) (z : Inflate) → 3 ≤ (repeat_of sym lens z).0
unfolding repeat_of
repeat_of-least sym lens z = ground arith

length-repeated : (lens : List ℕ) (n v : ℕ) → length (lens ++ replicate n v) ≡ length lens + n
length-repeated lens n v = rw (length-append lens (replicate n v), length-replicate n v) refl

-- A round adds a length at least, so that the loop ends with a round for each that is missing.
all_lengths-Ends :
    (fuel total : ℕ) (lens : List ℕ) (z : Inflate)
    → total ≤ length lens + fuel
    → LengthsEnd z.reader (all_lengths fuel total lens z)
unfolding all_lengths
all_lengths-Ends zero total lens z room =
    let all : leb total (length lens) ≡ true = ground (arith, room) in rw all (Reads-none z.reader)
all_lengths-Ends (suc fuel) total lens z room =
    let (o, z1) = get_symbol z.lencode z in
    let one = get_symbol-Reads z.lencode z in
    elim (Bool-cases (leb total (length lens))) [
      | inl e ↦ rw (all_lengths, e) (Reads-none z.reader)
      | inr e ↦ elim (Option-cases (decode z.lencode z.reader).0) [
        | inl n ↦ rw (all_lengths, e, n) one
        | inr (s, found) ↦
            let (n, len, z2) = repeat_of s lens z1 in
            let two =
              Reads-append 0 0 z.reader z1.reader z2.reader one (repeat_of-Reads s lens z1) in
            elim (Bool-cases (is_bad z1)) [
              | inl b ↦ rw (all_lengths, e, found, b) one
              | inr b ↦ elim (Bool-cases (ltb s 16)) [
                | inl l ↦
                    rw (all_lengths, e, found, b, l)
                      (LengthsEnd-after z.reader z1.reader _ one (
                        all_lengths-Ends fuel total (lens ++ (s ∷ [])) z1
                          (omega (arith, room, length-repeated lens 1 s))))
                | inr l ↦ elim (Bool-cases (s == 16 && length lens == 0)) [
                  | inl f ↦ rw (all_lengths, e, found, b, l, f) one
                  | inr f ↦ elim (Bool-cases (ltb total (length lens + (repeat_of s lens z1).0))) [
                    | inl g ↦ rw (all_lengths, e, found, b, l, f, g) two
                    | inr g ↦
                        rw (all_lengths, e, found, b, l, f, g)
                          (LengthsEnd-after z.reader z2.reader _ two (
                            all_lengths-Ends fuel total (lens ++ replicate n len) z2 (
                              omega (
                                arith,
                                room,
                                length-repeated lens n len,
                                repeat_of-least s lens z1,
                              ))))
                  ]
                ]
              ]
            ]
      ]
    ]

module _ (sink : Sink) where
  coded-Ends :
      (fuel nlen ndist : ℕ) (lens : List ℕ) (z : Inflate)
      → Enough fuel z.reader
      → Ends z.reader (coded sink fuel nlen ndist lens z)
  unfolding coded
  coded-Ends fuel nlen ndist lens z e =
      let lit = construct z.lencode.symbol (take nlen lens) in
      let dist = construct z.distcode.symbol (take ndist (drop nlen lens)) in
      let z1 = record z { lencode = lit.1 } in
      let z2 = record z1 { distcode = dist.1 } in
      if-both (Ends z.reader) (get_or lens 256 0 == 0) _ _
        (fails z.reader z _ refl (Reads-none z.reader))
        (if-both (Ends z.reader) (not (is_usable nlen lit)) _ _
          (fails z.reader z1 _ refl (Reads-none z.reader))
          (if-both (Ends z.reader) (not (is_usable ndist dist)) _ _
            (fails z.reader z2 _ refl (Reads-none z.reader)) (codes-Ends sink fuel z2 e)))

  with_lengths :
      (fuel nlen ndist : ℕ) (r : BitReader) (all : Option (Option (List ℕ) × Inflate))
      → Enough fuel r
      → LengthsEnd r all
      → Ends r (elim all [
        | none ↦ none
        | some (none, z6) ↦ some (false, z6)
        | some (some lens, z6) ↦ coded sink fuel nlen ndist lens z6
      ])
  with_lengths fuel nlen ndist r none e six = elim six [ ]
  with_lengths fuel nlen ndist r (some (none, z6)) e six = fails r z6 _ refl six
  with_lengths fuel nlen ndist r (some (some lens, z6)) e six =
      Ends-after r z6.reader _ six
        (coded-Ends fuel nlen ndist lens z6 (Enough-less fuel r z6.reader e six))

  with_table :
      (fuel nlen ndist : ℕ) (r : BitReader) (z5 : Inflate) (left : Option ℕ)
      (all : Option (Option (List ℕ) × Inflate))
      → Enough fuel r
      → Reads 0 r z5.reader
      → LengthsEnd r all
      → Ends r (elim left [
        | none ↦ some (false, z5)
        | some n ↦ if not (n == 0) then some (false, z5) else elim all [
          | none ↦ none
          | some (none, z6) ↦ some (false, z6)
          | some (some lens, z6) ↦ coded sink fuel nlen ndist lens z6
        ]
      ])
  with_table fuel nlen ndist r z5 none all e five six = fails r z5 _ refl five
  with_table fuel nlen ndist r z5 (some n) all e five six =
      if-both (Ends r) (not (n == 0)) _ _ (fails r z5 _ refl five)
        (with_lengths fuel nlen ndist r all e six)

  pub dynamic-Ends :
      (fuel : ℕ) (z : Inflate) → Enough fuel z.reader → Ends z.reader (dynamic sink fuel z)
  unfolding dynamic
  dynamic-Ends fuel z0 e =
      let (a, z1) = get_bits 5 z0 in
      let (b, z2) = get_bits 5 z1 in
      let (c, z3) = get_bits 4 z2 in
      let nlen = a + 257 in
      let ndist = b + 1 in
      let (small, z4) = code_lengths order (c + 4) (replicate 19 0) z3 in
      let table = construct z4.lencode.symbol small in
      let z5 = record z4 { lencode = table.1 } in
      let all = all_lengths (nlen + ndist) (nlen + ndist) [] z5 in
      let three =
        Reads-append 0 0 z0.reader z2.reader z3.reader
          (Reads-append 0 0 z0.reader z1.reader z2.reader (get_bits-Reads 5 z0)
            (get_bits-Reads 5 z1))
          (get_bits-Reads 4 z2) in
      let five =
        Reads-append 0 0 z0.reader z3.reader z5.reader three
          (code_lengths-Reads order (c + 4) (replicate 19 0) z3) in
      let six =
        LengthsEnd-after z0.reader z5.reader all five
          (all_lengths-Ends (nlen + ndist) (nlen + ndist) [] z5 (omega arith)) in
      if-both (Ends z0.reader) (ltb 286 nlen || ltb 30 ndist) _ _ (fails z0.reader z3 _ refl three)
        (with_table fuel nlen ndist z0.reader z5 table.0 all e five six)
