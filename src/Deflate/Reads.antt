-- ===== src/Deflate/Reads.antt =====
-- How many bits the readers of src/tuxpac/unpack.c take: each takes some, or finds the source bad.
use mathlib.Core.Option
use bax_os_dev.Base.{
  ℕ, zero, suc, ◌+◌, ◌*◌, ◌≤◌, ◌≡◌, ◌⊎◌, refl, ◌∙◌, arith, true, Bool-cases, inl, inr, Option, none,
  some, List, [], ◌∷◌, length, get_or, drop, ltb,
}
use bax_os_dev.Source.{Source, src_byte}
use bax_os_dev.Source.Stream.{stream, ReadsByte, src_byte-ReadsByte}
use bax_os_dev.Inflate.Bits.{with_byte}
use bax_os_dev.Inflate.{BitReader, Huff, fill_bits, bits, decode_from, decode}

-- The bits that a reader has and can still get.
abbrev pub budget : BitReader → ℕ
budget r = r.bitcnt + 8 * length (stream r.source)

-- What a reader that takes `n` bits leaves: it stays bad, and it is bad or has as many less.
pub record Reads (n : ℕ) (r after : BitReader) : Type 0 where
  pub keeps : r.source.bad ≡ true → after.source.bad ≡ true
  pub less : (after.source.bad ≡ true) ⊎ (budget after + n ≤ budget r)

pub Reads-none : (r : BitReader) → Reads 0 r r
Reads-none r = record { keeps = λ e. e; less = inr (omega arith) }

pub Reads-append :
    (m n : ℕ) (r r1 r2 : BitReader) → Reads m r r1 → Reads n r1 r2 → Reads (m + n) r r2
Reads-append m n r r1 r2 f g = record { keeps = λ e. g.keeps (f.keeps e); less = sum f.less g.less }
  where
    sum :
        (r1.source.bad ≡ true) ⊎ (budget r1 + m ≤ budget r)
        → (r2.source.bad ≡ true) ⊎ (budget r2 + n ≤ budget r1)
        → (r2.source.bad ≡ true) ⊎ (budget r2 + (m + n) ≤ budget r)
    sum (inl e) h = inl (g.keeps e)
    sum (inr e) (inl h) = inl h
    sum (inr e) (inr h) = inr (omega (arith, e, h))

pub Reads-less : (m n : ℕ) (r r' : BitReader) → n ≤ m → Reads m r r' → Reads n r r'
Reads-less m n r r' le f = record { keeps = f.keeps; less = weaker f.less }
  where
    weaker :
        (r'.source.bad ≡ true) ⊎ (budget r' + m ≤ budget r)
        → (r'.source.bad ≡ true) ⊎ (budget r' + n ≤ budget r)
    weaker (inl e) = inl e
    weaker (inr e) = inr (omega (arith, e, le))

-- A byte is taken, or the source is bad.
pub src_byte-less :
    (s : Source)
    → let s' = (src_byte s).1 in
      (s.bad ≡ true → s'.bad ≡ true)
      × ((s'.bad ≡ true) ⊎ (length (stream s') + 1 ≤ length (stream s)))
src_byte-less s = go (stream s) (src_byte s) refl (src_byte-ReadsByte s)
  where
    go :
        (bs : List ℕ) (r : ℕ × Source)
        → stream s ≡ bs
        → ReadsByte s bs r
        → (s.bad ≡ true → r.1.bad ≡ true)
          × ((r.1.bad ≡ true) ⊎ (length (stream r.1) + 1 ≤ length (stream s)))
    go [] (b, s') e h = (λ _. h.1, inl h.1)
    go (c ∷ rest) (b, s') e h = (λ f. h.3 ∙ f, inr (rw (e, h.1) (omega arith)))

fill_bits-Reads : (fuel need : ℕ) (b : BitReader) → Reads 0 b (fill_bits fuel need b)
unfolding fill_bits
fill_bits-Reads zero need b = Reads-none b
fill_bits-Reads (suc fuel) need b = elim (Bool-cases (ltb b.bitcnt need)) [
  | inr e ↦ rw e (Reads-none b)
  | inl e ↦
      let (keeps, less) = src_byte-less b.source in
      let one : Reads 0 b (with_byte b) = record { keeps = keeps; less = ground (arith, less) } in
      rw e (Reads-append 0 0 b (with_byte b) _ one (fill_bits-Reads fuel need (with_byte b)))
]

fill_bits-enough :
    (fuel need : ℕ) (b : BitReader)
    → need ≤ b.bitcnt + 8 * fuel
    → need ≤ (fill_bits fuel need b).bitcnt
unfolding fill_bits
fill_bits-enough zero need b h = omega arith
fill_bits-enough (suc fuel) need b h =
    ground (arith, fill_bits-enough fuel need (with_byte b) (omega arith))

pub bits-Reads : (need : ℕ) (b : BitReader) → Reads need b (bits need b).1
unfolding bits
bits-Reads need b =
    let f = fill_bits-Reads need need b in
    let enough = fill_bits-enough need need b (omega arith) in
    record { keeps = f.keeps; less = ground (arith, f.less, enough) }

-- A symbol that is found has taken a bit.
abbrev pub bits_of : Option ℕ → ℕ
bits_of none = 0
bits_of (some a) = 1

decode_from-Reads :
    (counts : List ℕ) (code first index : ℕ) (b : BitReader)
    → let (found, b') = decode_from counts code first index b in Reads (bits_of found) b b'
unfolding decode_from
decode_from-Reads [] code first index b = Reads-none b
decode_from-Reads (count ∷ counts) code first index b =
    let d = (bits 1 b).0 in
    let b' = (bits 1 b).1 in
    let one = bits-Reads 1 b in
    elim (Bool-cases (ltb (code + d) (first + count))) [
      | inl e ↦ rw e one
      | inr e ↦
          let next = decode_from counts ((code + d) * 2) ((first + count) * 2) (index + count) b' in
          let rest =
            decode_from-Reads counts ((code + d) * 2) ((first + count) * 2) (index + count) b' in
          rw e (
            Reads-less (1 + bits_of next.0) (bits_of next.0) b next.1 (omega arith)
              (Reads-append 1 (bits_of next.0) b b' next.1 one rest))
    ]

pub decode-Reads :
    (h : Huff) (b : BitReader) → let (found, b') = decode h b in Reads (bits_of found) b b'
unfolding decode
decode-Reads h b =
    go (decode_from (drop 1 h.count) 0 0 0 b) (decode_from-Reads (drop 1 h.count) 0 0 0 b)
  where
    go :
        (r : Option ℕ × BitReader)
        → Reads (bits_of r.0) b r.1
        → Reads (bits_of (Option.map (λ i. get_or h.symbol i 0) r.0)) b r.1
    go (none, b') f = f
    go (some i, b') f = f
