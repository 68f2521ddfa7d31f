-- ===== src/Inflate/Bits.antt =====
-- `bits` of src/tuxpac/unpack.c: the source is one number, its lowest byte first.
use bax_os_dev.Base.{
  ℕ, zero, suc, ◌+◌, ◌-◌, ◌*◌, ◌/◌, ◌%◌, ◌^◌, ◌≤◌, ◌<◌, ◌≡◌, List, [], ◌∷◌, ltb, arith, Bool-cases,
  inl, inr, refl, ◌∙◌, sym, ap, subst,
}
use native.Mathlib.Nat.{
  pow-suc, pow-le-pow_right, add-mul-div_left, add-mul-mod_self_left, mod-eq_of_lt, mul_assoc,
  div-lt_iff_lt-mul, one-le-pow,
}
use bax_os_dev.Source.{Source, src_byte}
use bax_os_dev.Source.Stream.{stream, ReadsByte, src_byte-ReadsByte}
use bax_os_dev.Inflate.{BitReader, fill_bits, bits}

-- The number whose bytes these are, the lowest first.
unfoldable pub little_endian : List ℕ → ℕ
little_endian [] = 0
little_endian (b ∷ bs) = b % 256 + 256 * little_endian bs

-- All the bits that are still to come, the next one lowest.
unfoldable pub to_come : BitReader → ℕ
to_come b = b.bitbuf + 2 ^ b.bitcnt * little_endian (stream b.source)

ReadsByte-little_endian :
    (s : Source) (bs : List ℕ) (r : ℕ × Source)
    → ReadsByte s bs r
    → little_endian bs ≡ r.0 % 256 + 256 * little_endian (stream r.1)
unfolding little_endian
ReadsByte-little_endian s [] (b, s') h = rw (h.0, h.2) refl
ReadsByte-little_endian s (c ∷ rest) (b, s') h = rw (h.0, h.1) refl

pow_sum : (m n : ℕ) → 2 ^ (m + n) ≡ 2 ^ m * 2 ^ n
pow_sum m zero = let e : m + 0 ≡ m = omega arith in rw e (omega arith)
pow_sum m (suc n) =
    let e : m + suc n ≡ suc (m + n) = omega arith in
    rw (e, pow-suc 2 (m + n), pow-suc 2 n, pow_sum m n) (mul_assoc (2 ^ m) (2 ^ n) 2)

-- The bits held are as many as `bitcnt` says.
abbrev pub IsHeld : BitReader → Type 0
IsHeld b = b.bitbuf < 2 ^ b.bitcnt

-- A reader with the same bits to come.
pub record Refilled (b after : BitReader) : Type 0 where
  pub held : IsHeld after
  pub same : to_come after ≡ to_come b

-- A byte goes on top of the bits that are held.
one_more :
    (v c byte : ℕ)
    → v < 2 ^ c
    → c ≤ 16
    → (v + byte % 256 * 2 ^ c < 2 ^ (c + 8)) × (v + byte % 256 * 2 ^ c < 2 ^ 32)
one_more v c byte h le =
    let p = 2 ^ c in
    let grown : 2 ^ (c + 8) ≡ p * 256 = pow_sum c 8 in
    let small : p ≤ 2 ^ 16 = pow-le-pow_right {n = 2} (omega arith) le in
    let below : byte % 256 * p ≤ 255 * p = grind arith in (rw grown (omega arith), omega arith)

-- What a round of `fill_bits` makes of the reader.
abbrev pub with_byte : BitReader → BitReader
with_byte b =
    let (byte, source) = src_byte b.source in
    record {
      bitbuf = (b.bitbuf + byte % 256 * 2 ^ b.bitcnt) % 2 ^ 32;
      bitcnt = b.bitcnt + 8;
      source = source;
    }

with_byte-to_come :
    (b : BitReader)
    → IsHeld b
    → b.bitcnt ≤ 16
    → IsHeld (with_byte b) × (to_come (with_byte b) ≡ to_come b)
unfolding to_come
with_byte-to_come b h le =
    let r = src_byte b.source in
    let p = 2 ^ b.bitcnt in
    let more = one_more b.bitbuf b.bitcnt r.0 h le in
    let word : (with_byte b).bitbuf ≡ b.bitbuf + r.0 % 256 * p = mod-eq_of_lt more.1 in
    let bytes : little_endian (stream b.source) ≡ r.0 % 256 + 256 * little_endian (stream r.1) =
      ReadsByte-little_endian b.source (stream b.source) r (src_byte-ReadsByte b.source) in
    let grown : 2 ^ (b.bitcnt + 8) ≡ p * 256 = pow_sum b.bitcnt 8 in
    (rw word more.0, rw (word, bytes, grown) (grind arith))

fill_bits-Refilled :
    (fuel need : ℕ) (b : BitReader)
    → IsHeld b
    → need ≤ 16
    → need ≤ b.bitcnt + 8 * fuel
    → Refilled b (fill_bits fuel need b) × (need ≤ (fill_bits fuel need b).bitcnt)
unfolding fill_bits
fill_bits-Refilled zero need b h small enough = (record { held = h; same = refl }, omega arith)
fill_bits-Refilled (suc fuel) need b h small enough = elim (Bool-cases (ltb b.bitcnt need)) [
  | inr e ↦ rw e (record { held = h; same = refl }, ground (arith, e))
  | inl e ↦
      let less : b.bitcnt < need = ground (arith, e) in
      let (held, same) = with_byte-to_come b h (omega arith) in
      let next = fill_bits-Refilled fuel need (with_byte b) held small (omega arith) in
      rw e (record { held = next.0.held; same = next.0.same ∙ same }, next.1)
]

-- For a reader that holds as many bits as it says and up to 16 bits, `bits` returns the lowest of
-- the number that the bits held and the bytes of the source make, leaves the rest of that number,
-- and holds as many bits as it says again. Past the end of the source the bits are zeroes.
pub bits_lem :
    (need : ℕ) (b : BitReader)
    → IsHeld b
    → need ≤ 16
    → let (v, b') = bits need b in
      (v ≡ to_come b % 2 ^ need) × (to_come b' ≡ to_come b / 2 ^ need) × IsHeld b'
unfolding bits
bits_lem need b h small =
    let f = fill_bits need need b in
    let (filled, got) = fill_bits-Refilled need need b h small (omega arith) in
    let n = 2 ^ need in
    let k = 2 ^ (f.bitcnt - need) in
    let positive : 0 < n = one-le-pow need 2 (omega arith) in
    let split : 2 ^ f.bitcnt ≡ n * k =
      ap (λ c. 2 ^ c) (omega arith) ∙ pow_sum need (f.bitcnt - need) in
    let rest = k * little_endian (stream f.source) in
    let all : to_come b ≡ f.bitbuf + n * rest =
      sym filled.same
      ∙ (unfold to_come in
          rw split (ap (λ x. f.bitbuf + x) (mul_assoc n k (little_endian (stream f.source))))) in
    (
      rw all (sym (add-mul-mod_self_left f.bitbuf n rest)),
      rw all (unfold to_come in sym (add-mul-div_left f.bitbuf rest positive)),
      (div-lt_iff_lt-mul positive).1
          (let h : f.bitbuf < n * k = subst (λ x. f.bitbuf < x) split filled.held in grind arith),
    )
