-- ===== src/Deflate/Ends.antt =====
-- The loops of a deflate block of src/tuxpac/unpack.c end.
use bax_os_dev.Base.{
  ℕ, zero, suc, ◌+◌, ◌-◌, ◌*◌, ◌%◌, ◌^◌, ◌<◌, ◌≡◌, ◌≢◌, ◌⊎◌, refl, subst, arith, Bool, true, false,
  Bool-cases, inl, inr, Option, some, Option-cases, if-both, ◌||◌, not, ltb, leb, ◌==◌, get_or,
}
use bax_os_dev.Window.{Sink, put}
use bax_os_dev.Inflate.{BitReader, bits, decode}
use bax_os_dev.Deflate.{
  Inflate, is_bad, get_symbol, get_byte, match_of, codes, stored_from, stored, fixed, lext, dext,
}
use bax_os_dev.Deflate.Reads.{
  Reads, Reads-none, Reads-append, Reads-less, budget, bits_of, bits-Reads, decode-Reads,
  src_byte-less,
}

-- Enough fuel for a loop: more than there are bits, where the source is good.
abbrev pub Enough : ℕ → BitReader → Type 0
Enough fuel r = (0 < fuel) × ((r.source.bad ≡ true) ⊎ (budget r < fuel))

-- What a block's code ends with: it reads on from where it was, and a success is a good source.
pub data Ends (r : BitReader) (o : Option (Bool × Inflate)) : Type 0 where
  ends :
      (ok : Bool) (z : Inflate)
      → o ≡ some (ok, z)
      → Reads 0 r z.reader
      → (ok ≡ true → is_bad z ≡ false)
      → Ends r o

pub Ends-after :
    (r r' : BitReader) (o : Option (Bool × Inflate)) → Reads 0 r r' → Ends r' o → Ends r o
Ends-after r r' o f (ends ok z e g good) = ends ok z e (Reads-append 0 0 r r' z.reader f g) good

-- A block that fails.
pub fails :
    (r : BitReader) (z : Inflate) (o : Option (Bool × Inflate))
    → o ≡ some (false, z)
    → Reads 0 r z.reader
    → Ends r o
fails r z o e f = ends false z e f (λ t. absurd (false_ne_true t))
  where
    false_ne_true : false ≢ true
    false_ne_true t = ground (arith, t)

-- What is left after a bit is enough for a round less.
pub Enough-after :
    (fuel : ℕ) (r r' : BitReader)
    → Enough (suc fuel) r
    → Reads 1 r r'
    → r'.source.bad ≡ false
    → Enough fuel r'
Enough-after fuel r r' e f good = ground (arith, e, f.less, f.keeps, good)

pub Enough-less : (fuel : ℕ) (r r' : BitReader) → Enough fuel r → Reads 0 r r' → Enough fuel r'
Enough-less fuel r r' e f = ground (arith, e, f.less, f.keeps)

module _ (sink : Sink) where
  match_of-Reads : (sym : ℕ) (z : Inflate) → Reads 0 z.reader (match_of sink sym z).1.reader
  unfolding match_of
  match_of-Reads s z =
      let r1 = (bits (get_or lext s 0) z.reader).1 in
      let d = decode z.distcode r1 in
      let one : Reads 0 z.reader r1 =
        Reads-less (get_or lext s 0) 0 z.reader r1 (omega arith)
          (bits-Reads (get_or lext s 0) z.reader) in
      let two : Reads 0 z.reader d.1 =
        Reads-append 0 0 z.reader r1 d.1 one
          (Reads-less (bits_of d.0) 0 r1 d.1 (omega arith) (decode-Reads z.distcode r1)) in
      elim (Option-cases d.0) [
        | inl e ↦ rw (match_of, e) two
        | inr (k, e) ↦
            let r3 = (bits (get_or dext k 0) d.1).1 in
            let three : Reads 0 z.reader r3 = Reads-append 0 0 z.reader d.1 r3 two (
              Reads-less (get_or dext k 0) 0 d.1 r3 (omega arith)
                (bits-Reads (get_or dext k 0) d.1)) in
            elim (Bool-cases (leb 30 k)) [
              | inl f ↦ rw (match_of, e, f) two
              | inr f ↦ rw (match_of, e, f) three
            ]
      ]

  pub codes-Ends :
      (fuel : ℕ) (z : Inflate) → Enough fuel z.reader → Ends z.reader (codes sink fuel z)
  unfolding codes
  codes-Ends zero z e = absurd (omega arith)
  codes-Ends (suc fuel) z e =
      let d = decode z.lencode z.reader in
      let z1 = (get_symbol z.lencode z).1 in
      let read = decode-Reads z.lencode z.reader in
      let none_read = Reads-less (bits_of d.0) 0 z.reader d.1 (omega arith) read in
      elim (Option-cases d.0) [
        | inl n ↦ rw (codes, n) (fails z.reader z1 _ refl none_read)
        | inr (s, found) ↦
            let one : Reads 1 z.reader d.1 =
              subst (λ o. Reads (bits_of o) z.reader d.1) found read in
            let (ok, z3) = match_of sink (s - 257) z1 in
            let matched = match_of-Reads (s - 257) z1 in
            elim (Bool-cases (is_bad z1 || z1.window.wstop)) [
              | inl b ↦ rw (codes, found, b) (fails z.reader z1 _ refl none_read)
              | inr b ↦
                  let good : is_bad z1 ≡ false = ground (arith, b) in
                  let enough = Enough-after fuel z.reader d.1 e one good in
                  elim (Bool-cases (ltb s 256)) [
                    | inl lit ↦
                        rw (codes, found, b, lit)
                          (Ends-after z.reader d.1 _ none_read (
                            codes-Ends fuel (record z1 { window = put sink (s % 2 ^ 8) z1.window })
                              enough))
                    | inr lit ↦ elim (Bool-cases (s == 256)) [
                      | inl end ↦
                          rw (codes, found, b, lit, end) (ends true z1 refl none_read (λ _. good))
                      | inr end ↦ elim (Bool-cases (leb 29 (s - 257))) [
                        | inl far ↦
                            rw (codes, found, b, lit, end, far) (fails z.reader z1 _ refl none_read)
                        | inr far ↦ elim (Bool-cases (match_of sink (s - 257) z1).0) [
                          | inr stop ↦
                              rw (codes, found, b, lit, end, far, stop)
                                (fails z.reader z3 _ refl
                                  (Reads-append 0 0 z.reader d.1 z3.reader none_read matched))
                          | inl more ↦
                              rw (codes, found, b, lit, end, far, more)
                                (Ends-after z.reader z3.reader _
                                  (Reads-append 0 0 z.reader d.1 z3.reader none_read matched)
                                  (codes-Ends fuel z3
                                    (Enough-less fuel d.1 z3.reader enough matched)))
                        ]
                      ]
                    ]
                  ]
            ]
      ]

  get_byte-Reads : (z : Inflate) → Reads 0 z.reader (get_byte z).1.reader
  get_byte-Reads z =
      let (keeps, less) = src_byte-less z.reader.source in
      record { keeps = keeps; less = ground (arith, less) }

  stored_from-Reads : (len : ℕ) (z : Inflate) → Reads 0 z.reader (stored_from sink len z).reader
  unfolding stored_from
  stored_from-Reads zero z = Reads-none z.reader
  stored_from-Reads (suc len) z =
      let (b, z1) = get_byte z in
      if-both (λ w. Reads 0 z.reader w.reader) (is_bad z) z _ (Reads-none z.reader)
        (Reads-append 0 0 z.reader z1.reader _ (get_byte-Reads z)
          (stored_from-Reads len (record z1 { window = put sink b z1.window })))

  pub stored-Ends : (z : Inflate) → Ends z.reader (some (stored sink z))
  unfolding stored
  stored-Ends z0 =
      let z = record z0 { reader = record z0.reader { bitbuf = 0; bitcnt = 0 } } in
      let (l0, z1) = get_byte z in
      let (l1, z2) = get_byte z1 in
      let (n0, z3) = get_byte z2 in
      let (n1, z4) = get_byte z3 in
      let len = l0 % 2 ^ 8 + l1 % 2 ^ 8 * 2 ^ 8 in
      let nlen = n0 % 2 ^ 8 + n1 % 2 ^ 8 * 2 ^ 8 in
      let z5 = stored_from sink len z4 in
      let start : Reads 0 z0.reader z.reader = record {
        keeps = λ e. e;
        less = inr (omega arith);
      } in
      let two =
        Reads-append 0 0 z0.reader z1.reader z2.reader
          (Reads-append 0 0 z0.reader z.reader z1.reader start (get_byte-Reads z))
          (get_byte-Reads z1) in
      let four =
        Reads-append 0 0 z0.reader z3.reader z4.reader
          (Reads-append 0 0 z0.reader z2.reader z3.reader two (get_byte-Reads z2))
          (get_byte-Reads z3) in
      let all = Reads-append 0 0 z0.reader z4.reader z5.reader four (stored_from-Reads len z4) in
      elim (Bool-cases (len + nlen == 0xFFFF)) [
        | inr e ↦ rw (stored, e) (fails z0.reader z4 _ refl four)
        | inl e ↦ rw (stored, e) (ends (not (is_bad z5)) z5 refl all (λ g. ground (arith, g)))
      ]

  pub fixed-Ends :
      (fuel : ℕ) (z : Inflate) → Enough fuel z.reader → Ends z.reader (fixed sink fuel z)
  unfolding fixed
  fixed-Ends fuel z e = codes-Ends fuel _ e
