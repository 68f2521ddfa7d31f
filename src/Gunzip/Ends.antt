-- ===== src/Gunzip/Ends.antt =====
-- `gunzip` of src/tuxpac/unpack.c ends on every source.
use mathlib.Core.Option
use bax_os_dev.Base.{
  ℕ, zero, suc, ◌+◌, ◌*◌, ◌^◌, ◌≤◌, ◌<◌, ◌≡◌, ◌⊎◌, refl, arith, true, false, Bool, Bool-cases, inl,
  inr, if-both, Option, none, some, length, get_or, ◌&&◌, ◌||◌, not, ◌==◌, if◌then◌else◌, bit_and,
}
use bax_os_dev.Source.{Source, src_byte, src_read}
use bax_os_dev.Source.Stream.{stream}
use bax_os_dev.Source.Shrinks.{src_byte-le, src_read-le}
use bax_os_dev.Window.{Sink}
use bax_os_dev.Inflate.{BitReader}
use bax_os_dev.Deflate.{Inflate, is_bad, get_bits}
use bax_os_dev.Deflate.Reads.{Reads, Reads-append, budget, bits-Reads, src_byte-less}
use bax_os_dev.Deflate.Ends.{Enough, Ends, ends, fails, stored-Ends, fixed-Ends}
use bax_os_dev.Dynamic.Ends.{dynamic-Ends}
use bax_os_dev.Gunzip.{block, blocks, skip_text, skip_if, skip_fields, inflate, gunzip}

-- Enough fuel for the blocks: one round more than for one block.
abbrev EnoughBlocks : ℕ → BitReader → Type 0
EnoughBlocks fuel r = (1 < fuel) × ((r.source.bad ≡ true) ⊎ (budget r + 1 < fuel))

-- A result, not fuel that has run out.
abbrev pub Returns : {A : Type 0} → Option A → Type 0
Returns none = ⊥
Returns (some a) = Unit {0}

-- A source with no more to read than another.
abbrev Shorter : Source → Option Source → Type 0
Shorter s none = ⊥
Shorter s (some s') = length (stream s') ≤ length (stream s)

Shorter-after :
    (s s' : Source) (o : Option Source)
    → length (stream s') ≤ length (stream s)
    → Shorter s' o
    → Shorter s o
Shorter-after s s' none le h = elim h [ ]
Shorter-after s s' (some s2) le h = omega (arith, le, h)

skip_text-Shorter :
    (fuel : ℕ) (s : Source) → length (stream s) < fuel → Shorter s (skip_text fuel s)
unfolding skip_text
skip_text-Shorter zero s h = absurd (omega arith)
skip_text-Shorter (suc fuel) s h =
    let (b, s') = src_byte s in
    let le = src_byte-le s in
    let less = (src_byte-less s).1 in
    elim (Bool-cases (b == 0 || s'.bad)) [
      | inl e ↦ rw e le
      | inr e ↦
          rw e (Shorter-after s s' _ le (skip_text-Shorter fuel s' (ground (arith, e, less, h))))
    ]

skip_if-Shorter :
    (flag : Bool) (fuel : ℕ) (s : Source)
    → length (stream s) < fuel
    → Shorter s (skip_if flag fuel s)
skip_if-Shorter true fuel s h = skip_text-Shorter fuel s h
skip_if-Shorter false fuel s h = omega arith

last_field :
    (flags : ℕ) (s : Source) (o : Option Source)
    → Shorter s o
    → Shorter s (elim o [
      | none ↦ none
      | some s6 ↦ let (_, _, s7) = src_read 2 s6 in some (if bit_and flags 2 == 0 then s6 else s7)
    ])
last_field flags s none h = h
last_field flags s (some s6) h =
    if-both (λ x. length (stream x) ≤ length (stream s)) (bit_and flags 2 == 0) s6 _ h
      (omega (arith, h, src_read-le 2 s6))

comment_field :
    (fuel flags : ℕ) (s : Source) (o : Option Source)
    → length (stream s) < fuel
    → Shorter s o
    → Shorter s (elim o [
      | none ↦ none
      | some s5 ↦ elim (skip_if (not (bit_and flags 16 == 0)) fuel s5) [
        | none ↦ none
        | some s6 ↦ let (_, _, s7) = src_read 2 s6 in some (if bit_and flags 2 == 0 then s6 else s7)
      ]
    ])
comment_field fuel flags s none lt h = h
comment_field fuel flags s (some s5) lt h =
    last_field flags s (skip_if (not (bit_and flags 16 == 0)) fuel s5) (
      Shorter-after s s5 _ h
        (skip_if-Shorter (not (bit_and flags 16 == 0)) fuel s5 (omega (arith, h, lt))))

skip_fields-Shorter :
    (fuel flags : ℕ) (s : Source) → length (stream s) < fuel → Shorter s (skip_fields fuel flags s)
unfolding skip_fields
skip_fields-Shorter fuel flags s h =
    let (n0, s1) = src_byte s in
    let (n1, s2) = src_byte s1 in
    let s3 = (src_read (n0 + n1 * 2 ^ 8) s2).2 in
    let s4 = if bit_and flags 4 == 0 then s else s3 in
    let le3 : length (stream s3) ≤ length (stream s) =
      omega (arith, src_byte-le s, src_byte-le s1, src_read-le (n0 + n1 * 2 ^ 8) s2) in
    let le4 : length (stream s4) ≤ length (stream s) =
      if-both (λ x. length (stream x) ≤ length (stream s)) (bit_and flags 4 == 0) s s3 (omega arith)
        le3 in
    comment_field fuel flags s (skip_if (not (bit_and flags 8 == 0)) fuel s4) h (
      Shorter-after s s4 _ le4
        (skip_if-Shorter (not (bit_and flags 8 == 0)) fuel s4 (omega (arith, h, le4))))

map-Returns : {A B : Type 0} (f : A → B) (o : Option A) → Returns o → Returns (Option.map f o)
map-Returns f none h = h
map-Returns f (some a) h = h

module _ (sink : Sink) where
  block-Ends :
      (fuel kind : ℕ) (z : Inflate) → Enough fuel z.reader → Ends z.reader (block sink fuel kind z)
  unfolding block
  block-Ends fuel kind z e = if-both (Ends z.reader) (kind == 0) _ _ (stored-Ends sink z) (
      if-both (Ends z.reader) (kind == 1) _ _ (fixed-Ends sink fuel z e) (
        if-both (Ends z.reader) (kind == 2) _ _ (dynamic-Ends sink fuel z e)
          (fails z.reader z _ refl (record { keeps = λ b. b; less = inr (omega arith) }))))

  -- What follows a block, given that the rest returns.
  next-Returns :
      (fuel last : ℕ) (o : Option (Bool × Inflate)) (r r2 : BitReader)
      → ((z : Inflate) → EnoughBlocks fuel z.reader → Returns (blocks sink fuel z))
      → EnoughBlocks (suc fuel) r
      → Reads 3 r r2
      → Ends r2 o
      → Returns (elim o [
        | none ↦ none
        | some (ok, z3) ↦
            let rest = blocks sink fuel z3 in if ok && last == 0 then rest else some (ok, z3)
      ])
  next-Returns fuel last o r r2 ih e three (ends ok z3 same f good) =
      rw same (elim (Bool-cases (ok && last == 0)) [
        | inr stop ↦ rw stop tt
        | inl more ↦
            let fine : is_bad z3 ≡ false = good (ground (arith, more)) in
            let all = Reads-append 3 0 r r2 z3.reader three f in
            rw more (ih z3 (ground (arith, e, all.less, all.keeps, fine)))
      ])

  blocks-Returns :
      (fuel : ℕ) (z : Inflate) → EnoughBlocks fuel z.reader → Returns (blocks sink fuel z)
  unfolding blocks
  blocks-Returns zero z e = absurd (omega arith)
  blocks-Returns (suc fuel) z e =
      let (last, z1) = get_bits 1 z in
      let (kind, z2) = get_bits 2 z1 in
      let three : Reads 3 z.reader z2.reader =
        Reads-append 1 2 z.reader z1.reader z2.reader (bits-Reads 1 z.reader)
          (bits-Reads 2 z1.reader) in
      let enough : Enough fuel z2.reader =
        (omega (arith, e.0), ground (arith, e, three.less, three.keeps)) in
      next-Returns fuel last (block sink fuel kind z2) z.reader z2.reader (blocks-Returns fuel) e
        three (block-Ends fuel kind z2 enough)

  inflate-Returns :
      (fuel : ℕ) (s : Source) → 8 * length (stream s) + 1 < fuel → Returns (inflate sink fuel s)
  unfolding inflate
  inflate-Returns fuel s h =
      map-Returns _ (blocks sink fuel _) (blocks-Returns fuel _ (omega arith, inr (omega arith)))

  fields-Returns :
      (fuel : ℕ) (s : Source) (o : Option Source)
      → Shorter s o
      → 8 * length (stream s) + 1 < fuel
      → Returns (elim o [ none ↦ none | some s' ↦ Option.map some (inflate sink fuel s') ])
  fields-Returns fuel s none h lt = h
  fields-Returns fuel s (some s') h lt =
      map-Returns some (inflate sink fuel s') (inflate-Returns fuel s' (omega (arith, h, lt)))

  -- With more fuel than 8 times the bytes of the source and 1, `gunzip` returns on every source
  -- and with every sink: the loops over the header's text, the blocks, the lengths of a dynamic
  -- block and the symbols all end.
  pub gunzip-Returns :
      (fuel : ℕ) (src : Source)
      → 8 * length (stream src) + 1 < fuel
      → Returns (gunzip sink fuel src)
  unfolding gunzip
  gunzip-Returns fuel src h =
      let (whole, h10, s) = src_read 10 src in
      let le = src_read-le 10 src in
      if-both Returns
        (not whole
          || not (get_or h10 0 0 == 0x1F)
          || (not (get_or h10 1 0 == 0x8B) || not (get_or h10 2 0 == 8)))
        (some none) _ tt
        (fields-Returns fuel s (skip_fields fuel (get_or h10 3 0) s)
          (skip_fields-Shorter fuel (get_or h10 3 0) s (omega (arith, h, le)))
          (omega (arith, h, le)))
