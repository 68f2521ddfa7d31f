-- ===== src/Xz/Ends.antt =====
-- `unxz` of src/tuxpac/unpack.c ends on every source.
use bax_os_dev.Base.{
  ℕ, zero, suc, ◌+◌, ◌-◌, ◌*◌, ◌%◌, ◌^◌, ◌≤◌, ◌<◌, ◌≡◌, refl, ◌⊎◌, arith, false, Bool, not, ◌||◌,
  Bool-cases, inl, inr, Option, none, some, List, ◌++◌, take, drop, length, get_or, if-both, ltb,
  ◌==◌, if◌then◌else◌,
}
use bax_os_dev.Source.{Source, src_byte, src_read}
use bax_os_dev.Source.Stream.{stream}
use bax_os_dev.Source.Shrinks.{left_in, src_byte-le, src_byte-less, src_read-le}
use bax_os_dev.Window.{Sink}
use bax_os_dev.Chunk.{Lzma}
use bax_os_dev.Lzma2.{with_source, lzma2}
use bax_os_dev.Lzma2.Ends.{Ends, lzma2-Ends}
use bax_os_dev.Gunzip.Ends.{Returns}
use bax_os_dev.Xz.{
  Unxz, Header, header_of, window_size, opened, decoder, pad_from, block_data, xz_block, xz_blocks,
  is_xz, check_size_of, finish, unxz,
}

pad_from-le : (fuel start : ℕ) (s : Source) → left_in (pad_from fuel start s) ≤ left_in s
unfolding pad_from
pad_from-le zero start s = omega arith
pad_from-le (suc fuel) start s =
    if-both (λ x. left_in x ≤ left_in s) ((s.count - start) % 4 == 0 || s.bad) s _ (omega arith)
      (omega (arith, src_byte-le s, pad_from-le fuel start (src_byte s).1))

-- A block's result, and no more left than a number.
abbrev BlockEnds : ℕ → Option (Bool × Bool × Unxz) → Type 0
BlockEnds n none = ⊥
BlockEnds n (some r) = left_in r.2.source ≤ n

decoder_lem : (d : Header) (x : Unxz) → (decoder d x).coder.source ≡ x.source
unfolding decoder opened
decoder_lem d x = go x.work
  where
    go :
        (w : Option Lzma)
        → let l : Lzma = elim w [
          | none ↦ opened (window_size (if x.size == 0 then d.size else x.size) d.dict) x.source
          | some l ↦ with_source x.source l
        ] in
          l.coder.source ≡ x.source
    go none = refl
    go (some l) = refl

module _ (sink : Sink) where
  result-BlockEnds :
      (n check_size start : ℕ) (d : Header) (x : Unxz) (r : Option (Bool × Lzma))
      → Ends n r
      → BlockEnds n (elim r [
        | none ↦ none
        | some (ok, l) ↦
            let size = if x.size == 0 then d.size else x.size in
            let padded = pad_from 3 start l.coder.source in
            let (_, _, after) = src_read check_size padded in
            some (
              ok,
              ok,
              record x {
                source = if ok then after else l.coder.source;
                size = (elim x.work [ none ↦ size | some w ↦ x.size ]);
                work = some l;
              },
            )
      ])
  result-BlockEnds n check_size start d x none h = h
  result-BlockEnds n check_size start d x (some (ok, l)) h =
      let padded = pad_from 3 start l.coder.source in
      if-both (λ s. left_in s ≤ n) ok _ _
        (omega (arith, h, pad_from-le 3 start l.coder.source, src_read-le check_size padded)) h

  block_data-Ends :
      (n fuel check_size start : ℕ) (d : Header) (x : Unxz)
      → left_in x.source ≤ n
      → left_in x.source < fuel
      → BlockEnds n (block_data sink fuel check_size start d x)
  unfolding block_data
  block_data-Ends n fuel check_size start d x h enough =
      let e = decoder_lem d x in
      result-BlockEnds n check_size start d x (lzma2 sink fuel (decoder d x))
        (lzma2-Ends sink n fuel (decoder d x) (rw e h) (rw e enough))

  -- A block that the loop goes on after has taken a byte.
  abbrev Goes : ℕ → Option (Bool × Bool × Unxz) → Type 0
  Goes n none = ⊥
  Goes n (some r) = (r.0 ≡ false) ⊎ (left_in r.2.source < n)

  Goes-less : (k n : ℕ) (r : Option (Bool × Bool × Unxz)) → BlockEnds k r → k < n → Goes n r
  Goes-less k n none h lt = h
  Goes-less k n (some r) h lt = inr (omega (arith, h, lt))

  xz_block-Goes :
      (fuel check_size : ℕ) (x : Unxz)
      → left_in x.source ≤ fuel
      → Goes (left_in x.source) (xz_block sink fuel check_size x)
  unfolding xz_block
  xz_block-Goes fuel check_size x enough =
      let n = left_in x.source in
      let start = x.source.count in
      let (hb, s1) = src_byte x.source in
      let hs = (hb + 1) * 4 in
      let (whole, bytes, s2) = src_read (hs - 1) s1 in
      let h = take 1 x.buffer ++ (bytes ++ drop (1 + length bytes) x.buffer) in
      let x2 = record x { source = s2; buffer = h } in
      let d = header_of h hs in
      let le = src_read-le (hs - 1) s1 in
      elim (Bool-cases (s1.bad || hb == 0)) [
        | inl e ↦ rw e (inl refl)
        | inr e ↦
            let less : left_in s1 < n = ground (arith, e, src_byte-less x.source) in
            rw e (
              if-both (Goes n) (not whole || not (get_or h 1 0 % 4 == 0)) _ _ (inl refl) (
                if-both (Goes n) (not (d.filter == 0x21) || (not (d.props == 1) || ltb 40 d.dict)) _
                  _ (inl refl)
                  (Goes-less (left_in s2) n _
                    (block_data-Ends (left_in s2) fuel check_size start d x2 (omega arith)
                      (omega (arith, less, le, enough)))
                    (omega (arith, less, le)))))
      ]

  -- What follows a block, given that the rest returns.
  next_block :
      (n fuel check_size : ℕ) (r : Option (Bool × Bool × Unxz))
      → ((x : Unxz) → left_in x.source < fuel → Returns (xz_blocks sink fuel check_size x))
      → n ≤ fuel
      → Goes n r
      → Returns (elim r [
        | none ↦ none
        | some (goes_on, ok, x') ↦
            let rest = xz_blocks sink fuel check_size x' in if goes_on then rest else some (ok, x')
      ])
  next_block n fuel check_size none ih le h = h
  next_block n fuel check_size (some (goes_on, ok, x')) ih le (inl e) = rw e tt
  next_block n fuel check_size (some (goes_on, ok, x')) ih le (inr lt) =
      if-both Returns goes_on _ _ (ih x' (omega (arith, le, lt))) tt

  xz_blocks-Returns :
      (fuel check_size : ℕ) (x : Unxz)
      → left_in x.source < fuel
      → Returns (xz_blocks sink fuel check_size x)
  unfolding xz_blocks
  xz_blocks-Returns zero check_size x h = absurd (omega arith)
  xz_blocks-Returns (suc fuel) check_size x h =
      next_block (left_in x.source) fuel check_size (xz_block sink fuel check_size x)
        (xz_blocks-Returns fuel check_size) (omega arith)
        (xz_block-Goes fuel check_size x (omega arith))

  finish_lem :
      (r : Option (Bool × Unxz))
      → Returns r
      → Returns (elim r [ none ↦ none | some r ↦ some (finish sink r) ])
  finish_lem none h = h
  finish_lem (some r) h = tt

  -- With more fuel than the source has bytes, `unxz` returns on every source, with every sink and
  -- whatever its buffer held: the loops over the blocks and over the chunks of each end.
  pub unxz-Returns :
      (fuel : ℕ) (buffer : List ℕ) (size : ℕ) (src : Source)
      → length (stream src) < fuel
      → Returns (unxz sink fuel buffer size src)
  unfolding unxz
  unxz-Returns fuel buffer size src lt =
      let (whole, got, s) = src_read 12 src in
      let h = got ++ drop (length got) buffer in
      let x : Unxz = record { source = s; buffer = h; size = size; work = none } in
      let check_size = check_size_of (get_or h 7 0 % 2 ^ 4) in
      if-both Returns (not whole || not (is_xz h)) _ _ tt (
        finish_lem (xz_blocks sink fuel check_size x)
          (xz_blocks-Returns fuel check_size x (omega (arith, src_read-le 12 src, lt))))
