-- ===== src/Lzma2/Ends.antt =====
-- The loop of `lzma2` of src/tuxpac/unpack.c ends on every source.
use bax_os_dev.Base.{
  ℕ, zero, suc, ◌+◌, ◌/◌, ◌%◌, ◌^◌, ◌≤◌, ◌<◌, arith, true, false, Bool, not, ◌||◌, ◌&&◌, Bool-cases,
  inl, inr, Option, none, some, if-both, ltb, leb, ◌==◌, if◌then◌else◌,
}
use bax_os_dev.Source.{Source, src_byte}
use bax_os_dev.Source.Shrinks.{left_in, src_byte-le, src_byte-less}
use bax_os_dev.Window.{Sink, put}
use bax_os_dev.Lzma.{rc_init}
use bax_os_dev.Lzma.Shrinks.{AtMost, rc_init-AtMost}
use bax_os_dev.Chunk.{Lzma, lzma_chunk, lzma_reset}
use bax_os_dev.Chunk.Shrinks.{lzma_chunk-AtMost}
use bax_os_dev.Lzma2.{
  with_window, take_byte, take_size, reset_total, skip_to, set_properties, stored_bytes,
  stored_chunk, packed_data, packed_chunk, chunk_of, chunks_from, lzma2,
}

-- What a decoder's source has left is no more than a number.
abbrev Within : ℕ → Lzma → Type 0
Within n l = AtMost n l.coder

-- A result, and no more left than that.
abbrev pub Ends : ℕ → Option (Bool × Lzma) → Type 0
Ends n none = ⊥
Ends n (some r) = left_in r.1.coder.source ≤ n

take_byte-Within : (n : ℕ) (l : Lzma) → Within n l → Within n (take_byte l).1
take_byte-Within n l h = omega (arith, h, src_byte-le l.coder.source)

take_size-Within : (n above : ℕ) (l : Lzma) → Within n l → Within n (take_size above l).1
take_size-Within n above l h = take_byte-Within n (take_byte l).1 (take_byte-Within n l h)

reset-Within : (n : ℕ) (resets : Bool) (l : Lzma) → Within n l → Within n (reset_total resets l)
reset-Within n resets l h = if-both (Within n) resets _ l h h

skip_to-le : (fuel end : ℕ) (s : Source) → left_in (skip_to fuel end s) ≤ left_in s
unfolding skip_to
skip_to-le zero end s = omega arith
skip_to-le (suc fuel) end s =
    if-both (λ x. left_in x ≤ left_in s) (ltb s.count end && not s.bad) _ s
      (omega (arith, src_byte-le s, skip_to-le fuel end (src_byte s).1)) (omega arith)

properties-Within : (n b : ℕ) (l : Lzma) → Within n l → Within n (set_properties b l).1
unfolding set_properties
properties-Within n b l h =
    let P : Bool × Lzma → Type 0 = λ r. Within n r.1 in if-both P (ltb 224 b) _ _ h h

module _ (sink : Sink) where
  stored_bytes-Within : (n k : ℕ) (l : Lzma) → Within n l → Within n (stored_bytes sink k l)
  unfolding stored_bytes
  stored_bytes-Within n zero l h = h
  stored_bytes-Within n (suc k) l h =
      let (b, l1) = take_byte l in
      if-both (Within n) l.coder.source.bad l _ h
        (stored_bytes-Within n k (with_window (put sink b l1.window) l1) (take_byte-Within n l h))

  stored_chunk-Within : (n c : ℕ) (l : Lzma) → Within n l → Within n (stored_chunk sink c l)
  unfolding stored_chunk
  stored_chunk-Within n c l h =
      let (k, l1) = take_size 0 l in
      stored_bytes-Within n k _ (reset-Within n (c == 1) l1 (take_size-Within n 0 l h))

  packed_data-Within : (n un pk : ℕ) (l : Lzma) → Within n l → Within n (packed_data sink un pk l).1
  unfolding packed_data
  packed_data-Within n un pk l h =
      let P : Bool × Lzma → Type 0 = λ r. Within n r.1 in
      let s = l.coder.source in
      let (ok, l1) = lzma_chunk sink un (record l { coder = rc_init s }) in
      let after : Within n l1 = lzma_chunk-AtMost sink n un _ (rc_init-AtMost n s h) in
      if-both P ok _ _ (omega (arith, after, skip_to-le pk (s.count + pk) l1.coder.source)) after

  packed_chunk-Within :
      (n c : ℕ) (props : Bool) (l : Lzma) → Within n l → Within n (packed_chunk sink c props l).2
  unfolding packed_chunk
  packed_chunk-Within n c props l h =
      let P : Bool × Bool × Lzma → Type 0 = λ r. Within n r.2 in
      let Q : Bool × Lzma → Type 0 = λ r. Within n r.1 in
      let l1 = (take_size (c % 2 ^ 5) l).1 in
      let l2 = (take_size 0 l1).1 in
      let reset = c / 2 ^ 5 % 4 in
      let l3 = reset_total (reset == 3) l2 in
      let (b, l4) = take_byte l3 in
      let third =
        reset-Within n (reset == 3) l2
          (take_size-Within n 0 l1 (take_size-Within n (c % 2 ^ 5) l h)) in
      let r5 = if leb 2 reset then set_properties b l4 else (true, l3) in
      let fifth : Within n r5.1 =
        if-both Q (leb 2 reset) _ _ (properties-Within n b l4 (take_byte-Within n l3 third))
          third in
      let l6 = if leb 1 reset then lzma_reset r5.1 else r5.1 in
      let sixth : Within n l6 =
        if-both (Within n) (leb 1 reset) _ _ (unfold lzma_reset in fifth) fifth in
      if-both P (r5.0 && (props || leb 2 reset)) _ _ (packed_data-Within n _ _ l6 sixth) fifth

  chunk_of-Within :
      (n c : ℕ) (props : Bool) (l : Lzma) → Within n l → Within n (chunk_of sink c props l).2
  unfolding chunk_of
  chunk_of-Within n c props l h =
      let P : Bool × Bool × Lzma → Type 0 = λ r. Within n r.2 in
      if-both P (c == 1 || c == 2) _ _ (stored_chunk-Within n c l h)
        (if-both P (ltb c 0x80) _ _ h (packed_chunk-Within n c props l h))

  chunks_from-Ends :
      (n fuel : ℕ) (props : Bool) (l : Lzma)
      → Within n l
      → left_in l.coder.source < fuel
      → Ends n (chunks_from sink fuel props l)
  unfolding chunks_from
  chunks_from-Ends n zero props l h enough = absurd (omega arith)
  chunks_from-Ends n (suc fuel) props l h enough =
      let (c, l1) = take_byte l in
      let (ok, props', l2) = chunk_of sink c props l1 in
      let first = take_byte-Within n l h in
      elim (Bool-cases (l1.coder.source.bad || l1.window.wstop)) [
        | inl e ↦ rw e first
        | inr e ↦
            let less : left_in l1.coder.source < left_in l.coder.source =
              ground (arith, e, src_byte-less l.coder.source) in
            let second = chunk_of-Within n c props l1 first in
            let shorter = chunk_of-Within (left_in l1.coder.source) c props l1 (omega arith) in
            rw e (
              if-both (Ends n) (c == 0) _ _ first (
                if-both (Ends n) ok _ _
                  (chunks_from-Ends n fuel props' l2 second (omega (arith, less, shorter, enough)))
                  second))
      ]

  pub lzma2-Ends :
      (n fuel : ℕ) (l : Lzma)
      → left_in l.coder.source ≤ n
      → left_in l.coder.source < fuel
      → Ends n (lzma2 sink fuel l)
  unfolding lzma2
  lzma2-Ends n fuel l h enough = chunks_from-Ends n fuel false l h enough
