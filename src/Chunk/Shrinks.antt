-- ===== src/Chunk/Shrinks.antt =====
-- A chunk of src/tuxpac/unpack.c never leaves the source with more to read.
use bax_os_dev.Base.{
  ℕ, zero, suc, ◌+◌, ◌-◌, ◌*◌, ◌/◌, ◌%◌, ◌^◌, Bool, false, not, ◌||◌, List, [], get_or, drop,
  if-both, ltb, ◌==◌, if◌then◌else◌,
}
use bax_os_dev.Window.{Sink, back, put, copy}
use bax_os_dev.Lzma.{Coder, Value, wrap32, direct, bit}
use bax_os_dev.Lzma.Shrinks.{AtMost, bit-AtMost, tree-AtMost, rtree-AtMost, direct-AtMost}
use bax_os_dev.Probs.{Probs, LenCoder, bit_in, len_decode, literal_from, matched_from, distance}
use bax_os_dev.Chunk.{
  Lzma, Token, literal, again, low_of_total, literal_at, literal_token, match_token, length_token,
  older, rep_token, next_token, chunk_from, lzma_chunk,
}

bit_in-AtMost :
    (n i : ℕ) (probs : List ℕ) (c : Coder) → AtMost n c → AtMost n (bit_in i probs c).coder
unfolding bit_in
bit_in-AtMost n i probs c h = bit-AtMost n (get_or probs i 0) c h

len_decode-AtMost :
    (n ps : ℕ) (l : LenCoder) (c : Coder) → AtMost n c → AtMost n (len_decode ps l c).2
unfolding len_decode
len_decode-AtMost n ps l c h =
    let P : ℕ × LenCoder × Coder → Type 0 = λ r. AtMost n r.2 in
    let d = bit l.choice c in
    let d2 = bit l.choice2 d.coder in
    let one = bit-AtMost n l.choice c h in
    let two = bit-AtMost n l.choice2 d.coder one in
    if-both P (d.bit == 0) _ _ (tree-AtMost n 3 (get_or l.low ps []) d.coder one) (
      if-both P (d2.bit == 0) _ _ (tree-AtMost n 3 (get_or l.mid ps []) d2.coder two)
        (tree-AtMost n 8 l.high d2.coder two))

literal_from-AtMost :
    (n fuel s at : ℕ) (lit : List ℕ) (c : Coder)
    → AtMost n c
    → AtMost n (literal_from fuel s at lit c).coder
unfolding literal_from
literal_from-AtMost n zero s at lit c h = h
literal_from-AtMost n (suc fuel) s at lit c h =
    let v = bit_in (at + s) lit c in
    if-both (λ (v : Value). AtMost n v.coder) (ltb s 0x100) _ _
      (literal_from-AtMost n fuel (s * 2 + v.value) at v.probs v.coder
        (bit_in-AtMost n (at + s) lit c h))
      h

matched_from-AtMost :
    (n fuel match s at : ℕ) (lit : List ℕ) (c : Coder)
    → AtMost n c
    → AtMost n (matched_from fuel match s at lit c).coder
unfolding matched_from
matched_from-AtMost n zero match s at lit c h = h
matched_from-AtMost n (suc fuel) match s at lit c h =
    let m = match / 2 ^ 7 % 2 in
    let i = at + ((1 + m) * 2 ^ 8 + s) in
    let v = bit_in i lit c in
    let s' = s * 2 + v.value in
    let one = bit_in-AtMost n i lit c h in
    if-both (λ (v : Value). AtMost n v.coder) (not (m == v.value) || not (ltb s' 0x100)) _ _ one
      (matched_from-AtMost n fuel (match * 2) s' at v.probs v.coder one)

distance-AtMost : (n slot : ℕ) (p : Probs) (c : Coder) → AtMost n c → AtMost n (distance slot p c).2
unfolding distance
distance-AtMost n slot p c h =
    let P : ℕ × Probs × Coder → Type 0 = λ r. AtMost n r.2 in
    let nb = slot / 2 - 1 in
    let d = (2 + slot % 2) * 2 ^ nb in
    let c' = (direct (nb - 4) c).1 in
    if-both P (ltb slot 4) _ _ h (
      if-both P (ltb slot 14) _ _ (rtree-AtMost n nb (drop (d - slot) p.pos) c h)
        (rtree-AtMost n 4 p.align c' (direct-AtMost n (nb - 4) c h)))

-- The same of what a round leaves.
abbrev TokenAtMost : ℕ → Token × Lzma → Type 0
TokenAtMost n t = AtMost n t.1.coder

literal_token-AtMost : (n : ℕ) (l : Lzma) → AtMost n l.coder → TokenAtMost n (literal_token l)
unfolding literal_token
literal_token-AtMost n l h =
    let at = literal_at l in
    let match = back (wrap32 (l.reps.rep0 + 1)) l.window in
    let first =
      if ltb l.state 7
      then record { value = 1; probs = l.probs.lit; coder = l.coder }
      else matched_from 8 match 1 at l.probs.lit l.coder in
    literal_from-AtMost n 8 first.value at first.probs first.coder (
      if-both (λ (v : Value). AtMost n v.coder) (ltb l.state 7) _ _ h
        (matched_from-AtMost n 8 match 1 at l.probs.lit l.coder h))

match_token-AtMost : (n ps : ℕ) (l : Lzma) → AtMost n l.coder → TokenAtMost n (match_token ps l)
unfolding match_token
match_token-AtMost n ps l h =
    distance-AtMost n _ _ _ (tree-AtMost n 6 _ _ (len_decode-AtMost n ps l.probs.len l.coder h))

length_token-AtMost : (n ps : ℕ) (l : Lzma) → AtMost n l.coder → TokenAtMost n (length_token ps l)
unfolding length_token
length_token-AtMost n ps l h = len_decode-AtMost n ps l.probs.rep_len l.coder h

older-AtMost : (n : ℕ) (l : Lzma) → AtMost n l.coder → AtMost n (older l).coder
unfolding older
older-AtMost n l h =
    let P : Lzma → Type 0 = λ l. AtMost n l.coder in
    let v1 = bit_in l.state l.probs.g1 l.coder in
    let v2 = bit_in l.state l.probs.g2 v1.coder in
    let one = bit_in-AtMost n l.state l.probs.g1 l.coder h in
    let two = bit_in-AtMost n l.state l.probs.g2 v1.coder one in
    if-both P (v1.value == 0) _ _ one (if-both P (v2.value == 0) _ _ two two)

rep_token-AtMost : (n ps : ℕ) (l : Lzma) → AtMost n l.coder → TokenAtMost n (rep_token ps l)
unfolding rep_token
rep_token-AtMost n ps l h =
    let p = l.probs in
    let v0 = bit_in l.state p.g0 l.coder in
    let long = bit_in (l.state * 16 + ps) p.rep0_long v0.coder in
    let one = bit_in-AtMost n l.state p.g0 l.coder h in
    let two = bit_in-AtMost n (l.state * 16 + ps) p.rep0_long v0.coder one in
    if-both (TokenAtMost n) (v0.value == 0) _ _
      (if-both (TokenAtMost n) (long.value == 0) _ _ two (length_token-AtMost n ps _ two))
      (length_token-AtMost n ps _ (older-AtMost n _ one))

next_token-AtMost : (n : ℕ) (l : Lzma) → AtMost n l.coder → TokenAtMost n (next_token l)
unfolding next_token
next_token-AtMost n l h =
    let p = l.probs in
    let ps = low_of_total l.pb l.window in
    let i = l.state * 16 + ps in
    let v = bit_in i p.is_match l.coder in
    let r = bit_in l.state p.is_rep v.coder in
    let one = bit_in-AtMost n i p.is_match l.coder h in
    let two = bit_in-AtMost n l.state p.is_rep v.coder one in
    if-both (TokenAtMost n) (v.value == 0) _ _ (literal_token-AtMost n _ one) (
      if-both (TokenAtMost n) (r.value == 0) _ _ (match_token-AtMost n ps _ two)
        (rep_token-AtMost n ps _ two))

-- The same of what a chunk leaves.
abbrev pub ChunkAtMost : ℕ → Bool × Lzma → Type 0
ChunkAtMost n r = AtMost n r.1.coder

module _ (sink : Sink) where
  write-AtMost :
      (n fuel k : ℕ) (t : Token) (l' : Lzma)
      → ((k : ℕ) (l : Lzma) → AtMost n l.coder → ChunkAtMost n (chunk_from sink fuel k l))
      → AtMost n l'.coder
      → ChunkAtMost n (elim t [
        | literal b ↦ chunk_from sink fuel k (record l' { window = put sink b l'.window })
        | again d m ↦
            let (ok, w) = copy sink d m l'.window in
            let rest = chunk_from sink fuel (suc k - m) (record l' { window = w }) in
            if ltb (suc k) m then (false, l') else if ok then rest else (false, l')
      ])
  write-AtMost n fuel k (literal b) l' ih h = ih k (record l' { window = put sink b l'.window }) h
  write-AtMost n fuel k (again d m) l' ih h =
      let (ok, w) = copy sink d m l'.window in
      if-both (ChunkAtMost n) (ltb (suc k) m) _ _ h
        (if-both (ChunkAtMost n) ok _ _ (ih (suc k - m) (record l' { window = w }) h) h)

  chunk_from-AtMost :
      (n fuel k : ℕ) (l : Lzma) → AtMost n l.coder → ChunkAtMost n (chunk_from sink fuel k l)
  unfolding chunk_from
  chunk_from-AtMost n fuel zero l h = h
  chunk_from-AtMost n zero (suc k) l h = h
  chunk_from-AtMost n (suc fuel) (suc k) l h =
      let (token, l') = next_token l in
      if-both (ChunkAtMost n) (l.coder.source.bad || l.window.wstop) _ _ h
        (write-AtMost n fuel k token l' (chunk_from-AtMost n fuel) (next_token-AtMost n l h))

  pub lzma_chunk-AtMost :
      (n left : ℕ) (l : Lzma) → AtMost n l.coder → ChunkAtMost n (lzma_chunk sink left l)
  unfolding lzma_chunk
  lzma_chunk-AtMost n left l h = chunk_from-AtMost n left left l h
