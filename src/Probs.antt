-- ===== src/Probs.antt =====
-- src/tuxpac/unpack.c, the probabilities of LZMA and what is decoded with a part of them.
use bax_os_dev.Base.{
  ℕ, zero, suc, ◌+◌, ◌-◌, ◌*◌, ◌/◌, ◌%◌, ◌^◌, not, ◌||◌, List, [], ◌++◌, take, drop, get_or, set,
  replicate, ltb, ◌==◌, if◌then◌else◌,
}
use bax_os_dev.Lzma.{Coder, Value, wrap32, bit, tree, rtree, direct}

-- `struct len_coder`
pub record LenCoder : Type 0 where
  pub choice : ℕ
  pub choice2 : ℕ
  pub low : List (List ℕ)
  pub mid : List (List ℕ)
  pub high : List ℕ

-- `struct lzma`
pub record Probs : Type 0 where
  pub is_match : List ℕ
  pub is_rep : List ℕ
  pub g0 : List ℕ
  pub g1 : List ℕ
  pub g2 : List ℕ
  pub rep0_long : List ℕ
  pub slot : List (List ℕ)
  pub pos : List ℕ
  pub align : List ℕ
  pub len : LenCoder
  pub rep_len : LenCoder
  pub lit : List ℕ

abbrev fresh_len : LenCoder
fresh_len = record {
  choice = 1024;
  choice2 = 1024;
  low = replicate 16 (replicate 8 1024);
  mid = replicate 16 (replicate 8 1024);
  high = replicate 256 1024;
}

-- What `lzma_reset` fills `struct lzma` with.
abbrev pub fresh_probs : Probs
fresh_probs = record {
  is_match = replicate 192 1024;
  is_rep = replicate 12 1024;
  g0 = replicate 12 1024;
  g1 = replicate 12 1024;
  g2 = replicate 12 1024;
  rep0_long = replicate 192 1024;
  slot = replicate 4 (replicate 64 1024);
  pos = replicate 115 1024;
  align = replicate 16 1024;
  len = fresh_len;
  rep_len = fresh_len;
  lit = replicate (0x300 * 16) 1024;
}

-- `bit(&probs[i])`
unfoldable pub bit_in : ℕ → List ℕ → Coder → Value
bit_in i probs c =
    let d = bit (get_or probs i 0) c in
    record { value = d.bit; probs = set probs i d.prob; coder = d.coder }

-- `len_decode`: the length, the coder of lengths from now on, and the range decoder.
unfoldable pub len_decode : ℕ → LenCoder → Coder → ℕ × LenCoder × Coder
len_decode ps l c =
    let d = bit l.choice c in
    let low = tree 3 (get_or l.low ps []) d.coder in
    let d2 = bit l.choice2 d.coder in
    let mid = tree 3 (get_or l.mid ps []) d2.coder in
    let high = tree 8 l.high d2.coder in
    let l1 = record l { choice = d.prob } in
    let l2 = record l1 { choice2 = d2.prob } in
    if d.bit == 0
    then (low.value, record l1 { low = set l.low ps low.probs }, low.coder)
    else if d2.bit == 0
    then (8 + mid.value, record l2 { mid = set l.mid ps mid.probs }, mid.coder)
    else (16 + high.value, record l2 { high = high.probs }, high.coder)

-- The loop `while (s < 0x100)`; a round doubles `s`, and eight are enough.
unfoldable pub literal_from : ℕ → ℕ → ℕ → List ℕ → Coder → Value
literal_from zero s at lit c = record { value = s; probs = lit; coder = c }
literal_from (suc fuel) s at lit c =
    let v = bit_in (at + s) lit c in
    let rest = literal_from fuel (s * 2 + v.value) at v.probs v.coder in
    if ltb s 0x100 then rest else record { value = s; probs = lit; coder = c }

-- The loop that decodes a literal beside the byte `match` that the last match would go on with, to
-- the first bit that differs.
unfoldable pub matched_from : ℕ → ℕ → ℕ → ℕ → List ℕ → Coder → Value
matched_from zero match s at lit c = record { value = s; probs = lit; coder = c }
matched_from (suc fuel) match s at lit c =
    let m = match / 2 ^ 7 % 2 in
    let v = bit_in (at + ((1 + m) * 2 ^ 8 + s)) lit c in
    let s' = s * 2 + v.value in
    let rest = matched_from fuel (match * 2) s' at v.probs v.coder in
    if not (m == v.value) || not (ltb s' 0x100) then record v { value = s' } else rest

-- The distance of a new match, given its slot.
unfoldable pub distance : ℕ → Probs → Coder → ℕ × Probs × Coder
distance slot p c =
    let nb = slot / 2 - 1 in
    let d = (2 + slot % 2) * 2 ^ nb in
    let near = rtree nb (drop (d - slot) p.pos) c in
    let (high, c') = direct (nb - 4) c in
    let far = rtree 4 p.align c' in
    if ltb slot 4
    then (slot, p, c)
    else if ltb slot 14
    then (
      wrap32 (d + near.value),
      record p { pos = take (d - slot) p.pos ++ near.probs },
      near.coder,
    )
    else (wrap32 (d + high * 16 + far.value), record p { align = far.probs }, far.coder)
