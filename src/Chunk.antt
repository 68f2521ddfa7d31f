-- ===== src/Chunk.antt =====
-- src/tuxpac/unpack.c, one LZMA chunk: literals and matches out of the range decoder, into the window.
pub mod Tokens
pub mod Output
pub mod Shrinks
use bax_os_dev.Base.{
  ℕ, zero, suc, ◌+◌, ◌-◌, ◌*◌, ◌/◌, ◌%◌, ◌^◌, Bool, true, false, not, ◌||◌, List, [], ◌∷◌, ◌++◌,
  take, drop, get_or, set, replicate, ltb, ◌==◌, if◌then◌else◌,
}
use bax_os_dev.Window.{Window, Sink, back, put, copy}
use bax_os_dev.Lzma.{Coder, wrap32, tree}
use bax_os_dev.Probs.{Probs, fresh_probs, bit_in, len_decode, literal_from, matched_from, distance}

-- `rep`
pub record Reps : Type 0 where
  pub rep0 : ℕ
  pub rep1 : ℕ
  pub rep2 : ℕ
  pub rep3 : ℕ

-- A chunk's state: `p`, the range decoder, `rep`, `lc`, `lp`, `pb`, `state`, and the window.
pub record Lzma : Type 0 where
  pub probs : Probs
  pub coder : Coder
  pub reps : Reps
  pub lc : ℕ
  pub lp : ℕ
  pub pb : ℕ
  pub state : ℕ
  pub window : Window

-- `lzma_reset`: each probability is 1024.
unfoldable pub lzma_reset : Lzma → Lzma
lzma_reset l = record l {
  probs = fresh_probs;
  reps = record { rep0 = 0; rep1 = 0; rep2 = 0; rep3 = 0 };
  state = 0;
}

-- `(unsigned)total & ((1u << bits) - 1)`
abbrev pub low_of_total : ℕ → Window → ℕ
low_of_total n w = wrap32 w.total % 2 ^ n

-- The index of `lit` in `p->lit`.
unfoldable pub literal_at : Lzma → ℕ
literal_at l =
    let prev = if ltb 0 l.window.total then back 1 l.window else 0 in
    0x300 * (low_of_total l.lp l.window * 2 ^ l.lc + prev / 2 ^ (8 - l.lc))

-- What a round of the chunk writes: a byte, or bytes again from a distance.
pub data Token : Type 0 where
  literal : ℕ → Token
  again : ℕ → ℕ → Token

-- The part of `lzma_chunk` for a literal.
unfoldable pub literal_token : Lzma → Token × Lzma
literal_token l =
    let at = literal_at l in
    let first =
      if ltb l.state 7
      then record { value = 1; probs = l.probs.lit; coder = l.coder }
      else matched_from 8 (back (wrap32 (l.reps.rep0 + 1)) l.window) 1 at l.probs.lit l.coder in
    let v = literal_from 8 first.value at first.probs first.coder in
    (
      literal (v.value % 2 ^ 8),
      record l {
        probs = record l.probs { lit = v.probs };
        coder = v.coder;
        state = if ltb l.state 4 then 0 else if ltb l.state 10 then l.state - 3 else l.state - 6;
      },
    )

-- A match at a new distance.
unfoldable pub match_token : ℕ → Lzma → Token × Lzma
match_token ps l =
    let (len, coder, c1) = len_decode ps l.probs.len l.coder in
    let i = if ltb len 3 then len else 3 in
    let slot = tree 6 (get_or l.probs.slot i []) c1 in
    let p = record l.probs { len = coder; slot = set l.probs.slot i slot.probs } in
    let (d, p', c2) = distance slot.value p slot.coder in
    let r = l.reps in
    (
      again (wrap32 (d + 1)) (len + 2),
      record l {
        probs = p';
        coder = c2;
        reps = record { rep0 = d; rep1 = r.rep0; rep2 = r.rep1; rep3 = r.rep2 };
        state = if ltb l.state 7 then 7 else 10;
      },
    )

-- A match at a distance used before, once it is known which and its length is to be decoded.
unfoldable pub length_token : ℕ → Lzma → Token × Lzma
length_token ps l =
    let (len, coder, c) = len_decode ps l.probs.rep_len l.coder in
    (
      again (wrap32 (l.reps.rep0 + 1)) (len + 2),
      record l {
        probs = record l.probs { rep_len = coder };
        coder = c;
        state = if ltb l.state 7 then 8 else 11;
      },
    )

-- The distances once an earlier one is used again, and which it is.
unfoldable pub older : Lzma → Lzma
older l =
    let p = l.probs in
    let r = l.reps in
    let v1 = bit_in l.state p.g1 l.coder in
    let v2 = bit_in l.state p.g2 v1.coder in
    let p1 = record p { g1 = v1.probs } in
    let p2 = record p1 { g2 = v2.probs } in
    if v1.value == 0
    then record l { probs = p1; coder = v1.coder; reps = record r { rep0 = r.rep1; rep1 = r.rep0 } }
    else if v2.value == 0
    then record l {
      probs = p2;
      coder = v2.coder;
      reps = record r { rep0 = r.rep2; rep1 = r.rep0; rep2 = r.rep1 };
    }
    else record l {
      probs = p2;
      coder = v2.coder;
      reps = record { rep0 = r.rep3; rep1 = r.rep0; rep2 = r.rep1; rep3 = r.rep2 };
    }

-- A match at a distance used before.
unfoldable pub rep_token : ℕ → Lzma → Token × Lzma
rep_token ps l =
    let p = l.probs in
    let v0 = bit_in l.state p.g0 l.coder in
    let p0 = record p { g0 = v0.probs } in
    let long = bit_in (l.state * 16 + ps) p.rep0_long v0.coder in
    let p1 = record p0 { rep0_long = long.probs } in
    if v0.value == 0
    then (if long.value == 0
        then (
          again (wrap32 (l.reps.rep0 + 1)) 1,
          record l { probs = p1; coder = long.coder; state = if ltb l.state 7 then 9 else 11 },
        )
        else length_token ps (record l { probs = p1; coder = long.coder }))
    else length_token ps (older (record l { probs = p0; coder = v0.coder }))

-- A round of `lzma_chunk` up to what it writes. No part of a round reads the window after that.
unfoldable pub next_token : Lzma → Token × Lzma
next_token l =
    let p = l.probs in
    let ps = low_of_total l.pb l.window in
    let v = bit_in (l.state * 16 + ps) p.is_match l.coder in
    let p1 = record p { is_match = v.probs } in
    let r = bit_in l.state p1.is_rep v.coder in
    let p2 = record p1 { is_rep = r.probs } in
    if v.value == 0
    then literal_token (record l { probs = p1; coder = v.coder })
    else if r.value == 0
    then match_token ps (record l { probs = p2; coder = r.coder })
    else rep_token ps (record l { probs = p2; coder = r.coder })

module _ (sink : Sink) where
  -- The loop of `lzma_chunk`: a round writes a byte at least, so `left` rounds are enough.
  unfoldable pub chunk_from : ℕ → ℕ → Lzma → Bool × Lzma
  chunk_from fuel zero l = (true, l)
  chunk_from zero (suc k) l = (false, l)
  chunk_from (suc fuel) (suc k) l =
      let (token, l') = next_token l in
      if l.coder.source.bad || l.window.wstop then (false, l) else elim token [
        | literal b ↦ chunk_from fuel k (record l' { window = put sink b l'.window })
        | again d n ↦
            let (ok, w) = copy sink d n l'.window in
            let rest = chunk_from fuel (suc k - n) (record l' { window = w }) in
            if ltb (suc k) n then (false, l') else if ok then rest else (false, l')
      ]

  -- `lzma_chunk`
  unfoldable pub lzma_chunk : ℕ → Lzma → Bool × Lzma
  lzma_chunk left l = chunk_from left left l
