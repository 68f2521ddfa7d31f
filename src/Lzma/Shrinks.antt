-- ===== src/Lzma/Shrinks.antt =====
-- Decoding in src/tuxpac/unpack.c never leaves the source with more to read.
use bax_os_dev.Base.{ℕ, zero, suc, ◌^◌, ◌≤◌, arith, List, get_or, if-both, ltb}
use bax_os_dev.Source.{Source, src_byte}
use bax_os_dev.Source.Shrinks.{left_in, src_byte-le}
use bax_os_dev.Lzma.{
  Coder, Decoded, shift_in, normalise, init_from, rc_init, bit, bound_of, tree_from, tree,
  rtree_from, rtree, direct_from, direct,
}

-- What a coder has left is no more than a number.
abbrev pub AtMost : ℕ → Coder → Type 0
AtMost n c = left_in c.source ≤ n

normalise-AtMost : (n : ℕ) (c : Coder) → AtMost n c → AtMost n (normalise c)
unfolding normalise
normalise-AtMost n c h =
    if-both (AtMost n) (ltb c.range (2 ^ 24)) _ c (omega (arith, h, src_byte-le c.source)) h

init_from-le : (n code : ℕ) (s : Source) → left_in (init_from n code s).1 ≤ left_in s
unfolding init_from
init_from-le zero code s = omega arith
init_from-le (suc n) code s =
    let (byte, s') = src_byte s in
    omega (arith, src_byte-le s, init_from-le n (shift_in code byte) s')

pub rc_init-AtMost : (n : ℕ) (s : Source) → left_in s ≤ n → AtMost n (rc_init s)
unfolding rc_init
rc_init-AtMost n s h = omega (arith, h, src_byte-le s, init_from-le 4 0 (src_byte s).1)

pub bit-AtMost : (n p : ℕ) (c : Coder) → AtMost n c → AtMost n (bit p c).coder
unfolding bit
bit-AtMost n p c h =
    if-both (λ (d : Decoded). AtMost n d.coder) (ltb c.code (bound_of c.range p)) _ _
      (normalise-AtMost n _ h) (normalise-AtMost n _ h)

tree_from-AtMost :
    (n k m : ℕ) (probs : List ℕ) (c : Coder) → AtMost n c → AtMost n (tree_from k m probs c).coder
unfolding tree_from
tree_from-AtMost n zero m probs c h = h
tree_from-AtMost n (suc k) m probs c h =
    tree_from-AtMost n k _ _ (bit (get_or probs m 0) c).coder (bit-AtMost n (get_or probs m 0) c h)

pub tree-AtMost :
    (n k : ℕ) (probs : List ℕ) (c : Coder) → AtMost n c → AtMost n (tree k probs c).coder
unfolding tree
tree-AtMost n k probs c h = tree_from-AtMost n k 1 probs c h

rtree_from-AtMost :
    (n k i m s : ℕ) (probs : List ℕ) (c : Coder)
    → AtMost n c
    → AtMost n (rtree_from k i m s probs c).coder
unfolding rtree_from
rtree_from-AtMost n zero i m s probs c h = h
rtree_from-AtMost n (suc k) i m s probs c h =
    rtree_from-AtMost n k _ _ _ _ (bit (get_or probs m 0) c).coder
      (bit-AtMost n (get_or probs m 0) c h)

pub rtree-AtMost :
    (n k : ℕ) (probs : List ℕ) (c : Coder) → AtMost n c → AtMost n (rtree k probs c).coder
unfolding rtree
rtree-AtMost n k probs c h = rtree_from-AtMost n k 0 1 0 probs c h

direct_from-AtMost : (n k r : ℕ) (c : Coder) → AtMost n c → AtMost n (direct_from k r c).1
unfolding direct_from
direct_from-AtMost n zero r c h = h
direct_from-AtMost n (suc k) r c h = direct_from-AtMost n k _ _ (normalise-AtMost n _ h)

pub direct-AtMost : (n k : ℕ) (c : Coder) → AtMost n c → AtMost n (direct k c).1
unfolding direct
direct-AtMost n k c h = direct_from-AtMost n k 0 c h
