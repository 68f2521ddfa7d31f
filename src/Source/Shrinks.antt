-- ===== src/Source/Shrinks.antt =====
-- Reading from a source of src/tuxpac/unpack.c never leaves it with more to read.
use bax_os_dev.Base.{
  ℕ, ◌≤◌, ◌<◌, ◌≡◌, refl, ◌⊎◌, inl, inr, arith, true, List, [], ◌∷◌, length, length-drop,
}
use bax_os_dev.Source.{Source, src_byte, src_read}
use bax_os_dev.Source.Stream.{stream, ReadsByte, src_byte-ReadsByte, src_read-ReadsAll}

-- How much a source still has.
abbrev pub left_in : Source → ℕ
left_in s = length (stream s)

pub src_byte-le : (s : Source) → length (stream (src_byte s).1) ≤ length (stream s)
src_byte-le s = go (stream s) (src_byte s) refl (src_byte-ReadsByte s)
  where
    go :
        (bs : List ℕ) (r : ℕ × Source)
        → stream s ≡ bs
        → ReadsByte s bs r
        → length (stream r.1) ≤ length (stream s)
    go [] (b, s') e h = rw (h.2, e) (omega arith)
    go (c ∷ rest) (b, s') e h = rw (h.1, e) (omega arith)

pub src_read-le : (n : ℕ) (s : Source) → length (stream (src_read n s).2) ≤ length (stream s)
src_read-le n s = rw ((src_read-ReadsAll n s).rest) (omega (arith, length-drop n (stream s)))

-- A byte is taken, or the source is found bad.
pub src_byte-less :
    (s : Source) → ((src_byte s).1.bad ≡ true) ⊎ (left_in (src_byte s).1 < left_in s)
src_byte-less s = go (stream s) (src_byte s) refl (src_byte-ReadsByte s)
  where
    go :
        (bs : List ℕ) (r : ℕ × Source)
        → stream s ≡ bs
        → ReadsByte s bs r
        → (r.1.bad ≡ true) ⊎ (left_in r.1 < left_in s)
    go [] (b, s') e h = inl h.1
    go (c ∷ rest) (b, s') e h = inr (rw (h.1, e) (omega arith))
