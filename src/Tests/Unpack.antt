-- ===== src/Tests/Unpack.antt =====
-- src/tuxpac/unpack.c: a source in two chunks, a window of four bytes, and the range decoder.
use bax_os_dev.Base.{
  ◌<◌, ◌≡◌, refl, [], ◌∷◌, arith, true, false, leb, ltb, ◌&&◌, if◌then◌else◌, replicate,
}
use bax_os_dev.Source.{Source, refill, read_from, src_read}
use bax_os_dev.Source.Stream.{ReadsAll, src_read-ReadsAll}
use bax_os_dev.Window.{Window, Sink, window_open, put, flush, back, copy, copy_from, window_close}
use bax_os_dev.Window.History.{Holds, window_open-Holds, put-Holds, repeated, copy-Holds}
use bax_os_dev.Lzma.{Coder, bit, normalise, tree, tree_from}
use bax_os_dev.Probs.{fresh_probs, bit_in, literal_from}
use bax_os_dev.Chunk.{Lzma, lzma_chunk, chunk_from, next_token, literal_token, literal_at}
use bax_os_dev.Chunk.Output.{Writes, lzma_chunk-Writes}
use bax_os_dev.Lzma.Range.{InRange, IsProb, bit-InRange}
use bax_os_dev.Lzma.Trees.{AreProbs, Decodes, tree-Decodes}

abbrev two_chunks : Source
two_chunks = record { held = 1 ∷ []; chunks = (2 ∷ 3 ∷ []) ∷ (4 ∷ []) ∷ []; count = 0; bad = false }

across_chunks : (src_read 3 two_chunks).1 ≡ 1 ∷ 2 ∷ 3 ∷ []
unfolding src_read read_from refill
across_chunks = refl

src_read-ReadsAll_example : ReadsAll 3 two_chunks [] (src_read 3 two_chunks)
src_read-ReadsAll_example = src_read-ReadsAll 3 two_chunks

-- A sink that takes everything.
abbrev takes_all : Sink
takes_all before block = true

abbrev ab : Window
ab = put takes_all b'b' (put takes_all b'a' (window_open 4))

ab-Holds : Holds (b'b' ∷ b'a' ∷ []) ab
ab-Holds =
    put-Holds takes_all b'b' (b'a' ∷ []) (put takes_all b'a' (window_open 4))
      (put-Holds takes_all b'a' [] (window_open 4) (window_open-Holds 4 (omega arith)))

-- Five bytes from two back go round the window.
copy_runs :
    (window_close takes_all true false (copy takes_all 2 5 ab).1).1.sunk
    ≡ b'a' ∷ b'b' ∷ b'a' ∷ b'b' ∷ b'a' ∷ b'b' ∷ b'a' ∷ []
unfolding window_close copy copy_from put flush back window_open
copy_runs = refl

copy-Holds_example :
    let (ok, w) = copy takes_all 2 5 ab in
    (ok ≡ (ltb 0 2 && (leb 2 ab.total && leb 2 ab.wsize)))
    × Holds (if ok then repeated takes_all 2 5 (b'b' ∷ b'a' ∷ []) else b'b' ∷ b'a' ∷ []) w
copy-Holds_example = copy-Holds takes_all 2 5 (b'b' ∷ b'a' ∷ []) ab ab-Holds

closed : (window_close takes_all true false ab).0 ≡ true
unfolding window_close put flush window_open
closed = refl

abbrev coder : Coder
coder = record { range = 0xFFFF_FFFF; code = 0x1234_5678; source = two_chunks }

coder-InRange : InRange coder
coder-InRange = omega arith

bit-InRange_example :
    InRange (bit 1024 coder).coder × IsProb (bit 1024 coder).prob × ((bit 1024 coder).bit < 2)
bit-InRange_example = bit-InRange 1024 coder coder-InRange (omega arith)

eight-AreProbs : AreProbs (replicate 8 1024)
eight-AreProbs = omega arith

tree_runs : (tree 3 (replicate 8 1024) coder).value ≡ 0
unfolding tree tree_from bit normalise
tree_runs = refl

tree-Decodes_example :
    Decodes 8 (tree 3 (replicate 8 1024) coder) × ((tree 3 (replicate 8 1024) coder).value < 8)
tree-Decodes_example =
    tree-Decodes 3 (replicate 8 1024) coder eight-AreProbs coder-InRange (omega arith)

abbrev chunk : Lzma
chunk = record {
  probs = fresh_probs;
  coder = record coder { code = 0 };
  reps = record { rep0 = 0; rep1 = 0; rep2 = 0; rep3 = 0 };
  lc = 3;
  lp = 0;
  pb = 2;
  state = 0;
  window = ab;
}

lzma_chunk-Writes_example : Writes 1 (b'b' ∷ b'a' ∷ []) (lzma_chunk takes_all 1 chunk)
lzma_chunk-Writes_example = lzma_chunk-Writes takes_all 1 (b'b' ∷ b'a' ∷ []) chunk ab-Holds

-- A code of 0 is a literal of zeroes.
one_byte : (lzma_chunk takes_all 1 chunk).0 ≡ true
unfolding lzma_chunk chunk_from next_token literal_token literal_from literal_at bit_in bit
    normalise put flush window_open back
one_byte = refl
