-- ===== src/Tests/Gunzip.antt =====
-- src/tuxpac/unpack.c: `gunzip` on a file of two stored blocks, and `unxz` and `lzma2` on stored chunks.
use bax_os_dev.Base.{ℕ, ◌≡◌, refl, arith, true, false, List, [], ◌∷◌, ◌++◌, replicate}
use bax_os_dev.Source.{Source}
use bax_os_dev.Source.Stream.{stream, joined}
use bax_os_dev.Window.{Sink}
use bax_os_dev.Window.Fed.{Has, onto, window_open-Goes}
use bax_os_dev.Chunk.{Lzma}
use bax_os_dev.Lzma2.{lzma2}
use bax_os_dev.Lzma2.Stored.{Stored, Unpacks, file_of, bytes_of, lzma2-Unpacks}
use bax_os_dev.Gunzip.{gunzip}
use bax_os_dev.Gunzip.Ends.{Returns, gunzip-Returns}
use bax_os_dev.Gunzip.Stored.{Delivers, gunzip-Delivers}
use bax_os_dev.Xz.{unxz, header_of, vli, vli_from, opened, window_size}
use bax_os_dev.Xz.Ends.{unxz-Returns}

abbrev takes_all : Sink
takes_all before bytes = true

takes_each : (before bytes : List ℕ) → takes_all before bytes ≡ true
takes_each before bytes = refl

-- The header, two stored blocks, and the first byte of the trailer.
abbrev file : Source
file = record {
  held = 0x1F ∷ 0x8B ∷ 8 ∷ 0 ∷ 0 ∷ 0 ∷ 0 ∷ 0 ∷ 0 ∷ 3 ∷ [];
  chunks =
      (0 ∷ 2 ∷ 0 ∷ 0xFD ∷ 0xFF ∷ b'h' ∷ b'i' ∷ []) ∷ (1 ∷ 1 ∷ 0 ∷ 0xFE ∷ 0xFF ∷ b'!' ∷ 7 ∷ []) ∷ [];
  count = 0;
  bad = false;
}

file-Has :
    Has
      (0x1F ∷ 0x8B ∷ 8 ∷ 0 ∷ 0 ∷ 0 ∷ 0 ∷ 0 ∷ 0 ∷ 3 ∷ 0 ∷ 2 ∷ 0 ∷ 0xFD ∷ 0xFF ∷ b'h' ∷ b'i' ∷ 1 ∷ 1
        ∷ 0 ∷ 0xFE ∷ 0xFF ∷ b'!' ∷ 7 ∷ [])
      file
unfolding stream joined
file-Has = record { stream = refl; sound = refl }

gunzip-Returns_example : Returns (gunzip takes_all 194 file)
unfolding stream joined
gunzip-Returns_example = gunzip-Returns takes_all 194 file (omega arith)

gunzip-Delivers_example : Delivers (b'h' ∷ b'i' ∷ b'!' ∷ []) (gunzip takes_all 2 file)
gunzip-Delivers_example =
    gunzip-Delivers takes_all takes_each 2 (0 ∷ 0 ∷ 0 ∷ 0 ∷ 0 ∷ 3 ∷ []) (b'h' ∷ b'i' ∷ [])
      ((b'!' ∷ []) ∷ []) (7 ∷ []) file (omega arith) (omega arith, omega arith) file-Has
      (omega arith)

abbrev chunks : List Stored
chunks =
    record { resets = true; bytes = b'o' ∷ b'k' ∷ [] }
    ∷ record { resets = false; bytes = b'.' ∷ [] }
    ∷ []

-- A decoder before two stored chunks, with a byte behind them.
abbrev start : Lzma
start = opened 4096 (record {
  held = 1 ∷ 0 ∷ 1 ∷ b'o' ∷ b'k' ∷ 2 ∷ 0 ∷ 0 ∷ b'.' ∷ 0 ∷ 9 ∷ [];
  chunks = [];
  count = 0;
  bad = false;
})

start-Has : Has (file_of chunks ++ (9 ∷ [])) start.coder.source
unfolding stream joined opened
start-Has = record { stream = refl; sound = refl }

lzma2-Unpacks_example : Unpacks (onto (bytes_of chunks) []) (9 ∷ []) (lzma2 takes_all 3 start)
unfolding opened
lzma2-Unpacks_example =
    lzma2-Unpacks takes_all takes_each 3 chunks [] (9 ∷ []) start
      ((omega arith, omega arith), ((omega arith, omega arith), tt)) start-Has
      (window_open-Goes 4096 (omega arith)) (omega arith)

-- One block of one stored chunk, and the index.
abbrev xz_file : Source
xz_file = record {
  held =
      0xFD ∷ b'7' ∷ b'z' ∷ b'X' ∷ b'Z' ∷ 0 ∷ 0 ∷ 0 ∷ 0 ∷ 0 ∷ 0 ∷ 0 ∷ 2 ∷ 0 ∷ 0x21 ∷ 1 ∷ 0 ∷ 0 ∷ 0
      ∷ 0 ∷ 0 ∷ 0 ∷ 0 ∷ 0 ∷ 1 ∷ 0 ∷ 1 ∷ b'o' ∷ b'k' ∷ 0 ∷ 0 ∷ 0 ∷ 0 ∷ [];
  chunks = [];
  count = 0;
  bad = false;
}

unxz-Returns_example : Returns (unxz takes_all 34 (replicate 1024 0) 0 xz_file)
unfolding stream joined
unxz-Returns_example = unxz-Returns takes_all 34 (replicate 1024 0) 0 xz_file (omega arith)

-- Two bytes of seven bits.
two_bytes : vli (0 ∷ 0 ∷ 0x81 ∷ 0x02 ∷ 5 ∷ []) 2 5 ≡ (257, 4)
unfolding vli vli_from
two_bytes = refl

-- The dictionary is no larger than the output, and no smaller than 4096.
smaller_window : window_size 10000 40 ≡ 10000
unfolding window_size
smaller_window = refl

read_header :
    header_of (0xFD ∷ 0xC0 ∷ 9 ∷ 0x81 ∷ 2 ∷ 0x21 ∷ 1 ∷ 22 ∷ []) 12
    ≡ record { size = 257; filter = 0x21; props = 1; dict = 22 }
unfolding header_of vli vli_from
read_header = refl
