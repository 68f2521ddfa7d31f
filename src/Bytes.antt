-- ===== src/Bytes.antt =====
-- src/kernel/string.c, the functions on blocks of memory. Memory is a byte for each address, and a
-- block ends before the last address.
pub mod Blocks
pub mod Moves
use bax_os_dev.Base.{
  ℕ, zero, suc, ◌+◌, ◌-◌, ◌*◌, ◌/◌, ◌%◌, ◌^◌, ◌&&◌, ◌||◌, ltb, leb, ◌==◌, if◌then◌else◌,
}

abbrev pub Memory : Type 0
Memory = ℕ → ℕ

-- `*a = b`
abbrev pub store : ℕ → ℕ → Memory → Memory
store a b m x = if x == a then b else m x

-- A byte of a uint64_t, the lowest first.
abbrev pub byte_of : ℕ → ℕ → ℕ
byte_of w i = w / 256 ^ i % 256

-- `*(uint64_t *)d = word`
abbrev pub store_word : ℕ → ℕ → Memory → Memory
store_word d w m x = if leb d x && ltb x (d + 8) then byte_of w (x - d) else m x

-- A block still to be done: where, how much, and the memory so far.
pub record Block : Type 0 where
  pub d : ℕ
  pub count : ℕ
  pub m : Memory

-- The bytes that `memset` sets one by one up to an address that words begin at.
unfoldable pub set_head : ℕ → ℕ → ℕ → Memory → Block
set_head b d zero m = record { d = d; count = 0; m = m }
set_head b d (suc n) m =
    let rest = set_head b (d + 1) n (store d b m) in
    if d % 8 == 0 then record { d = d; count = suc n; m = m } else rest

-- The words that `memset` sets; the fuel is the count.
unfoldable pub set_words : ℕ → ℕ → ℕ → ℕ → Memory → Block
set_words zero word d n m = record { d = d; count = n; m = m }
set_words (suc fuel) word d n m =
    let rest = set_words fuel word (d + 8) (n - 8) (store_word d word m) in
    if leb 8 n then rest else record { d = d; count = n; m = m }

-- The bytes left.
unfoldable pub set_bytes : ℕ → ℕ → ℕ → Memory → Memory
set_bytes b d zero m = m
set_bytes b d (suc n) m = set_bytes b (d + 1) n (store d b m)

-- `memset`
unfoldable pub memset : ℕ → ℕ → ℕ → Memory → Memory
memset dest value count m =
    let b = value % 256 in
    let head = set_head b dest count m in
    let words = set_words count (b * 0x0101010101010101) head.d head.count head.m in
    set_bytes b words.d words.count words.m

-- `memcmp`: the sign of what it returns is that of the first number less the second.
unfoldable pub memcmp_from : ℕ → ℕ → ℕ → Memory → ℕ × ℕ
memcmp_from a b zero m = (0, 0)
memcmp_from a b (suc n) m =
    let rest = memcmp_from (a + 1) (b + 1) n m in if m a == m b then rest else (m a, m b)

-- Eight bytes, all of them read before one is written.
abbrev pub copy_word : ℕ → ℕ → Memory → Memory
copy_word d s m x = if leb d x && ltb x (d + 8) then m (s + (x - d)) else m x

-- A block still to be copied.
pub record Copy : Type 0 where
  pub d : ℕ
  pub s : ℕ
  pub count : ℕ
  pub m : Memory

unfoldable pub copy_head : ℕ → ℕ → ℕ → Memory → Copy
copy_head d s zero m = record { d = d; s = s; count = 0; m = m }
copy_head d s (suc n) m =
    let rest = copy_head (d + 1) (s + 1) n (store d (m s) m) in
    if d % 8 == 0 then record { d = d; s = s; count = suc n; m = m } else rest

unfoldable pub copy_words : ℕ → ℕ → ℕ → ℕ → Memory → Copy
copy_words zero d s n m = record { d = d; s = s; count = n; m = m }
copy_words (suc fuel) d s n m =
    let rest = copy_words fuel (d + 8) (s + 8) (n - 8) (copy_word d s m) in
    if leb 8 n then rest else record { d = d; s = s; count = n; m = m }

unfoldable pub copy_bytes : ℕ → ℕ → ℕ → Memory → Memory
copy_bytes d s zero m = m
copy_bytes d s (suc n) m = copy_bytes (d + 1) (s + 1) n (store d (m s) m)

-- `memcpy`. `(d ^ s) & 7` is 0 where the two leave the same remainder.
unfoldable pub memcpy : ℕ → ℕ → ℕ → Memory → Memory
memcpy dest src count m =
    let head = copy_head dest src count m in
    let words = copy_words count head.d head.s head.count head.m in
    if dest % 8 == src % 8
    then copy_bytes words.d words.s words.count words.m
    else copy_bytes dest src count m

-- The loop of `memmove` that goes backwards.
unfoldable pub copy_back : ℕ → ℕ → ℕ → Memory → Memory
copy_back d s zero m = m
copy_back d s (suc n) m = copy_back d s n (store (d + n) (m (s + n)) m)

-- `memmove`
unfoldable pub memmove : ℕ → ℕ → ℕ → Memory → Memory
memmove dest src count m =
    if leb dest src || leb (src + count) dest
    then memcpy dest src count m
    else copy_back dest src count m
