-- ===== src/Bytes/Blocks.antt =====
-- `memset` of src/kernel/string.c sets its block and nothing else.
use bax_os_dev.Base.{
  ℕ, zero, suc, ◌+◌, ◌-◌, ◌*◌, ◌%◌, ◌≤◌, ◌<◌, ◌≡◌, refl, subst, arith, Bool-cases, inl, inr, Bool,
  ◌&&◌, ltb, leb, ◌==◌, if◌then◌else◌,
}
use bax_os_dev.Bytes.{
  Memory, Block, store, store_word, byte_of, set_head, set_words, set_bytes, memset,
}

-- Whether an address is in a block.
abbrev pub inside : ℕ → ℕ → ℕ → Bool
inside d n x = leb d x && ltb x (d + n)

-- A block holds a byte throughout, and the rest of the memory is as it was.
abbrev pub Filled : ℕ → ℕ → ℕ → Memory → Memory → Type 0
Filled b d n m after = (x : ℕ) → after x ≡ (if inside d n x then b else m x)

Filled-append :
    (b d n k : ℕ) (m m1 m2 : Memory)
    → Filled b d n m m1
    → Filled b (d + n) k m1 m2
    → Filled b d (n + k) m m2
Filled-append b d n k m m1 m2 f g x = rw (g x, f x) (ground arith)

Filled-store : (b d : ℕ) (m : Memory) → Filled b d 1 m (store d b m)
Filled-store b d m x = ground arith

word_byte : (b i : ℕ) → b < 256 → i < 8 → byte_of (b * 0x0101010101010101) i ≡ b
word_byte b zero lt small = omega arith
word_byte b (suc zero) lt small = omega arith
word_byte b (suc (suc zero)) lt small = omega arith
word_byte b (suc (suc (suc zero))) lt small = omega arith
word_byte b (suc (suc (suc (suc zero)))) lt small = omega arith
word_byte b (suc (suc (suc (suc (suc zero))))) lt small = omega arith
word_byte b (suc (suc (suc (suc (suc (suc zero)))))) lt small = omega arith
word_byte b (suc (suc (suc (suc (suc (suc (suc zero))))))) lt small = omega arith
word_byte b (suc (suc (suc (suc (suc (suc (suc (suc i)))))))) lt small = absurd (omega arith)

Filled-word :
    (b d : ℕ) (m : Memory) → b < 256 → Filled b d 8 m (store_word d (b * 0x0101010101010101) m)
Filled-word b d m lt x = elim (Bool-cases (inside d 8 x)) [
  | inl e ↦ rw e (word_byte b (x - d) lt (ground (arith, e)))
  | inr e ↦ rw e refl
]

-- A part of a block that is done, from the front.
abbrev Part : ℕ → ℕ → ℕ → Memory → Block → Type 0
Part b d n m r = (k : ℕ) × (r.d ≡ d + k) × (r.count + k ≡ n) × Filled b d k m r.m

set_head-Part : (b d n : ℕ) (m : Memory) → Part b d n m (set_head b d n m)
unfolding set_head
set_head-Part b d zero m = (0, omega arith, omega arith, λ x. ground arith)
set_head-Part b d (suc n) m = elim (Bool-cases (d % 8 == 0)) [
  | inl e ↦ rw e (0, omega arith, omega arith, λ x. ground arith)
  | inr e ↦
      let (k, at, left, f) = set_head-Part b (d + 1) n (store d b m) in
      rw e (
        1 + k,
        omega (arith, at),
        omega (arith, left),
        Filled-append b d 1 k m (store d b m) _ (Filled-store b d m) f,
      )
]

set_words-Part :
    (fuel b d n : ℕ) (m : Memory)
    → b < 256
    → Part b d n m (set_words fuel (b * 0x0101010101010101) d n m)
unfolding set_words
set_words-Part zero b d n m lt = (0, omega arith, omega arith, λ x. ground arith)
set_words-Part (suc fuel) b d n m lt = elim (Bool-cases (leb 8 n)) [
  | inr e ↦ rw e (0, omega arith, omega arith, λ x. ground arith)
  | inl e ↦
      let word = b * 0x0101010101010101 in
      let (k, at, left, f) = set_words-Part fuel b (d + 8) (n - 8) (store_word d word m) lt in
      let enough : 8 ≤ n = ground (arith, e) in
      rw e (
        8 + k,
        omega (arith, at),
        omega (arith, left, enough),
        Filled-append b d 8 k m (store_word d word m) _ (Filled-word b d m lt) f,
      )
]

set_bytes-Filled : (b d n : ℕ) (m : Memory) → Filled b d n m (set_bytes b d n m)
unfolding set_bytes
set_bytes-Filled b d zero m = λ x. ground arith
set_bytes-Filled b d (suc n) m =
    let one : 1 + n ≡ suc n = omega arith in
    let after = set_bytes b (d + 1) n (store d b m) in
    subst (λ k. Filled b d k m after) one
      (Filled-append b d 1 n m (store d b m) after (Filled-store b d m)
        (set_bytes-Filled b (d + 1) n (store d b m)))

-- After `memset`, each byte of the block is the lowest byte of the value, wherever the block
-- begins, and the rest of the memory is as it was.
pub memset-Filled :
    (dest value count : ℕ) (m : Memory)
    → Filled (value % 256) dest count m (memset dest value count m)
unfolding memset
memset-Filled dest value count m =
    let b = value % 256 in
    let head = set_head b dest count m in
    let words = set_words count (b * 0x0101010101010101) head.d head.count head.m in
    let (k, at, left, f) = set_head-Part b dest count m in
    let (j, at', left', g) = set_words-Part count b head.d head.count head.m (omega arith) in
    let begun =
      Filled-append b dest k j m head.m words.m f (subst (λ z. Filled b z j head.m words.m) at g) in
    let last = set_bytes-Filled b words.d words.count words.m in
    let here : words.d ≡ dest + (k + j) = omega (arith, at, at') in
    let size : k + j + words.count ≡ count = omega (arith, left, left') in
    subst (λ n. Filled b dest n m (memset dest value count m)) size
      (Filled-append b dest (k + j) words.count m words.m _ begun
        (subst (λ z. Filled b z words.count words.m (memset dest value count m)) here last))
