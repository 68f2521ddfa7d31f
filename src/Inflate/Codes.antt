-- ===== src/Inflate/Codes.antt =====
-- `decode` of src/tuxpac/unpack.c against the canonical code that the counts stand for.
use bax_os_dev.Base.{
  ℕ, suc, ◌+◌, ◌-◌, ◌*◌, ◌^◌, ◌≤◌, ◌<◌, ◌≡◌, Option, some, none, List, [], ◌∷◌, ltb, if◌then◌else◌,
  arith, Bool-cases, inl, inr, refl, length, drop, get_or, ap, ◌∙◌, sym, subst,
}
use native.Mathlib.Nat.{pow-suc, mod-lt}
use bax_os_dev.Inflate.{BitReader, Huff, bits, decode_from, decode}

-- The canonical code of the symbol `q` among those whose lengths the counts give, the shorter first:
-- how long its code is, and the code. `first` is the first code of the shortest of these lengths.
unfoldable pub code_word : List ℕ → ℕ → ℕ → ℕ × ℕ
code_word [] first q = (0, 0)
code_word (count ∷ counts) first q =
    let longer = code_word counts ((first + count) * 2) (q - count) in
    if ltb q count then (1, first + q) else (suc longer.0, longer.1)

-- The number that bits make behind those that are there, the first one highest.
abbrev pub with_bits : ℕ → List ℕ → ℕ
with_bits code [] = code
with_bits code (d ∷ ds) = with_bits (code * 2 + d) ds

-- The reader gives these bits one by one, and is `after` then.
abbrev pub Feeds : List ℕ → BitReader → BitReader → Type 0
Feeds [] b after = b ≡ after
Feeds (d ∷ ds) b after = ((bits 1 b).0 ≡ d) × Feeds ds (bits 1 b).1 after

unfoldable pub sum : List ℕ → ℕ
sum [] = 0
sum (c ∷ cs) = c + sum cs

abbrev pub AreBits : List ℕ → Type 0
AreBits [] = Unit {0}
AreBits (d ∷ ds) = (d < 2) × AreBits ds

pub scale : (a b p : ℕ) → a ≤ b → a * p ≤ b * p
scale a b p h = grind arith

with_bits-lt :
    (code : ℕ) (ds : List ℕ) → AreBits ds → with_bits code ds < (code + 1) * 2 ^ length ds
with_bits-lt code [] h = omega arith
with_bits-lt code (d ∷ ds) h =
    let p = 2 ^ length ds in
    let rest : with_bits (code * 2 + d) ds < (code * 2 + d + 1) * p =
      with_bits-lt (code * 2 + d) ds h.1 in
    let wide : (code * 2 + d + 1) * p ≤ (code * 2 + 2) * p =
      scale (code * 2 + d + 1) (code * 2 + 2) p (omega arith) in
    rw (pow-suc 2 (length ds)) (grind arith)

code_word-le :
    (counts : List ℕ) (first q : ℕ)
    → q < sum counts
    → let (n, word) = code_word counts first q in (0 < n) × (first * 2 ^ (n - 1) ≤ word)
unfolding code_word sum
code_word-le [] first q h = absurd (omega arith)
code_word-le (c ∷ cs) first q h = elim (Bool-cases (ltb q c)) [
  | inl e ↦ rw e (omega arith, omega arith)
  | inr e ↦
      let (n, word) = code_word cs ((first + c) * 2) (q - c) in
      let (long, low) = code_word-le cs ((first + c) * 2) (q - c) (ground (arith, e)) in
      let p = 2 ^ (n - 1) in
      let twice : 2 ^ (suc n - 1) ≡ p * 2 = ap (λ k. 2 ^ k) (omega arith) ∙ pow-suc 2 (n - 1) in
      let below : first * p ≤ (first + c) * p = scale first (first + c) p (omega arith) in
      rw e (omega arith, rw twice (grind arith))
]

Feeds-AreBits : (ds : List ℕ) (b after : BitReader) → Feeds ds b after → AreBits ds
unfolding bits
Feeds-AreBits [] b after f = tt
Feeds-AreBits (d ∷ ds) b after f =
    (rw (sym f.0) (mod-lt _ (omega arith)), Feeds-AreBits ds (bits 1 b).1 after f.1)

cancel : (a b p : ℕ) → a * p < b * p → a < b
cancel a b p h = elim (Bool-cases (ltb a b)) [
  | inl e ↦ ground (arith, e)
  | inr e ↦ absurd (let k : b * p ≤ a * p = scale b a p (ground (arith, e)) in omega arith)
]

no_more :
    (ds : List ℕ) (x y : ℕ) (b after : BitReader)
    → length ds ≡ 0
    → with_bits x ds ≡ y
    → Feeds ds b after
    → (x ≡ y) × (b ≡ after)
no_more [] x y b after short same f = (same, f)
no_more (d ∷ ds) x y b after short same f = absurd (omega arith)

-- A code longer than those of this length is past them.
code_word-past :
    (counts : List ℕ) (first x q : ℕ) (ds : List ℕ)
    → q < sum counts
    → AreBits ds
    → length ds ≡ (code_word counts (first * 2) q).0
    → with_bits x ds ≡ (code_word counts (first * 2) q).1
    → first ≤ x
code_word-past counts first x q ds h bs long same =
    let (positive, low) = code_word-le counts (first * 2) q h in
    let n = length ds in
    let p = 2 ^ (n - 1) in
    let twice : 2 ^ n ≡ p * 2 =
      ap (λ k. 2 ^ k) (omega (arith, positive, long)) ∙ pow-suc 2 (n - 1) in
    let low' : first * 2 * p ≤ with_bits x ds = rw (same, long) low in
    let high : with_bits x ds < (x + 1) * 2 ^ n = with_bits-lt x ds bs in
    let k =
      cancel first (x + 1) (2 ^ n)
        (let first_bound : first * 2 ^ n ≡ first * 2 * p = rw twice (grind arith) in omega arith) in
    omega arith

-- `decode` inverts the code: given the bits of a symbol's code, it finds that symbol, and has read
-- those bits only.
decode_from_lem :
    (counts : List ℕ) (code first index q : ℕ) (ds : List ℕ) (b after : BitReader)
    → q < sum counts
    → Feeds ds b after
    → length ds ≡ (code_word counts first q).0
    → with_bits code ds ≡ (code_word counts first q).1
    → decode_from counts (code * 2) first index b ≡ (some (index + q), after)
unfolding decode_from code_word sum
decode_from_lem [] code first index q ds b after h f long same = absurd (omega arith)
decode_from_lem (c ∷ cs) code first index q [] b after h f long same =
    absurd (let (positive, _) = code_word-le (c ∷ cs) first q h in omega (arith, positive, long))
decode_from_lem (c ∷ cs) code first index q (d ∷ ds) b after h f long same =
    elim (Bool-cases (ltb q c)) [
      | inl e ↦
          let (value, read) =
            no_more ds (code * 2 + d) (first + q) (bits 1 b).1 after (ground (arith, e, long, same))
              (ground (arith, e, long, same)) f.1 in
          ground (arith, f.0, value, read, e)
      | inr e ↦
          let past =
            code_word-past cs (first + c) (code * 2 + d) (q - c) ds (ground (arith, e))
              (Feeds-AreBits ds (bits 1 b).1 after f.1) (ground (arith, e, long, same))
              (ground (arith, e, long, same)) in
          let rest =
            decode_from_lem cs (code * 2 + d) ((first + c) * 2) (index + c) (q - c) ds (bits 1 b).1
              after (ground (arith, e)) f.1 (ground (arith, e, long, same))
              (ground (arith, e, long, same)) in
          ground (arith, f.0, past, rest, e)
    ]

-- Given the bits of the canonical code of a symbol in the table, as the counts of the lengths
-- define that code, `decode` returns that symbol and has read those bits and no more.
pub decode_lem :
    (h : Huff) (q : ℕ) (ds : List ℕ) (b after : BitReader)
    → q < sum (drop 1 h.count)
    → Feeds ds b after
    → length ds ≡ (code_word (drop 1 h.count) 0 q).0
    → with_bits 0 ds ≡ (code_word (drop 1 h.count) 0 q).1
    → decode h b ≡ (some (get_or h.symbol q 0), after)
unfolding decode
decode_lem h q ds b after lt f long same =
    let start : 0 + q ≡ q = omega arith in
    rw (decode_from_lem (drop 1 h.count) 0 0 0 q ds b after lt f long same, start) refl

-- An index that `decode` may read.
abbrev pub IsWithin : ℕ → ℕ → Option ℕ → Type 0
IsWithin low high none = Unit {0}
IsWithin low high (some i) = (low ≤ i) × (i < high)

widen :
    (index c n : ℕ) (o : Option ℕ)
    → IsWithin (index + c) (index + c + n) o
    → IsWithin index (index + (c + n)) o
widen index c n none h = tt
widen index c n (some i) h = omega (arith, h.0, h.1)

decode_from-IsWithin :
    (counts : List ℕ) (code first index : ℕ) (b : BitReader)
    → first ≤ code
    → IsWithin index (index + sum counts) (decode_from counts code first index b).0
unfolding decode_from sum
decode_from-IsWithin [] code first index b h = tt
decode_from-IsWithin (c ∷ cs) code first index b h =
    let d = (bits 1 b).0 in
    elim (Bool-cases (ltb (code + d) (first + c))) [
      | inl e ↦ rw e (ground (arith, e))
      | inr e ↦ rw e (
          widen index c (sum cs) _ (
            decode_from-IsWithin cs ((code + d) * 2) ((first + c) * 2) (index + c) (bits 1 b).1
              (ground (arith, e))))
    ]

-- Whatever the table and the bits, the index at which `decode` reads the symbols, if it finds one,
-- is below the number of codes that the table counts.
pub decode-IsWithin :
    (h : Huff) (b : BitReader)
    → IsWithin 0 (sum (drop 1 h.count)) (decode_from (drop 1 h.count) 0 0 0 b).0
decode-IsWithin h b =
    let start : 0 + sum (drop 1 h.count) ≡ sum (drop 1 h.count) = omega arith in
    subst (λ n. IsWithin 0 n (decode_from (drop 1 h.count) 0 0 0 b).0) start
      (decode_from-IsWithin (drop 1 h.count) 0 0 0 b (omega arith))
