-- ===== src/Lzma/Trees.antt =====
-- The bit trees of src/tuxpac/unpack.c: what they decode fits its bits, every probability stays a
-- probability, and no index leaves the array.
use bax_os_dev.Base.{
  ℕ, zero, suc, ◌+◌, ◌*◌, ◌^◌, ◌≤◌, ◌<◌, ◌≡◌, refl, List, [], ◌∷◌, get_or, set, arith, length,
  length-set, ◌∙◌,
}
use native.Mathlib.Nat.{pow-suc}
use bax_os_dev.Lzma.{Coder, Value, bit, tree_from, tree}
use bax_os_dev.Lzma.Range.{InRange, IsProb, bit-InRange}

-- Every entry of an array is a probability.
abbrev pub AreProbs : List ℕ → Type 0
AreProbs [] = Unit {0}
AreProbs (p ∷ ps) = IsProb p × AreProbs ps

get_or-IsProb : (ps : List ℕ) (i : ℕ) → AreProbs ps → i < length ps → IsProb (get_or ps i 0)
get_or-IsProb [] i a h = absurd (omega arith)
get_or-IsProb (p ∷ ps) zero a h = a.0
get_or-IsProb (p ∷ ps) (suc i) a h = get_or-IsProb ps i a.1 (omega arith)

set-AreProbs : (ps : List ℕ) (i p : ℕ) → AreProbs ps → IsProb p → AreProbs (set ps i p)
set-AreProbs [] i p a h = tt
set-AreProbs (q ∷ ps) zero p a h = (h, a.1)
set-AreProbs (q ∷ ps) (suc i) p a h = (a.0, set-AreProbs ps i p a.1 h)

double : (n : ℕ) → 2 ^ suc n ≡ 2 * 2 ^ n
double n = omega (arith, pow-suc 2 n)

-- What is decoded with an array of `size` probabilities: the array stays one, the coder in range.
pub record Decodes (size : ℕ) (v : Value) : Type 0 where
  pub probs : AreProbs v.probs
  pub sized : length v.probs ≡ size
  pub coder : InRange v.coder

pow_positive : (n : ℕ) → 1 ≤ 2 ^ n
pow_positive zero = omega arith
pow_positive (suc n) = omega (arith, pow_positive n, double n)

at_most_one : (b p : ℕ) → b < 2 → b * p ≤ p
at_most_one b p h = let k : b * p ≤ 1 * p = grind arith in omega arith

tree_from-Decodes :
    (n m : ℕ) (ps : List ℕ) (c : Coder)
    → AreProbs ps
    → InRange c
    → (m + 1) * 2 ^ n ≤ 2 * length ps
    → 1 ≤ m
    → Decodes (length ps) (tree_from n m ps c)
      × (m * 2 ^ n ≤ (tree_from n m ps c).value)
      × ((tree_from n m ps c).value < (m + 1) * 2 ^ n)
unfolding tree_from
tree_from-Decodes zero m ps c a r h one =
    (record { probs = a; sized = refl; coder = r }, omega arith, omega arith)
tree_from-Decodes (suc n) m ps c a r h one =
    let p = 2 ^ n in
    let doubled : 2 ^ suc n ≡ 2 * p = double n in
    let some : 1 ≤ p = pow_positive n in
    let bound : (m + 1) * (2 * p) ≤ 2 * length ps = rw doubled at h in
    let reach : m + 1 ≤ (m + 1) * p = grind arith in
    let inside : m < length ps = omega arith in
    let d = bit (get_or ps m 0) c in
    let step = bit-InRange (get_or ps m 0) c r (get_or-IsProb ps m a inside) in
    let part : d.bit * p ≤ p = at_most_one d.bit p step.2 in
    let size = length-set ps m d.prob in
    let rest =
      tree_from-Decodes n (m * 2 + d.bit) (set ps m d.prob) d.coder
        (set-AreProbs ps m d.prob a step.1) step.0 (omega arith) (omega arith) in
    (
      record { probs = rest.0.probs; sized = rest.0.sized ∙ size; coder = rest.0.coder },
      rw doubled (omega (arith, rest.1)),
      rw doubled (omega (arith, rest.2)),
    )

-- Over an array of at least 2 ^ n probabilities and with the code in range, decoding a tree of n
-- bits keeps the size of the array, each probability in its bounds and the code in range, and
-- gives a number below 2 ^ n.
pub tree-Decodes :
    (n : ℕ) (ps : List ℕ) (c : Coder)
    → AreProbs ps
    → InRange c
    → 2 ^ n ≤ length ps
    → Decodes (length ps) (tree n ps c) × ((tree n ps c).value < 2 ^ n)
unfolding tree
tree-Decodes n ps c a r h =
    let v = tree_from-Decodes n 1 ps c a r (omega arith) (omega arith) in
    (
      record { probs = v.0.probs; sized = v.0.sized; coder = v.0.coder },
      omega (arith, v.1, v.2, pow_positive n),
    )
