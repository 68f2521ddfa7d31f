-- ===== src/Chains/Sets.antt =====
-- Lists of distinct numbers, as the entries of a chain.
use bax_os_dev.Base.{
  ℕ, zero, suc, ◌≤◌, ◌<◌, ◌≡◌, refl, Bool, true, false, ◌||◌, not, ◌&&◌, List, [], ◌∷◌, ◌==◌,
  if◌then◌else◌, arith, length,
}

unfoldable pub has : ℕ → List ℕ → Bool
has i [] = false
has i (x ∷ xs) = x == i || has i xs

unfoldable pub distinct : List ℕ → Bool
distinct [] = true
distinct (x ∷ xs) = not (has x xs) && distinct xs

unfoldable pub without : ℕ → List ℕ → List ℕ
without i [] = []
without i (x ∷ xs) = if x == i then without i xs else x ∷ without i xs

pub has-without : (i j : ℕ) (xs : List ℕ) → has i (without j xs) ≡ (has i xs && not (i == j))
unfolding has without
has-without i j [] = refl
has-without i j (x ∷ xs) = ground (arith, has-without i j xs)

pub distinct-without : (i : ℕ) (xs : List ℕ) → distinct xs ≡ true → distinct (without i xs) ≡ true
unfolding distinct without
distinct-without i [] d = refl
distinct-without i (x ∷ xs) d =
    ground (arith, distinct-without i xs (ground arith), has-without x i xs)

pub without_absent : (i : ℕ) (xs : List ℕ) → has i xs ≡ false → without i xs ≡ xs
unfolding has without
without_absent i [] out = refl
without_absent i (x ∷ xs) out = ground (arith, without_absent i xs (ground arith))

length-without :
    (i : ℕ) (xs : List ℕ) → distinct xs ≡ true → length xs ≤ suc (length (without i xs))
unfolding distinct without
length-without i [] d = omega arith
length-without i (x ∷ xs) d =
    ground (arith, length-without i xs (ground arith), without_absent i xs)

-- Distinct numbers below a bound are at most that many.
pub pigeonhole :
    (n : ℕ) (xs : List ℕ) → distinct xs ≡ true → ((i : ℕ) → has i xs ≡ true → i < n) → length xs ≤ n
unfolding has
pigeonhole n [] d below = omega arith
pigeonhole zero (x ∷ xs) d below = absurd (omega (arith, below x (ground arith)))
pigeonhole (suc n) (x ∷ xs) d below =
    let ys = x ∷ xs in
    let kept : (i : ℕ) → has i (without n ys) ≡ (has i ys && not (i == n)) =
      λ i. has-without i n ys in
    let below_n : (i : ℕ) → has i (without n ys) ≡ true → i < n =
      λ i h. ground (arith, below i, kept i) in
    omega
      (arith, pigeonhole n (without n ys) (distinct-without n ys d) below_n, length-without n ys d)
