-- ===== src/CString/Compare.antt =====
-- `strlen` and `strcmp` of src/kernel/string.c on strings that end.
use bax_os_dev.Base.{
  ℕ, zero, suc, ◌+◌, ◌<◌, ◌≡◌, ◌≢◌, refl, sym, ap, drop, get_or, arith, some, List, [], ◌∷◌, length,
  inl, inr, Bool-cases, ◌==◌, if◌then◌else◌,
}
use mathlib.Core.Logic.{◌↔◌}
use mathlib.Core.Path.{ap₂}
use bax_os_dev.Bytes.{Memory}
use bax_os_dev.CString.{IsString, strlen, strcmp}

-- The first bytes in which two strings differ, the NUL counted; NULs where they do not.
unfoldable pub first_difference : List ℕ → List ℕ → ℕ × ℕ
first_difference [] [] = (0, 0)
first_difference [] (y ∷ ys) = (0, y)
first_difference (x ∷ xs) [] = (x, 0)
first_difference (x ∷ xs) (y ∷ ys) = if x == y then first_difference xs ys else (x, y)

strcmp_lem :
    (fuel a b : ℕ) (xs ys : List ℕ) (m : Memory)
    → IsString m a xs
    → IsString m b ys
    → length xs < fuel
    → strcmp fuel a b m ≡ some (first_difference xs ys)
unfolding strcmp first_difference
strcmp_lem zero a b xs ys m ia ib h = absurd (omega arith)
strcmp_lem (suc fuel) a b [] [] m ia ib h = ground arith
strcmp_lem (suc fuel) a b [] (y ∷ ys) m ia ib h = ground arith
strcmp_lem (suc fuel) a b (x ∷ xs) [] m ia ib h = ground arith
strcmp_lem (suc fuel) a b (x ∷ xs) (y ∷ ys) m ia ib h =
    ground (arith, strcmp_lem fuel (a + 1) (b + 1) xs ys m ia.2 ib.2 (omega arith))

strlen_lem :
    (fuel s : ℕ) (cs : List ℕ) (m : Memory)
    → IsString m s cs
    → length cs < fuel
    → strlen fuel s m ≡ some (length cs)
unfolding strlen
strlen_lem zero s cs m i h = absurd (omega arith)
strlen_lem (suc fuel) s [] m i h = ground arith
strlen_lem (suc fuel) s (c ∷ cs) m i h =
    ground (arith, strlen_lem fuel (s + 1) cs m i.2 (omega arith))

nil_ne_cons : (x : ℕ) (xs : List ℕ) → [] ≢ x ∷ xs
nil_ne_cons x xs e = let n : zero ≡ suc (length xs) = ap length e in omega (arith, n)

first_difference-same :
    (a b : ℕ) (xs ys : List ℕ) (m : Memory)
    → IsString m a xs
    → IsString m b ys
    → ((first_difference xs ys).0 ≡ (first_difference xs ys).1) ↔ (xs ≡ ys)
unfolding first_difference
first_difference-same a b [] [] m i j = (λ e. refl, λ e. refl)
first_difference-same a b [] (y ∷ ys) m i j =
    (λ e. absurd (j.1 (sym e)), λ e. absurd (nil_ne_cons y ys e))
first_difference-same a b (x ∷ xs) [] m i j =
    (λ e. absurd (i.1 e), λ e. absurd (nil_ne_cons x xs (sym e)))
first_difference-same a b (x ∷ xs) (y ∷ ys) m i j = elim (Bool-cases (x == y)) [
  | inl e ↦
      let same : x ≡ y = ground (arith, e) in
      let rest = first_difference-same (a + 1) (b + 1) xs ys m i.2 j.2 in
      rw e (λ d. ap₂ (λ u v. u ∷ v) same (rest.0 d), λ d. rest.1 (ap (drop 1) d))
  | inr e ↦ rw e (λ d. absurd (ground (arith, e, d)), λ d. ap (λ l. get_or l 0 0) d)
]

-- For two strings and more fuel than the first is long, `strcmp` returns the first bytes in which
-- they differ, the NUL counted, and these are the same exactly if the strings are.
pub strcmp-same :
    (fuel a b : ℕ) (xs ys : List ℕ) (m : Memory)
    → IsString m a xs
    → IsString m b ys
    → length xs < fuel
    → (strcmp fuel a b m ≡ some (first_difference xs ys))
      × (((first_difference xs ys).0 ≡ (first_difference xs ys).1) ↔ (xs ≡ ys))
strcmp-same fuel a b xs ys m i j h =
    (strcmp_lem fuel a b xs ys m i j h, first_difference-same a b xs ys m i j)
