-- ===== src/Base/Lists.antt =====
-- C arrays as lists with native indices.
use Prim.Native.Nat.{ℕ, zero, suc, ◌+◌, ◌-◌, ◌≤◌, ◌<◌, min}
use mathlib.Core.Path.{◌≡◌, refl, ap}
use mathlib.Core.Logic.{◌≢◌}
use mathlib.Core.List.{List, [], ◌∷◌, ◌++◌}
use native.Mathlib.Omega.{arith}

module _ {ℓ} {A : Type ℓ} where
  abbrev pub length : List A → ℕ
  length [] = 0
  length (x ∷ xs) = suc (length xs)

  -- A read out of bounds gives the default.
  abbrev pub get_or : List A → ℕ → A → A
  get_or [] i d = d
  get_or (x ∷ xs) zero d = x
  get_or (x ∷ xs) (suc i) d = get_or xs i d

  -- A write out of bounds changes nothing.
  abbrev pub set : List A → ℕ → A → List A
  set [] i v = []
  set (x ∷ xs) zero v = v ∷ xs
  set (x ∷ xs) (suc i) v = x ∷ set xs i v

  abbrev pub take : ℕ → List A → List A
  take zero xs = []
  take (suc n) [] = []
  take (suc n) (x ∷ xs) = x ∷ take n xs

  abbrev pub drop : ℕ → List A → List A
  drop zero xs = xs
  drop (suc n) [] = []
  drop (suc n) (x ∷ xs) = drop n xs

  abbrev pub replicate : ℕ → A → List A
  replicate zero a = []
  replicate (suc n) a = a ∷ replicate n a

  pub length-append : (xs ys : List A) → length (xs ++ ys) ≡ length xs + length ys
  length-append [] ys = omega arith
  length-append (x ∷ xs) ys = omega (arith, length-append xs ys)

  pub length-set : (xs : List A) (i : ℕ) (v : A) → length (set xs i v) ≡ length xs
  length-set [] i v = refl
  length-set (x ∷ xs) zero v = refl
  length-set (x ∷ xs) (suc i) v = ap suc (length-set xs i v)

  pub get_or-set_self :
      (xs : List A) (i : ℕ) (v d : A) → i < length xs → get_or (set xs i v) i d ≡ v
  get_or-set_self [] i v d h = absurd (omega arith)
  get_or-set_self (x ∷ xs) zero v d h = refl
  get_or-set_self (x ∷ xs) (suc i) v d h = get_or-set_self xs i v d (omega arith)

  pub get_or-set_ne :
      (xs : List A) (i j : ℕ) (v d : A) → i ≢ j → get_or (set xs i v) j d ≡ get_or xs j d
  get_or-set_ne [] i j v d h = refl
  get_or-set_ne (x ∷ xs) zero zero v d h = absurd (h refl)
  get_or-set_ne (x ∷ xs) zero (suc j) v d h = refl
  get_or-set_ne (x ∷ xs) (suc i) zero v d h = refl
  get_or-set_ne (x ∷ xs) (suc i) (suc j) v d h = get_or-set_ne xs i j v d (λ e. h (ap suc e))

  pub take-append-drop : (n : ℕ) (xs : List A) → take n xs ++ drop n xs ≡ xs
  take-append-drop zero xs = refl
  take-append-drop (suc n) [] = refl
  take-append-drop (suc n) (x ∷ xs) = ap (λ r. x ∷ r) (take-append-drop n xs)

  pub length-take : (n : ℕ) (xs : List A) → length (take n xs) ≡ min n (length xs)
  length-take zero xs = omega arith
  length-take (suc n) [] = omega arith
  length-take (suc n) (x ∷ xs) = omega (arith, length-take n xs)

  pub length-drop : (n : ℕ) (xs : List A) → length (drop n xs) ≡ length xs - n
  length-drop zero xs = omega arith
  length-drop (suc n) [] = omega arith
  length-drop (suc n) (x ∷ xs) = omega (arith, length-drop n xs)

  pub length-replicate : (n : ℕ) (a : A) → length (replicate n a) ≡ n
  length-replicate zero a = refl
  length-replicate (suc n) a = ap suc (length-replicate n a)

  pub take_nothing : (n : ℕ) → take n [] ≡ []
  take_nothing zero = refl
  take_nothing (suc n) = refl

  pub drop_nothing : (n : ℕ) → drop n [] ≡ []
  drop_nothing zero = refl
  drop_nothing (suc n) = refl

  pub take-prefix : (a b : List A) (n : ℕ) → n ≤ length a → take n (a ++ b) ≡ take n a
  take-prefix a b zero h = refl
  take-prefix [] b (suc n) h = absurd (omega arith)
  take-prefix (x ∷ a) b (suc n) h = ap (λ r. x ∷ r) (take-prefix a b n (omega arith))

  pub drop-prefix : (a b : List A) (n : ℕ) → n ≤ length a → drop n (a ++ b) ≡ drop n a ++ b
  drop-prefix a b zero h = refl
  drop-prefix [] b (suc n) h = absurd (omega arith)
  drop-prefix (x ∷ a) b (suc n) h = drop-prefix a b n (omega arith)

  pub take-take-drop : (k m : ℕ) (l : List A) → take k l ++ take m (drop k l) ≡ take (k + m) l
  take-take-drop zero m l = let e : 0 + m ≡ m = omega arith in rw e refl
  take-take-drop (suc k) m [] = rw (take_nothing m, take_nothing (suc k + m))
  take-take-drop (suc k) m (x ∷ l) =
      let e : suc k + m ≡ suc (k + m) = omega arith in rw e (ap (λ r. x ∷ r) (take-take-drop k m l))

  pub drop-drop : (k m : ℕ) (l : List A) → drop m (drop k l) ≡ drop (k + m) l
  drop-drop zero m l = let e : 0 + m ≡ m = omega arith in rw e refl
  drop-drop (suc k) m [] = rw (drop_nothing m, drop_nothing (suc k + m))
  drop-drop (suc k) m (x ∷ l) =
      let e : suc k + m ≡ suc (k + m) = omega arith in rw e (drop-drop k m l)

  pub take_all : (n : ℕ) (l : List A) → length l ≤ n → take n l ≡ l
  take_all zero [] h = refl
  take_all zero (x ∷ l) h = absurd (omega arith)
  take_all (suc n) [] h = refl
  take_all (suc n) (x ∷ l) h = ap (λ r. x ∷ r) (take_all n l (omega arith))
