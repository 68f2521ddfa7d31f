-- ===== src/Chains/Updates.antt =====
-- An array with one entry written.
use bax_os_dev.Base.{ℕ, Bool, true, false, ◌==◌, ◌≡◌, ap, arith, Bool-cases, inl, inr}
use bax_os_dev.Chains.{update}

-- What is true of the new one, and was of the old, is true of all the others as before.
pub update_field {ℓ κ} :
    {A : Type ℓ} {B : Type κ} (f : A → B) (es : ℕ → A) (i : ℕ) (x : A) (j : ℕ)
    → f x ≡ f (es i)
    → f (update es i x j) ≡ f (es j)
update_field f es i x j e = elim (Bool-cases (j == i)) [
  | inl same ↦ let at : j ≡ i = ground arith in rw (same, at) e
  | inr ne ↦ rw ne
]

pub update_other {ℓ} :
    {A : Type ℓ} (es : ℕ → A) (i : ℕ) (x : A) (j : ℕ) → (j == i) ≡ false → update es i x j ≡ es j
update_other es i x j ne = rw ne

pub update_self {ℓ} : {A : Type ℓ} (es : ℕ → A) (i : ℕ) (x : A) → update es i x i ≡ x
update_self es i x = let e : (i == i) ≡ true = ground arith in rw e

pub ne_of_tests : (on : ℕ → Bool) (i j : ℕ) → on i ≡ false → on j ≡ true → (j == i) ≡ false
ne_of_tests on i j off o = elim (Bool-cases (j == i)) [
  | inl same ↦ let at : i ≡ j = ground arith in absurd (ground (arith, ap on at))
  | inr ne ↦ ne
]
