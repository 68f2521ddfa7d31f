-- ===== src/Opening/Names.antt =====
-- The names of terminals in src/modules/ipc/pty.c.
use bax_os_dev.Base.{
  ℕ, ◌+◌, ◌-◌, ◌*◌, ◌%◌, ◌^◌, ◌<◌, ◌≡◌, refl, arith, true, false, ◌&&◌, List, [], ◌∷◌, ◌++◌, length,
  ltb, leb, ◌==◌, if◌then◌else◌,
}
use bax_os_dev.Terminals.{max_ptys}
use bax_os_dev.Opening.{same_text, pts, digits_from, number_of}

-- The value of decimal digits behind a number.
abbrev pub value_of : ℕ → List ℕ → ℕ
value_of n [] = n
value_of n (d ∷ ds) = value_of (n * 10 + d) ds

abbrev pub AreDigits : List ℕ → Type 0
AreDigits [] = Unit {0}
AreDigits (d ∷ ds) = (d < 10) × AreDigits ds

-- The characters of digits.
abbrev pub printed : List ℕ → List ℕ
printed [] = []
printed (d ∷ ds) = (d + b'0') ∷ printed ds

value_of-mod :
    (n m : ℕ) (ds : List ℕ)
    → n % 2 ^ 32 ≡ m % 2 ^ 32
    → value_of n ds % 2 ^ 32 ≡ value_of m ds % 2 ^ 32
value_of-mod n m [] e = e
value_of-mod n m (d ∷ ds) e = value_of-mod (n * 10 + d) (m * 10 + d) ds (omega (arith, e))

digits_from_lem :
    (n : ℕ) (ds : List ℕ)
    → n < 2 ^ 32
    → AreDigits ds
    → digits_from n (printed ds)
      ≡ (if ltb (value_of n ds % 2 ^ 32) max_ptys then value_of n ds % 2 ^ 32 else max_ptys)
unfolding digits_from
digits_from_lem n [] small are = let e : n % 2 ^ 32 ≡ n = omega (arith, small) in rw e refl
digits_from_lem n (d ∷ ds) small are =
    let test : (leb b'0' (d + b'0') && leb (d + b'0') b'9') ≡ true = ground (arith, are.0) in
    let back : n * 10 + (d + b'0' - b'0') ≡ n * 10 + d = omega arith in
    let same = value_of-mod ((n * 10 + d) % 2 ^ 32) (n * 10 + d) ds (omega arith) in
    rw (test, back) (rw⁻¹ same (digits_from_lem ((n * 10 + d) % 2 ^ 32) ds (omega arith) are.1))

-- For "pts/" and decimal digits, one at least, `number` returns their value less all multiples of
-- 2 ^ 32 if that is below 8, and 8 if it is not.
pub number_of_lem :
    (d : ℕ) (ds : List ℕ)
    → AreDigits (d ∷ ds)
    → number_of (pts ++ printed (d ∷ ds))
      ≡ (let v = value_of 0 (d ∷ ds) % 2 ^ 32 in if ltb v max_ptys then v else max_ptys)
unfolding number_of same_text
number_of_lem d ds are =
    let longer : (length (pts ++ printed (d ∷ ds)) == 4) ≡ false = ground arith in
    rw longer (digits_from_lem 0 (d ∷ ds) (omega arith) are)
