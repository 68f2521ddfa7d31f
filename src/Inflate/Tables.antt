-- ===== src/Inflate/Tables.antt =====
-- `construct` of src/tuxpac/unpack.c: what it counts, and how many codes it finds left over.
use bax_os_dev.Base.{
  ℕ, zero, suc, ◌+◌, ◌-◌, ◌*◌, ◌^◌, ◌≤◌, ◌<◌, ◌≡◌, some, none, List, [], ◌∷◌, ltb, leb, ◌==◌,
  if◌then◌else◌, arith, Bool-cases, inl, inr, refl, ap, ◌∙◌, sym, length, get_or, set, replicate,
  drop, get_or-set_self, get_or-set_ne, length-set, length-drop, Option-cases,
}
use native.Mathlib.Nat.{pow-suc, one-le-pow, add-mul}
use bax_os_dev.Inflate.Codes.{scale}
use bax_os_dev.Inflate.{count_lengths, left_over, construct, wrap16}

-- How many of the lengths are `l`.
unfoldable pub number_of : ℕ → List ℕ → ℕ
number_of l [] = 0
number_of l (x ∷ xs) = (if l == x then 1 else 0) + number_of l xs

number_of-le : (l : ℕ) (xs : List ℕ) → number_of l xs ≤ length xs
unfolding number_of
number_of-le l [] = omega arith
number_of-le l (x ∷ xs) = ground (arith, number_of-le l xs)

abbrev pub AreBelow : ℕ → List ℕ → Type 0
AreBelow n [] = Unit {0}
AreBelow n (x ∷ xs) = (x < n) × AreBelow n xs

count_lengths_lem :
    (count lens : List ℕ) (l : ℕ)
    → l < length count
    → AreBelow (length count) lens
    → get_or count l 0 + length lens < 2 ^ 16
    → get_or (count_lengths count lens) l 0 ≡ get_or count l 0 + number_of l lens
unfolding count_lengths number_of
count_lengths_lem count [] l lt below small = omega arith
count_lengths_lem count (x ∷ xs) l lt below small =
    let after = set count x (wrap16 (get_or count x 0 + 1)) in
    let same : length after ≡ length count = length-set count x (wrap16 (get_or count x 0 + 1)) in
    let below' : AreBelow (length after) xs = rw same below.1 in
    elim (Bool-cases (l == x)) [
      | inl e ↦
          let here : get_or after l 0 ≡ get_or count l 0 + 1 =
            (let at : l ≡ x = ground (arith, e) in
              ground (
                arith,
                at,
                small,
                get_or-set_self count x (wrap16 (get_or count x 0 + 1)) 0 below.0,
              )) in
          rw
            (
              e,
              count_lengths_lem after xs l (rw same lt) below' (rw here (omega (arith, small))),
              here,
            )
            (omega arith)
      | inr e ↦
          let there : get_or after l 0 ≡ get_or count l 0 =
            get_or-set_ne count x l (wrap16 (get_or count x 0 + 1)) 0
              (λ eq. ground (arith, e, eq)) in
          rw
            (
              e,
              count_lengths_lem after xs l (rw same lt) below' (rw there (omega (arith, small))),
              there,
            )
            (omega arith)
    ]

-- What the codes of the counted lengths take up, of `2 ^ n` for `n` lengths.
unfoldable pub kraft : List ℕ → ℕ
kraft [] = 0
kraft (c ∷ cs) = c * 2 ^ length cs + kraft cs

left_over_lem :
    (counts : List ℕ) (left : ℕ)
    → left_over counts left ≡ (
        if leb (kraft counts) (left * 2 ^ length counts)
        then some (left * 2 ^ length counts - kraft counts)
        else none)
unfolding left_over kraft
left_over_lem [] left = ground arith
left_over_lem (c ∷ cs) left = elim (Bool-cases (ltb (left * 2) c)) [
  | inl e ↦
      let p = 2 ^ length cs in
      let positive : 0 < p = one-le-pow (length cs) 2 (omega arith) in
      let more : (left * 2 + 1) * p ≤ c * p = scale (left * 2 + 1) c p (ground (arith, e)) in
      let twice : left * (p * 2) + p ≡ (left * 2 + 1) * p = grind arith in
      rw (e, pow-suc 2 (length cs)) (ground (arith, more, twice, positive))
  | inr e ↦
      let p = 2 ^ length cs in
      let m = left * 2 - c in
      let whole : left * 2 ≡ c + m = ground (arith, e) in
      let twice : left * (p * 2) ≡ left * 2 * p = grind arith in
      let parts : left * (p * 2) ≡ c * p + m * p = twice ∙ ap (λ x. x * p) whole ∙ add-mul c m p in
      rw (e, pow-suc 2 (length cs), left_over_lem cs m, parts) (ground arith)
]

-- What the codes of these lengths take up, of `2 ^ 15`; a length of 0 is a symbol with no code.
unfoldable pub code_space : List ℕ → ℕ
code_space [] = 0
code_space (l ∷ ls) = (if l == 0 then 0 else 2 ^ (15 - l)) + code_space ls

kraft-set :
    (cs : List ℕ) (i : ℕ)
    → i < length cs
    → kraft (set cs i (get_or cs i 0 + 1)) ≡ kraft cs + 2 ^ (length cs - suc i)
unfolding kraft
kraft-set [] i h = absurd (omega arith)
kraft-set (c ∷ cs) zero h =
    let n : suc (length cs) - 1 ≡ length cs = omega arith in rw n (grind arith)
kraft-set (c ∷ cs) (suc i) h =
    let n : suc (length cs) - suc (suc i) ≡ length cs - suc i = omega arith in
    rw (n, length-set cs i (get_or cs i 0 + 1), kraft-set cs i (omega arith)) (omega arith)

-- Counting one length more.
abbrev bump : List ℕ → ℕ → List ℕ
bump count x = set count x (wrap16 (get_or count x 0 + 1))

bump-le :
    (count : List ℕ) (x l : ℕ) → x < length count → get_or (bump count x) l 0 ≤ get_or count l 0 + 1
bump-le count x l h = elim (Bool-cases (x == l)) [
  | inl e ↦
      let at : x ≡ l = ground (arith, e) in
      rw (sym at, get_or-set_self count x (wrap16 (get_or count x 0 + 1)) 0 h) (omega arith)
  | inr e ↦
      rw (get_or-set_ne count x l (wrap16 (get_or count x 0 + 1)) 0 (λ eq. ground (arith, e, eq)))
        (omega arith)
]

kraft-count_lengths :
    (count lens : List ℕ)
    → length count ≡ 16
    → AreBelow 16 lens
    → ((l : ℕ) → get_or count l 0 + length lens < 2 ^ 16)
    → kraft (drop 1 (count_lengths count lens)) ≡ kraft (drop 1 count) + code_space lens
unfolding count_lengths code_space
kraft-count_lengths count [] n below small = omega arith
kraft-count_lengths [] (l ∷ ls) n below small = absurd (omega arith)
kraft-count_lengths (c ∷ cs) (zero ∷ ls) n below small =
    kraft-count_lengths (wrap16 (c + 1) ∷ cs) ls (omega arith) below.1
      (λ l. omega (arith, small l, bump-le (c ∷ cs) 0 l (omega arith)))
    ∙ omega arith
kraft-count_lengths (c ∷ cs) (suc i ∷ ls) n below small =
    let v = wrap16 (get_or cs i 0 + 1) in
    let exact : v ≡ get_or cs i 0 + 1 = omega (arith, small (suc i)) in
    let size : length cs ≡ 15 = omega arith in
    let grown : kraft (set cs i v) ≡ kraft cs + 2 ^ (15 - suc i) =
      rw exact (kraft-set cs i (omega (arith, below.0)) ∙ rw size refl) in
    kraft-count_lengths (c ∷ set cs i v) ls (omega (arith, length-set cs i v)) below.1
      (λ l. omega (arith, small l, bump-le (c ∷ cs) (suc i) l (omega (arith, below.0))))
    ∙ rw grown (ground arith)

zeroes : (n l : ℕ) → get_or {A = ℕ} (replicate n 0) l 0 ≡ 0
zeroes zero l = refl
zeroes (suc n) zero = refl
zeroes (suc n) (suc l) = zeroes n l

length-count_lengths : (count lens : List ℕ) → length (count_lengths count lens) ≡ length count
unfolding count_lengths
length-count_lengths count [] = refl
length-count_lengths count (l ∷ ls) =
    length-count_lengths (bump count l) ls ∙ length-set count l (wrap16 (get_or count l 0 + 1))

abbrev no_counts : List ℕ
no_counts = replicate 16 0

left_over-code_space :
    (lens : List ℕ)
    → AreBelow 16 lens
    → length lens < 2 ^ 16
    → left_over (drop 1 (count_lengths no_counts lens)) 1
      ≡ (if leb (code_space lens) (2 ^ 15) then some (2 ^ 15 - code_space lens) else none)
left_over-code_space lens below small =
    let counts = drop 1 (count_lengths no_counts lens) in
    let size : length counts ≡ 15 =
      omega (
        arith,
        length-drop 1 (count_lengths no_counts lens),
        length-count_lengths no_counts lens,
      ) in
    let space : kraft counts ≡ code_space lens =
      kraft-count_lengths no_counts lens refl below (λ l. rw (zeroes 16 l) (omega (arith, small)))
      ∙ (unfold kraft in omega arith) in
    left_over_lem counts 1 ∙ rw (size, space) refl

-- For fewer than 2 ^ 16 lengths below 16, `construct` returns 0 where they are all 0; otherwise
-- what the codes leave over of 2 ^ 15, a code of length l taking 2 ^ (15 - l), or a negative
-- number if they take more.
pub construct_lem :
    (symbol lens : List ℕ)
    → AreBelow 16 lens
    → length lens < 2 ^ 16
    → (construct symbol lens).0 ≡ (
        if number_of 0 lens == length lens
        then some 0
        else if leb (code_space lens) (2 ^ 15)
        then some (2 ^ 15 - code_space lens)
        else none)
unfolding construct
construct_lem symbol lens below small =
    let none_coded : get_or (count_lengths no_counts lens) 0 0 ≡ number_of 0 lens =
      count_lengths_lem no_counts lens 0 (omega arith) below (omega (arith, small)) ∙ omega arith in
    let left = left_over-code_space lens below small in
    rw (none_coded, left)
      (elim (Bool-cases (leb (code_space lens) (2 ^ 15))) [
        | inl e ↦ rw e (ground arith)
        | inr e ↦ rw e (ground arith)
      ])

-- For fewer than 2 ^ 16 lengths below 16, the counts of the table that `construct` makes are how
-- many symbols have each length.
pub construct-count :
    (symbol lens : List ℕ) (l : ℕ)
    → AreBelow 16 lens
    → length lens < 2 ^ 16
    → l < 16
    → get_or (construct symbol lens).1.count l 0 ≡ number_of l lens
construct-count symbol lens l below small lt =
    let counted : (construct symbol lens).1.count ≡ count_lengths no_counts lens =
      unfold construct in
      elim (Option-cases (left_over (drop 1 (count_lengths no_counts lens)) 1)) [
        | inl e ↦ ground (arith, e)
        | inr (left, e) ↦ ground (arith, e)
      ] in
    let zero_before : get_or no_counts l 0 ≡ 0 = zeroes 16 l in
    ap (λ c. get_or c l 0) counted
    ∙ count_lengths_lem no_counts lens l lt below (rw zero_before (omega (arith, small)))
    ∙ rw zero_before (omega arith)
