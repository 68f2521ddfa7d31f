-- ===== src/CString/Words.antt =====
-- `str_word` of src/kernel/string.c takes the first word off a text.
use bax_os_dev.Base.{
  ℕ, zero, suc, ◌+◌, ◌<◌, ◌≡◌, refl, ap, sym, get_or, subst, arith, Option, some, List, [], ◌∷◌,
  length, inl, inr, Bool-cases, ◌==◌, if◌then◌else◌,
}
use bax_os_dev.Bytes.{Memory, store}
use bax_os_dev.CString.{IsString, word_end, past_spaces, str_word}

-- The bytes before the first space, and those from it on.
unfoldable pub first_word : List ℕ → List ℕ
first_word [] = []
first_word (c ∷ cs) = if c == b' ' then [] else c ∷ first_word cs

unfoldable pub after_word : List ℕ → List ℕ
after_word [] = []
after_word (c ∷ cs) = if c == b' ' then c ∷ cs else after_word cs

-- The bytes from the first that is no space.
unfoldable pub skip_spaces : List ℕ → List ℕ
skip_spaces [] = []
skip_spaces (c ∷ cs) = if c == b' ' then skip_spaces cs else c ∷ cs

word_end_lem :
    (fuel p : ℕ) (cs : List ℕ) (m : Memory)
    → IsString m p cs
    → length cs < fuel
    → word_end fuel p m ≡ some (p + length (first_word cs))
unfolding word_end first_word
word_end_lem zero p cs m i h = absurd (omega arith)
word_end_lem (suc fuel) p [] m i h = ground (arith, i)
word_end_lem (suc fuel) p (c ∷ cs) m i h =
    ground (arith, i.0, i.1, word_end_lem fuel (p + 1) cs m i.2 (omega arith))

after_word-IsString :
    (p : ℕ) (cs : List ℕ) (m : Memory)
    → IsString m p cs
    → IsString m (p + length (first_word cs)) (after_word cs)
unfolding first_word after_word
after_word-IsString p [] m i = let e : p + 0 ≡ p = omega arith in rw e i
after_word-IsString p (c ∷ cs) m i = elim (Bool-cases (c == b' ')) [
  | inl e ↦ let z : p + 0 ≡ p = omega arith in rw (e, z) i
  | inr e ↦
      let z : p + suc (length (first_word cs)) ≡ p + 1 + length (first_word cs) = omega arith in
      rw (e, z) (after_word-IsString (p + 1) cs m i.2)
]

past_spaces_lem :
    (fuel p : ℕ) (cs : List ℕ) (m : Memory)
    → IsString m p cs
    → length cs < fuel
    → (q : ℕ) × (past_spaces fuel p m ≡ some q) × IsString m q (skip_spaces cs)
unfolding past_spaces skip_spaces
past_spaces_lem zero p cs m i h = absurd (omega arith)
past_spaces_lem (suc fuel) p [] m i h = (p, ground (arith, i), i)
past_spaces_lem (suc fuel) p (c ∷ cs) m i h = elim (Bool-cases (c == b' ')) [
  | inl e ↦
      let (q, found, rest) = past_spaces_lem fuel (p + 1) cs m i.2 (omega arith) in
      (q, ground (arith, i.0, e, found), rw e rest)
  | inr e ↦ (p, ground (arith, i.0, e), rw e i)
]

-- A NUL before a string leaves it, and one at the end of the first word ends it there.
store-IsString :
    (p q : ℕ) (cs : List ℕ) (m : Memory) → IsString m q cs → p < q → IsString (store p 0 m) q cs
store-IsString p q [] m i h = ground (arith, i)
store-IsString p q (c ∷ cs) m i h =
    (ground (arith, i.0), i.1, store-IsString p (q + 1) cs m i.2 (omega arith))

first_word-IsString :
    (p : ℕ) (cs : List ℕ) (m : Memory)
    → IsString m p cs
    → IsString (store (p + length (first_word cs)) 0 m) p (first_word cs)
unfolding first_word
first_word-IsString p [] m i = ground arith
first_word-IsString p (c ∷ cs) m i = elim (Bool-cases (c == b' ')) [
  | inl e ↦ rw e (ground arith)
  | inr e ↦
      let w : first_word (c ∷ cs) ≡ c ∷ first_word cs = rw e refl in
      let z : p + suc (length (first_word cs)) ≡ p + 1 + length (first_word cs) = omega arith in
      let rest =
        subst (λ k. IsString (store k 0 m) (p + 1) (first_word cs)) (sym z)
          (first_word-IsString (p + 1) cs m i.2) in
      subst (λ l. IsString (store (p + length l) 0 m) p l) (sym w) (ground (arith, i.0), i.1, rest)
]

-- What `str_word` should have done with a text.
pub record Cut (text : ℕ) (cs : List ℕ) (r : Option (ℕ × Memory)) : Type 0 where
  pub rest : ℕ
  pub after : Memory
  pub found : r ≡ some (rest, after)
  pub word : IsString after text (first_word cs)
  pub remains : IsString after rest (skip_spaces (after_word cs))

no_space : (cs : List ℕ) → after_word cs ≡ [] → first_word cs ≡ cs
unfolding first_word after_word
no_space [] e = refl
no_space (c ∷ cs) e = elim (Bool-cases (c == b' ')) [
  | inl f ↦ absurd (
      let n : suc (length cs) ≡ 0 =
        ap length (subst (λ b. (if b then c ∷ cs else after_word cs) ≡ []) f e) in
      omega (arith, n))
  | inr f ↦
      let rest : after_word cs ≡ [] = subst (λ b. (if b then c ∷ cs else after_word cs) ≡ []) f e in
      rw f (ap (λ l. c ∷ l) (no_space cs rest))
]

-- What a word ends at: a space.
after_word-head :
    (cs : List ℕ) (c : ℕ) (r : List ℕ) → after_word cs ≡ c ∷ r → (c ≡ b' ') × (length r < length cs)
unfolding after_word
after_word-head [] c r e = absurd (let n : zero ≡ suc (length r) = ap length e in omega (arith, n))
after_word-head (x ∷ cs) c r e = elim (Bool-cases (x == b' ')) [
  | inl f ↦
      let whole : x ∷ cs ≡ c ∷ r = subst (λ b. (if b then x ∷ cs else after_word cs) ≡ c ∷ r) f e in
      let head : x ≡ c = ap (λ l. get_or l 0 0) whole in
      let size : suc (length cs) ≡ suc (length r) = ap length whole in
      (ground (arith, f, head), omega (arith, size))
  | inr f ↦
      let (space, size) =
        after_word-head cs c r (subst (λ b. (if b then x ∷ cs else after_word cs) ≡ c ∷ r) f e) in
      (space, omega (arith, size))
]

word-Cut :
    (fuel text p : ℕ) (cs tail : List ℕ) (m : Memory)
    → after_word cs ≡ tail
    → p ≡ text + length (first_word cs)
    → word_end fuel text m ≡ some p
    → IsString m text cs
    → IsString m p tail
    → length cs < fuel
    → Cut text cs (str_word fuel text m)
unfolding str_word
word-Cut fuel text p cs [] m t at ended whole here h =
    let (q, found, rest) = past_spaces_lem fuel p [] m here (omega arith) in
    record {
      rest = q;
      after = m;
      found = ground (arith, ended, here, found);
      word = subst (λ l. IsString m text l) (sym (no_space cs t)) whole;
      remains = subst (λ l. IsString m q (skip_spaces l)) (sym t) rest;
    }
word-Cut fuel text p cs (c ∷ r) m t at ended whole here h =
    let m' = store p 0 m in
    let (space, size) = after_word-head cs c r t in
    let (q, found, rest) =
      past_spaces_lem fuel (p + 1) r m' (store-IsString p (p + 1) r m here.2 (omega arith))
        (omega (arith, size)) in
    let word = first_word-IsString text cs m whole in
    record {
      rest = q;
      after = m';
      found = ground (arith, ended, here.0, here.1, found);
      word = subst (λ k. IsString (store k 0 m) text (first_word cs)) (sym at) word;
      remains =
          subst (λ l. IsString m' q (skip_spaces l)) (sym t)
            (unfold skip_spaces in ground (arith, space, rest));
    }

-- For a string and more fuel than it is long, `str_word` ends it behind its first word, returns
-- where what follows the spaces behind that word begins, and leaves that as it was.
pub str_word-Cut :
    (fuel text : ℕ) (cs : List ℕ) (m : Memory)
    → IsString m text cs
    → length cs < fuel
    → Cut text cs (str_word fuel text m)
str_word-Cut fuel text cs m i h =
    word-Cut fuel text (text + length (first_word cs)) cs (after_word cs) m refl refl
      (word_end_lem fuel text cs m i h) i (after_word-IsString text cs m i) h
