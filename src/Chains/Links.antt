-- ===== src/Chains/Links.antt =====
-- What the loops over a chain find, and what taking an entry out leaves.
use bax_os_dev.Base.{
  ℕ, zero, suc, ◌≤◌, ◌≡◌, refl, Bool, true, false, List, [], ◌∷◌, ◌==◌, if◌then◌else◌, arith,
  length, Bool-cases, inl, inr, ◌⊎◌, ◌∙◌,
}
use bax_os_dev.Chains.{Place, head, after, value, put_head, put_next, seek, lookup, Chain}
use bax_os_dev.Chains.Sets.{has, distinct, without, without_absent}

-- The first of the entries that a test is true of, one-based, or 0.
unfoldable pub first_hit : (ℕ → Bool) → List ℕ → ℕ
first_hit hit [] = 0
first_hit hit (x ∷ xs) = if hit x then suc x else first_hit hit xs

-- A chain is the same for links that agree on its entries.
pub Chain-same :
    (next other : ℕ → ℕ) (p : ℕ) (xs : List ℕ)
    → ((i : ℕ) → has i xs ≡ true → other i ≡ next i)
    → Chain next p xs
    → Chain other p xs
unfolding has
Chain-same next other p [] same c = c
Chain-same next other p (x ∷ xs) same (e, c) = (
  e,
  Chain-same next other (other x) xs (λ i h. same i (ground arith)) (rw (same x (ground arith)) c),
)

pub lookup-first_hit :
    (fuel : ℕ) (hit : ℕ → Bool) (next : ℕ → ℕ) (p : ℕ) (xs : List ℕ)
    → length xs ≤ fuel
    → Chain next p xs
    → lookup fuel hit next p ≡ first_hit hit xs
unfolding lookup first_hit
lookup-first_hit zero hit next p [] le c = refl
lookup-first_hit (suc fuel) hit next p [] le c = ground arith
lookup-first_hit zero hit next p (x ∷ xs) le c = absurd (omega arith)
lookup-first_hit (suc fuel) hit next p (x ∷ xs) le (e, c) =
    ground (arith, lookup-first_hit fuel hit next (next x) xs (omega arith) c)

-- A place that is not a link of an entry of the list.
abbrev pub IsFresh : Place → List ℕ → Type 0
IsFresh (head h) xs = zero ≡ zero
IsFresh (after i) xs = has i xs ≡ false

-- The loop stops where it began or behind an entry of the chain.
abbrev pub Within : Place → List ℕ → Place → Type 0
Within at xs p = (p ≡ at) ⊎ ((k : ℕ) × (has k xs ≡ true) × (p ≡ after k))

seek-cons :
    (fuel : ℕ) (hit : ℕ → Bool) (heads next : ℕ → ℕ) (at : Place) (x : ℕ)
    → value heads next at ≡ suc x
    → hit x ≡ false
    → seek (suc fuel) hit heads next at ≡ seek fuel hit heads next (after x)
unfolding seek
seek-cons fuel hit heads next at x e miss = ground arith

seek_hit :
    (fuel : ℕ) (hit : ℕ → Bool) (heads next : ℕ → ℕ) (at : Place) (x : ℕ)
    → value heads next at ≡ suc x
    → hit x ≡ true
    → seek (suc fuel) hit heads next at ≡ at
unfolding seek
seek_hit fuel hit heads next at x e found = ground arith

pub seek-Within :
    (fuel : ℕ) (hit : ℕ → Bool) (heads next : ℕ → ℕ) (at : Place) (xs : List ℕ)
    → Chain next (value heads next at) xs
    → Within at xs (seek fuel hit heads next at)
unfolding seek value has
seek-Within zero hit heads next at xs c = inl refl
seek-Within (suc fuel) hit heads next at [] c = inl (ground arith)
seek-Within (suc fuel) hit heads next at (x ∷ xs) (e, c) = elim (Bool-cases (hit x)) [
  | inl found ↦ inl (seek_hit fuel hit heads next at x e found)
  | inr miss ↦
      let go = seek-cons fuel hit heads next at x e miss in
      elim (seek-Within fuel hit heads next (after x) xs c) [
        | inl same ↦ inr (x, ground arith, go ∙ same)
        | inr (k, i, same) ↦ inr (k, ground arith, go ∙ same)
      ]
]

pub has_ne : (k j : ℕ) (xs : List ℕ) → has k xs ≡ true → has j xs ≡ false → (j == k) ≡ false
unfolding has
has_ne k j [] i out = ground arith
has_ne k j (x ∷ xs) i out = ground (arith, has_ne k j xs)

-- What is written there leaves the other links and heads as they are.
pub put_next_kept :
    (at : Place) (xs : List ℕ) (p : Place) (v : ℕ) (next : ℕ → ℕ) (j : ℕ)
    → Within at xs p
    → IsFresh at (j ∷ [])
    → has j xs ≡ false
    → put_next p v next j ≡ next j
unfolding put_next has
put_next_kept (head h) xs p v next j (inl same) fresh out = rw same
put_next_kept (after a) xs p v next j (inl same) fresh out = rw same (ground arith)
put_next_kept at xs p v next j (inr (k, i, same)) fresh out =
    rw same (ground (arith, has_ne k j xs i out))

pub put_head_kept :
    (g h : ℕ) (xs : List ℕ) (p : Place) (v : ℕ) (heads : ℕ → ℕ)
    → Within (head g) xs p
    → (h == g) ≡ false
    → put_head p v heads h ≡ heads h
unfolding put_head
put_head_kept g h xs p v heads (inl same) other = rw (same, other)
put_head_kept g h xs p v heads (inr (k, i, same)) other = rw same

pub has-first_hit :
    (hit : ℕ → Bool) (xs : List ℕ) (i : ℕ) → first_hit hit xs ≡ suc i → has i xs ≡ true
unfolding first_hit has
has-first_hit hit [] i e = absurd (omega arith)
has-first_hit hit (x ∷ xs) i e = ground (arith, has-first_hit hit xs i)

value-kept :
    (at : Place) (x : ℕ) (xs : List ℕ) (p : Place) (v : ℕ) (heads next : ℕ → ℕ)
    → Within (after x) xs p
    → IsFresh at (x ∷ xs)
    → value (put_head p v heads) (put_next p v next) at ≡ value heads next at
unfolding put_head put_next value has
value-kept (head h) x xs p v heads next (inl same) fresh = rw same
value-kept (head h) x xs p v heads next (inr (k, i, same)) fresh = rw same
value-kept (after a) x xs p v heads next w fresh =
    put_next_kept (after x) xs p v next a w (ground arith) (ground arith)

value_put :
    (at : Place) (v : ℕ) (heads next : ℕ → ℕ)
    → value (put_head at v heads) (put_next at v next) at ≡ v
unfolding put_head put_next value
value_put (head h) v heads next = ground arith
value_put (after a) v heads next = ground arith

-- Writing the link of the entry `i` at `p` takes `i` out of the chain `xs` that `at` begins.
abbrev pub Unlinks : (ℕ → ℕ) → (ℕ → ℕ) → Place → List ℕ → ℕ → Place → Type 0
Unlinks heads next at xs i p =
    Chain (put_next p (next i) next)
      (value (put_head p (next i) heads) (put_next p (next i) next) at) (without i xs)

put_next_fresh :
    (at : Place) (xs : List ℕ) (v : ℕ) (next : ℕ → ℕ) (j : ℕ)
    → IsFresh at xs
    → has j xs ≡ true
    → put_next at v next j ≡ next j
unfolding put_next
put_next_fresh (head h) xs v next j fresh i = refl
put_next_fresh (after a) xs v next j fresh i = ground (arith, has_ne j a xs i fresh)

module _ (heads next : ℕ → ℕ) (at : Place) (x : ℕ) (xs : List ℕ) (fresh : IsFresh at (x ∷ xs))
    (out : has x xs ≡ false) where
  IsFresh-rest : (at : Place) → IsFresh at (x ∷ xs) → IsFresh at xs
  unfolding has
  IsFresh-rest (head h) f = refl
  IsFresh-rest (after a) f = ground arith

  without-cons : without x (x ∷ xs) ≡ xs
  unfolding without
  without-cons = ground (arith, without_absent x xs out)

  Unlinks-first : Chain next (next x) xs → Unlinks heads next at (x ∷ xs) x at
  Unlinks-first c =
      rw (without-cons, value_put at (next x) heads next)
        (Chain-same next (put_next at (next x) next) (next x) xs
          (λ j i. put_next_fresh at xs (next x) next j (IsFresh-rest at fresh) i) c)

  Unlinks-later :
      (i : ℕ) (p : Place)
      → (x == i) ≡ false
      → value heads next at ≡ suc x
      → Within (after x) xs p
      → Unlinks heads next (after x) xs i p
      → Unlinks heads next at (x ∷ xs) i p
  unfolding without value
  Unlinks-later i p other v w u = rw other (value-kept at x xs p (next i) heads next w fresh ∙ v, u)

pub seek-Unlinks :
    (fuel : ℕ) (hit : ℕ → Bool) (heads next : ℕ → ℕ) (at : Place) (xs : List ℕ) (i : ℕ)
    → length xs ≤ fuel
    → IsFresh at xs
    → distinct xs ≡ true
    → Chain next (value heads next at) xs
    → first_hit hit xs ≡ suc i
    → Unlinks heads next at xs i (seek fuel hit heads next at)
unfolding first_hit distinct value
seek-Unlinks fuel hit heads next at [] i le fresh d c e = absurd (omega arith)
seek-Unlinks zero hit heads next at (x ∷ xs) i le fresh d c e = absurd (omega arith)
seek-Unlinks (suc fuel) hit heads next at (x ∷ xs) i le fresh d (v, c) e =
    let out : has x xs ≡ false = ground arith in
    elim (Bool-cases (hit x)) [
      | inl found ↦
          let same : i ≡ x = ground arith in
          rw (seek_hit fuel hit heads next at x v found, same)
            (Unlinks-first heads next at x xs fresh out c)
      | inr miss ↦
          let rest : first_hit hit xs ≡ suc i = ground arith in
          rw (seek-cons fuel hit heads next at x v miss) (
            Unlinks-later heads next at x xs fresh out i (seek fuel hit heads next (after x))
              (has_ne i x xs (has-first_hit hit xs i rest) out) v
              (seek-Within fuel hit heads next (after x) xs c)
              (seek-Unlinks fuel hit heads next (after x) xs i (omega arith) out (ground arith) c
                rest))
    ]
