-- ===== src/Chains/Tables.antt =====
-- A table of chains: the entries that are on one, each on the chain of its bucket.
use bax_os_dev.Base.{
  ℕ, zero, suc, ◌≤◌, ◌<◌, ◌≡◌, refl, Bool, true, false, ◌||◌, not, ◌&&◌, List, [], ◌∷◌, ◌==◌, arith,
  length, Bool-cases, inl, inr, ◌⊎◌, ◌∙◌, ap, sym,
}
use bax_os_dev.Chains.{Place, head, after, value, update, seek, lookup, Chain}
use bax_os_dev.Chains.Sets.{has, distinct, pigeonhole}
use bax_os_dev.Chains.Links.{has_ne, first_hit, Chain-same, lookup-first_hit}

-- The entries of the chain from `p`, in some order, are those that a test is true of.
pub record IsListed (next : ℕ → ℕ) (p : ℕ) (on : ℕ → Bool) : Type 0 where
  pub items : List ℕ
  pub chain : Chain next p items
  pub once : distinct items ≡ true
  pub same : (i : ℕ) → has i items ≡ on i

pub IsListed-same :
    {next other : ℕ → ℕ} {p : ℕ} {on also : ℕ → Bool}
    → ((i : ℕ) → on i ≡ true → other i ≡ next i)
    → ((i : ℕ) → also i ≡ on i)
    → IsListed next p on
    → IsListed other p also
IsListed-same {next} {other} {p} links tests l = record {
  items = l.items;
  chain = Chain-same next other p l.items (λ i h. links i (sym (l.same i) ∙ h)) l.chain;
  once = l.once;
  same = λ i. l.same i ∙ sym (tests i);
}

pub IsListed-empty :
    {next : ℕ → ℕ} {p : ℕ} {on : ℕ → Bool} → p ≡ 0 → ((i : ℕ) → on i ≡ false) → IsListed next p on
unfolding has distinct
IsListed-empty e none = record { items = []; chain = e; once = refl; same = λ i. sym (none i) }

-- Where some entry is on a chain, its head is not 0.
pub IsListed-some :
    {next : ℕ → ℕ} {p : ℕ} {on : ℕ → Bool} (i : ℕ)
    → on i ≡ true
    → IsListed next p on
    → (p == 0) ≡ false
unfolding has
IsListed-some {next} {p} i o l = begun p l.items l.chain (l.same i ∙ o)
  where
    begun : (p : ℕ) (xs : List ℕ) → Chain next p xs → has i xs ≡ true → (p == 0) ≡ false
    begun p [] c h = ground arith
    begun p (x ∷ xs) c h = ground (arith, c.0)

-- An entry put before the first.
pub IsListed-link :
    {next other : ℕ → ℕ} {p : ℕ} {on : ℕ → Bool} (i : ℕ)
    → on i ≡ false
    → other i ≡ p
    → ((j : ℕ) → on j ≡ true → other j ≡ next j)
    → IsListed next p on
    → IsListed other (suc i) (λ j. i == j || on j)
unfolding distinct has
IsListed-link {next} {other} {p} {on} i off e links l = record {
  items = i ∷ l.items;
  chain =
      (refl, rw e (Chain-same next other p l.items (λ j h. links j (sym (l.same j) ∙ h)) l.chain));
  once = ground (arith, l.same i, l.once);
  same = λ j. ground (arith, l.same j);
}

popped :
    {next : ℕ → ℕ} {on : ℕ → Bool} (p i : ℕ) (xs : List ℕ)
    → p ≡ suc i
    → Chain next p xs
    → distinct xs ≡ true
    → ((j : ℕ) → has j xs ≡ on j)
    → (on i ≡ true) × IsListed next (next i) (λ j. on j && not (j == i))
unfolding distinct has
popped p i [] e c d same = absurd (omega (arith, c, e))
popped {next} p i (x ∷ xs) e (v, c) d same =
    let at : x ≡ i = omega (arith, e, v) in
    (
      sym (same i) ∙ ground arith,
      record {
        items = xs;
        chain = rw (sym at) c;
        once = ground arith;
        same = λ j. ground (arith, same j, has_ne x j xs);
      },
    )

-- The first entry of a chain taken off it.
pub IsListed-pop :
    {next : ℕ → ℕ} {p : ℕ} {on : ℕ → Bool} (i : ℕ)
    → p ≡ suc i
    → IsListed next p on
    → (on i ≡ true) × IsListed next (next i) (λ j. on j && not (j == i))
IsListed-pop {p = p} i e l = popped p i l.items e l.chain l.once l.same

pub IsListed-length :
    {next : ℕ → ℕ} {p : ℕ} {on : ℕ → Bool} (n : ℕ)
    → ((i : ℕ) → on i ≡ true → i < n)
    → (l : IsListed next p on) → length l.items ≤ n
IsListed-length n below l = pigeonhole n l.items l.once (λ i h. below i (sym (l.same i) ∙ h))

-- What a loop over a chain comes to: an entry that is on it and passes the test, or 0 where none.
abbrev pub Finds : (ℕ → Bool) → (ℕ → Bool) → ℕ → Type 0
Finds on hit r =
    ((r ≡ 0) × ((i : ℕ) → on i ≡ true → hit i ≡ false))
    ⊎ ((i : ℕ) × (r ≡ suc i) × (on i ≡ true) × (hit i ≡ true))

hit-cons :
    (hit : ℕ → Bool) (x : ℕ) (xs : List ℕ) (i : ℕ)
    → hit x ≡ false
    → (has i xs ≡ true → hit i ≡ false)
    → has i (x ∷ xs) ≡ true
    → hit i ≡ false
unfolding has
hit-cons hit x xs i miss rest on = elim (Bool-cases (x == i)) [
  | inl e ↦ let same : x ≡ i = ground arith in rw (sym same) miss
  | inr e ↦ rest (ground arith)
]

first_hit-Finds : (hit : ℕ → Bool) (xs : List ℕ) → Finds (λ i. has i xs) hit (first_hit hit xs)
unfolding first_hit has
first_hit-Finds hit [] = inl (refl, ground arith)
first_hit-Finds hit (x ∷ xs) = elim (Bool-cases (hit x)) [
  | inl found ↦ inr (x, ground arith, ground arith, found)
  | inr miss ↦ elim (first_hit-Finds hit xs) [
    | inl (e, absent) ↦ inl (ground arith, λ i. hit-cons hit x xs i miss (absent i))
    | inr (i, e, on, found) ↦ inr (i, ground arith, ground arith, found)
  ]
]

Finds-same :
    {on also hit : ℕ → Bool} {r : ℕ} → ((i : ℕ) → on i ≡ also i) → Finds on hit r → Finds also hit r
Finds-same same (inl (e, absent)) = inl (e, λ i h. absent i (same i ∙ h))
Finds-same same (inr (i, e, on, found)) = inr (i, e, sym (same i) ∙ on, found)

pub IsListed-lookup :
    {next : ℕ → ℕ} {p : ℕ} {on : ℕ → Bool} (n : ℕ) (hit : ℕ → Bool)
    → ((i : ℕ) → on i ≡ true → i < n)
    → IsListed next p on
    → Finds on hit (lookup n hit next p)
IsListed-lookup {next} {p} n hit below l =
    rw (lookup-first_hit n hit next p l.items (IsListed-length n below l) l.chain)
      (Finds-same l.same (first_hit-Finds hit l.items))

-- The loop over the places stops at the entry that the loop over the entries finds.
pub value-seek :
    (fuel : ℕ) (hit : ℕ → Bool) (heads next : ℕ → ℕ) (at : Place) (xs : List ℕ)
    → length xs ≤ fuel
    → Chain next (value heads next at) xs
    → value heads next (seek fuel hit heads next at) ≡ first_hit hit xs
unfolding seek value first_hit
value-seek zero hit heads next at [] le e = e
value-seek (suc fuel) hit heads next at [] le e = ground arith
value-seek zero hit heads next at (x ∷ xs) le c = absurd (omega arith)
value-seek (suc fuel) hit heads next at (x ∷ xs) le (e, c) =
    ground (arith, value-seek fuel hit heads next (after x) xs (omega arith) c)

-- Every entry that is on a chain is on the one of its bucket.
abbrev pub IsTable : (ℕ → ℕ) → (ℕ → ℕ) → (ℕ → Bool) → (ℕ → ℕ) → Type 0
IsTable heads next on bucket = (h : ℕ) → IsListed next (heads h) (λ i. on i && bucket i == h)

module _ (bucket heads next : ℕ → ℕ) (on : ℕ → Bool) (t : IsTable heads next on bucket) where
  pub IsTable-same :
      (other : ℕ → ℕ) (also : ℕ → Bool) (into : ℕ → ℕ)
      → ((i : ℕ) → on i ≡ true → other i ≡ next i)
      → ((i : ℕ) → also i ≡ on i)
      → ((i : ℕ) → on i ≡ true → into i ≡ bucket i)
      → IsTable heads other also into
  IsTable-same other also into links tests buckets h =
      IsListed-same (λ i o. links i (ground arith)) (λ i. ground (arith, tests i, buckets i)) (t h)

  pub IsTable-link :
      (other : ℕ → ℕ) (i : ℕ)
      → on i ≡ false
      → other i ≡ heads (bucket i)
      → ((j : ℕ) → on j ≡ true → other j ≡ next j)
      → IsTable (update heads (bucket i) (suc i)) other (λ j. i == j || on j) bucket
  IsTable-link other i off e links h = elim (Bool-cases (h == bucket i)) [
    | inl same ↦
        let at : h ≡ bucket i = ground arith in
        rw same (
          IsListed-same (λ j o. refl) (λ j. grind arith)
            (IsListed-link i (ground arith) (e ∙ ap heads (sym at)) (λ j o. links j (ground arith))
              (t h)))
    | inr ne ↦ rw ne (IsListed-same (λ j o. links j (ground arith)) (λ j. grind arith) (t h))
  ]

  pub IsTable-seek :
      (n : ℕ) (hit : ℕ → Bool)
      → ((i : ℕ) → on i ≡ true → i < n)
      → (h : ℕ)
      → Finds (λ i. on i && bucket i == h) hit (value heads next (seek n hit heads next (head h)))
  unfolding value
  IsTable-seek n hit below h =
      let l = t h in
      rw
        (value-seek n hit heads next (head h) l.items
          (IsListed-length n (λ i o. below i (ground arith)) l) l.chain)
        (Finds-same l.same (first_hit-Finds hit l.items))
