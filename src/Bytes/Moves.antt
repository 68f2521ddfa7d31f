-- ===== src/Bytes/Moves.antt =====
-- `memcpy` and `memmove` of src/kernel/string.c copy a block as it was before.
use bax_os_dev.Base.{
  ℕ, zero, suc, ◌+◌, ◌-◌, ◌%◌, ◌≤◌, ◌≡◌, ◌⊎◌, refl, ap, subst, arith, Bool-cases, inl, inr, ◌||◌,
  false, true, leb, ◌==◌, if◌then◌else◌,
}
use bax_os_dev.Bytes.{
  Memory, Copy, store, copy_word, copy_head, copy_words, copy_bytes, memcpy, copy_back, memmove,
}
use bax_os_dev.Bytes.Blocks.{inside}

-- A block is what another was before, and the rest of the memory is as it was.
abbrev pub Copied : ℕ → ℕ → ℕ → Memory → Memory → Type 0
Copied d s n m after = (x : ℕ) → after x ≡ (if inside d n x then m (s + (x - d)) else m x)

-- A copy from the front never reads what it has written.
abbrev pub IsForward : ℕ → ℕ → ℕ → Type 0
IsForward d s n = (d ≤ s) ⊎ (s + n ≤ d)

Copied-append :
    (d s n k : ℕ) (m m1 m2 : Memory)
    → IsForward d s (n + k)
    → Copied d s n m m1
    → Copied (d + n) (s + n) k m1 m2
    → Copied d s (n + k) m m2
Copied-append d s n k m m1 m2 ok f g x =
    let y = s + n + (x - (d + n)) in
    elim (Bool-cases (inside (d + n) k x)) [
      | inl e ↦
          let below : d + n ≤ x = ground (arith, e) in
          let same : y ≡ s + (x - d) = omega (arith, below) in
          let at : inside d n y ≡ false = ground (arith, e, ok) in
          let whole : inside d (n + k) x ≡ true = ground (arith, e) in
          rw (whole, g x, e, f y, at) (ap m same)
      | inr e ↦ rw (g x, e, f x) (ground (arith, e))
    ]

Copied-store : (d s : ℕ) (m : Memory) → Copied d s 1 m (store d (m s) m)
Copied-store d s m x = elim (Bool-cases (inside d 1 x)) [
  | inl e ↦
      let at : x ≡ d = ground (arith, e) in
      let from : s + (x - d) ≡ s = omega (arith, at) in rw (e, from) (ground (arith, at))
  | inr e ↦ rw e (ground (arith, e))
]

abbrev Part : ℕ → ℕ → ℕ → Memory → Copy → Type 0
Part d s n m r = (k : ℕ) × (r.d ≡ d + k) × (r.s ≡ s + k) × (r.count + k ≡ n) × Copied d s k m r.m

none_done : (d s : ℕ) (m : Memory) → Copied d s 0 m m
none_done d s m x = ground arith

copy_head-Part : (d s n : ℕ) (m : Memory) → IsForward d s n → Part d s n m (copy_head d s n m)
unfolding copy_head
copy_head-Part d s zero m ok = (0, omega arith, omega arith, omega arith, none_done d s m)
copy_head-Part d s (suc n) m ok = elim (Bool-cases (d % 8 == 0)) [
  | inl e ↦ rw e (0, omega arith, omega arith, omega arith, none_done d s m)
  | inr e ↦
      let (k, at, from, left, f) =
        copy_head-Part (d + 1) (s + 1) n (store d (m s) m) (omega (arith, ok)) in
      rw e (
        1 + k,
        omega (arith, at),
        omega (arith, from),
        omega (arith, left),
        Copied-append d s 1 k m (store d (m s) m) _ (omega (arith, ok, left)) (Copied-store d s m)
            f,
      )
]

copy_words-Part :
    (fuel d s n : ℕ) (m : Memory) → IsForward d s n → Part d s n m (copy_words fuel d s n m)
unfolding copy_words
copy_words-Part zero d s n m ok = (0, omega arith, omega arith, omega arith, none_done d s m)
copy_words-Part (suc fuel) d s n m ok = elim (Bool-cases (leb 8 n)) [
  | inr e ↦ rw e (0, omega arith, omega arith, omega arith, none_done d s m)
  | inl e ↦
      let enough : 8 ≤ n = ground (arith, e) in
      let (k, at, from, left, f) =
        copy_words-Part fuel (d + 8) (s + 8) (n - 8) (copy_word d s m)
          (omega (arith, ok, enough)) in
      rw e (
        8 + k,
        omega (arith, at),
        omega (arith, from),
        omega (arith, left, enough),
        Copied-append d s 8 k m (copy_word d s m) _ (omega (arith, ok, left, enough)) (λ x. refl) f,
      )
]

copy_bytes-Copied : (d s n : ℕ) (m : Memory) → IsForward d s n → Copied d s n m (copy_bytes d s n m)
unfolding copy_bytes
copy_bytes-Copied d s zero m ok = none_done d s m
copy_bytes-Copied d s (suc n) m ok =
    let one : 1 + n ≡ suc n = omega arith in
    let after = copy_bytes (d + 1) (s + 1) n (store d (m s) m) in
    subst (λ k. Copied d s k m after) one
      (Copied-append d s 1 n m (store d (m s) m) after (omega (arith, ok)) (Copied-store d s m)
        (copy_bytes-Copied (d + 1) (s + 1) n (store d (m s) m) (omega (arith, ok))))

memcpy-Copied : (d s n : ℕ) (m : Memory) → IsForward d s n → Copied d s n m (memcpy d s n m)
unfolding memcpy
memcpy-Copied d s n m ok = elim (Bool-cases (d % 8 == s % 8)) [
  | inr e ↦ rw e (copy_bytes-Copied d s n m ok)
  | inl e ↦
      let head = copy_head d s n m in
      let words = copy_words n head.d head.s head.count head.m in
      let (k, at, from, left, f) = copy_head-Part d s n m ok in
      let (j, at', from', left', g) =
        copy_words-Part n head.d head.s head.count head.m (omega (arith, ok, at, from, left)) in
      let begun = Copied-append d s k j m head.m words.m (omega (arith, ok, left, left')) f (
        subst (λ z. Copied z (s + k) j head.m words.m) at
          (subst (λ z. Copied head.d z j head.m words.m) from g)) in
      let here : words.d ≡ d + (k + j) = omega (arith, at, at') in
      let there : words.s ≡ s + (k + j) = omega (arith, from, from') in
      let size : k + j + words.count ≡ n = omega (arith, left, left') in
      let last =
        copy_bytes-Copied words.d words.s words.count words.m
          (omega (arith, ok, here, there, size)) in
      let after = copy_bytes words.d words.s words.count words.m in
      rw e (
        subst (λ z. Copied d s z m after) size
          (Copied-append d s (k + j) words.count m words.m after (omega (arith, ok, size)) begun (
            subst (λ z. Copied z (s + (k + j)) words.count words.m after) here
              (subst (λ z. Copied words.d z words.count words.m after) there last))))
]

copy_back-Copied : (d s n : ℕ) (m : Memory) → s ≤ d → Copied d s n m (copy_back d s n m)
unfolding copy_back
copy_back-Copied d s zero m later x = ground arith
copy_back-Copied d s (suc n) m later x =
    let m1 = store (d + n) (m (s + n)) m in
    let rest = copy_back-Copied d s n m1 later x in
    elim (Bool-cases (inside d n x)) [
      | inl e ↦
          let whole : inside d (suc n) x ≡ true = ground (arith, e) in
          let other : (s + (x - d) == d + n) ≡ false = ground (arith, e, later) in
          rw (rest, e, whole, other) refl
      | inr e ↦ elim (Bool-cases (x == d + n)) [
        | inl at ↦
            let here : x ≡ d + n = ground (arith, at) in
            let whole : inside d (suc n) x ≡ true = ground (arith, here) in
            let from : s + (x - d) ≡ s + n = omega (arith, here) in
            rw (rest, e, whole, at, from) refl
        | inr ne ↦
            let whole : inside d (suc n) x ≡ false = ground (arith, e, ne) in
            rw (rest, e, whole, ne) refl
      ]
    ]

-- After `memmove`, each byte of the destination is the byte that the source had there before,
-- however the two overlap, and the rest of the memory is as it was.
pub memmove-Copied :
    (dest src count : ℕ) (m : Memory) → Copied dest src count m (memmove dest src count m)
unfolding memmove
memmove-Copied dest src count m = elim (Bool-cases (leb dest src || leb (src + count) dest)) [
  | inl e ↦ rw e (memcpy-Copied dest src count m (ground (arith, e)))
  | inr e ↦ rw e (copy_back-Copied dest src count m (ground (arith, e)))
]
