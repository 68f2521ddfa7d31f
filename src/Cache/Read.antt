-- ===== src/Cache/Read.antt =====
-- Reading through the cache of src/modules/storage/cache.c.
use mathlib.Core.Option
use bax_os_dev.Base.{
  ℕ, zero, suc, ◌+◌, ◌-◌, ◌≤◌, ◌<◌, false, Option, none, some, ltb, ◌==◌, if◌then◌else◌, ◌≡◌, refl,
  sym, ap, ◌∙◌, arith, Bool-cases, inl, inr, subst,
}
use bax_os_dev.Cache.{Line, Cache, no_sector, line_sectors}
use bax_os_dev.Cache.Cached.{IsCached}
use bax_os_dev.Base.{Option-cases, if-both, ◌⊎◌, List, ◌∷◌, ◌++◌, ◌%◌, ◌^◌}
use bax_os_dev.Cache.Calls.{Answers, touch, line_for, sectors_of, slice, read_lines, cache_read}
use bax_os_dev.Cache.Hook.{touch-IsCached, touch-rest}
use bax_os_dev.Cache.Find.{ReadsRight, LineFor, line_for-LineFor}

slice-append : (f : ℕ → ℕ) (a m n : ℕ) → slice f a (m + n) ≡ slice f a m ++ slice f (a + m) n
unfolding slice
slice-append f a zero n =
    let z : 0 + n ≡ n = omega arith in let a0 : a + 0 ≡ a = omega arith in rw (z, a0)
slice-append f a (suc m) n =
    let more : suc m + n ≡ suc (m + n) = omega arith in
    let next : a + suc m ≡ a + 1 + m = omega arith in
    rw (more, next) (ap (λ r. f a ∷ r) (slice-append f (a + 1) m n))

slice-same :
    (f g : ℕ → ℕ) (a b n : ℕ)
    → ((k : ℕ) → k < n → f (a + k) ≡ g (b + k))
    → slice f a n ≡ slice g b n
unfolding slice
slice-same f g a b zero same = refl
slice-same f g a b (suc n) same =
    let a0 : a + 0 ≡ a = omega arith in
    let b0 : b + 0 ≡ b = omega arith in
    let here : f a ≡ g b = sym (ap f a0) ∙ same 0 (omega arith) ∙ ap g b0 in
    let rest = slice-same f g (a + 1) (b + 1) n (λ k lt.
      let ak : a + 1 + k ≡ a + suc k = omega arith in
      let bk : b + suc k ≡ b + 1 + k = omega arith in
      ap f ak ∙ same (suc k) (omega arith) ∙ ap g bk) in
    ap (λ x. x ∷ slice f (a + 1) n) here ∙ ap (λ r. g b ∷ r) rest

-- What a read comes to: an error of the disk, or what the disk has.
abbrev pub ReadOf : (ℕ → ℕ) → (ℕ → ℕ → Option (ℕ → ℕ)) → ℕ → ℕ → Option (List ℕ) × Cache → Type 0
ReadOf content disk lba n (o, t) =
    IsCached content t
    × (((o ≡ none) × ((at : ℕ) × (count : ℕ) × (disk at count ≡ none)))
        ⊎ (o ≡ some (slice content lba n)))

module _ (content : ℕ → ℕ) (disk : ℕ → ℕ → Option (ℕ → ℕ)) (right : ReadsRight content disk) where
  -- Around the cache.
  around : ℕ → ℕ → Option (List ℕ)
  around lba n = Option.map (λ f. slice f 0 n) (disk lba n)

  around-right :
      (lba n : ℕ)
      → ((around lba n ≡ none) × ((at : ℕ) × (count : ℕ) × (disk at count ≡ none)))
        ⊎ (around lba n ≡ some (slice content lba n))
  unfolding around
  around-right lba n = elim (Option-cases (disk lba n)) [
    | inl e ↦ inl (rw e refl, (lba, n, e))
    | inr (f, e) ↦ inr (
        rw e (
          ap some (
            slice-same f content 0 lba n
              (λ k lt. let z : 0 + k ≡ k = omega arith in ap f z ∙ right lba n f e k lt))))
  ]

  -- A line's part of a read, and the rest.
  join :
      (lba n take : ℕ) (piece : List ℕ) (u : Cache) (r : Option (List ℕ) × Cache)
      → take ≤ n
      → piece ≡ slice content lba take
      → ReadOf content disk (lba + take) (n - take) r
      → ReadOf content disk lba n (Option.map (λ xs. piece ++ xs) (r.0), r.1)
  join lba n take piece u r le same (still, inl (e, failed)) = rw e (still, inl (refl, failed))
  join lba n take piece u r le same (still, inr e) =
      let split : n ≡ take + (n - take) = omega arith in
      (
        still,
        inr (
            rw (e, same)
              (ap some (
                sym (slice-append content lba take (n - take))
                ∙ ap (slice content lba) (sym split)))),
      )

  touch-sectors :
      (t : Cache) (i : ℕ) → IsCached content t → sectors_of i (touch i t) ≡ sectors_of i t
  touch-sectors t i c =
      ap (λ (o : Option (ℕ → ℕ)). let g : ℕ → ℕ = elim o [ none ↦ (λ n. 0) | some h ↦ h ] in g)
        (touch-rest content t i c (λ (l : Line). l.sectors) i (λ l n. refl))

  piece_right :
      (lba take i : ℕ) (t : Cache)
      → IsCached content t
      → take ≤ line_sectors - lba % line_sectors
      → ((k : ℕ) → k < line_sectors → sectors_of i t k ≡ content (lba - lba % line_sectors + k))
      → slice (sectors_of i (touch i t)) (lba % line_sectors) take ≡ slice content lba take
  piece_right lba take i t c le got =
      let within = lba % line_sectors in
      ap (λ (f : ℕ → ℕ). slice f within take) (touch-sectors t i c)
      ∙ slice-same (sectors_of i t) content within lba take (λ k lt.
        let at : lba - within + (within + k) ≡ lba + k = omega arith in
        got (within + k) (omega arith) ∙ ap content at)

  -- A round of the loop: the part of a line, and what the rest comes to.
  round_of : ℕ → ℕ → ℕ → (Cache → Option (List ℕ) × Cache) → ℕ × Cache → Option (List ℕ) × Cache
  round_of lba n take rest (at, t) =
      let u = touch (at - 1) t in
      if at == 0 then (around lba n, t) else (
        Option.map (λ xs. slice (sectors_of (at - 1) u) (lba % line_sectors) take ++ xs)
            ((rest u).0),
        (rest u).1,
      )

  round-ReadOf :
      (lba n take : ℕ) (rest : Cache → Option (List ℕ) × Cache) (r : ℕ × Cache)
      → take ≤ n
      → take ≤ line_sectors - lba % line_sectors
      → LineFor content (lba - lba % line_sectors) r
      → ((u : Cache) → IsCached content u → ReadOf content disk (lba + take) (n - take) (rest u))
      → ReadOf content disk lba n (round_of lba n take rest r)
  unfolding round_of
  round-ReadOf lba n take rest r le inside (c, inl e) onward = rw e (c, around-right lba n)
  round-ReadOf lba n take rest r le inside (c, inr (i, e, got)) onward =
      let some_line : (suc i == 0) ≡ false = ground arith in
      let less : suc i - 1 ≡ i = omega arith in
      let t = r.1 in
      let u = touch i t in
      rw (e, less, some_line)
        (join lba n take (slice (sectors_of i u) (lba % line_sectors) take) u (rest u) le
          (piece_right lba take i t c inside got) (onward u (touch-IsCached content t i c)))

  read_lines-ReadOf :
      (world : ℕ → Answers) (fuel lba n : ℕ) (s : Cache)
      → n ≤ fuel
      → lba + n < 2 ^ 32
      → IsCached content s
      → ReadOf content disk lba n (read_lines disk world fuel lba n s)
  unfolding read_lines around round_of slice
  read_lines-ReadOf world zero lba n s le below c =
      let e : n ≡ 0 = omega arith in rw e (c, inr refl)
  read_lines-ReadOf world (suc fuel) lba n s le below c = elim (Bool-cases (n == 0)) [
    | inl empty ↦ let e : n ≡ 0 = ground arith in rw e (c, inr refl)
    | inr some_left ↦
        let within = lba % line_sectors in
        let first = lba - within in
        let take = if ltb (line_sectors - within) n then line_sectors - within else n in
        let file : (first == no_sector) ≡ false = ground arith in
        let one : 0 < take = ground arith in
        let most : take ≤ n = ground arith in
        let inside : take ≤ line_sectors - within = ground arith in
        let wraps : (lba + take) % 2 ^ 32 ≡ lba + take = omega arith in
        rw some_left (
          round-ReadOf lba n take
            (λ u. read_lines disk world fuel ((lba + take) % 2 ^ 32) (n - take) u)
            (line_for disk (world fuel) first s) most inside
            (line_for-LineFor content disk right (world fuel) first s c file)
            (λ u still.
              subst
                (λ (at : ℕ).
                  ReadOf content disk (lba + take) (n - take)
                    (read_lines disk world fuel at (n - take) u))
                (sym wraps)
                (read_lines-ReadOf world fuel (lba + take) (n - take) u (omega arith) (omega arith)
                  still)))
  ]

  -- Over a cache whose lines hold what the disk has, and a disk that gives what it has or fails, a
  -- read of sectors that end below 2 ^ 32 returns just what the disk has there, whatever was
  -- cached, or fails where a read of the disk failed; and the lines hold what the disk has
  -- afterwards.
  pub cache_read-ReadOf :
      (world : ℕ → Answers) (lba n : ℕ) (s : Cache)
      → lba + n < 2 ^ 32
      → IsCached content s
      → ReadOf content disk lba n (cache_read disk world lba n s)
  unfolding cache_read around
  cache_read-ReadOf world lba n s below c =
      if-both (ReadOf content disk lba n) s.off (around lba n, s) (read_lines disk world n lba n s)
        (c, around-right lba n) (read_lines-ReadOf world n lba n s (omega arith) below c)
