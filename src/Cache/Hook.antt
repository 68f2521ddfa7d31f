-- ===== src/Cache/Hook.antt =====
-- A line of src/modules/storage/cache.c put on its chain, and one that is read.
use bax_os_dev.Base.{
  ◌%◌, ◌^◌, ℕ, ◌+◌, ◌<◌, Bool, true, false, ◌||◌, some, ◌==◌, ◌≡◌, refl, sym, ap, ◌∙◌, arith,
  Bool-cases, inl, inr,
}
use bax_os_dev.Chains.Updates.{update_field, update_other, update_self, ne_of_tests}
use bax_os_dev.Chains.{update}
use bax_os_dev.Chains.Tables.{IsTable-same}
use bax_os_dev.Cache.{Line, Cache, no_sector, line_sectors, bucket_of, nexts, has_data}
use bax_os_dev.Cache.Cached.{hooked, buckets, IsLineTable, tally, with_data, IsCached, tally-same}
use mathlib.Core.Option.{some-injective}
use bax_os_dev.Chains.Tables.{IsTable-link}
use bax_os_dev.Cache.Calls.{hook, keep, touch}

-- What a line says but for its chain.
abbrev pub bare : Line → Line
bare l = record l { next = 0 }

pub hook-bare : (i j : ℕ) (s : Cache) → bare ((hook i s).lines j) ≡ bare (s.lines j)
unfolding hook
hook-bare i j s =
    update_field bare s.lines i (record (s.lines i) { next = s.heads (buckets s i) }) j refl

pub hook-IsLineTable :
    (s : Cache) (on : ℕ → Bool) (i : ℕ)
    → on i ≡ false
    → IsLineTable s on
    → IsLineTable (hook i s) (λ j. i == j || on j)
unfolding hook
hook-IsLineTable s on i off k =
    let l = record (s.lines i) { next = s.heads (buckets s i) } in
    let t = hook i s in
    let linked =
      IsTable-link (buckets s) s.heads (nexts s) on k (nexts t) i off
        (ap (λ (x : Line). x.next) (update_self s.lines i l))
        (λ j o.
          ap (λ (x : Line). x.next) (update_other s.lines i l j (ne_of_tests on i j off o))) in
    IsTable-same (buckets s) t.heads (nexts t) (λ j. i == j || on j) linked (nexts t)
      (λ j. i == j || on j) (buckets t) (λ j o. refl) (λ j. refl)
      (λ j o. update_field (λ (x : Line). bucket_of s.room x.first) s.lines i l j refl)

hook-room : (i : ℕ) (s : Cache) → (hook i s).room ≡ s.room
unfolding hook
hook-room i s = refl

hook-count : (i : ℕ) (s : Cache) → (hook i s).count ≡ s.count
unfolding hook
hook-count i s = refl

-- A line with memory that holds nothing, filled with what the disk has and put on its chain.
module _ (content : ℕ → ℕ) (t : Cache) (i first : ℕ) (f : ℕ → ℕ) (c : IsCached content t)
    (lt : i < t.room) (empty : (t.lines i).first ≡ no_sector) (full : has_data (t.lines i) ≡ true)
    (file : (first == no_sector) ≡ false)
    (right : (k : ℕ) → k < line_sectors → f k ≡ content (first + k)) where
  kept_line : Line
  kept_line = record (t.lines i) { first = first; sectors = some f }

  before : Cache
  before = record t { lines = update t.lines i kept_line }

  off : hooked t i ≡ false
  unfolding hooked
  off = ground (arith, empty)

  keep-bare : (j : ℕ) → bare ((keep i first f t).lines j) ≡ bare (update t.lines i kept_line j)
  unfolding keep before kept_line
  keep-bare j = hook-bare i j before

  keep-here : bare ((keep i first f t).lines i) ≡ bare kept_line
  keep-here = keep-bare i ∙ ap bare (update_self t.lines i kept_line)

  keep-other : (j : ℕ) → (j == i) ≡ false → bare ((keep i first f t).lines j) ≡ bare (t.lines j)
  keep-other j ne = keep-bare j ∙ ap bare (update_other t.lines i kept_line j ne)

  keep-room : (keep i first f t).room ≡ t.room
  unfolding keep
  keep-room = hook-room i _

  keep-count : (keep i first f t).count ≡ t.count
  unfolding keep
  keep-count = hook-count i _

  keep-hooked : (j : ℕ) → hooked (keep i first f t) j ≡ (i == j || hooked t j)
  unfolding hooked has_data kept_line
  keep-hooked j = elim (Bool-cases (j == i)) [
    | inl same ↦
        let at : j ≡ i = ground arith in
        rw at
          (ground (arith, ap (λ (l : Line). l.first) keep-here, ap has_data keep-here, keep-room))
    | inr ne ↦ ground (
      arith,
      ap (λ (l : Line). l.first) (keep-other j ne),
      ap has_data (keep-other j ne),
      keep-room,
    )
  ]

  keep-IsLineTable : IsLineTable (keep i first f t) (hooked (keep i first f t))
  unfolding keep before kept_line
  keep-IsLineTable =
      let other : (j : ℕ) → hooked t j ≡ true → update t.lines i kept_line j ≡ t.lines j =
        λ j o. update_other t.lines i kept_line j (ne_of_tests (hooked t) i j off o) in
      let filled : IsLineTable before (hooked t) =
        IsTable-same (buckets t) t.heads (nexts t) (hooked t) c.table (nexts before) (hooked t)
          (buckets before) (λ j o. ap (λ (x : Line). x.next) (other j o)) (λ j. refl)
          (λ j o. ap (λ (x : Line). bucket_of t.room x.first) (other j o)) in
      let u = hook i before in
      IsTable-same (buckets u) u.heads (nexts u) (λ j. i == j || hooked t j)
        (hook-IsLineTable before (hooked t) i off filled) (nexts u) (hooked u) (buckets u)
        (λ j o. refl) keep-hooked (λ j o. refl)

  keep-held :
      (j : ℕ) (g : ℕ → ℕ)
      → hooked (keep i first f t) j ≡ true
      → ((keep i first f t).lines j).sectors ≡ some g
      → (k : ℕ) → k < line_sectors
      → g k ≡ content (((keep i first f t).lines j).first + k)
  unfolding kept_line
  keep-held j g o e k kl = elim (Bool-cases (j == i)) [
    | inl same ↦
        let at : j ≡ i = ground arith in
        let u = keep i first f t in
        let first_at : (u.lines j).first ≡ first =
          ap (λ (n : ℕ). (u.lines n).first) at ∙ ap (λ (l : Line). l.first) keep-here in
        let here : some f ≡ some g =
          sym (ap (λ (l : Line). l.sectors) keep-here)
          ∙ ap (λ (n : ℕ). (u.lines n).sectors) (sym at)
          ∙ e in
        ap (λ (h : ℕ → ℕ). h k) (sym (some-injective f g here))
        ∙ right k kl
        ∙ ap (λ (n : ℕ). content (n + k)) (sym first_at)
    | inr ne ↦
        let same = keep-other j ne in
        let was : hooked t j ≡ true = ground (arith, keep-hooked j) in
        c.held j g was (sym (ap (λ (l : Line). l.sectors) same) ∙ e) k kl
        ∙ ap (λ (l : Line). content (l.first + k)) (sym same)
  ]

  pub keep-IsCached : IsCached content (keep i first f t)
  unfolding has_data kept_line
  keep-IsCached = record {
    table = keep-IsLineTable;
    held = keep-held;
    counted =
        keep-count
        ∙ c.counted
        ∙ sym (
            tally-same t.room (with_data t) (with_data (keep i first f t)) (λ j below.
              elim (Bool-cases (j == i)) [
                | inl same ↦
                    let at : j ≡ i = ground arith in rw at (ap has_data keep-here ∙ sym full)
                | inr ne ↦ ap has_data (keep-other j ne)
              ]))
        ∙ ap (λ (n : ℕ). tally n (with_data (keep i first f t))) (sym keep-room);
  }

  -- The line is the one of that sector, with what the disk has.
  pub keep-line : ((keep i first f t).lines i).sectors ≡ some f
  unfolding kept_line
  keep-line = ap (λ (l : Line). l.sectors) keep-here

-- A line that is read is as it was, but for its age.
module _ (content : ℕ → ℕ) (s : Cache) (i : ℕ) (c : IsCached content s) where
  pub touch-rest {ℓ} :
      {A : Type ℓ} (f : Line → A) (j : ℕ)
      → ((l : Line) (n : ℕ) → f (record l { used = n }) ≡ f l)
      → f ((touch i s).lines j) ≡ f (s.lines j)
  unfolding touch
  touch-rest f j same =
      let now = (s.clock + 1) % 2 ^ 32 in
      update_field f s.lines i (record (s.lines i) { used = now }) j (same (s.lines i) now)

  touch-hooked : (j : ℕ) → hooked (touch i s) j ≡ hooked s j
  unfolding hooked has_data touch
  touch-hooked j =
      rw (touch-rest (λ (l : Line). l.first) j (λ l n. refl), touch-rest has_data j (λ l n. refl))

  pub touch-IsCached : IsCached content (touch i s)
  unfolding has_data touch
  touch-IsCached = record {
    table =
        IsTable-same (buckets s) s.heads (nexts s) (hooked s) c.table (nexts (touch i s))
          (hooked (touch i s)) (buckets (touch i s))
          (λ j o. touch-rest (λ (l : Line). l.next) j (λ l n. refl)) touch-hooked
          (λ j o. touch-rest (λ (l : Line). bucket_of s.room l.first) j (λ l n. refl));
    held = λ j f o e k lt.
        c.held j f (sym (touch-hooked j) ∙ o)
          (sym (touch-rest (λ (l : Line). l.sectors) j (λ l n. refl)) ∙ e) k lt
        ∙ sym (touch-rest (λ (l : Line). content (l.first + k)) j (λ l n. refl));
    counted =
        c.counted
        ∙ sym (
            tally-same s.room (with_data s) (with_data (touch i s))
              (λ j lt. touch-rest has_data j (λ l n. refl)));
  }
