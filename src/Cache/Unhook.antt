-- ===== src/Cache/Unhook.antt =====
-- A line of src/modules/storage/cache.c taken off its chain, and its memory given back.
use bax_os_dev.Base.{
  ℕ, suc, ◌+◌, ◌<◌, true, false, not, ◌&&◌, ◌==◌, ◌≡◌, refl, sym, ap, ◌∙◌, arith, Bool-cases, inl,
  inr,
}
use bax_os_dev.Chains.Updates.{update_field, update_other, update_self}
use bax_os_dev.Chains.{Place, head, after, value, update, put_head, put_next}
use bax_os_dev.Chains.Tables.{IsTable-same, IsTable-seek}
use bax_os_dev.Chains.Removal.{IsTable-unlink}
use bax_os_dev.Cache.{
  Line, Cache, no_sector, bucket_of, nexts, put_link, line_place, off_chain, unhook, has_data,
}
use bax_os_dev.Cache.{let_out}
use bax_os_dev.Cache.Cached.{
  hooked, buckets, IsLineTable, tally, with_data, IsCached, hooked-below, tally-same,
}

put_link-next :
    (p : Place) (v : ℕ) (ls : ℕ → Line) (j : ℕ)
    → (put_link p v ls j).next ≡ put_next p v (λ i. (ls i).next) j
unfolding put_link put_next
put_link-next (head h) v ls j = refl
put_link-next (after i) v ls j = elim (Bool-cases (j == i)) [ inl same ↦ rw same | inr ne ↦ rw ne ]

put_link-rest {ℓ} :
    {A : Type ℓ} (f : Line → A) (p : Place) (v : ℕ) (ls : ℕ → Line) (j : ℕ)
    → ((l : Line) → f (record l { next = v }) ≡ f l)
    → f (put_link p v ls j) ≡ f (ls j)
unfolding put_link
put_link-rest f (head h) v ls j same = refl
put_link-rest f (after i) v ls j same =
    update_field f ls i (record (ls i) { next = v }) j (same (ls i))

module _ (s : Cache) (i : ℕ) (on : hooked s i ≡ true) (t : IsLineTable s (hooked s)) where
  unhook-arrives : value s.heads (nexts s) (line_place i s) ≡ suc i
  unhook-arrives =
      elim (IsTable-seek (buckets s) s.heads (nexts s) (hooked s) t s.room (λ j. j == i)
        (hooked-below s) (buckets s i)) [
          | inl (e, absent) ↦ absurd (ground (arith, absent i (ground arith)))
          | inr (j, e, listed, same) ↦ let at : j ≡ i = ground arith in e ∙ ap suc at
        ]

  unhooked_lines : ℕ → Line
  unhooked_lines =
      let ls = put_link (line_place i s) ((s.lines i).next) s.lines in
      update ls i (record (ls i) { first = no_sector })

  unhook-on : unhook i s ≡ record s {
    heads = put_head (line_place i s) ((s.lines i).next) s.heads;
    lines = unhooked_lines;
  }
  unfolding unhook off_chain unhooked_lines
  unhook-on =
      let here : (value s.heads (nexts s) (line_place i s) == suc i) ≡ true =
        ground (arith, unhook-arrives) in
      rw here

  -- All lines keep what is not `first` or `next`; the others keep `first` too.
  unhook-rest {ℓ} :
      {A : Type ℓ} (f : Line → A) (j : ℕ)
      → ((l : Line) (v w : ℕ) → f (record l { first = v; next = w }) ≡ f l)
      → f ((unhook i s).lines j) ≡ f (s.lines j)
  unfolding unhooked_lines
  unhook-rest f j same =
      let v = (s.lines i).next in
      let ls = put_link (line_place i s) v s.lines in
      rw unhook-on (
        update_field f ls i (record (ls i) { first = no_sector }) j
          (same (ls i) no_sector ((ls i).next))
        ∙ put_link-rest f (line_place i s) v s.lines j (λ l. same l l.first v))

  unhook-other {ℓ} :
      {A : Type ℓ} (f : Line → A) (j : ℕ)
      → (j == i) ≡ false
      → ((l : Line) (w : ℕ) → f (record l { next = w }) ≡ f l)
      → f ((unhook i s).lines j) ≡ f (s.lines j)
  unfolding unhooked_lines
  unhook-other f j ne same =
      let v = (s.lines i).next in
      let ls = put_link (line_place i s) v s.lines in
      rw unhook-on (
        ap f (update_other ls i (record (ls i) { first = no_sector }) j ne)
        ∙ put_link-rest f (line_place i s) v s.lines j (λ l. same l v))

  unhook-first : ((unhook i s).lines i).first ≡ no_sector
  unfolding unhook
  unhook-first =
      ap (λ (l : Line). l.first)
        (update_self ((off_chain i s).lines) i
          (record ((off_chain i s).lines i) { first = no_sector }))

  unhook-room : (unhook i s).room ≡ s.room
  unhook-room = rw unhook-on

  unhook-count : (unhook i s).count ≡ s.count
  unhook-count = rw unhook-on

  unhook-hooked : (j : ℕ) → hooked (unhook i s) j ≡ (hooked s j && not (j == i))
  unfolding hooked has_data
  unhook-hooked j = elim (Bool-cases (j == i)) [
    | inl same ↦ let at : j ≡ i = ground arith in rw at (ground (arith, unhook-first))
    | inr ne ↦
        rw
          (
            unhook-room,
            unhook-other (λ (l : Line). l.first) j ne (λ l w. refl),
            unhook-rest has_data j (λ l v w. refl),
          )
          (ground arith)
  ]

  unhook-IsLineTable : IsLineTable (unhook i s) (hooked (unhook i s))
  unfolding unhooked_lines
  unhook-IsLineTable =
      let at = line_place i s in
      let v = (s.lines i).next in
      let ls = put_link at v s.lines in
      let w = record s { heads = put_head at v s.heads; lines = unhooked_lines } in
      let out =
        IsTable-unlink (buckets s) s.heads (nexts s) (hooked s) t s.room (λ j. j == i)
          (hooked-below s) i (buckets s i) unhook-arrives in
      let other : (j : ℕ) → (hooked s j && not (j == i)) ≡ true → (j == i) ≡ false =
        λ j o. ground arith in
      let l = record (ls i) { first = no_sector } in
      rw unhook-on (
        IsTable-same (buckets s) w.heads (put_next at v (nexts s)) (λ j. hooked s j && not (j == i))
          out (nexts w) (hooked w) (buckets w)
          (λ j o.
            ap (λ (x : Line). x.next) (update_other ls i l j (other j o))
            ∙ put_link-next at v s.lines j)
          (λ j. ap (λ (c : Cache). hooked c j) (sym unhook-on) ∙ unhook-hooked j)
          (λ j o.
            ap (λ (x : Line). bucket_of s.room x.first) (update_other ls i l j (other j o))
            ∙ put_link-rest (λ (x : Line). bucket_of s.room x.first) at v s.lines j (λ x. refl)))

module _ (content : ℕ → ℕ) (s : Cache) (i : ℕ) (on : hooked s i ≡ true)
    (c : IsCached content s) where
  unhook-IsCached : IsCached content (unhook i s)
  unfolding has_data
  unhook-IsCached = record {
    table = unhook-IsLineTable s i on c.table;
    held = λ j f o e k lt.
        let was : (hooked s j && not (j == i)) ≡ true = sym (unhook-hooked s i on c.table j) ∙ o in
        let ne : (j == i) ≡ false = ground arith in
        let first = unhook-other s i on c.table (λ (l : Line). l.first) j ne (λ l w. refl) in
        let same = unhook-rest s i on c.table (λ (l : Line). l.sectors) j (λ l v w. refl) in
        c.held j f (ground arith) (sym same ∙ e) k lt ∙ ap (λ (n : ℕ). content (n + k)) (sym first);
    counted =
        unhook-count s i on c.table
        ∙ c.counted
        ∙ sym (
            tally-same s.room (with_data s) (with_data (unhook i s))
              (λ j lt. unhook-rest s i on c.table has_data j (λ l v w. refl)))
        ∙ ap (λ (n : ℕ). tally n (with_data (unhook i s))) (sym (unhook-room s i on c.table));
  }

-- A line with memory that holds nothing, or is on its chain, holds nothing and is on none then.
module _ (content : ℕ → ℕ) (s : Cache) (i : ℕ) (lt : i < s.room)
    (full : has_data (s.lines i) ≡ true) (c : IsCached content s) where
  first_hooked : ((s.lines i).first == no_sector) ≡ false → hooked s i ≡ true
  unfolding hooked
  first_hooked file = ground arith

  -- What a line is when it has been let go of.
  pub record IsLetOut (t : Cache) : Type 0 where
    pub cached : IsCached content t
    pub empty : (t.lines i).first ≡ no_sector
    pub room : t.room ≡ s.room
    pub count : t.count ≡ s.count
    pub memory : (j : ℕ) → has_data (t.lines j) ≡ has_data (s.lines j)

  pub let_out-IsLetOut : IsLetOut (let_out i s)
  unfolding let_out has_data
  let_out-IsLetOut = elim (Bool-cases ((s.lines i).first == no_sector)) [
    | inl empty ↦
        rw empty (record {
          cached = c;
          empty = ground arith;
          room = refl;
          count = refl;
          memory = λ j. refl;
        })
    | inr file ↦
        let on = first_hooked file in
        rw file (record {
          cached = unhook-IsCached content s i on c;
          empty = unhook-first s i on c.table;
          room = unhook-room s i on c.table;
          count = unhook-count s i on c.table;
          memory = λ j. unhook-rest s i on c.table has_data j (λ l v w. refl);
        })
  ]
