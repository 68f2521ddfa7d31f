-- ===== src/Chains/Removal.antt =====
-- What is left of a table of chains when an entry is taken out.
use bax_os_dev.Base.{
  ℕ, suc, ◌≤◌, ◌<◌, ◌≡◌, refl, Bool, true, false, not, ◌&&◌, ◌==◌, arith, length, Bool-cases, inl,
  inr, ◌∙◌, sym,
}
use bax_os_dev.Chains.{head, value, put_head, put_next, seek}
use bax_os_dev.Chains.Sets.{without, has-without, distinct-without}
use bax_os_dev.Chains.Links.{
  has-first_hit, first_hit, seek-Unlinks, Within, seek-Within, put_next_kept, put_head_kept,
}
use bax_os_dev.Chains.Tables.{IsListed, IsListed-same, IsListed-length, value-seek, IsTable}

module _ (bucket heads next : ℕ → ℕ) (on : ℕ → Bool) (t : IsTable heads next on bucket) (n : ℕ)
    (hit : ℕ → Bool) (below : (i : ℕ) → on i ≡ true → i < n) (i h : ℕ)
    (e : value heads next (seek n hit heads next (head h)) ≡ suc i) where
  IsListed-fits : length ((t h).items) ≤ n
  IsListed-fits = IsListed-length n (λ i o. below i (ground arith)) (t h)

  first : first_hit hit ((t h).items) ≡ suc i
  unfolding value
  first = sym (value-seek n hit heads next (head h) ((t h).items) IsListed-fits ((t h).chain)) ∙ e

  IsListed-unlinked :
      let p = seek n hit heads next (head h) in
      IsListed
        (put_next p (next i) next)
        (put_head p (next i) heads h)
        (λ j. (on j && not (j == i)) && bucket j == h)
  unfolding value
  IsListed-unlinked =
      let l = t h in
      record {
        items = without i l.items;
        chain =
            seek-Unlinks n hit heads next (head h) l.items i IsListed-fits refl l.once l.chain
              first;
        once = distinct-without i l.items l.once;
        same = λ j. ground (arith, has-without j i l.items, l.same j);
      }

  IsListed-spared :
      (g : ℕ)
      → (g == h) ≡ false
      → let p = seek n hit heads next (head h) in
        IsListed
          (put_next p (next i) next)
          (put_head p (next i) heads g)
          (λ j. (on j && not (j == i)) && bucket j == g)
  unfolding value
  IsListed-spared g ne =
      let l = t h in
      let p = seek n hit heads next (head h) in
      let w : Within (head h) l.items p = seek-Within n hit heads next (head h) l.items l.chain in
      let at : (on i && bucket i == h) ≡ true =
        sym (l.same i) ∙ has-first_hit hit l.items i first in
      rw (put_head_kept h g l.items p (next i) heads w ne) (
        IsListed-same
          (λ j o. put_next_kept (head h) l.items p (next i) next j w refl (l.same j ∙ grind arith))
          (λ j. grind arith) (t g))

  -- Taking out the entry that the loop found.
  pub IsTable-unlink :
      let p = seek n hit heads next (head h) in
      IsTable
        (put_head p (next i) heads)
        (put_next p (next i) next)
        (λ j. on j && not (j == i))
        bucket
  IsTable-unlink g = elim (Bool-cases (g == h)) [
    | inl same ↦ let at : g ≡ h = ground arith in rw at IsListed-unlinked
    | inr ne ↦ IsListed-spared g ne
  ]

  -- What is written at the place of the loop is no link of an entry that is on no chain.
  pub put_next_off :
      (v j : ℕ) → on j ≡ false → put_next (seek n hit heads next (head h)) v next j ≡ next j
  unfolding value
  put_next_off v j off =
      let l = t h in
      put_next_kept (head h) l.items (seek n hit heads next (head h)) v next j
        (seek-Within n hit heads next (head h) l.items l.chain) refl (l.same j ∙ ground arith)
