-- ===== src/Cache/Fill.antt =====
-- A line of src/modules/storage/cache.c that is on no chain, given memory or rid of it.
use bax_os_dev.Base.{ℕ, ◌+◌, true, false, ◌==◌, ◌≡◌, sym, ap, ◌∙◌, arith, Bool-cases, inl, inr}
use bax_os_dev.Chains.Updates.{update_other, update_self, ne_of_tests}
use bax_os_dev.Chains.{update}
use bax_os_dev.Chains.Tables.{IsTable-same}
use bax_os_dev.Cache.{Line, Cache, no_sector, bucket_of, nexts}
use bax_os_dev.Cache.Cached.{hooked, buckets, tally, with_data, IsCached}

module _ (content : ℕ → ℕ) (t : Cache) (i k : ℕ) (l : Line) (c : IsCached content t)
    (off : hooked t i ≡ false) (empty : l.first ≡ no_sector) where
  abbrev pub replaced : Cache
  replaced = record t { lines = update t.lines i l; count = k }

  replaced-other : (j : ℕ) → hooked t j ≡ true → update t.lines i l j ≡ t.lines j
  replaced-other j o = update_other t.lines i l j (ne_of_tests (hooked t) i j off o)

  replaced-hooked : (j : ℕ) → hooked replaced j ≡ hooked t j
  unfolding hooked
  replaced-hooked j = elim (Bool-cases (j == i)) [
    | inl same ↦
        let at : j ≡ i = ground arith in
        let here : update t.lines i l i ≡ l = update_self t.lines i l in
        rw (at, here) (ground (arith, empty))
    | inr ne ↦ rw ne
  ]

  pub replaced-IsCached : k ≡ tally t.room (with_data replaced) → IsCached content replaced
  replaced-IsCached count = record {
    table =
        IsTable-same (buckets t) t.heads (nexts t) (hooked t) c.table (nexts replaced)
          (hooked replaced) (buckets replaced)
          (λ j o. ap (λ (x : Line). x.next) (replaced-other j o)) replaced-hooked
          (λ j o. ap (λ (x : Line). bucket_of t.room x.first) (replaced-other j o));
    held = λ j f o e n lt.
        let was = sym (replaced-hooked j) ∙ o in
        let same = replaced-other j was in
        c.held j f was (sym (ap (λ (x : Line). x.sectors) same) ∙ e) n lt
        ∙ ap (λ (x : Line). content (x.first + n)) (sym same);
    counted = count;
  }
