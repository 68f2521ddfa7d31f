-- ===== src/Tests/Cache.antt =====
-- src/modules/storage/cache.c on a disk that has the number of each sector in it.
use mathlib.Core.Option.{some-injective}
use bax_os_dev.Base.{
  ap, sym, ℕ, ◌+◌, ◌*◌, ◌≤◌, ◌<◌, true, false, ◌≡◌, refl, arith, ◌⊎◌, Option, some, [], ◌∷◌,
}
use bax_os_dev.Chains.Tables.{IsListed-empty}
use bax_os_dev.Chains.{lookup}
use bax_os_dev.Cache.{find, oldest_below, Cache, empty_cache, oldest, line_size, has_data}
use bax_os_dev.Cache.Calls.{
  Answers, cache_read, cache_shrink, read_lines, line_for, slot, may_grow, roomier, free_below,
  bought, keep, hook, touch, slice,
}
use bax_os_dev.Cache.Cached.{IsCached, hooked, tally}
use bax_os_dev.Cache.Cap.{cache_shrink-Shrinks}
use bax_os_dev.Cache.Read.{ReadOf, cache_read-ReadOf}

-- A disk of numbered sectors, and a machine with memory to spare.
abbrev numbered : ℕ → ℕ → Option (ℕ → ℕ)
numbered lba n = some (λ k. lba + k)

abbrev number : ℕ → ℕ
number k = k

abbrev spare_memory : ℕ → Answers
spare_memory r = record { ours = true; unused_kib = 100000; block = true; lent = true }

numbered_right :
    (lba n : ℕ) (f : ℕ → ℕ) → numbered lba n ≡ some f → (k : ℕ) → k < n → f k ≡ number (lba + k)
numbered_right lba n f e k lt = ap (λ (g : ℕ → ℕ). g k) (sym (some-injective (λ j. lba + j) f e))

empty-IsCached : IsCached number empty_cache
unfolding empty_cache hooked tally has_data
empty-IsCached = record {
  table = λ h. IsListed-empty refl (λ i. ground arith);
  held = λ i f on e k lt. absurd (ground (arith, on));
  counted = refl;
}

abbrev after_read : Cache
after_read = (cache_read numbered spare_memory 126 4 empty_cache).1

cache_read-ReadOf_example :
    ReadOf number numbered 126 4 (cache_read numbered spare_memory 126 4 empty_cache)
cache_read-ReadOf_example =
    cache_read-ReadOf number numbered numbered_right spare_memory 126 4 empty_cache (omega arith)
      empty-IsCached

after_read-IsCached : IsCached number after_read
after_read-IsCached =
    (cache_read-ReadOf number numbered numbered_right spare_memory 126 4 empty_cache (omega arith)
      empty-IsCached).0

cache_shrink-Shrinks_example :
    IsCached number ((cache_shrink false 70000 after_read).1)
    × ((cache_shrink false 70000 after_read).0
          + ((cache_shrink false 70000 after_read).1).count * line_size
        ≡ after_read.count * line_size)
    × ((70000 ≤ (cache_shrink false 70000 after_read).0)
        ⊎ (((cache_shrink false 70000 after_read).1).count ≡ 0))
cache_shrink-Shrinks_example = cache_shrink-Shrinks number 70000 after_read after_read-IsCached

-- Four sectors of two lines, read twice: the second time without the disk.
reads_two_lines :
    (cache_read numbered spare_memory 126 4 empty_cache).0 ≡ some (126 ∷ 127 ∷ 128 ∷ 129 ∷ [])
unfolding cache_read read_lines line_for find slot may_grow roomier free_below bought keep hook
    touch slice empty_cache has_data oldest oldest_below lookup
reads_two_lines = refl
