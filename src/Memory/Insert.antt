-- ===== src/Memory/Insert.antt =====
-- `run_add` of src/kernel/mem.c as an insertion into a sorted list.
use bax_os_dev.Base.{
  ℕ, suc, ◌+◌, ◌*◌, ◌%◌, ◌≤◌, ◌<◌, ◌^◌, ◌≡◌, refl, List, [], ◌∷◌, Bool-cases, inl, inr, ltb, ◌==◌,
  if◌then◌else◌, arith, ◌⊎◌, leb, ◌&&◌, ◌||◌, Bool, false,
}
use bax_os_dev.Memory.{
  sum_counts, Run, page, run_index, run_insert, run_remove, joins_before, joins_after, grow_before,
  grow_after, add_runs,
}

-- A run of whole pages, at least one, that ends in the address space.
pub record IsRun (at count : ℕ) : Type 0 where
  pub pages : 0 < count
  pub aligned : at % page ≡ 0
  pub fits : at + count * page < 2 ^ 64

-- Runs by address from `low` on, with a gap between any two.
abbrev pub IsAbove : ℕ → List Run → Type 0
IsAbove low [] = Unit {0}
IsAbove low (r ∷ rs) = (low ≤ r.at) × IsRun r.at r.count × IsAbove (r.at + r.count * page + 1) rs

-- No run shares a page with the ones from `at` on.
abbrev pub IsClear : ℕ → ℕ → List Run → Type 0
IsClear at count [] = Unit {0}
IsClear at count (r ∷ rs) =
    ((r.at + r.count * page ≤ at) ⊎ (at + count * page ≤ r.at)) × IsClear at count rs

-- The list with one run more, joined to those that it touches.
unfoldable pub merge_next : Run → List Run → List Run
merge_next r [] = r ∷ []
merge_next r (s ∷ rs) =
    if r.at + r.count * page == s.at
    then record { at = r.at; count = r.count + s.count } ∷ rs
    else r ∷ s ∷ rs

unfoldable pub insert : ℕ → ℕ → List Run → List Run
insert at count [] = record { at = at; count = count } ∷ []
insert at count (r ∷ rs) =
    if ltb at r.at
    then merge_next (record { at = at; count = count }) (r ∷ rs)
    else if r.at + r.count * page == at
    then merge_next (record { at = r.at; count = r.count + count }) rs
    else r ∷ insert at count rs

add_runs-suc :
    (r : Run) (rs : List Run) (k at count : ℕ)
    → add_runs (r ∷ rs) (suc (suc k)) at count ≡ r ∷ add_runs rs (suc k) at count
unfolding add_runs joins_before joins_after grow_before grow_after run_insert run_remove
add_runs-suc r rs k at count = ground arith

-- For a sorted list of runs with gaps between them and pages that are in none of them, the cases
-- of `run_add` that need no page let go give what one insertion into the sorted list, joined to
-- its neighbours, gives.
pub add_runs-insert :
    (rs : List Run) (low at count : ℕ)
    → IsAbove low rs
    → IsRun at count
    → IsClear at count rs
    → add_runs rs (run_index rs at) at count ≡ insert at count rs
unfolding add_runs joins_before joins_after grow_before grow_after run_insert run_remove run_index
    insert merge_next
add_runs-insert [] low at count a n c = ground arith
add_runs-insert (r ∷ []) low at count a n c = ground arith
add_runs-insert (r ∷ s ∷ rs) low at count a n c = elim (Bool-cases (ltb r.at at)) [
  | inr e ↦ ground arith
  | inl e ↦ elim (Bool-cases (ltb s.at at)) [
    | inr f ↦ ground arith
    | inl f ↦ ground (
      arith,
      add_runs-suc r (s ∷ rs) (run_index rs at) at count,
      add_runs-insert (s ∷ rs) (r.at + r.count * page + 1) at count a.2 n c.1,
    )
  ]
]

-- Whether some run holds the byte at an address.
unfoldable pub holds : List Run → ℕ → Bool
holds [] p = false
holds (r ∷ rs) p = leb r.at p && ltb p (r.at + r.count * page) || holds rs p

pub insert-IsAbove :
    (rs : List Run) (low at count : ℕ)
    → IsAbove low rs
    → low ≤ at
    → IsRun at count
    → IsClear at count rs
    → IsAbove low (insert at count rs)
unfolding insert merge_next
insert-IsAbove [] low at count a l n c = ground arith
insert-IsAbove (r ∷ []) low at count a l n c = ground arith
insert-IsAbove (r ∷ s ∷ rs) low at count a l n c =
    ground (arith, insert-IsAbove (s ∷ rs) (r.at + r.count * page + 1) at count a.2)

holds-merge_next : (r : Run) (rs : List Run) (p : ℕ) → holds (merge_next r rs) p ≡ holds (r ∷ rs) p
unfolding merge_next holds
holds-merge_next r [] p = refl
holds-merge_next r (s ∷ rs) p = ground arith

pub holds-insert :
    (rs : List Run) (at count p : ℕ)
    → holds (insert at count rs) p ≡ (leb at p && ltb p (at + count * page) || holds rs p)
unfolding insert holds
holds-insert [] at count p = refl
holds-insert (r ∷ rs) at count p = elim (Bool-cases (ltb at r.at)) [
  | inl e ↦ rw (e, holds-merge_next) refl
  | inr e ↦ elim (Bool-cases (r.at + r.count * page == at)) [
    | inl f ↦ rw (e, f, holds-merge_next) (ground arith)
    | inr f ↦ rw (e, f, holds-insert rs at count p) (ground arith)
  ]
]

pub sum_counts-insert :
    (rs : List Run) (at count : ℕ) → sum_counts (insert at count rs) ≡ sum_counts rs + count
unfolding insert merge_next sum_counts
sum_counts-insert [] at count = omega arith
sum_counts-insert (r ∷ []) at count = ground arith
sum_counts-insert (r ∷ s ∷ rs) at count = ground (arith, sum_counts-insert (s ∷ rs) at count)
