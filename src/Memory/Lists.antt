-- ===== src/Memory/Lists.antt =====
-- The array operations of src/kernel/mem.c on the list of runs: what they do to its length, its
-- total and its order.
use bax_os_dev.Base.{
  ℕ, zero, suc, ◌+◌, ◌-◌, ◌*◌, ◌≤◌, ◌<◌, ◌≡◌, refl, ap, List, [], ◌∷◌, ltb, if◌then◌else◌, arith,
  length, get_or,
}
use bax_os_dev.Memory.{Run, page, sum_counts, run_insert, run_remove, no_run}
use bax_os_dev.Memory.Insert.{IsRun, IsAbove}

pub length-run_insert :
    (rs : List Run) (i : ℕ) (n : Run) → length (run_insert rs i n) ≡ length rs + 1
unfolding run_insert
length-run_insert [] zero n = omega arith
length-run_insert [] (suc i) n = omega arith
length-run_insert (r ∷ rs) zero n = omega arith
length-run_insert (r ∷ rs) (suc i) n = omega (arith, length-run_insert rs i n)

pub length-run_remove-le : (rs : List Run) (i : ℕ) → length (run_remove rs i) ≤ length rs
unfolding run_remove
length-run_remove-le [] i = omega arith
length-run_remove-le (r ∷ rs) zero = omega arith
length-run_remove-le (r ∷ rs) (suc i) = omega (arith, length-run_remove-le rs i)

pub length-run_remove :
    (rs : List Run) (i : ℕ) → i < length rs → length (run_remove rs i) + 1 ≡ length rs
unfolding run_remove
length-run_remove [] i h = absurd (omega arith)
length-run_remove (r ∷ rs) zero h = omega arith
length-run_remove (r ∷ rs) (suc i) h = omega (arith, length-run_remove rs i (omega arith))

pub sum_counts-run_remove :
    (rs : List Run) (i : ℕ)
    → i < length rs
    → sum_counts (run_remove rs i) + (get_or rs i no_run).count ≡ sum_counts rs
unfolding run_remove sum_counts
sum_counts-run_remove [] i h = absurd (omega arith)
sum_counts-run_remove (r ∷ rs) zero h = omega arith
sum_counts-run_remove (r ∷ rs) (suc i) h = omega (arith, sum_counts-run_remove rs i (omega arith))

pub IsAbove-mono : (rs : List Run) (low low' : ℕ) → low' ≤ low → IsAbove low rs → IsAbove low' rs
IsAbove-mono [] low low' h a = tt
IsAbove-mono (r ∷ rs) low low' h a = (omega arith, a.1, a.2)

pub run_remove-IsAbove :
    (rs : List Run) (i low : ℕ) → IsAbove low rs → IsAbove low (run_remove rs i)
unfolding run_remove
run_remove-IsAbove [] i low a = tt
run_remove-IsAbove (r ∷ rs) zero low a =
    IsAbove-mono rs (r.at + r.count * page + 1) low (omega arith) a.2
run_remove-IsAbove (r ∷ rs) (suc i) low a =
    (a.0, a.1, run_remove-IsAbove rs i (r.at + r.count * page + 1) a.2)

pub get_or-IsRun :
    (rs : List Run) (i low : ℕ)
    → IsAbove low rs
    → i < length rs
    → IsRun (get_or rs i no_run).at (get_or rs i no_run).count × (low ≤ (get_or rs i no_run).at)
get_or-IsRun [] i low a h = absurd (omega arith)
get_or-IsRun (r ∷ rs) zero low a h = (a.1, a.0)
get_or-IsRun (r ∷ rs) (suc i) low a h =
    let (u, l) = get_or-IsRun rs i (r.at + r.count * page + 1) a.2 (omega arith) in (u, omega arith)

-- Removing first and inserting second, the index moved down, is the same the other way round.
pub insert-remove_before :
    (rs : List Run) (j s : ℕ) (n : Run)
    → s < length rs
    → s ≤ j
    → run_insert (run_remove rs s) j n ≡ run_remove (run_insert rs (suc j) n) s
unfolding run_insert run_remove
insert-remove_before [] j s n h k = absurd (omega arith)
insert-remove_before (r ∷ rs) j zero n h k = refl
insert-remove_before (r ∷ rs) zero (suc s) n h k = absurd (omega arith)
insert-remove_before (r ∷ rs) (suc j) (suc s) n h k =
    ap (λ t. r ∷ t) (insert-remove_before rs j s n (omega arith) (omega arith))

pub insert-remove_after :
    (rs : List Run) (i s : ℕ) (n : Run)
    → s < length rs
    → i ≤ s
    → run_insert (run_remove rs s) i n ≡ run_remove (run_insert rs i n) (suc s)
unfolding run_insert run_remove
insert-remove_after [] i s n h k = absurd (omega arith)
insert-remove_after (r ∷ rs) zero s n h k = refl
insert-remove_after (r ∷ rs) (suc i) zero n h k = absurd (omega arith)
insert-remove_after (r ∷ rs) (suc i) (suc s) n h k =
    ap (λ t. r ∷ t) (insert-remove_after rs i s n (omega arith) (omega arith))

pub insert-remove :
    (rs : List Run) (i s : ℕ) (n : Run)
    → s < length rs
    → run_insert (run_remove rs s) (if ltb s i then i - 1 else i) n
      ≡ run_remove (run_insert rs i n) (if ltb s i then s else suc s)
insert-remove rs zero s n h = ground (arith, insert-remove_after rs 0 s n)
insert-remove rs (suc i) s n h =
    let e : suc i - 1 ≡ i = omega arith in
    ground (arith, e, insert-remove_after rs (suc i) s n, insert-remove_before rs i s n)

pub sum_counts-run_insert :
    (rs : List Run) (i : ℕ) (n : Run) → sum_counts (run_insert rs i n) ≡ sum_counts rs + n.count
unfolding run_insert sum_counts
sum_counts-run_insert [] zero n = omega arith
sum_counts-run_insert [] (suc i) n = omega arith
sum_counts-run_insert (r ∷ rs) zero n = omega arith
sum_counts-run_insert (r ∷ rs) (suc i) n = omega (arith, sum_counts-run_insert rs i n)
