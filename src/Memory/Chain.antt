-- ===== src/Memory/Chain.antt =====
-- The chain of loose pages of src/kernel/mem.c beside the list of runs: no page is in both.
use bax_os_dev.Base.{
  ℕ, zero, suc, ◌+◌, ◌*◌, ◌%◌, ◌≤◌, ◌<◌, ◌^◌, ◌≡◌, List, [], ◌∷◌, arith, length, get_or,
}
use bax_os_dev.Memory.{Run, Mem, page, wrap64, loosen, loosen_page, run_insert, run_remove, no_run}
use bax_os_dev.Memory.Insert.{IsAbove, IsClear, insert, merge_next}
use bax_os_dev.Memory.Lists.{get_or-IsRun}
use bax_os_dev.Memory.Add.{IsApart, IsAway, AreLoose}

pub insert-IsClear :
    (rs : List Run) (at count p n : ℕ)
    → 0 < n
    → IsClear p n rs
    → IsApart p n at count
    → IsClear p n (insert at count rs)
unfolding insert merge_next
insert-IsClear [] at count p n h c a = ground arith
insert-IsClear (r ∷ []) at count p n h c a = ground arith
insert-IsClear (r ∷ s ∷ rs) at count p n h c a =
    ground (arith, insert-IsClear (s ∷ rs) at count p n h c.1 a)

pub run_insert-IsClear :
    (rs : List Run) (i p n : ℕ) (r : Run)
    → IsClear p n rs
    → IsApart p n r.at r.count
    → IsClear p n (run_insert rs i r)
unfolding run_insert
run_insert-IsClear [] zero p n r c a = ground arith
run_insert-IsClear [] (suc i) p n r c a = ground arith
run_insert-IsClear (s ∷ rs) zero p n r c a = ground arith
run_insert-IsClear (s ∷ rs) (suc i) p n r c a = (c.0, run_insert-IsClear rs i p n r c.1 a)

pub run_remove-IsClear :
    (rs : List Run) (i p n : ℕ) → IsClear p n rs → IsClear p n (run_remove rs i)
unfolding run_remove
run_remove-IsClear [] i p n c = tt
run_remove-IsClear (s ∷ rs) zero p n c = c.1
run_remove-IsClear (s ∷ rs) (suc i) p n c = (c.0, run_remove-IsClear rs i p n c.1)

pub IsClear-mono :
    (rs : List Run) (p n p' n' : ℕ)
    → p ≤ p'
    → p' + n' * page ≤ p + n * page
    → IsClear p n rs
    → IsClear p' n' rs
IsClear-mono [] p n p' n' l h c = tt
IsClear-mono (r ∷ rs) p n p' n' l h c = (omega arith, IsClear-mono rs p n p' n' l h c.1)

pub IsAway-mono :
    (ps : List ℕ) (p n p' n' : ℕ)
    → p ≤ p'
    → p' + n' * page ≤ p + n * page
    → IsAway p n ps
    → IsAway p' n' ps
IsAway-mono [] p n p' n' l h c = tt
IsAway-mono (r ∷ rs) p n p' n' l h c = (omega arith, IsAway-mono rs p n p' n' l h c.1)

pub insert-AreLoose :
    (ps : List ℕ) (rs : List Run) (at count : ℕ)
    → AreLoose rs ps
    → IsAway at count ps
    → AreLoose (insert at count rs) ps
insert-AreLoose [] rs at count l a = tt
insert-AreLoose (p ∷ ps) rs at count l a = (
  l.0,
  l.1,
  insert-IsClear rs at count p 1 (omega arith) l.2 (omega arith),
  l.3,
  insert-AreLoose ps rs at count l.4 a.1,
)

pub run_insert-AreLoose :
    (ps : List ℕ) (rs : List Run) (i : ℕ) (r : Run)
    → AreLoose rs ps
    → IsAway r.at r.count ps
    → AreLoose (run_insert rs i r) ps
run_insert-AreLoose [] rs i r l a = tt
run_insert-AreLoose (p ∷ ps) rs i r l a = (
  l.0,
  l.1,
  run_insert-IsClear rs i p 1 r l.2 (omega arith),
  l.3,
  run_insert-AreLoose ps rs i r l.4 a.1,
)

pub run_remove-AreLoose :
    (ps : List ℕ) (rs : List Run) (i : ℕ) → AreLoose rs ps → AreLoose (run_remove rs i) ps
run_remove-AreLoose [] rs i l = tt
run_remove-AreLoose (p ∷ ps) rs i l =
    (l.0, l.1, run_remove-IsClear rs i p 1 l.2, l.3, run_remove-AreLoose ps rs i l.4)

-- A loose page is apart from every run.
pub get_or-IsApart :
    (rs : List Run) (i p n : ℕ)
    → i < length rs
    → IsClear p n rs
    → IsApart p n (get_or rs i no_run).at (get_or rs i no_run).count
get_or-IsApart [] i p n h c = absurd (omega arith)
get_or-IsApart (r ∷ rs) zero p n h c = c.0
get_or-IsApart (r ∷ rs) (suc i) p n h c = get_or-IsApart rs i p n (omega arith) c.1

pub get_or-IsAway :
    (ps : List ℕ) (rs : List Run) (i : ℕ)
    → i < length rs
    → AreLoose rs ps
    → IsAway (get_or rs i no_run).at (get_or rs i no_run).count ps
get_or-IsAway [] rs i h l = tt
get_or-IsAway (p ∷ ps) rs i h l =
    let a = get_or-IsApart rs i p 1 h l.2 in (omega arith, get_or-IsAway ps rs i h l.4)

-- The pages of a stretch that is free of both go onto the chain.
pub loosen-AreLoose :
    (at count : ℕ) (rs : List Run) (m : Mem)
    → at % page ≡ 0
    → at + count * page < 2 ^ 64
    → AreLoose rs m.loose
    → IsClear at count rs
    → IsAway at count m.loose
    → AreLoose rs (loosen at count m).loose
unfolding loosen loosen_page
loosen-AreLoose at zero rs m d f l c a = l
loosen-AreLoose at (suc count) rs m d f l c a = ground (
  arith,
  IsClear-mono rs at (suc count) at 1,
  IsClear-mono rs at (suc count) (wrap64 (at + page)) count,
  IsAway-mono m.loose at (suc count) at 1,
  IsAway-mono m.loose at (suc count) (wrap64 (at + page)) count,
  loosen-AreLoose (wrap64 (at + page)) count rs (loosen_page at m),
)

pub loosen-IsAway :
    (p n at count : ℕ) (m : Mem)
    → at + count * page < 2 ^ 64
    → IsAway p n m.loose
    → IsApart p n at count
    → IsAway p n (loosen at count m).loose
unfolding loosen loosen_page
loosen-IsAway p n at zero m f a d = a
loosen-IsAway p n at (suc count) m f a d =
    ground (arith, loosen-IsAway p n (wrap64 (at + page)) count (loosen_page at m))

pub above-IsClear :
    (rs : List Run) (low p n : ℕ) → IsAbove low rs → p + n * page ≤ low → IsClear p n rs
above-IsClear [] low p n a h = tt
above-IsClear (r ∷ rs) low p n a h =
    (omega arith, above-IsClear rs (r.at + r.count * page + 1) p n a.2 (omega arith))

-- A run is apart from the others of its list.
pub removed-IsClear :
    (rs : List Run) (i low : ℕ)
    → IsAbove low rs
    → i < length rs
    → IsClear (get_or rs i no_run).at (get_or rs i no_run).count (run_remove rs i)
unfolding run_remove
removed-IsClear [] i low a h = absurd (omega arith)
removed-IsClear (r ∷ rs) zero low a h =
    above-IsClear rs (r.at + r.count * page + 1) r.at r.count a.2 (omega arith)
removed-IsClear (r ∷ rs) (suc i) low a h =
    let next = get_or-IsRun rs i (r.at + r.count * page + 1) a.2 (omega arith) in
    (omega arith, removed-IsClear rs i (r.at + r.count * page + 1) a.2 (omega arith))
