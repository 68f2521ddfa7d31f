-- ===== src/Memory/Add.antt =====
-- The invariant of the allocator of src/kernel/mem.c, and `run_add` where the list has room.
use bax_os_dev.Base.{
  ℕ, ◌+◌, ◌*◌, ◌≤◌, ◌<◌, ◌≡◌, List, [], ◌∷◌, ltb, leb, ◌&&◌, ◌||◌, arith, ◌⊎◌, length, true,
}
use bax_os_dev.Memory.{
  Mem, Run, page, max_runs, loose_floor, run_index, joins_before, joins_after, run_add, sum_counts,
}
use bax_os_dev.Memory.Insert.{
  IsRun, IsAbove, IsClear, insert, holds, add_runs-insert, holds-insert, sum_counts-insert,
}

-- Two stretches of pages with none in common.
abbrev pub IsApart : ℕ → ℕ → ℕ → ℕ → Type 0
IsApart at count at' count' = (at' + count' * page ≤ at) ⊎ (at + count * page ≤ at')

-- No page of a stretch is on the chain.
abbrev pub IsAway : ℕ → ℕ → List ℕ → Type 0
IsAway at count [] = Unit {0}
IsAway at count (p ∷ ps) = IsApart at count p 1 × IsAway at count ps

-- Whole pages above the floor, each once, and none of them in a run.
abbrev pub AreLoose : List Run → List ℕ → Type 0
AreLoose rs [] = Unit {0}
AreLoose rs (p ∷ ps) =
    (loose_floor ≤ p) × IsRun p 1 × IsClear p 1 rs × IsAway p 1 ps × AreLoose rs ps

-- Page 0 is in no run: an address of 0 stands for no page.
pub record IsValid (m : Mem) : Type 0 where
  pub sorted : IsAbove page m.runs
  pub room : length m.runs ≤ max_runs
  pub counted : length m.loose ≡ m.loose_count
  pub chain : AreLoose m.runs m.loose

-- The pages that the allocator has.
abbrev pub pages : Mem → ℕ
pages m = sum_counts m.runs + m.loose_count

-- A run that may be given back: whole pages, none of them page 0 and none of them free already.
pub record IsFreeable (at count : ℕ) (m : Mem) : Type 0 where
  pub run : IsRun at count
  pub nonzero : page ≤ at
  pub clear : IsClear at count m.runs
  pub away : IsAway at count m.loose

-- Whether `run_add` needs no new place in the list, or there is one.
abbrev pub HasRoom : ℕ → ℕ → Mem → Type 0
HasRoom at count m =
    (length m.runs < max_runs)
    ⊎ ((joins_before m.runs (run_index m.runs at) at
          || joins_after m.runs (run_index m.runs at) at count)
        ≡ true)

pub run_add-insert :
    (at count : ℕ) (m : Mem)
    → IsValid m
    → IsFreeable at count m
    → HasRoom at count m
    → run_add at count m ≡ record m { runs = insert at count m.runs }
unfolding run_add
run_add-insert at count m v f h =
    ground (arith, add_runs-insert m.runs page at count v.sorted f.run f.clear)

pub run_add-loose :
    (at count : ℕ) (m : Mem)
    → IsValid m
    → IsFreeable at count m
    → HasRoom at count m
    → (run_add at count m).loose ≡ m.loose
run_add-loose at count m v f h = rw (run_add-insert at count m v f h)

-- For a valid allocator, pages that may be given back and a list with room, an address is in a run
-- after `run_add` exactly if it is in the pages given or was in a run before.
pub holds-run_add :
    (at count : ℕ) (m : Mem) (p : ℕ)
    → IsValid m
    → IsFreeable at count m
    → HasRoom at count m
    → holds (run_add at count m).runs p ≡ (leb at p && ltb p (at + count * page) || holds m.runs p)
holds-run_add at count m p v f h =
    rw (run_add-insert at count m v f h) (holds-insert m.runs at count p)

pub pages-run_add :
    (at count : ℕ) (m : Mem)
    → IsValid m
    → IsFreeable at count m
    → HasRoom at count m
    → pages (run_add at count m) ≡ pages m + count
pages-run_add at count m v f h =
    rw (run_add-insert at count m v f h) (omega (arith, sum_counts-insert m.runs at count))
