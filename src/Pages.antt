-- ===== src/Pages.antt =====
-- src/kernel/mem.c, what takes pages and gives them back: `run_take`, `take`, `take_below`,
-- `mem_pages_free` and `mem_free_kib`, where the memory is the kernel's own.
pub mod Cut
pub mod Take
pub mod Free
use mathlib.Core.Option
use bax_os_dev.Base.{
  ℕ, zero, suc, ◌+◌, ◌-◌, ◌*◌, ◌/◌, Bool, true, false, Option, none, some, ◌&&◌, ◌||◌, List, [],
  ◌∷◌, length, get_or, set, ltb, leb, ◌==◌, if◌then◌else◌,
}
use bax_os_dev.Memory.{
  page, max_runs, loose_floor, loose_fill, wrap64, Run, no_run, Mem, run_end, span_end, run_remove,
  loosen, run_add, sum_counts,
}

-- The first run that holds an address, as `run_take` looks for it.
unfoldable pub run_holding : List Run → ℕ → Option ℕ
run_holding [] p = none
run_holding (r ∷ rs) p =
    if ltb p r.at || leb (run_end r) p then Option.map suc (run_holding rs p) else some 0

-- `run_take`: the run keeps what is below the page, and what is above it is added again.
unfoldable pub run_take : ℕ → Mem → Bool × Mem
run_take p m = elim (run_holding m.runs p) [
  | none ↦ (false, m)
  | some i ↦
      let r = get_or m.runs i no_run in
      let after = (run_end r - p) / page - 1 in
      let below = (p - r.at) / page in
      let kept =
        if below == 0 then run_remove m.runs i else set m.runs i (record r { count = below }) in
      (true, run_add (wrap64 (p + page)) after (record m { runs = kept }))
]

-- A loop `for (i = run_count; i-- > 0;)` that stops at the first run which passes a test.
unfoldable pub last_where : (Run → Bool) → List Run → Option ℕ
last_where test [] = none
last_where test (r ∷ rs) = elim (last_where test rs) [
  | some i ↦ some (suc i)
  | none ↦ if test r then some 0 else none
]

-- `count` pages off the top end of run `i`: the address, and the runs that are left.
unfoldable pub cut_top : List Run → ℕ → ℕ → ℕ × List Run
cut_top rs i count =
    let r = get_or rs i no_run in
    let left = r.count - count in
    (
      span_end r.at left,
      if left == 0 then run_remove rs i else set rs i (record r { count = left }),
    )

-- The body of the loop that fills the chain: sixteen pages off run `i`.
unfoldable pub fill_from : ℕ → Mem → Mem
fill_from i m =
    let (at, left) = cut_top m.runs i loose_fill in
    let m' = record m { runs = left } in
    if ltb at loose_floor then run_add at loose_fill m' else loosen at loose_fill m'

abbrev pub fills : Run → Bool
fills r = leb loose_fill r.count && ltb (loose_floor + loose_fill * page) (run_end r)

-- The first part of `take`: sixteen pages of the top run go onto an empty chain.
unfoldable pub fill_loose : Mem → Mem
fill_loose m = elim (last_where fills m.runs) [ none ↦ m | some i ↦ fill_from i m ]

abbrev pub cut_run : ℕ → ℕ → Mem → ℕ × Mem
cut_run i count m = let (at, left) = cut_top m.runs i count in (at, record m { runs = left })

-- The loop of `take` over the runs: `none` is no run that long.
unfoldable pub take_run : ℕ → Mem → Option (ℕ × Mem)
take_run count m = elim (last_where (λ r. leb count r.count) m.runs) [
  | none ↦ none
  | some i ↦ some (cut_run i count m)
]

-- `loose = *(uint64_t *)at; loose_count--`
abbrev pub unchained : List ℕ → Mem → Mem
unchained rest m = record m { loose = rest; loose_count = m.loose_count - 1 }

-- The single pages go back into runs while the list has room. The first argument is the chain,
-- which `run_add` leaves alone as long as it has.
unfoldable pub drain : List ℕ → Mem → Mem
drain [] m = m
drain (at ∷ rest) m =
    let next = drain rest (run_add at 1 (unchained rest m)) in
    if ltb (length m.runs) (max_runs - 1) then next else m

abbrev pub or_zero : Mem → Option (ℕ × Mem) → ℕ × Mem
or_zero m none = (0, m)
or_zero m (some taken) = taken

-- The last part of `take`: the runs, and once more with the chain drained into them.
unfoldable pub take_drained : ℕ → Mem → ℕ × Mem
take_drained count m = elim (take_run count m) [
  | some taken ↦ taken
  | none ↦
      if m.loose_count == 0
      then (0, m)
      else (let drained = drain m.loose m in or_zero drained (take_run count drained))
]

-- `take` of one page, off the chain if there is one on it.
unfoldable pub take_loose : List ℕ → Mem → ℕ × Mem
take_loose [] m = take_drained 1 m
take_loose (at ∷ rest) m = (at, unchained rest m)

abbrev pub filled : List ℕ → Mem → Mem
filled [] m = fill_loose m
filled (at ∷ rest) m = m

-- `take` once the memory is the kernel's own.
unfoldable pub take_pages : ℕ → Mem → ℕ × Mem
take_pages count m =
    if count == 1
    then (let m' = filled m.loose m in take_loose m'.loose m')
    else take_drained count m

-- The loop of `take_below` that takes `count` pages from `at` on, one by one.
unfoldable pub take_each : ℕ → ℕ → Mem → Mem
take_each at zero m = m
take_each at (suc count) m = take_each (wrap64 (at + page)) count (run_take at m).1

abbrev pub below_end : ℕ → Run → ℕ
below_end limit r = if ltb limit (run_end r) then limit else run_end r

-- `take_below` once the memory is the kernel's own.
unfoldable pub take_below : ℕ → ℕ → Mem → ℕ × Mem
take_below count limit m =
    elim (last_where (λ r. leb (span_end r.at count) (below_end limit r)) m.runs) [
      | none ↦ (0, m)
      | some i ↦
          let at = below_end limit (get_or m.runs i no_run) - count * page in
          (at, take_each at count m)
    ]

-- `mem_pages_free` once the memory is the kernel's own.
unfoldable pub pages_free : ℕ → ℕ → Mem → Mem
pages_free at count m =
    if count == 1 && leb loose_floor at then loosen at 1 m else run_add at count m

-- `mem_free_kib` once the memory is the kernel's own.
unfoldable pub free_kib : Mem → ℕ
free_kib m = (sum_counts m.runs + m.loose_count) * 4
