-- ===== src/Memory.antt =====
-- src/kernel/mem.c, the page allocator: the list of free runs and the chain of loose pages.
pub mod Insert
pub mod Add
pub mod Chain
pub mod Lists
pub mod Spill
use mathlib.Core.Option
use bax_os_dev.Base.{
  ℕ, zero, suc, ◌+◌, ◌-◌, ◌*◌, ◌/◌, ◌%◌, ◌^◌, Bool, true, false, Option, none, some, ◌&&◌, ◌||◌,
  List, [], ◌∷◌, length, get_or, set, ltb, leb, ◌==◌, if◌then◌else◌, not,
}

abbrev pub page : ℕ
page = 4096

-- RUNS
abbrev pub max_runs : ℕ
max_runs = 512

-- LOOSE_FLOOR
abbrev pub loose_floor : ℕ
loose_floor = 2 ^ 30

-- LOOSE_FILL
abbrev pub loose_fill : ℕ
loose_fill = 16

-- What a uint64_t keeps of a number.
abbrev pub wrap64 : ℕ → ℕ
wrap64 x = x % 2 ^ 64

-- `struct run`
pub record Run : Type 0 where
  pub at : ℕ
  pub count : ℕ

-- What a read past `run_count` would be; the code makes none.
abbrev pub no_run : Run
no_run = record { at = 0; count = 0 }

-- `at + count * PAGE`
abbrev pub span_end : ℕ → ℕ → ℕ
span_end at count = wrap64 (at + count * page)

abbrev pub run_end : Run → ℕ
run_end r = span_end r.at r.count

-- `runs` with `run_count` its length, and the loose chain, head first, with `loose_count`.
pub record Mem : Type 0 where
  pub runs : List Run
  pub loose : List ℕ
  pub loose_count : ℕ

-- `run_remove`: the later runs move down.
unfoldable pub run_remove : List Run → ℕ → List Run
run_remove [] i = []
run_remove (r ∷ rs) zero = rs
run_remove (r ∷ rs) (suc i) = r ∷ run_remove rs i

-- The end of `run_add`: the later runs move up, and the new one goes in.
unfoldable pub run_insert : List Run → ℕ → Run → List Run
run_insert rs zero n = n ∷ rs
run_insert [] (suc i) n = n ∷ []
run_insert (r ∷ rs) (suc i) n = r ∷ run_insert rs i n

-- `loosen` of one page: below the floor it is lost, above it goes onto the chain.
unfoldable pub loosen_page : ℕ → Mem → Mem
loosen_page at m =
    if ltb at loose_floor
    then m
    else record m { loose = at ∷ m.loose; loose_count = m.loose_count + 1 }

-- `loosen`
unfoldable pub loosen : ℕ → ℕ → Mem → Mem
loosen at zero m = m
loosen at (suc count) m = loosen (wrap64 (at + page)) count (loosen_page at m)

-- The loop that finds the first run at or above `at`.
unfoldable pub run_index : List Run → ℕ → ℕ
run_index [] at = 0
run_index (r ∷ rs) at = if ltb r.at at then suc (run_index rs at) else 0

-- Whether run `j` is a better choice than the best one so far.
unfoldable pub is_smaller : Run → Run → Bool
is_smaller r best =
    let high = leb loose_floor r.at in
    let best_high = leb loose_floor best.at in
    (high && not best_high) || (if high then best_high else not best_high) && ltb r.count best.count

-- The loop that finds the run to let go of: `best` is the smallest below `j`.
unfoldable pub smallest_from : List Run → ℕ → ℕ → Run → ℕ
smallest_from [] j smallest best = smallest
smallest_from (r ∷ rs) j smallest best =
    smallest_from rs (j + 1) (if is_smaller r best then j else smallest)
      (if is_smaller r best then r else best)

unfoldable pub smallest_run : List Run → ℕ
smallest_run [] = max_runs
smallest_run (r ∷ rs) = smallest_from rs 1 0 r

-- `run_add` when the list is full and the run touches no other.
unfoldable pub run_spill : ℕ → ℕ → ℕ → Mem → Mem
run_spill i at count m =
    let s = smallest_run m.runs in
    let r = get_or m.runs s no_run in
    if leb loose_floor at && (ltb r.at loose_floor || leb count r.count)
    then loosen at count m
    else (let m' = loosen r.at r.count m in
        let i' = if ltb s i then i - 1 else i in
        record m' {
          runs = run_insert (run_remove m'.runs s) i' (record { at = at; count = count });
        })

-- Whether the run before index `i` ends at `at`, and whether the one at `i` starts at the end.
unfoldable pub joins_before : List Run → ℕ → ℕ → Bool
joins_before rs zero at = false
joins_before rs (suc j) at = run_end (get_or rs j no_run) == at

unfoldable pub joins_after : List Run → ℕ → ℕ → ℕ → Bool
joins_after rs i at count = ltb i (length rs) && span_end at count == (get_or rs i no_run).at

-- `runs[i - 1].count += count`, and the gap closed where there is none any more.
unfoldable pub grow_before : List Run → ℕ → ℕ → ℕ → List Run
grow_before rs zero at count = rs
grow_before rs (suc j) at count =
    let before = get_or rs j no_run in
    let grown = wrap64 (before.count + count) in
    let after = get_or rs (suc j) no_run in
    if joins_after rs (suc j) at count
    then run_remove (set rs j (record before { count = wrap64 (grown + after.count) })) (suc j)
    else set rs j (record before { count = grown })

-- `runs[i].at = at; runs[i].count += count`
unfoldable pub grow_after : List Run → ℕ → ℕ → ℕ → List Run
grow_after rs i at count =
    set rs i (record { at = at; count = wrap64 ((get_or rs i no_run).count + count) })

-- What `run_add` makes of the list, where there is room in it.
unfoldable pub add_runs : List Run → ℕ → ℕ → ℕ → List Run
add_runs rs i at count =
    if joins_before rs i at
    then grow_before rs i at count
    else if joins_after rs i at count
    then grow_after rs i at count
    else run_insert rs i (record { at = at; count = count })

-- `run_add`
unfoldable pub run_add : ℕ → ℕ → Mem → Mem
run_add at count m =
    let i = run_index m.runs at in
    if count == 0
    then m
    else if not (joins_before m.runs i at || joins_after m.runs i at count)
        && length m.runs == max_runs
    then run_spill i at count m
    else record m { runs = add_runs m.runs i at count }

-- The pages in the runs.
unfoldable pub sum_counts : List Run → ℕ
sum_counts [] = 0
sum_counts (r ∷ rs) = r.count + sum_counts rs
