-- ===== src/Tests/Memory.antt =====
-- src/kernel/mem.c: an allocator with two runs and one loose page.
use bax_os_dev.Base.{
  ◌≢◌, ap, ℕ, ◌+◌, ◌*◌, ◌^◌, ◌≤◌, ◌≡◌, refl, [], ◌∷◌, inl, arith, ◌&&◌, ◌||◌, leb, ltb,
}
use bax_os_dev.Memory.{
  Run, Mem, page, run_add, run_index, add_runs, joins_before, joins_after, grow_before, grow_after,
  run_insert, run_remove,
}
use bax_os_dev.Memory.Insert.{insert, holds, add_runs-insert}
use bax_os_dev.Memory.Add.{IsValid, IsFreeable, HasRoom, pages, holds-run_add}
use bax_os_dev.Memory.Spill.{run_add-IsValid, pages-run_add_kept}
use bax_os_dev.Pages.{take_pages, take_run, take_loose, take_drained, last_where, cut_top}
use bax_os_dev.Pages.Take.{Takes, take_pages-Takes}

abbrev low_run : Run
low_run = record { at = 4096; count = 2 }

abbrev high_run : Run
high_run = record { at = 5 * 4096; count = 3 }

abbrev loose_page : ℕ
loose_page = 2 ^ 31

abbrev some_mem : Mem
some_mem = record { runs = low_run ∷ high_run ∷ []; loose = loose_page ∷ []; loose_count = 1 }

some_mem-IsValid : IsValid some_mem
some_mem-IsValid = omega arith

-- The two pages between the runs.
gap-IsFreeable : IsFreeable (3 * 4096) 2 some_mem
gap-IsFreeable = omega arith

gap-HasRoom : HasRoom (3 * 4096) 2 some_mem
gap-HasRoom = inl (omega arith)

-- The pages between close the gap: one run is left.
add_closes_gap : (run_add (3 * 4096) 2 some_mem).runs ≡ record { at = 4096; count = 7 } ∷ []
unfolding run_add run_index add_runs joins_before joins_after grow_before grow_after run_insert
    run_remove
add_closes_gap = refl

-- One page is taken off the chain, and three off the top run.
take_one : (take_pages 1 some_mem).0 ≡ loose_page
unfolding take_pages take_loose
take_one = refl

take_three : take_pages 3 some_mem ≡ (5 * 4096, record some_mem { runs = low_run ∷ [] })
unfolding take_pages take_drained take_run last_where cut_top run_remove
take_three = refl

add_runs-insert_example :
    add_runs some_mem.runs (run_index some_mem.runs (3 * 4096)) (3 * 4096) 2
    ≡ insert (3 * 4096) 2 some_mem.runs
add_runs-insert_example =
    add_runs-insert some_mem.runs page (3 * 4096) 2 some_mem-IsValid.sorted gap-IsFreeable.run
      gap-IsFreeable.clear

run_add-IsValid_example :
    IsValid (run_add (3 * 4096) 2 some_mem)
    × (pages (run_add (3 * 4096) 2 some_mem) ≤ pages some_mem + 2)
run_add-IsValid_example = run_add-IsValid (3 * 4096) 2 some_mem some_mem-IsValid gap-IsFreeable

pages-run_add_kept_example : pages (run_add (3 * 4096) 2 some_mem) ≡ pages some_mem + 2
pages-run_add_kept_example =
    pages-run_add_kept (3 * 4096) 2 some_mem some_mem-IsValid gap-IsFreeable (inl gap-HasRoom)

holds-run_add_example :
    holds (run_add (3 * 4096) 2 some_mem).runs 13000
    ≡ (leb (3 * 4096) 13000 && ltb 13000 (3 * 4096 + 2 * page) || holds some_mem.runs 13000)
holds-run_add_example =
    holds-run_add (3 * 4096) 2 some_mem 13000 some_mem-IsValid gap-IsFreeable gap-HasRoom

take_pages-Takes_example : Takes some_mem 3 (take_pages 3 some_mem)
take_pages-Takes_example = take_pages-Takes 3 some_mem some_mem-IsValid (omega arith)

took_three : (take_pages 3 some_mem).0 ≢ 0
took_three e = absurd (omega (arith, ap (λ r. r.0) take_three, e))
