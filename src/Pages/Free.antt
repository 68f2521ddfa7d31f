-- ===== src/Pages/Free.antt =====
-- Pages given back to src/kernel/mem.c, and pages taken and given back.
use bax_os_dev.Base.{
  ℕ, ◌+◌, ◌≤◌, ◌<◌, ◌≡◌, ◌≢◌, subst, true, arith, Bool-cases, inl, inr, leb, ◌==◌, ◌&&◌,
}
use bax_os_dev.Memory.{Mem, loose_floor}
use bax_os_dev.Memory.Add.{IsValid, IsFreeable, pages}
use bax_os_dev.Memory.Spill.{run_add-IsValid, loosen-IsValid}
use bax_os_dev.Pages.{take_pages, pages_free}
use bax_os_dev.Pages.Take.{Takes, took, empty, take_pages-Takes}

-- For a valid allocator and whole pages, at least one, that end in the address space, none of them
-- page 0 or free already, `mem_pages_free` leaves the allocator valid, with no more pages than it
-- had with those given.
pub pages_free-IsValid :
    (at count : ℕ) (m : Mem)
    → IsValid m
    → IsFreeable at count m
    → IsValid (pages_free at count m) × (pages (pages_free at count m) ≤ pages m + count)
unfolding pages_free
pages_free-IsValid at count m v f = elim (Bool-cases (count == 1 && leb loose_floor at)) [
  | inr e ↦ rw e (run_add-IsValid at count m v f)
  | inl e ↦
      let one : count ≡ 1 = ground (arith, e) in
      let high : leb loose_floor at ≡ true = ground (arith, e) in
      let at_one : IsFreeable at 1 m = subst (λ c. IsFreeable at c m) one f in
      rw (e, one) (loosen-IsValid at 1 m v at_one high)
]

free_taken :
    (m : Mem) (count : ℕ) (r : ℕ × Mem)
    → Takes m count r
    → r.0 ≢ 0
    → IsValid (pages_free r.0 count r.1) × (pages (pages_free r.0 count r.1) ≤ pages m)
free_taken m count r (took c) some_pages =
    let (valid, bounded) = pages_free-IsValid r.0 count r.1 c.valid c.freeable in
    (valid, omega (arith, bounded, c.pages_left))
free_taken m count r (empty none_left same) some_pages = absurd (some_pages none_left)

-- For a valid allocator and a count above 0, if `take` finds the pages, giving them back at once
-- leaves the allocator valid, with no more pages than before both.
pub pages_free-take_pages :
    (count : ℕ) (m : Mem)
    → IsValid m
    → 0 < count
    → (take_pages count m).0 ≢ 0
    → let (at, m') = take_pages count m in
      IsValid (pages_free at count m') × (pages (pages_free at count m') ≤ pages m)
pages_free-take_pages count m v p got =
    free_taken m count (take_pages count m) (take_pages-Takes count m v p) got
