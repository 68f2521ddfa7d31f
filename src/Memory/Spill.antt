-- ===== src/Memory/Spill.antt =====
-- `run_add` of src/kernel/mem.c on every branch: the full list too, and the smallest run let go of.
use bax_os_dev.Base.{
  ℕ, zero, suc, ◌+◌, ◌-◌, ◌*◌, ◌%◌, ◌≤◌, ◌<◌, ◌^◌, ◌≡◌, refl, List, [], ◌∷◌, Bool-cases, inl, inr,
  ltb, leb, ◌||◌, if◌then◌else◌, arith, ◌⊎◌, length, true, false, get_or, Bool, length-set, set,
  sym, ◌∙◌,
}
use bax_os_dev.Memory.{
  Run, Mem, page, max_runs, loose_floor, wrap64, run_index, loosen, loosen_page, joins_before,
  joins_after, run_add, run_insert, run_remove, grow_before, grow_after, add_runs, no_run,
  smallest_from, smallest_run, is_smaller, run_spill,
}
use bax_os_dev.Memory.Insert.{IsAbove, insert, add_runs-insert, insert-IsAbove, sum_counts-insert}
use bax_os_dev.Memory.Chain.{
  run_insert-AreLoose, loosen-AreLoose, loosen-IsAway, run_remove-AreLoose, get_or-IsAway,
  get_or-IsApart, removed-IsClear, insert-AreLoose,
}
use bax_os_dev.Memory.Lists.{
  length-run_insert, length-run_remove-le, length-run_remove, sum_counts-run_remove,
  run_remove-IsAbove, get_or-IsRun, insert-remove, sum_counts-run_insert,
}
use bax_os_dev.Memory.Add.{AreLoose, IsValid, pages, IsFreeable, HasRoom}

-- What the search for the smallest run returns, and the run that stands there.
smallest_from-lt :
    (rs : List Run) (j s : ℕ) (best : Run) → s < j → smallest_from rs j s best < j + length rs
unfolding smallest_from
smallest_from-lt [] j s best h = omega arith
smallest_from-lt (r ∷ rs) j s best h = elim (Bool-cases (is_smaller r best)) [
  | inl e ↦ rw e (omega (arith, smallest_from-lt rs (j + 1) j r (omega arith)))
  | inr e ↦ rw e (omega (arith, smallest_from-lt rs (j + 1) s best (omega arith)))
]

pub smallest_run-lt : (rs : List Run) → 0 < length rs → smallest_run rs < length rs
unfolding smallest_run
smallest_run-lt [] h = absurd (omega arith)
smallest_run-lt (r ∷ rs) h = omega (arith, smallest_from-lt rs 1 0 r (omega arith))

-- Whether some run lies above the floor.
pub any_high : List Run → Bool
any_high [] = false
any_high (r ∷ rs) = leb loose_floor r.at || any_high rs

smallest_from-high :
    (whole rs : List Run) (j s : ℕ) (best : Run)
    → get_or whole s no_run ≡ best
    → ((k : ℕ) → get_or whole (j + k) no_run ≡ get_or rs k no_run)
    → (leb loose_floor best.at || any_high rs)
      ≡ leb loose_floor (get_or whole (smallest_from rs j s best) no_run).at
unfolding smallest_from any_high is_smaller
smallest_from-high whole [] j s best g h = ground (arith, g)
smallest_from-high whole (r ∷ rs) j s best g h =
    let zeroth : j + 0 ≡ j = omega arith in
    let here : get_or whole j no_run ≡ r = rw zeroth at (h 0) in
    elim (Bool-cases (is_smaller r best)) [
      | inl e ↦ rw e (ground (arith, e, smallest_from-high whole rs (j + 1) j r here later))
      | inr e ↦ rw e (ground (arith, e, smallest_from-high whole rs (j + 1) s best g later))
    ]
  where
    later : (k : ℕ) → get_or whole (j + 1 + k) no_run ≡ get_or rs k no_run
    later k = let e : j + 1 + k ≡ j + suc k = omega arith in rw e (h (suc k))

-- The run let go of lies above the floor whenever one does.
smallest_run-high :
    (rs : List Run) → any_high rs ≡ leb loose_floor (get_or rs (smallest_run rs) no_run).at
unfolding smallest_run any_high
smallest_run-high [] = refl
smallest_run-high (r ∷ rs) =
    smallest_from-high (r ∷ rs) rs 1 0 r refl
      (λ k. let e : 1 + k ≡ suc k = omega arith in rw e refl)

pub loosen-runs : (at count : ℕ) (m : Mem) → (loosen at count m).runs ≡ m.runs
unfolding loosen loosen_page
loosen-runs at zero m = refl
loosen-runs at (suc count) m =
    ground (arith, loosen-runs (wrap64 (at + page)) count (loosen_page at m))

pub loosen-count :
    (at count : ℕ) (m : Mem)
    → at % page ≡ 0
    → at + count * page < 2 ^ 64
    → length m.loose ≡ m.loose_count
    → (length (loosen at count m).loose ≡ (loosen at count m).loose_count)
      × ((loosen at count m).loose_count ≤ m.loose_count + count)
      × (loose_floor ≤ at → (loosen at count m).loose_count ≡ m.loose_count + count)
unfolding loosen loosen_page
loosen-count at zero m d f c = ground arith
loosen-count at (suc count) m d f c =
    ground (arith, loosen-count (wrap64 (at + page)) count (loosen_page at m))

-- The list grows by one run at most, and not at all where the run joins another.
length-add_runs :
    (rs : List Run) (i at count : ℕ)
    → length (add_runs rs i at count)
      ≤ (if joins_before rs i at || joins_after rs i at count then length rs else length rs + 1)
unfolding add_runs grow_after joins_before grow_before
length-add_runs rs zero at count = ground (
  arith,
  length-run_insert rs 0 (record { at = at; count = count }),
  length-set rs 0 (record { at = at; count = wrap64 ((get_or rs 0 no_run).count + count) }),
)
length-add_runs rs (suc j) at count =
    let before = get_or rs j no_run in
    let grown = wrap64 (before.count + count) in
    let one : Run = record before { count = grown } in
    let two : Run = record before { count = wrap64 (grown + (get_or rs (suc j) no_run).count) } in
    let after : Run = record {
      at = at;
      count = wrap64 ((get_or rs (suc j) no_run).count + count);
    } in
    ground (
      arith,
      length-run_insert rs (suc j) (record { at = at; count = count }),
      length-set rs j one,
      length-set rs j two,
      length-set rs (suc j) after,
      length-run_remove-le (set rs j two) (suc j),
    )

module _ (at count : ℕ) (m : Mem) (v : IsValid m) (f : IsFreeable at count m) where
  abbrev index : ℕ
  index = run_index m.runs at

  abbrev joins : Bool
  joins = joins_before m.runs index at || joins_after m.runs index at count

  abbrev added : Run
  added = record { at = at; count = count }

  inserted : joins ≡ false → run_insert m.runs index added ≡ insert at count m.runs
  inserted h = sym plain ∙ add_runs-insert m.runs page at count v.sorted f.run f.clear
    where
      plain : add_runs m.runs index at count ≡ run_insert m.runs index added
      plain = unfold add_runs in ground arith

  abbrev smallest : Run
  smallest = get_or m.runs (smallest_run m.runs) no_run

  -- What a way out of the full list does: the invariant, and no page more, or none less either.
  record Keeps (high : Bool) (after : Mem) : Type 0 where
    valid : IsValid after
    bounded : pages after ≤ pages m + count
    kept : high ≡ true → pages after ≡ pages m + count

  loosen-Keeps :
      leb loose_floor at ≡ true → Keeps (leb loose_floor at || any_high m.runs) (loosen at count m)
  loosen-Keeps h = ground (
    arith,
    loosen-runs at count m,
    loosen-count at count m f.run.aligned f.run.fits v.counted,
    loosen-AreLoose at count m.runs m f.run.aligned f.run.fits v.chain f.clear f.away,
  )

  abbrev loosened : Mem
  loosened = loosen smallest.at smallest.count m

  abbrev place : ℕ
  place = if ltb (smallest_run m.runs) index then index - 1 else index

  abbrev replaced : List Run
  replaced = run_insert (run_remove m.runs (smallest_run m.runs)) place added

  replaced-IsAbove : joins ≡ false → smallest_run m.runs < length m.runs → IsAbove page replaced
  replaced-IsAbove j h =
      let s = smallest_run m.runs in
      rw (insert-remove m.runs index s added h, inserted j)
        (run_remove-IsAbove (insert at count m.runs) (if ltb s index then s else suc s) page
          (insert-IsAbove m.runs page at count v.sorted f.nonzero f.run f.clear))

  replaced-AreLoose : smallest_run m.runs < length m.runs → AreLoose replaced loosened.loose
  replaced-AreLoose h =
      let s = smallest_run m.runs in
      let left = run_remove m.runs s in
      let run = (get_or-IsRun m.runs s page v.sorted h).0 in
      let away = get_or-IsAway m.loose m.runs s h v.chain in
      run_insert-AreLoose loosened.loose left place added
        (loosen-AreLoose smallest.at smallest.count left m run.aligned run.fits
          (run_remove-AreLoose m.loose m.runs s v.chain) (removed-IsClear m.runs s page v.sorted h)
          away)
        (loosen-IsAway at count smallest.at smallest.count m run.fits f.away
          (get_or-IsApart m.runs s at count h f.clear))

  replaced-Keeps :
      joins ≡ false
      → length m.runs ≡ max_runs
      → Keeps (leb loose_floor smallest.at) (record loosened { runs = replaced })
  replaced-Keeps j full =
      let s = smallest_run m.runs in
      let lt = smallest_run-lt m.runs (omega arith) in
      let run = (get_or-IsRun m.runs s page v.sorted lt).0 in
      ground (
        arith,
        replaced-IsAbove j lt,
        replaced-AreLoose lt,
        length-run_insert (run_remove m.runs s) place added,
        length-run_remove m.runs s lt,
        sum_counts-run_insert (run_remove m.runs s) place added,
        sum_counts-run_remove m.runs s lt,
        loosen-count smallest.at smallest.count m run.aligned run.fits v.counted,
      )

  run_spill-Keeps :
      joins ≡ false
      → length m.runs ≡ max_runs
      → Keeps (leb loose_floor at || any_high m.runs) (run_spill index at count m)
  unfolding run_spill
  run_spill-Keeps j full =
      rw (loosen-runs smallest.at smallest.count m)
        (ground (arith, loosen-Keeps, replaced-Keeps j full, smallest_run-high m.runs))

  run_add-Keeps :
      IsValid (run_add at count m)
      × (pages (run_add at count m) ≤ pages m + count)
      × (HasRoom at count m ⊎ ((leb loose_floor at || any_high m.runs) ≡ true)
          → pages (run_add at count m) ≡ pages m + count)
  unfolding run_add
  run_add-Keeps = ground (
    arith,
    run_spill-Keeps,
    add_runs-insert m.runs page at count v.sorted f.run f.clear,
    insert-IsAbove m.runs page at count v.sorted f.nonzero f.run f.clear,
    insert-AreLoose m.loose m.runs at count v.chain f.away,
    length-add_runs m.runs index at count,
    sum_counts-insert m.runs at count,
  )

  -- For a valid allocator and whole pages, at least one, that end in the address space, none of
  -- them page 0 or free already, `run_add` leaves the allocator valid, on every branch, the full
  -- list's too, and it has no more pages than it had with those given.
  pub run_add-IsValid :
      IsValid (run_add at count m) × (pages (run_add at count m) ≤ pages m + count)
  run_add-IsValid = (run_add-Keeps.0, run_add-Keeps.1)

  -- For a valid allocator and pages that may be given back, `run_add` loses no page if the list
  -- has room, or if the pages given back or a run of the list lie above the floor.
  pub pages-run_add_kept :
      HasRoom at count m ⊎ ((leb loose_floor at || any_high m.runs) ≡ true)
      → pages (run_add at count m) ≡ pages m + count
  pages-run_add_kept = run_add-Keeps.2

  pub loosen-IsValid :
      leb loose_floor at ≡ true
      → IsValid (loosen at count m) × (pages (loosen at count m) ≤ pages m + count)
  loosen-IsValid h = let k = loosen-Keeps h in (k.valid, k.bounded)
