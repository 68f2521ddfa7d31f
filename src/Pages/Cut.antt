-- ===== src/Pages/Cut.antt =====
-- The loops of src/kernel/mem.c over the runs, and cutting pages off the top end of one.
use bax_os_dev.Base.{
  ℕ, zero, suc, ◌+◌, ◌-◌, ◌*◌, ◌≤◌, ◌<◌, ◌≡◌, List, [], ◌∷◌, Bool-cases, inl, inr, ◌==◌,
  if◌then◌else◌, arith, length, true, get_or, Bool, length-set, set, Option, none, some, subst,
  ==_iff,
}
use bax_os_dev.Memory.{Run, Mem, page, span_end, run_remove, no_run, sum_counts}
use bax_os_dev.Memory.Insert.{IsAbove, IsClear}
use bax_os_dev.Memory.Lists.{
  run_remove-IsAbove, IsAbove-mono, length-run_remove, sum_counts-run_remove, get_or-IsRun,
}
use bax_os_dev.Memory.Chain.{
  removed-IsClear, run_remove-AreLoose, above-IsClear, IsAway-mono, get_or-IsAway,
}
use bax_os_dev.Memory.Add.{AreLoose, IsValid, pages, IsFreeable}
use bax_os_dev.Pages.{last_where, cut_top}

abbrev Found : (Run → Bool) → List Run → Option ℕ → Type 0
Found test rs none = Unit {0}
Found test rs (some i) = (i < length rs) × (test (get_or rs i no_run) ≡ true)

-- The loop over one run more, given where it stopped on the others.
Found-cons :
    (test : Run → Bool) (r : Run) (rs : List Run) (o : Option ℕ)
    → Found test rs o
    → Found test
        (r ∷ rs)
        (elim o [ some i ↦ some (suc i) | none ↦ if test r then some 0 else none ])
Found-cons test r rs (some i) f = (omega arith, f.1)
Found-cons test r rs none f = elim (Bool-cases (test r)) [
  | inl e ↦ rw e (omega arith, e)
  | inr e ↦ rw e tt
]

last_where-Found : (test : Run → Bool) (rs : List Run) → Found test rs (last_where test rs)
unfolding last_where
last_where-Found test [] = tt
last_where-Found test (r ∷ rs) =
    Found-cons test r rs (last_where test rs) (last_where-Found test rs)

pub last_where-some :
    (test : Run → Bool) (rs : List Run) (i : ℕ)
    → last_where test rs ≡ some i
    → (i < length rs) × (test (get_or rs i no_run) ≡ true)
last_where-some test rs i e = subst (Found test rs) e (last_where-Found test rs)

-- A run made shorter keeps its place.
shrink-IsAbove :
    (rs : List Run) (i low n : ℕ)
    → IsAbove low rs
    → 0 < n
    → n ≤ (get_or rs i no_run).count
    → IsAbove low (set rs i (record (get_or rs i no_run) { count = n }))
shrink-IsAbove [] i low n a p h = tt
shrink-IsAbove (r ∷ rs) zero low n a p h =
    let rest =
      IsAbove-mono rs (r.at + r.count * page + 1) (r.at + n * page + 1) (omega arith) a.2 in
    (a.0, omega arith, rest)
shrink-IsAbove (r ∷ rs) (suc i) low n a p h =
    (a.0, a.1, shrink-IsAbove rs i (r.at + r.count * page + 1) n a.2 p h)

sum_counts-shrink :
    (rs : List Run) (i n : ℕ)
    → i < length rs
    → sum_counts (set rs i (record (get_or rs i no_run) { count = n })) + (get_or rs i no_run).count
      ≡ sum_counts rs + n
unfolding sum_counts
sum_counts-shrink [] i n h = absurd (omega arith)
sum_counts-shrink (r ∷ rs) zero n h = omega arith
sum_counts-shrink (r ∷ rs) (suc i) n h = omega (arith, sum_counts-shrink rs i n (omega arith))

shrink-IsClear :
    (rs : List Run) (i n p c : ℕ)
    → n ≤ (get_or rs i no_run).count
    → IsClear p c rs
    → IsClear p c (set rs i (record (get_or rs i no_run) { count = n }))
shrink-IsClear [] i n p c h k = tt
shrink-IsClear (r ∷ rs) zero n p c h k = (omega arith, k.1)
shrink-IsClear (r ∷ rs) (suc i) n p c h k = (k.0, shrink-IsClear rs i n p c h k.1)

shrunk-IsClear :
    (rs : List Run) (i low n : ℕ)
    → IsAbove low rs
    → i < length rs
    → 0 < n
    → n < (get_or rs i no_run).count
    → let r = get_or rs i no_run in
      IsClear (r.at + (r.count - n) * page) n (set rs i (record r { count = r.count - n }))
shrunk-IsClear [] i low n a h p q = absurd (omega arith)
shrunk-IsClear (r ∷ rs) zero low n a h p q = (
  omega arith,
  above-IsClear rs (r.at + r.count * page + 1) (r.at + (r.count - n) * page) n a.2 (omega arith),
)
shrunk-IsClear (r ∷ rs) (suc i) low n a h p q =
    let next = get_or-IsRun rs i (r.at + r.count * page + 1) a.2 (omega arith) in
    (omega arith, shrunk-IsClear rs i (r.at + r.count * page + 1) n a.2 (omega arith) p q)

shrink-AreLoose :
    (ps : List ℕ) (rs : List Run) (i n : ℕ)
    → n ≤ (get_or rs i no_run).count
    → AreLoose rs ps
    → AreLoose (set rs i (record (get_or rs i no_run) { count = n })) ps
shrink-AreLoose [] rs i n h l = tt
shrink-AreLoose (p ∷ ps) rs i n h l =
    (l.0, l.1, shrink-IsClear rs i n p 1 h l.2, l.3, shrink-AreLoose ps rs i n h l.4)

-- What a cut off the top end of a run leaves, and what was cut is no longer there.
pub record Cuts (m : Mem) (count at : ℕ) (after : Mem) : Type 0 where
  pub valid : IsValid after
  pub freeable : IsFreeable at count after
  pub pages_left : pages after + count ≡ pages m

module _ (m : Mem) (i count : ℕ) (v : IsValid m) (lt : i < length m.runs) where
  abbrev run : Run
  run = get_or m.runs i no_run

  cut_all :
      count ≡ run.count → 0 < count → Cuts m count run.at (record m { runs = run_remove m.runs i })
  cut_all e p =
      let (is_run, low) = get_or-IsRun m.runs i page v.sorted lt in
      let clear = removed-IsClear m.runs i page v.sorted lt in
      let away = get_or-IsAway m.loose m.runs i lt v.chain in
      record {
        valid = record {
          sorted = run_remove-IsAbove m.runs i page v.sorted;
          room = omega (arith, length-run_remove m.runs i lt);
          counted = v.counted;
          chain = run_remove-AreLoose m.loose m.runs i v.chain;
        };
        freeable = rw e (record { run = is_run; nonzero = low; clear = clear; away = away });
        pages_left = omega (arith, sum_counts-run_remove m.runs i lt);
      }

  cut_part :
      count < run.count
      → 0 < count
      → Cuts m count
          (run.at + (run.count - count) * page)
          (record m { runs = set m.runs i (record run { count = run.count - count }) })
  cut_part h p =
      let left = run.count - count in
      let (is_run, low) = get_or-IsRun m.runs i page v.sorted lt in
      let away = get_or-IsAway m.loose m.runs i lt v.chain in
      record {
        valid = record {
          sorted = shrink-IsAbove m.runs i page left v.sorted (omega arith) (omega arith);
          room = omega (arith, length-set m.runs i (record run { count = left }));
          counted = v.counted;
          chain = shrink-AreLoose m.loose m.runs i left (omega arith) v.chain;
        };
        freeable = record {
          run = omega arith;
          nonzero = omega arith;
          clear = shrunk-IsClear m.runs i page count v.sorted lt p (omega arith);
          away =
              IsAway-mono m.loose run.at run.count (run.at + left * page) count (omega arith)
                (omega arith) away;
        };
        pages_left = omega (arith, sum_counts-shrink m.runs i left lt);
      }

  -- `cut_top` takes `count` pages of a run that has them.
  pub cut_top-Cuts :
      0 < count
      → count ≤ run.count
      → let (at, left) = cut_top m.runs i count in Cuts m count at (record m { runs = left })
  unfolding cut_top
  cut_top-Cuts p h =
      let (is_run, low) = get_or-IsRun m.runs i page v.sorted lt in
      elim (Bool-cases (run.count - count == 0)) [
        | inl e ↦
            let none_left : run.count - count ≡ 0 = (==_iff _ 0).0 e in
            let at : span_end run.at (run.count - count) ≡ run.at = omega arith in
            rw (at, e) (cut_all (omega arith) p)
        | inr e ↦
            let some_left : count < run.count = ground (arith, e) in
            let at : span_end run.at (run.count - count) ≡ run.at + (run.count - count) * page =
              omega arith in
            rw (at, e) (cut_part some_left p)
      ]
