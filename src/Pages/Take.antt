-- ===== src/Pages/Take.antt =====
-- `take` of src/kernel/mem.c: what it takes is free no longer, and nothing else changes hands.
use bax_os_dev.Base.{
  ℕ, suc, ◌+◌, ◌-◌, ◌≤◌, ◌<◌, ◌≡◌, refl, ap, List, [], ◌∷◌, Bool-cases, inl, inr, ltb, leb, ◌==◌,
  arith, length, true, false, get_or, Option, none, some, Option-cases, sym, ◌∙◌, leb→le, ltb→lt,
  subst, ==_iff,
}
use bax_os_dev.Memory.{Mem, page, max_runs, loose_floor, loose_fill, no_run, run_add, loosen}
use bax_os_dev.Memory.Lists.{get_or-IsRun}
use bax_os_dev.Memory.Chain.{loosen-AreLoose}
use bax_os_dev.Memory.Add.{AreLoose, IsValid, pages, IsFreeable, HasRoom, run_add-loose}
use bax_os_dev.Memory.Spill.{run_add-IsValid, pages-run_add_kept, loosen-runs, loosen-count}
use bax_os_dev.Pages.{
  last_where, cut_top, take_run, fill_loose, fill_from, fills, filled, unchained, or_zero, drain,
  take_drained, take_loose, take_pages,
}
use bax_os_dev.Pages.Cut.{last_where-some, Cuts, cut_top-Cuts}

-- The list gives `count` pages, or has no run that long.
abbrev Gives : Mem → ℕ → Option (ℕ × Mem) → Type 0
Gives m count none = Unit {0}
Gives m count (some (at, after)) = Cuts m count at after

pub take_run-Gives :
    (count : ℕ) (m : Mem) → IsValid m → 0 < count → Gives m count (take_run count m)
unfolding take_run
take_run-Gives count m v p = elim (Option-cases (last_where (λ r. leb count r.count) m.runs)) [
  | inl e ↦ rw (e, Gives) tt
  | inr (i, e) ↦
      let (lt, test) = last_where-some (λ r. leb count r.count) m.runs i e in
      rw (e, Gives) (cut_top-Cuts m i count v lt p (leb→le _ _ test))
]

-- An allocator with the same pages, all told.
pub record Same (m after : Mem) : Type 0 where
  pub valid : IsValid after
  pub kept : pages after ≡ pages m

-- The first page of the chain is taken off it.
pub unchained-Cuts :
    (at : ℕ) (rest : List ℕ) (m : Mem)
    → IsValid m
    → at ∷ rest ≡ m.loose
    → Cuts m 1 at (unchained rest m) × (loose_floor ≤ at)
unchained-Cuts at rest m v e =
    let chain : AreLoose m.runs (at ∷ rest) = subst (AreLoose m.runs) (sym e) v.chain in
    let counted : suc (length rest) ≡ m.loose_count = ap length e ∙ v.counted in
    (
      record {
        valid = record { sorted = v.sorted; room = v.room; counted = omega arith; chain = chain.4 };
        freeable = record { run = chain.1; nonzero = omega arith; clear = chain.2; away = chain.3 };
        pages_left = omega arith;
      },
      chain.0,
    )

drain-Same : (chain : List ℕ) (m : Mem) → IsValid m → chain ≡ m.loose → Same m (drain chain m)
unfolding drain
drain-Same [] m v e = record { valid = v; kept = refl }
drain-Same (at ∷ rest) m v e = elim (Bool-cases (ltb (length m.runs) (max_runs - 1))) [
  | inr full ↦ rw full (record { valid = v; kept = refl })
  | inl free ↦
      let cut = (unchained-Cuts at rest m v e).0 in
      let less = ltb→lt (length m.runs) (max_runs - 1) free in
      let room : HasRoom at 1 (unchained rest m) = inl (omega arith) in
      let added = run_add-IsValid at 1 (unchained rest m) cut.valid cut.freeable in
      let kept = pages-run_add_kept at 1 (unchained rest m) cut.valid cut.freeable (inl room) in
      let same =
        drain-Same rest (run_add at 1 (unchained rest m)) added.0
          (sym (run_add-loose at 1 (unchained rest m) cut.valid cut.freeable room)) in
      rw free (record { valid = same.valid; kept = omega (arith, same.kept, kept, cut.pages_left) })
]

-- Pages above the floor that are let go of are all on the chain.
pub loosen-Same :
    (at count : ℕ) (m : Mem)
    → IsValid m
    → IsFreeable at count m
    → loose_floor ≤ at
    → IsValid (loosen at count m) × (pages (loosen at count m) ≡ pages m + count)
loosen-Same at count m v f h = ground (
  arith,
  loosen-runs at count m,
  loosen-count at count m f.run.aligned f.run.fits v.counted,
  loosen-AreLoose at count m.runs m f.run.aligned f.run.fits v.chain f.clear f.away,
)

-- Sixteen pages of a run above the floor make an empty chain: its straddling case never comes.
fill_from-Same :
    (i : ℕ) (m : Mem)
    → IsValid m
    → (i < length m.runs) × (fills (get_or m.runs i no_run) ≡ true)
    → Same m (fill_from i m)
unfolding fill_from
fill_from-Same i m v (lt, test) =
    let r = get_or m.runs i no_run in
    let is_run = (get_or-IsRun m.runs i page v.sorted lt).0 in
    let enough : loose_fill ≤ r.count = ground (arith, test) in
    let (at, left) = cut_top m.runs i loose_fill in
    let high : loose_floor ≤ at = unfold cut_top in ground (arith, test) in
    let cut = cut_top-Cuts m i loose_fill v lt (omega arith) enough in
    let same = loosen-Same at loose_fill (record m { runs = left }) cut.valid cut.freeable high in
    let not_low : ltb at loose_floor ≡ false = ground arith in
    rw not_low (record { valid = same.0; kept = omega (arith, same.1, cut.pages_left) })

fill_loose-Same : (m : Mem) → IsValid m → Same m (fill_loose m)
unfolding fill_loose
fill_loose-Same m v = elim (Option-cases (last_where fills m.runs)) [
  | inl e ↦ rw (e, fill_loose) (record { valid = v; kept = refl })
  | inr (i, e) ↦ rw (e, fill_loose) (fill_from-Same i m v (last_where-some fills m.runs i e))
]

filled-Same : (chain : List ℕ) (m : Mem) → IsValid m → Same m (filled chain m)
filled-Same [] m v = fill_loose-Same m v
filled-Same (at ∷ rest) m v = record { valid = v; kept = refl }

-- What `take` returns: pages that were free and are not any more, or 0 with every page kept.
pub data Takes (m : Mem) (count : ℕ) (r : ℕ × Mem) : Type 0 where
  took : Cuts m count r.0 r.1 → Takes m count r
  empty : r.0 ≡ 0 → Same m r.1 → Takes m count r

or_zero-Takes :
    (m : Mem) (count : ℕ) (o : Option (ℕ × Mem))
    → IsValid m
    → Gives m count o
    → Takes m count (or_zero m o)
or_zero-Takes m count none v g = empty refl (record { valid = v; kept = refl })
or_zero-Takes m count (some t) v g = took g

-- What is taken from an allocator with the same pages is taken from the first.
Same-Takes : (m m' : Mem) (count : ℕ) (r : ℕ × Mem) → Same m m' → Takes m' count r → Takes m count r
Same-Takes m m' count r s (took c) = took (record {
  valid = c.valid;
  freeable = c.freeable;
  pages_left = omega (arith, c.pages_left, s.kept);
})
Same-Takes m m' count r s (empty z k) = empty z (record { valid = k.valid; kept = k.kept ∙ s.kept })

take_drained-Takes :
    (count : ℕ) (m : Mem) → IsValid m → 0 < count → Takes m count (take_drained count m)
unfolding take_drained
take_drained-Takes count m v p =
    let gives = take_run-Gives count m v p in
    elim (Option-cases (take_run count m)) [
      | inr (r, e) ↦ rw (e, take_drained) (took (subst (Gives m count) e gives))
      | inl e ↦ elim (Bool-cases (m.loose_count == 0)) [
        | inl z ↦ rw (e, take_drained, z) (empty refl (record { valid = v; kept = refl }))
        | inr z ↦
            let same = drain-Same m.loose m v refl in
            let drained = drain m.loose m in
            rw (e, take_drained, z)
              (Same-Takes m drained count _ same (
                or_zero-Takes drained count (take_run count drained) same.valid
                  (take_run-Gives count drained same.valid p)))
      ]
    ]

take_loose-Takes :
    (chain : List ℕ) (m : Mem) → IsValid m → chain ≡ m.loose → Takes m 1 (take_loose chain m)
unfolding take_loose
take_loose-Takes [] m v e = take_drained-Takes 1 m v (omega arith)
take_loose-Takes (at ∷ rest) m v e = took (unchained-Cuts at rest m v e).0

-- `take`, given a count of pages above 0 and a valid allocator, either returns the address of that
-- many whole pages, which are then in no run and off the chain, and leaves a valid allocator with
-- that many pages less; or it returns 0 and leaves a valid allocator with as many pages as before.
pub take_pages-Takes :
    (count : ℕ) (m : Mem) → IsValid m → 0 < count → Takes m count (take_pages count m)
unfolding take_pages
take_pages-Takes count m v p = elim (Bool-cases (count == 1)) [
  | inr e ↦ rw (e, take_pages) (take_drained-Takes count m v p)
  | inl e ↦
      let one : count ≡ 1 = (==_iff count 1).0 e in
      let m' = filled m.loose m in
      let same = filled-Same m.loose m v in
      rw (e, take_pages)
        (rw one (Same-Takes m m' 1 _ same (take_loose-Takes m'.loose m' same.valid refl)))
]
