-- ===== src/Opening/Lifetime.antt =====
-- Terminals of src/modules/ipc/pty.c from their opening to their end.
use bax_os_dev.Base.{
  ℕ, zero, suc, ◌-◌, ◌≤◌, ◌<◌, ◌≡◌, ◌≢◌, refl, ◌∙◌, ap, subst, arith, Bool, true, false, not, ◌&&◌,
  ◌||◌, Bool-cases, inl, inr, List, [], ◌∷◌, length, Option, none, some, get_or, set,
  get_or-set_self, leb, ◌==◌, if◌then◌else◌, if-true, if-false,
}
use bax_os_dev.Pty.{Pty}
use bax_os_dev.Terminals.{
  Table, Reply, number, bytes, waiting, err, max_ptys, pty_of, pty_drop, drop_one,
}
use bax_os_dev.Terminals.Counts.{set-set, set_same}
use bax_os_dev.Opening.{enospc, free_number, new_pty, master_given, master_open, master_handle}

-- A number that is taken.
abbrev pub IsTaken : Table → ℕ → Type 0
IsTaken ps n = get_or ps n none ≢ none

-- A reply that is no descriptor.
abbrev pub IsRefusal : Reply → Type 0
IsRefusal (number fd) = ⊥
IsRefusal (err e) = Unit {0}
IsRefusal (bytes bs) = Unit {0}
IsRefusal waiting = Unit {0}

-- What becomes of the opening of a master: no number or no memory, the table as it was; no descriptor,
-- the table as it was; or a new terminal at the first number that is free.
pub data Opens (got : Bool) (given : Reply) (ps : Table) : Reply × Table → Type 0 where
  no_room : ((n : ℕ) → n < max_ptys → IsTaken ps n) → Opens got given ps (err enospc, ps)
  no_memory : got ≡ false → Opens got given ps (err enospc, ps)
  refused :
      got ≡ true → free_number ps < max_ptys → IsRefusal given → Opens got given ps (given, ps)
  made :
      (n fd : ℕ)
      → got ≡ true
      → n < max_ptys
      → get_or ps n none ≡ none
      → ((j : ℕ) → j < n → IsTaken ps j)
      → given ≡ number fd
      → Opens got given ps (given, set ps n (some new_pty))

pub some_ne_none : (p : Pty) → some p ≢ none
some_ne_none p e = subst (λ o. elim o [ none ↦ ⊥ | some q ↦ Unit {0} ]) e tt

free_number-le : (ps : Table) → free_number ps ≤ length ps
unfolding free_number
free_number-le [] = omega arith
free_number-le (none ∷ ps) = omega arith
free_number-le (some p ∷ ps) = omega (arith, free_number-le ps)

free_number-free : (ps : Table) → get_or ps (free_number ps) none ≡ none
unfolding free_number
free_number-free [] = refl
free_number-free (none ∷ ps) = refl
free_number-free (some p ∷ ps) = free_number-free ps

free_number-IsTaken : (ps : Table) (j : ℕ) → j < free_number ps → IsTaken ps j
unfolding free_number
free_number-IsTaken [] j h = absurd (omega arith)
free_number-IsTaken (none ∷ ps) j h = absurd (omega arith)
free_number-IsTaken (some p ∷ ps) zero h = some_ne_none p
free_number-IsTaken (some p ∷ ps) (suc j) h = free_number-IsTaken ps j (omega arith)

-- A terminal that is taken off again leaves the table as it was.
undone : (ps : Table) → let n = free_number ps in set (set ps n (some new_pty)) n none ≡ ps
undone ps =
    let n = free_number ps in
    set-set ps n (some new_pty) none ∙ set_same ps n none none (free_number-free ps)

-- What `master_open` does where there is room.
with_room :
    (got : Bool) (given : Reply) (ps : Table)
    → got ≡ true
    → free_number ps < max_ptys
    → Opens got given ps
        (master_given given (free_number ps) (set ps (free_number ps) (some new_pty)))
unfolding master_given
with_room got (number fd) ps mem room =
    made (free_number ps) fd mem room (free_number-free ps) (free_number-IsTaken ps) refl
with_room got (err e) ps mem room = rw (undone ps) (refused mem room tt)
with_room got (bytes bs) ps mem room = rw (undone ps) (refused mem room tt)
with_room got waiting ps mem room = rw (undone ps) (refused mem room tt)

-- Opening the master's name, with a table of 8, gives ENOSPC and leaves the table as it was if no
-- number is free or there is no memory; with a free number and memory, it leaves the table as it
-- was if there is no descriptor to be had, and otherwise puts a new terminal at the first number
-- that is free, and nothing else.
pub master_open-Opens :
    (got : Bool) (given : Reply) (ps : Table)
    → length ps ≡ max_ptys
    → Opens got given ps (master_open got given ps)
unfolding master_open
master_open-Opens got given ps size =
    let n = free_number ps in
    let P : Reply × Table → Type 0 = Opens got given ps in
    elim (Bool-cases (n == max_ptys)) [
      | inl e ↦
          let full : n ≡ max_ptys = ground (arith, e) in
          if-true P (n == max_ptys || not got) _ _ (ground (arith, e))
            (no_room (λ j lt. free_number-IsTaken ps j (omega (arith, full, lt))))
      | inr e ↦
          let room : n < max_ptys = ground (arith, e, size, free_number-le ps) in
          elim (Bool-cases got) [
            | inl g ↦
                if-false P (n == max_ptys || not got) _ _ (ground (arith, e, g))
                  (with_room got given ps g room)
            | inr g ↦ if-true P (n == max_ptys || not got) _ _ (ground (arith, g)) (no_memory g)
          ]
    ]

-- With a table of 8 and a number that is free, opening a master and letting go of it leaves the
-- table as it was.
pub pty_drop-master_open :
    (fd : ℕ) (nonblock : Bool) (ps : Table)
    → length ps ≡ max_ptys
    → free_number ps < max_ptys
    → (pty_drop (master_handle nonblock ps) (master_open true (number fd) ps).1).1 ≡ ps
unfolding pty_drop pty_of drop_one master_open master_given
pty_drop-master_open fd nonblock ps size room =
    let n = free_number ps in
    let ps' = set ps n (some new_pty) in
    let made_it : (master_open true (number fd) ps).1 ≡ ps' =
      let test : (n == max_ptys) ≡ false = ground (arith, room) in rw test refl in
    let h = master_handle nonblock ps in
    let gone : Option Pty → List (ℕ × ℕ) × Table = λ (o : Option Pty). elim o [
      | none ↦ ([], ps')
      | some p ↦
          let p' = drop_one false p in
          (
            p'.signals,
            set ps' (h.folder - 1) (if p'.masters == 0 && p'.slaves == 0 then none else some p'),
          )
    ] in
    let at : h.folder - 1 ≡ n = omega arith in
    let low : leb 1 h.folder ≡ true = ground arith in
    let high : leb h.folder max_ptys ≡ true = ground (arith, room) in
    let there : get_or ps' n none ≡ some new_pty =
      get_or-set_self ps n (some new_pty) none (omega (arith, size, room)) in
    let found : pty_of h ps' ≡ some new_pty = rw (low, high, at) there in
    let done : (gone (pty_of h ps')).1 ≡ ps =
      ap (λ o. (gone o).1) found ∙ ap (λ i. set ps' i none) at ∙ undone ps in
    ap (λ t. (pty_drop h t).1) made_it ∙ done
