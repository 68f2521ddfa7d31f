-- ===== src/Terminals/Counts.antt =====
-- The reference counts of src/modules/ipc/pty.c: who holds a terminal, and when it goes.
use bax_os_dev.Base.{
  ℕ, zero, suc, ◌-◌, ◌≤◌, ◌<◌, ◌≡◌, refl, List, [], ◌∷◌, arith, length, Bool, true, false,
  if◌then◌else◌, ◌&&◌, ◌==◌, ap, get_or, set, get_or-set_self, get_or-set_ne, none, some, ◌≢◌, sym,
  ◌+◌,
}
use bax_os_dev.Pty.{Pty}
use bax_os_dev.Terminals.{
  Handle, Table, max_ptys, pty_of, pty_hold, pty_drop, drop_one, hold_one, sighup,
}

pub set-set {ℓ} : {A : Type ℓ} (xs : List A) (i : ℕ) (v w : A) → set (set xs i v) i w ≡ set xs i w
set-set [] i v w = refl
set-set (x ∷ xs) zero v w = refl
set-set (x ∷ xs) (suc i) v w = ap (λ r. x ∷ r) (set-set xs i v w)

pub set_same {ℓ} :
    {A : Type ℓ} (xs : List A) (i : ℕ) (v d : A) → get_or xs i d ≡ v → set xs i v ≡ xs
set_same [] i v d e = refl
set_same (x ∷ xs) zero v d e = ap (λ r. r ∷ xs) (sym e)
set_same (x ∷ xs) (suc i) v d e = ap (λ r. x ∷ r) (set_same xs i v d e)

-- A descriptor of a terminal that is there.
pub record IsOpen (h : Handle) (p : Pty) (ps : Table) : Type 0 where
  pub first : 1 ≤ h.folder
  pub last : h.folder ≤ length ps
  pub whole : length ps ≡ max_ptys
  pub there : get_or ps (h.folder - 1) none ≡ some p
  pub held : 0 < p.masters + p.slaves

pty_of_open : (h : Handle) (p : Pty) (ps : Table) → IsOpen h p ps → pty_of h ps ≡ some p
unfolding pty_of
pty_of_open h p ps o = ground (arith, o.there)

pty_of-set :
    (h : Handle) (p q : Pty) (ps : Table)
    → IsOpen h p ps
    → pty_of h (set ps (h.folder - 1) (some q)) ≡ some q
unfolding pty_of
pty_of-set h p q ps o =
    ground (arith, get_or-set_self ps (h.folder - 1) (some q) none (omega (arith, o.first, o.last)))

drop_one-hold_one :
    (slave_end : Bool) (p : Pty)
    → (if slave_end then 0 < p.slaves else 0 < p.masters)
    → drop_one slave_end (hold_one slave_end p) ≡ p
unfolding drop_one hold_one
drop_one-hold_one true p own = ground arith
drop_one-hold_one false p own = ground arith

-- For a terminal that is open and an end of it that has a descriptor, holding that end once more
-- and letting go again leaves the table as it was, and sends no signal.
pub pty_drop-pty_hold :
    (h : Handle) (p : Pty) (ps : Table)
    → IsOpen h p ps
    → (if h.slave_end then 0 < p.slaves else 0 < p.masters)
    → pty_drop h (pty_hold h ps) ≡ (p.signals, ps)
unfolding pty_drop pty_hold
pty_drop-pty_hold h p ps o own =
    let q = hold_one h.slave_end p in
    let i = h.folder - 1 in
    let in_use : (p.masters == 0 && p.slaves == 0) ≡ false = ground (arith, o.held) in
    ground (
      arith,
      pty_of_open h p ps o,
      pty_of-set h p q ps o,
      drop_one-hold_one h.slave_end p own,
      in_use,
      set-set ps i (some q) (some p),
      set_same ps i (some p) none o.there,
    )

-- A terminal with one descriptor less at an end; the last of the master's hangs up.
abbrev pub one_less : Bool → Pty → Pty
one_less true p = record p { slaves = p.slaves - 1 }
one_less false p = record p {
  masters = p.masters - 1;
  signals = if p.masters == 1 then (p.pgrp, sighup) ∷ p.signals else p.signals;
}

-- What letting go of a descriptor does: the signals that have been sent, which outlive the
-- terminal, and the table: the terminal loses one descriptor at that end, it goes with its last,
-- and the others are as they were.
pub record Dropped (h : Handle) (p : Pty) (ps : Table) (r : List (ℕ × ℕ) × Table) : Type 0 where
  pub sent : r.0 ≡ (one_less h.slave_end p).signals
  pub entry : get_or (r.1) (h.folder - 1) none ≡ (
      if (one_less h.slave_end p).masters + (one_less h.slave_end p).slaves == 0
      then none
      else some (one_less h.slave_end p))
  pub others : (j : ℕ) → j ≢ h.folder - 1 → get_or (r.1) j none ≡ get_or ps j none

drop_one-one_less :
    (slave_end : Bool) (p : Pty)
    → (if slave_end then 0 < p.slaves else 0 < p.masters)
    → drop_one slave_end p ≡ one_less slave_end p
unfolding drop_one
drop_one-one_less true p own = ground arith
drop_one-one_less false p own = ground arith

-- For a terminal that is open and an end of it that has a descriptor, letting go of one takes one
-- off the count of that end and no other, sends SIGHUP to the foreground group with the last of
-- the master's, frees the terminal with the last of all, and leaves the other terminals as they
-- were.
pub pty_drop-Dropped :
    (h : Handle) (p : Pty) (ps : Table)
    → IsOpen h p ps
    → (if h.slave_end then 0 < p.slaves else 0 < p.masters)
    → Dropped h p ps (pty_drop h ps)
unfolding pty_drop
pty_drop-Dropped h p ps o own =
    let q = drop_one h.slave_end p in
    let i = h.folder - 1 in
    let kept = if q.masters == 0 && q.slaves == 0 then none else some q in
    record {
      sent = ground (arith, pty_of_open h p ps o, drop_one-one_less h.slave_end p own);
      entry = ground (
        arith,
        pty_of_open h p ps o,
        drop_one-one_less h.slave_end p own,
        get_or-set_self ps i kept none (omega (arith, o.first, o.last)),
      );
      others = λ j ne.
          ground (arith, pty_of_open h p ps o, get_or-set_ne ps i j kept none (λ e. ne (sym e)));
    }
