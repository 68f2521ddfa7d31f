-- ===== src/Ioctl/Kept.antt =====
-- What no ioctl of src/modules/ipc/pty.c changes.
use bax_os_dev.Base.{
  ℕ, zero, suc, ◌-◌, ◌≤◌, ◌≡◌, ◌≢◌, refl, sym, ◌∙◌, ap, subst, arith, Bool, true, false, not, ◌&&◌,
  ◌||◌, Bool-cases, inl, inr, List, [], ◌∷◌, length, Option, none, some, get_or, set, get_or-set_ne,
  ltb, leb, ◌==◌, if◌then◌else◌, if-both, if-true, if-false,
}
use bax_os_dev.Pty.{Pty, Termios, icanon, lflag_has, line_done}
use bax_os_dev.Pty.Bounds.{IsBounded, line_done-IsBounded}
use bax_os_dev.Terminals.{Handle, Table, Reply, number, bytes, waiting, err, eio, max_ptys, pty_of}
use bax_os_dev.Opening.Lifetime.{some_ne_none}
use bax_os_dev.Opening.{Ids, enoent, opened_slave, slave_given, slave_open}
use bax_os_dev.Ioctl.{
  User, Stored, nothing, ioctl_of, tcgets2, tcsetsf, tcsetsf2, is_set_request, termios_set,
  set_termios, answer, change, pty_ioctl,
}

-- A terminal before a request and after it: the arrays are not outgrown, the speeds are the same, and no
-- descriptor is lost.
pub record Keeps (p q : Pty) : Type 0 where
  pub bounded : IsBounded p → IsBounded q
  pub speeds : (q.t.ispeed ≡ p.t.ispeed) × (q.t.ospeed ≡ p.t.ospeed)
  pub masters : q.masters ≡ p.masters
  pub slaves : p.slaves ≤ q.slaves

-- The same of an entry of the table: what is free stays free.
abbrev pub EntryKeeps : Option Pty → Option Pty → Type 0
EntryKeeps none none = Unit {0}
EntryKeeps none (some q) = ⊥
EntryKeeps (some p) none = ⊥
EntryKeeps (some p) (some q) = Keeps p q

abbrev pub TableKeeps : Table → Table → Type 0
TableKeeps ps after = (j : ℕ) → EntryKeeps (get_or ps j none) (get_or after j none)

Keeps-refl : (p : Pty) → Keeps p p
Keeps-refl p = record {
  bounded = λ b. b;
  speeds = (refl, refl);
  masters = refl;
  slaves = omega arith;
}

Keeps-trans : (p q r : Pty) → Keeps p q → Keeps q r → Keeps p r
Keeps-trans p q r f g = record {
  bounded = λ b. g.bounded (f.bounded b);
  speeds = (g.speeds.0 ∙ f.speeds.0, g.speeds.1 ∙ f.speeds.1);
  masters = g.masters ∙ f.masters;
  slaves = omega (arith, f.slaves, g.slaves);
}

EntryKeeps-refl : (o : Option Pty) → EntryKeeps o o
EntryKeeps-refl none = tt
EntryKeeps-refl (some p) = Keeps-refl p

get_or-set_there :
    (i : ℕ) (p : Pty) (v : Option Pty) (ps : Table)
    → get_or ps i none ≡ some p
    → get_or (set ps i v) i none ≡ v
get_or-set_there i p v [] there = absurd (some_ne_none p (sym there))
get_or-set_there zero p v (o ∷ ps) there = refl
get_or-set_there (suc i) p v (o ∷ ps) there = get_or-set_there i p v ps there

set-TableKeeps :
    (i : ℕ) (p q : Pty) (ps : Table)
    → get_or ps i none ≡ some p
    → Keeps p q
    → TableKeeps ps (set ps i (some q))
set-TableKeeps i p q ps there k j = elim (Bool-cases (i == j)) [
  | inl e ↦
      let same : i ≡ j = ground (arith, e) in
      subst (λ n. EntryKeeps (get_or ps n none) (get_or (set ps i (some q)) n none)) same
        (rw (there, get_or-set_there i p (some q) ps there) k)
  | inr e ↦
      let other : i ≢ j = ground (arith, e) in
      rw (get_or-set_ne ps i j (some q) none other) (EntryKeeps-refl (get_or ps j none))
]

is_set_request-small : (request : ℕ) → is_set_request request ≡ true → ltb request tcgets2 ≡ true
is_set_request-small request h = ground (arith, h)

line_done-Keeps : (p : Pty) → Keeps p (line_done p)
unfolding line_done
line_done-Keeps p = record {
  bounded = line_done-IsBounded p;
  speeds = (refl, refl);
  masters = refl;
  slaves = omega arith;
}

set_termios-Keeps :
    (request : ℕ) (new : Termios) (p : Pty)
    → ltb request tcgets2 ≡ true
    → Keeps p (set_termios request new p)
unfolding set_termios
set_termios-Keeps request new p small =
    let p1 = record p { t = termios_set request new p.t } in
    let empty = record p1 { input_queue = []; line = [] } in
    let flush = request == tcsetsf || request == tcsetsf2 in
    let p2 = if flush then empty else p1 in
    let first : Keeps p p1 = rw small (record {
      bounded = λ b. record { in_fits = b.in_fits; out_fits = b.out_fits; line_fits = b.line_fits };
      speeds = (refl, refl);
      masters = refl;
      slaves = omega arith;
    }) in
    let emptied : Keeps p1 empty = record {
      bounded =
          λ b. record { in_fits = omega arith; out_fits = b.out_fits; line_fits = omega arith };
      speeds = (refl, refl);
      masters = refl;
      slaves = omega arith;
    } in
    let second : Keeps p p2 =
      if-both (Keeps p) flush empty p1 (Keeps-trans p p1 empty first emptied) first in
    if-both (Keeps p) (not (lflag_has p2 icanon) && ltb 0 (length p2.line)) _ p2
      (Keeps-trans p p2 (line_done p2) second (line_done-Keeps p2)) second

-- A change of what neither the queues, nor the speeds, nor the counts are.
elsewhere :
    (p q : Pty)
    → (q.input_queue ≡ p.input_queue) × (q.output_queue ≡ p.output_queue) × (q.line ≡ p.line)
    → q.t ≡ p.t
    → (q.masters ≡ p.masters) × (p.slaves ≤ q.slaves)
    → Keeps p q
elsewhere p q (i, o, l) t (m, s) = record {
  bounded = λ b. record {
    in_fits = rw i b.in_fits;
    out_fits = rw o b.out_fits;
    line_fits = rw l b.line_fits;
  };
  speeds = (ap (λ t. t.ispeed) t, ap (λ t. t.ospeed) t);
  masters = m;
  slaves = s;
}

-- What a request looks at of a terminal.
abbrev looks : Pty → List ℕ × List ℕ × List ℕ × Termios × ℕ × ℕ
looks p = (p.input_queue, p.output_queue, p.line, p.t, p.masters, p.slaves)

still : (q p : Pty) → looks q ≡ looks p → Keeps p q
still q p e =
    elsewhere p q (ap (λ l. l.0) e, ap (λ l. l.1) e, ap (λ l. l.2) e) (ap (λ l. l.3) e)
      (ap (λ l. l.4) e, (let f : q.slaves ≡ p.slaves = ap (λ l. l.5) e in omega (arith, f)))

change-Keeps :
    (ids : Ids) (u : User) (request arg : ℕ) (h : Handle) (p : Pty)
    → Keeps p (change ids u request arg h p).1
unfolding change
change-Keeps ids u request arg h p =
    let P : Reply × Pty → Type 0 = λ r. Keeps p r.1 in
    let same : Keeps p p = Keeps-refl p in
    let empty : Keeps p (record p { input_queue = []; line = [] }) = record {
      bounded =
          λ b. record { in_fits = omega arith; out_fits = b.out_fits; line_fits = omega arith };
      speeds = (refl, refl);
      masters = refl;
      slaves = omega arith;
    } in
    let small = ltb request tcgets2 in
    let set : is_set_request request ≡ true → Keeps p (set_termios request u.termios p) =
      λ e. set_termios-Keeps request u.termios p (is_set_request-small request e) in
    elim (Bool-cases (is_set_request request)) [
      | inl e ↦
          if-true P (is_set_request request) _ _ e
            (if-both P (u.in_range (if small then 36 else 44)) _ _ (set e) same)
      | inr e ↦ if-false P (is_set_request request) _ _ e (
          if-both P (request == 0x5414) _ _ (if-both P (u.in_range 8) _ _ (still _ p refl) same) (
            if-both P (request == 0x540E) _ _ (still _ p refl) (
              if-both P (request == 0x5410) _ _ (if-both P (u.in_range 4) _ _ (still _ p refl) same)
                (if-both P (request == 0x540B) _ _
                  (if-both (Keeps p) (arg == 0 || arg == 2) _ p empty same)
                  (if-both P (request == 0x40045431) _ _
                    (if-both P h.slave_end _ _ same
                      (if-both P (u.in_range 4) _ _ (still _ p refl) same))
                    same)))))
    ]

opened-Keeps : (ids : Ids) (p : Pty) → Keeps p (opened_slave ids p)
unfolding opened_slave
opened-Keeps ids p =
    if-both (Keeps p) (p.sid == 0) _ _ (elsewhere p _ (refl, refl, refl) refl (refl, omega arith))
      (elsewhere p _ (refl, refl, refl) refl (refl, omega arith))

TableKeeps-refl : (ps : Table) → TableKeeps ps ps
TableKeeps-refl ps j = EntryKeeps-refl (get_or ps j none)

-- What a number that is looked up in its range has.
in_table : (c : Bool) (o : Option Pty) (p : Pty) → (if c then o else none) ≡ some p → o ≡ some p
in_table true o p e = e
in_table false o p e = absurd (some_ne_none p (sym e))

slave_given-TableKeeps :
    (given : Reply) (ids : Ids) (i : ℕ) (p : Pty) (ps : Table)
    → get_or ps i none ≡ some p
    → TableKeeps ps (slave_given given ids i p ps).1
unfolding slave_given
slave_given-TableKeeps (number fd) ids i p ps there =
    set-TableKeeps i p (opened_slave ids p) ps there (opened-Keeps ids p)
slave_given-TableKeeps (err e) ids i p ps there = TableKeeps-refl ps
slave_given-TableKeeps (bytes bs) ids i p ps there = TableKeeps-refl ps
slave_given-TableKeeps waiting ids i p ps there = TableKeeps-refl ps

slave_open-TableKeeps :
    (given : Reply) (ids : Ids) (i : ℕ) (ps : Table) → TableKeeps ps (slave_open given ids i ps).1
unfolding slave_open
slave_open-TableKeeps given ids i ps = go (if ltb i max_ptys then get_or ps i none else none) refl
  where
    go :
        (o : Option Pty)
        → (if ltb i max_ptys then get_or ps i none else none) ≡ o
        → let r : Reply × Table = elim o [
          | none ↦ (err enoent, ps)
          | some p ↦ if p.locked then (err eio, ps) else slave_given given ids i p ps
        ] in
          TableKeeps ps r.1
    go none e = TableKeeps-refl ps
    go (some p) e =
        let P : Reply × Table → Type 0 = λ r. TableKeeps ps r.1 in
        if-both P p.locked _ _ (TableKeeps-refl ps) (
          slave_given-TableKeeps given ids i p ps
            (in_table (ltb i max_ptys) (get_or ps i none) p e))

ioctl_of-TableKeeps :
    (given : Reply) (ids : Ids) (u : User) (h : Handle) (request arg : ℕ) (p : Pty) (ps : Table)
    → get_or ps (h.folder - 1) none ≡ some p
    → TableKeeps ps (ioctl_of given ids u h request arg p ps).2
unfolding ioctl_of
ioctl_of-TableKeeps given ids u h request arg p ps there =
    let P : Reply × Stored × Table → Type 0 = λ r. TableKeeps ps r.2 in
    if-both P (request == 0x5441) _ _
      (if-both P h.slave_end _ _ (TableKeeps-refl ps)
        (slave_open-TableKeeps given ids (h.folder - 1) ps))
      (go (answer u request h p))
  where
    go :
        (o : Option (Reply × Stored))
        → let r : Reply × Stored × Table = elim o [
          | some (reply, stored) ↦ (reply, stored, ps)
          | none ↦
              let (done, p') = change ids u request arg h p in
              (done, nothing, set ps (h.folder - 1) (some p'))
        ] in
          TableKeeps ps r.2
    go none =
        set-TableKeeps (h.folder - 1) p (change ids u request arg h p).1 ps there
          (change-Keeps ids u request arg h p)
    go (some a) = TableKeeps-refl ps

-- Whatever the request, its argument, and what the program's memory holds, `pty_ioctl` leaves the
-- queues and the line of each terminal within their arrays if they were, its speeds and the number
-- of its masters as they were, and the number of its slaves not less; a number that was free stays
-- free, and one that was taken stays taken.
pub pty_ioctl-TableKeeps :
    (given : Reply) (ids : Ids) (u : User) (h : Handle) (request arg : ℕ) (ps : Table)
    → TableKeeps ps (pty_ioctl given ids u h request arg ps).2
unfolding pty_ioctl pty_of
pty_ioctl-TableKeeps given ids u h request arg ps = go (pty_of h ps) refl
  where
    go :
        (o : Option Pty)
        → pty_of h ps ≡ o
        → let r : Reply × Stored × Table = elim o [
          | none ↦ (err eio, nothing, ps)
          | some p ↦ ioctl_of given ids u h request arg p ps
        ] in
          TableKeeps ps r.2
    go none e = TableKeeps-refl ps
    go (some p) e =
        ioctl_of-TableKeeps given ids u h request arg p ps
          (in_table (leb 1 h.folder && leb h.folder max_ptys) (get_or ps (h.folder - 1) none) p e)
