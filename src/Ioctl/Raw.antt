-- ===== src/Ioctl/Raw.antt =====
-- A terminal of src/modules/ipc/pty.c that an ioctl makes raw.
use bax_os_dev.Base.{
  ℕ, ◌+◌, ◌-◌, ◌≤◌, ◌≡◌, refl, sym, ◌∙◌, ap, subst, arith, true, false, not, ◌&&◌, List, [], ◌∷◌,
  ◌++◌, append-nil, length, Option, none, some, set, take_all, Bool-cases, inl, inr, ltb,
  if◌then◌else◌, if-true, if-false,
}
use bax_os_dev.Pty.{Pty, Termios, has, queue_bytes, icanon, line_done}
use bax_os_dev.Terminals.{Handle, Table, Reply, number, err, eio, pty_of}
use bax_os_dev.Opening.{Ids}
use bax_os_dev.Ioctl.{User, Stored, nothing, set_termios, change, answer, ioctl_of, pty_ioctl}

-- The terminal once it is raw: the termios without its speeds, and what was gathered to be read.
abbrev pub made_raw : Termios → Pty → Pty
made_raw new p = record p {
  t = record new { ispeed = p.t.ispeed; ospeed = p.t.ospeed };
  input_queue = p.input_queue ++ p.line;
  line = [];
}

length_nil : (l : List ℕ) → ltb 0 (length l) ≡ false → l ≡ []
length_nil [] e = refl
length_nil (x ∷ l) e = absurd (ground (arith, e))

-- The terminal with its new termios, and queues.
abbrev with_queues : Termios → Pty → List ℕ → List ℕ → Pty
with_queues new p queue line = record p {
  t = record new { ispeed = p.t.ispeed; ospeed = p.t.ospeed };
  input_queue = queue;
  line = line;
}

set_termios-raw :
    (new : Termios) (p : Pty)
    → has new.lflag icanon ≡ false
    → length p.input_queue + length p.line ≤ queue_bytes
    → set_termios 0x5402 new p ≡ made_raw new p
unfolding set_termios line_done
set_termios-raw new p raw room =
    let some_line = ltb 0 (length p.line) in
    let space = queue_bytes - length p.input_queue in
    let n = if ltb (length p.line) space then length p.line else space in
    let test : (not (has new.lflag icanon) && some_line) ≡ some_line = rw raw refl in
    let P : Pty → Type 0 = λ q. q ≡ made_raw new p in
    elim (Bool-cases some_line) [
      | inl e ↦ if-true P _ _ _ (test ∙ e) (
          ap (λ l. with_queues new p (p.input_queue ++ l) [])
            (take_all n p.line (ground (arith, room))))
      | inr e ↦ if-false P _ _ _ (test ∙ e) (
          subst (λ l. with_queues new p p.input_queue l ≡ with_queues new p (p.input_queue ++ l) [])
            (sym (length_nil p.line e))
            (ap (λ q. with_queues new p q []) (sym (append-nil p.input_queue))))
    ]

-- At a terminal that is there, with the program's memory in range and room in the queue for the
-- line, TCSETS of a termios without ICANON puts what was gathered behind what was there to read,
-- empties the line, and sets the termios but its speeds; the other terminals are as they were.
pub pty_ioctl-raw :
    (given : Reply) (ids : Ids) (u : User) (h : Handle) (arg : ℕ) (p : Pty) (ps : Table)
    → pty_of h ps ≡ some p
    → u.in_range 36 ≡ true
    → has u.termios.lflag icanon ≡ false
    → length p.input_queue + length p.line ≤ queue_bytes
    → pty_ioctl given ids u h 0x5402 arg ps
      ≡ (number 0, nothing, set ps (h.folder - 1) (some (made_raw u.termios p)))
unfolding pty_ioctl ioctl_of answer change
pty_ioctl-raw given ids u h arg p ps there range raw room =
    let found : Option Pty → Reply × Stored × Table = λ (o : Option Pty). elim o [
      | none ↦ (err eio, nothing, ps)
      | some p ↦ ioctl_of given ids u h 0x5402 arg p ps
    ] in
    let changed : change ids u 0x5402 arg h p ≡ (number 0, made_raw u.termios p) =
      rw range (ap (λ q. (number 0, q)) (set_termios-raw u.termios p raw room)) in
    ap found there
    ∙ ap (λ (r : Reply × Pty). (r.0, nothing, set ps (h.folder - 1) (some r.1))) changed
