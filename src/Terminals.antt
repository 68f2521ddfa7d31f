-- ===== src/Terminals.antt =====
-- src/modules/ipc/pty.c, the descriptors: the table of terminals, reading, writing and waiting,
-- and the reference counts.
pub mod Reading
pub mod Woken
pub mod Counts
use bax_os_dev.Base.{
  ℕ, zero, suc, ◌+◌, ◌-◌, ◌*◌, ◌%◌, ◌^◌, Bool, true, false, not, ◌&&◌, ◌||◌, Option, none, some,
  List, [], ◌∷◌, ◌++◌, length, take, drop, get_or, set, ltb, leb, ◌==◌, if◌then◌else◌, bit_and,
}
use bax_os_dev.Pty.{
  Pty, Termios, WinSize, queue_bytes, icanon, lflag_has, cc_of, output, input_all, line_done,
  signal_pgrp,
}

-- PTYS
abbrev pub max_ptys : ℕ
max_ptys = 8

-- What a descriptor of the module keeps: its terminal's number, from one, and its offset's flags.
pub record Handle : Type 0 where
  pub folder : ℕ
  pub slave_end : Bool
  pub nonblock : Bool

-- `ptys`
abbrev pub Table : Type 0
Table = List (Option Pty)

-- `pty_of`
unfoldable pub pty_of : Handle → Table → Option Pty
pty_of h ps =
    if leb 1 h.folder && leb h.folder max_ptys then get_or ps (h.folder - 1) none else none

-- An error of linux.h, by its number there.
abbrev pub eintr : ℕ
eintr = 4

abbrev pub eio : ℕ
eio = 5

abbrev pub eagain : ℕ
eagain = 11

-- What a call returns: the bytes that it read, a number, an error, or not yet.
pub data Reply : Type 0 where
  bytes : List ℕ → Reply
  number : ℕ → Reply
  err : ℕ → Reply
  waiting : Reply

-- `master_can_read`, `slave_can_read` and `slave_can_write`. VMIN is 6.
unfoldable pub master_can_read : Pty → Bool
master_can_read p = ltb 0 (length p.output_queue) || p.opened && p.slaves == 0

unfoldable pub slave_can_read : Pty → Bool
slave_can_read p =
    ltb 0 (length p.input_queue)
    || (p.eof || (p.masters == 0 || not (lflag_has p icanon) && cc_of p 6 == 0))

unfoldable pub slave_can_write : Pty → Bool
slave_can_write p = ltb (length p.output_queue) queue_bytes || p.masters == 0

-- What another program does while this one waits, or the signal that ends the wait.
pub data Turn : Type 0 where
  runs : (Pty → Pty) → Turn
  interrupted : Turn

-- How a wait ends: the test holds, an error, or the turns are used up.
pub data Wait : Type 0 where
  ready : List Turn → Pty → Wait
  fails : ℕ → Pty → Wait
  still : Pty → Wait

-- `wait_for`
unfoldable pub wait_for : Bool → (Pty → Bool) → List Turn → Pty → Wait
wait_for nonblock test [] p =
    if test p then ready [] p else if nonblock then fails eagain p else still p
wait_for nonblock test (interrupted ∷ ts) p =
    if test p
    then ready (interrupted ∷ ts) p
    else if nonblock
    then fails eagain p
    else fails eintr p
wait_for nonblock test (runs act ∷ ts) p =
    let next = wait_for nonblock test ts (act p) in
    if test p then ready (runs act ∷ ts) p else if nonblock then fails eagain p else next

-- The bytes of `take`, and what it leaves in the queue.
abbrev pub taken : ℕ → List ℕ → List ℕ
taken count q = take (if ltb (length q) count then length q else count) q

abbrev pub left : ℕ → List ℕ → List ℕ
left count q = drop (if ltb (length q) count then length q else count) q

-- `pty_read` at the master's end, once it need not wait.
unfoldable pub master_read : ℕ → Pty → Reply × Pty
master_read count p =
    if length p.output_queue == 0
    then (err eio, p)
    else (bytes (taken count p.output_queue), record p { output_queue = left count p.output_queue })

-- The loop that looks for the end of the first line.
unfoldable pub line_end : List ℕ → ℕ
line_end [] = 0
line_end (c ∷ cs) = if c == b'\n' then 0 else suc (line_end cs)

-- How many bytes a cooked terminal hands over.
unfoldable pub line_count : ℕ → List ℕ → ℕ
line_count count q =
    let end = line_end q in if ltb end (length q) && ltb (end + 1) count then end + 1 else count

-- `pty_read` at the slave's end, once it need not wait.
unfoldable pub slave_read : ℕ → Pty → Reply × Pty
slave_read count p =
    let n = if lflag_has p icanon then line_count count p.input_queue else count in
    if length p.input_queue == 0
    then (bytes [], record p { eof = false })
    else (bytes (taken n p.input_queue), record p { input_queue = left n p.input_queue })

-- `pty_read` of a terminal that is there.
unfoldable pub read : Handle → ℕ → List Turn → Pty → Reply × Pty
read h count ts p =
    elim (wait_for h.nonblock (if h.slave_end then slave_can_read else master_can_read) ts p) [
      | ready _ p' ↦ if h.slave_end then slave_read count p' else master_read count p'
      | fails e p' ↦ (err e, p')
      | still p' ↦ (waiting, p')
    ]

-- The loop of `pty_write` at the slave's end: `done` bytes are written.
unfoldable pub write_from : Bool → List ℕ → ℕ → List Turn → Pty → Reply × Pty
write_from nonblock [] done ts p = (number done, p)
write_from nonblock (c ∷ cs) done ts p =
    let ended = λ (e : ℕ) (p' : Pty).
      if ltb 0 done then number done else if p'.masters == 0 then err eio else err e in
    elim (if ltb queue_bytes (length p.output_queue + 2)
      then wait_for nonblock slave_can_write ts p
      else ready ts p) [
        | ready ts' p' ↦ elim (p'.masters == 0) [
          | true ↦ (ended eio p', p')
          | false ↦ write_from nonblock cs (done + 1) ts' (output c p')
        ]
        | fails e p' ↦ (ended e p', p')
        | still p' ↦ (waiting, p')
      ]

-- `pty_write` of a terminal that is there.
unfoldable pub write : Handle → List ℕ → List Turn → Pty → Reply × Pty
write h text ts p =
    if h.slave_end
    then write_from h.nonblock text 0 ts p
    else (number (length text), input_all text p)

-- NET_IN, NET_OUT, NET_ERR and NET_HUP of net.h, as one bit each.
pub record Ready : Type 0 where
  pub can_read : Bool
  pub can_write : Bool
  pub error : Bool
  pub hung_up : Bool

-- `pty_ready`
unfoldable pub pty_ready : Handle → Table → Ready
pty_ready h ps = elim (pty_of h ps) [
  | none ↦ record { can_read = false; can_write = false; error = true; hung_up = false }
  | some p ↦
      if h.slave_end
      then record {
        can_read = ltb 0 (length p.input_queue) || (p.eof || p.masters == 0);
        can_write = ltb (length p.output_queue) queue_bytes;
        error = false;
        hung_up = p.masters == 0;
      }
      else record {
        can_read = master_can_read p;
        can_write = true;
        error = false;
        hung_up = p.opened && p.slaves == 0;
      }
]

-- `pty_hold` of a terminal: one descriptor more.
unfoldable pub hold_one : Bool → Pty → Pty
hold_one slave_end p =
    if slave_end then record p { slaves = p.slaves + 1 } else record p { masters = p.masters + 1 }

-- `pty_hold`
unfoldable pub pty_hold : Handle → Table → Table
pty_hold h ps = elim (pty_of h ps) [
  | none ↦ ps
  | some p ↦ set ps (h.folder - 1) (some (hold_one h.slave_end p))
]

-- SIGHUP
abbrev pub sighup : ℕ
sighup = 1

-- `pty_drop` of a terminal: one descriptor less, and the hang-up with the last of the master's.
unfoldable pub drop_one : Bool → Pty → Pty
drop_one slave_end p =
    if slave_end
    then record p { slaves = p.slaves - 1 }
    else if p.masters == 0
    then p
    else if p.masters - 1 == 0
    then signal_pgrp sighup (record p { masters = 0 })
    else record p { masters = p.masters - 1 }

-- `pty_drop`: what nobody has open is freed. The signals sent are returned.
unfoldable pub pty_drop : Handle → Table → List (ℕ × ℕ) × Table
pty_drop h ps = elim (pty_of h ps) [
  | none ↦ ([], ps)
  | some p ↦
      let p' = drop_one h.slave_end p in
      (
        p'.signals,
        set ps (h.folder - 1) (if p'.masters == 0 && p'.slaves == 0 then none else some p'),
      )
]
