-- ===== src/Opening.antt =====
-- src/modules/ipc/pty.c: the names of terminals, and opening them. `process_ids` and `give_handle` are
-- the kernel's: what they return is an argument.
pub mod Names
pub mod Lifetime
use bax_os_dev.Base.{
  ℕ, zero, suc, ◌+◌, ◌-◌, ◌*◌, ◌%◌, ◌^◌, Bool, true, false, not, ◌&&◌, ◌||◌, Option, none, some,
  List, [], ◌∷◌, ◌++◌, length, take, drop, get_or, set, ltb, leb, ◌==◌, if◌then◌else◌,
}
use bax_os_dev.Pty.{Pty, Termios, WinSize}
use bax_os_dev.Terminals.{Handle, Table, Reply, number, bytes, waiting, err, eio, max_ptys}

-- Errors of linux.h.
abbrev pub enoent : ℕ
enoent = 2

abbrev pub enospc : ℕ
enospc = 28

-- `strcmp(a, b) == 0`, and `memcmp` of the four bytes of "pts/", on the bytes before the NUL.
unfoldable pub same_text : List ℕ → List ℕ → Bool
same_text [] [] = true
same_text [] (y ∷ ys) = false
same_text (x ∷ xs) [] = false
same_text (x ∷ xs) (y ∷ ys) = x == y && same_text xs ys

abbrev pub pts : List ℕ
pts = b'p' ∷ b't' ∷ b's' ∷ b'/' ∷ []

abbrev pub ptmx : List ℕ
ptmx = b'p' ∷ b't' ∷ b'm' ∷ b'x' ∷ []

-- The loop of `number`, and the test behind it. `n` is an unsigned.
unfoldable pub digits_from : ℕ → List ℕ → ℕ
digits_from n [] = if ltb n max_ptys then n else max_ptys
digits_from n (c ∷ cs) =
    let rest = digits_from ((n * 10 + (c - b'0')) % 2 ^ 32) cs in
    if leb b'0' c && leb c b'9' then rest else max_ptys

-- `number`: the N of "pts/N", or PTYS.
unfoldable pub number_of : List ℕ → ℕ
number_of name =
    if not (same_text (take 4 name) pts) || length name == 4
    then max_ptys
    else digits_from 0 (drop 4 name)

-- What `process_ids` gives: the group and the session of the process.
pub record Ids : Type 0 where
  pub pgid : ℕ
  pub sid : ℕ

-- A slave that was opened: the first to open it has it as its terminal.
unfoldable pub opened_slave : Ids → Pty → Pty
opened_slave ids p =
    let q = record p { slaves = p.slaves + 1; opened = true } in
    if p.sid == 0 then record q { sid = ids.sid; pgrp = ids.pgid } else q

-- The end of `slave_open`, by what `give_handle` returns.
unfoldable pub slave_given : Reply → Ids → ℕ → Pty → Table → Reply × Table
slave_given (number fd) ids n p ps = (number fd, set ps n (some (opened_slave ids p)))
slave_given (err e) ids n p ps = (err e, ps)
slave_given (bytes bs) ids n p ps = (bytes bs, ps)
slave_given waiting ids n p ps = (waiting, ps)

-- `slave_open`
unfoldable pub slave_open : Reply → Ids → ℕ → Table → Reply × Table
slave_open given ids n ps = elim (if ltb n max_ptys then get_or ps n none else none) [
  | none ↦ (err enoent, ps)
  | some p ↦ if p.locked then (err eio, ps) else slave_given given ids n p ps
]

-- The first number that is free, or PTYS.
unfoldable pub free_number : Table → ℕ
free_number [] = 0
free_number (none ∷ ps) = 0
free_number (some p ∷ ps) = suc (free_number ps)

-- A terminal as `pty_open` makes it: ICRNL and IXON; OPOST and ONLCR; ISIG, ICANON, ECHO, ECHOE, ECHOK,
-- ECHOCTL, ECHOKE and IEXTEN.
abbrev pub new_pty : Pty
new_pty = record {
  masters = 1;
  slaves = 0;
  opened = false;
  locked = true;
  eof = false;
  pgrp = 0;
  sid = 0;
  t = record {
    iflag = 0x500;
    oflag = 5;
    cflag = 0x4BF;
    lflag = 0x8A3B;
    discipline = 0;
    cc =
        3 ∷ 0x1C ∷ 0x7F ∷ 0x15 ∷ 4 ∷ 0 ∷ 1 ∷ 0 ∷ 0x11 ∷ 0x13 ∷ 0x1A ∷ 0 ∷ 0x12 ∷ 0x0F ∷ 0x17 ∷ 0x16
        ∷ 0 ∷ [];
    ispeed = 38400;
    ospeed = 38400;
  };
  size = record { rows = 24; cols = 80; xpixel = 0; ypixel = 0 };
  input_queue = [];
  output_queue = [];
  line = [];
  signals = [];
}

-- The end of `pty_open` of "ptmx": the new terminal goes again if there is no descriptor for it.
unfoldable pub master_given : Reply → ℕ → Table → Reply × Table
master_given (number fd) n ps = (number fd, ps)
master_given (err e) n ps = (err e, set ps n none)
master_given (bytes bs) n ps = (bytes bs, set ps n none)
master_given waiting n ps = (waiting, set ps n none)

-- `pty_open` of "ptmx", `got` being whether `mem_alloc` found the memory.
unfoldable pub master_open : Bool → Reply → Table → Reply × Table
master_open got given ps =
    let n = free_number ps in
    if n == max_ptys || not got
    then (err enospc, ps)
    else master_given given n (set ps n (some new_pty))

-- The descriptors that the two calls ask `give_handle` for.
abbrev pub master_handle : Bool → Table → Handle
master_handle nonblock ps = record {
  folder = free_number ps + 1;
  slave_end = false;
  nonblock = nonblock;
}

abbrev pub slave_handle : Bool → ℕ → Handle
slave_handle nonblock n = record { folder = n + 1; slave_end = true; nonblock = nonblock }

-- `pty_open`
unfoldable pub pty_open : Bool → Reply → Ids → List ℕ → Table → Reply × Table
pty_open got given ids name ps =
    if same_text name ptmx
    then master_open got given ps
    else slave_open given ids (number_of name) ps

-- `pty_named`: the mode and the device of a name.
unfoldable pub pty_named : List ℕ → Table → Option (ℕ × ℕ)
pty_named name ps =
    let n = number_of name in
    let slave : Option (ℕ × ℕ) = elim (if ltb n max_ptys then get_or ps n none else none) [
      | none ↦ none
      | some p ↦ some (0x2190, 0x8800 + n)
    ] in
    if same_text name ptmx then some (0x21B6, 0x0502) else slave

-- `pty_stat`
unfoldable pub pty_stat : Handle → ℕ × ℕ
pty_stat h = (0x2190, if h.slave_end then 0x8800 + (h.folder - 1) else 0x0502)

-- `module_exit`: false is EBUSY, a terminal that is still open.
unfoldable pub module_exit : Table → Bool
module_exit [] = true
module_exit (none ∷ ps) = module_exit ps
module_exit (some p ∷ ps) = false
