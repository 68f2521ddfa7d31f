-- ===== src/Ioctl.antt =====
-- src/modules/ipc/pty.c, `pty_ioctl`. The memory of the program is behind `user_range`, the kernel's:
-- what is read there is an argument, and what is written there is returned.
pub mod Kept
pub mod Raw
use bax_os_dev.Base.{
  ℕ, zero, suc, ◌+◌, ◌-◌, ◌*◌, ◌%◌, ◌^◌, Bool, true, false, not, ◌&&◌, ◌||◌, Option, none, some,
  List, [], ◌∷◌, length, get_or, set, ltb, leb, ◌==◌, if◌then◌else◌,
}
use bax_os_dev.Pty.{Pty, Termios, WinSize, icanon, lflag_has, line_done, signal_pgrp}
use bax_os_dev.Terminals.{Handle, Table, Reply, number, bytes, waiting, err, eio, pty_of}
use bax_os_dev.Opening.{Ids, slave_open}

-- Errors of linux.h.
abbrev pub efault : ℕ
efault = 14

abbrev pub enotty : ℕ
enotty = 25

-- SIGWINCH
abbrev pub sigwinch : ℕ
sigwinch = 28

-- The requests that are compared with more than once.
abbrev pub tcgets : ℕ
tcgets = 0x5401

abbrev pub tcgets2 : ℕ
tcgets2 = 0x802C542A

abbrev pub tcsetsf : ℕ
tcsetsf = 0x5404

abbrev pub tcsetsf2 : ℕ
tcsetsf2 = 0x402C542D

-- TCSETS, TCSETSW, TCSETSF, TCSETS2, TCSETSW2 and TCSETSF2.
abbrev pub is_set_request : ℕ → Bool
is_set_request request =
    request == 0x5402
    || (request == 0x5403
        || (request == tcsetsf
            || (request == 0x402C542B || (request == 0x402C542C || request == tcsetsf2))))

-- The memory at `arg`: whether so many bytes there are the program's, and what they are when read as
-- each of the things that a request takes.
pub record User : Type 0 where
  pub in_range : ℕ → Bool
  pub termios : Termios
  pub size : WinSize
  pub word : ℕ

-- What a request writes there: `struct termios`, its first 36 bytes, a size, or a number.
pub data Stored : Type 0 where
  nothing : Stored
  whole_termios : Termios → Stored
  front_of_termios : Termios → Stored
  window_size : WinSize → Stored
  word : ℕ → Stored

-- `put_int`
abbrev pub put_int : User → ℕ → Reply × Stored
put_int u value = if u.in_range 4 then (number 0, word value) else (err efault, nothing)

-- The first 36 bytes of `struct termios` are all of it but the speeds.
abbrev pub termios_set : ℕ → Termios → Termios → Termios
termios_set request new old =
    if ltb request tcgets2 then record new { ispeed = old.ispeed; ospeed = old.ospeed } else new

-- A terminal whose termios is set.
unfoldable pub set_termios : ℕ → Termios → Pty → Pty
set_termios request new p =
    let p1 = record p { t = termios_set request new p.t } in
    let p2 =
      if request == tcsetsf || request == tcsetsf2
      then record p1 { input_queue = []; line = [] }
      else p1 in
    if not (lflag_has p2 icanon) && ltb 0 (length p2.line) then line_done p2 else p2

-- The requests that only answer.
unfoldable pub answer : User → ℕ → Handle → Pty → Option (Reply × Stored)
answer u request h p =
    if request == tcgets
    then some (if u.in_range 36 then (number 0, front_of_termios p.t) else (err efault, nothing))
    else if request == tcgets2
    then some (if u.in_range 44 then (number 0, whole_termios p.t) else (err efault, nothing))
    else if request == 0x5413
    then some (if u.in_range 8 then (number 0, window_size p.size) else (err efault, nothing))
    else if request == 0x540F
    then some (put_int u p.pgrp)
    else if request == 0x5429
    then some (put_int u p.sid)
    else if request == 0x541B
    then some (put_int u (if h.slave_end then length p.input_queue else length p.output_queue))
    else if request == 0x5411
    then some (put_int u 0)
    else if request == 0x5409 || (request == 0x540A || request == 0x5422)
    then some (number 0, nothing)
    else if request == 0x80045430
    then some (if h.slave_end then (err enotty, nothing) else put_int u (h.folder - 1))
    else if request == 0x80045439
    then some (if h.slave_end then (err enotty, nothing) else put_int u (if p.locked then 1 else 0))
    else none

-- The requests that change the terminal, and those that are none.
unfoldable pub change : Ids → User → ℕ → ℕ → Handle → Pty → Reply × Pty
change ids u request arg h p =
    if is_set_request request
    then (if u.in_range (if ltb request tcgets2 then 36 else 44)
        then (number 0, set_termios request u.termios p)
        else (err efault, p))
    else if request == 0x5414
    then (if u.in_range 8
        then (number 0, signal_pgrp sigwinch (record p { size = u.size }))
        else (err efault, p))
    else if request == 0x540E
    then (number 0, record p { sid = ids.sid; pgrp = ids.pgid })
    else if request == 0x5410
    then (if u.in_range 4 then (number 0, record p { pgrp = u.word }) else (err efault, p))
    else if request == 0x540B
    then (number 0, if arg == 0 || arg == 2 then record p { input_queue = []; line = [] } else p)
    else if request == 0x40045431
    then (if h.slave_end
        then (err enotty, p)
        else if u.in_range 4
        then (number 0, record p { locked = not (u.word == 0) })
        else (err efault, p))
    else (err enotty, p)

-- A request to a terminal that is there. TIOCGPTPEER opens the slave.
unfoldable pub ioctl_of : Reply → Ids → User → Handle → ℕ → ℕ → Pty → Table → Reply × Stored × Table
ioctl_of given ids u h request arg p ps =
    let (opened, ps') = slave_open given ids (h.folder - 1) ps in
    let (done, p') = change ids u request arg h p in
    if request == 0x5441
    then (if h.slave_end then (err enotty, nothing, ps) else (opened, nothing, ps'))
    else elim (answer u request h p) [
      | some (reply, stored) ↦ (reply, stored, ps)
      | none ↦ (done, nothing, set ps (h.folder - 1) (some p'))
    ]

-- `pty_ioctl`
unfoldable pub pty_ioctl : Reply → Ids → User → Handle → ℕ → ℕ → Table → Reply × Stored × Table
pty_ioctl given ids u h request arg ps = elim (pty_of h ps) [
  | none ↦ (err eio, nothing, ps)
  | some p ↦ ioctl_of given ids u h request arg p ps
]
