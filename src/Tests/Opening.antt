-- ===== src/Tests/Opening.antt =====
-- src/modules/ipc/pty.c: terminals that are opened, named and asked.
use bax_os_dev.Base.{
  ◌<◌, ◌≡◌, refl, arith, true, false, [], ◌∷◌, ◌++◌, none, some, replicate, set, ltb, if◌then◌else◌,
  ◌%◌, ◌^◌,
}
use bax_os_dev.Pty.{Pty, Termios}
use bax_os_dev.Terminals.{Handle, Table, number, max_ptys, pty_of}
use bax_os_dev.Opening.{
  Ids, pts, same_text, digits_from, number_of, free_number, new_pty, master_open, pty_open,
  slave_open, slave_given, opened_slave,
}
use bax_os_dev.Opening.Names.{number_of_lem}
use bax_os_dev.Opening.Lifetime.{Opens, master_open-Opens}
use bax_os_dev.Ioctl.{User, pty_ioctl}
use bax_os_dev.Ioctl.Kept.{TableKeeps, pty_ioctl-TableKeeps}

-- The second number is free.
abbrev table : Table
table = some new_pty ∷ none ∷ some new_pty ∷ none ∷ none ∷ none ∷ none ∷ none ∷ []

second_free : free_number table < max_ptys
unfolding free_number
second_free = omega arith

master_open-Opens_example : Opens true (number 5) table (master_open true (number 5) table)
master_open-Opens_example = master_open-Opens true (number 5) table refl

number_of_lem_example :
    number_of (pts ++ (b'1' ∷ b'2' ∷ []))
    ≡ (let v = 12 % 2 ^ 32 in if ltb v max_ptys then v else max_ptys)
number_of_lem_example = number_of_lem 1 (2 ∷ []) (omega arith)

-- A number past 2 ^ 32 is taken for a small one.
wraps :
    number_of (pts ++ (b'4' ∷ b'2' ∷ b'9' ∷ b'4' ∷ b'9' ∷ b'6' ∷ b'7' ∷ b'2' ∷ b'9' ∷ b'7' ∷ []))
    ≡ 1
unfolding number_of same_text digits_from
wraps = refl

-- The slave of a terminal that is unlocked, and its first session.
slave_opened :
    (pty_open true
      (number 6)
      (record { pgid = 3; sid = 2 })
      (pts ++ (b'2' ∷ []))
      (set table 2 (some (record new_pty { locked = false })))).1
    ≡ set table 2
        (some (record new_pty { locked = false; slaves = 1; opened = true; sid = 2; pgrp = 3 }))
unfolding pty_open same_text number_of digits_from slave_open slave_given opened_slave
slave_opened = refl

abbrev gathered : Pty
gathered = record new_pty { line = b'l' ∷ b's' ∷ [] }

abbrev one_pty : Table
one_pty = some gathered ∷ replicate 7 none

abbrev raw : Termios
raw = record new_pty.t { lflag = 0; ispeed = 9600; ospeed = 9600 }

abbrev user : User
user = record { in_range = λ n. true; termios = raw; size = new_pty.size; word = 0 }

abbrev nobody : Ids
nobody = record { pgid = 0; sid = 0 }

abbrev slave : Handle
slave = record { folder = 1; slave_end = true; nonblock = false }

pty_ioctl-TableKeeps_example :
    TableKeeps one_pty (pty_ioctl (number 5) nobody user slave 0x402C542B 0 one_pty).2
pty_ioctl-TableKeeps_example =
    pty_ioctl-TableKeeps (number 5) nobody user slave 0x402C542B 0 one_pty

slave_found : pty_of slave one_pty ≡ some gathered
unfolding pty_of
slave_found = refl
