-- ===== src/Tests/Terminal.antt =====
-- src/modules/ipc/pty.c: a fresh terminal, as `pty_open` makes it, and what is typed at it.
use bax_os_dev.Base.{
  ℕ, ◌≡◌, refl, List, [], ◌∷◌, ◌++◌, arith, true, false, none, some, replicate, length-replicate,
}
use bax_os_dev.Pty.{
  Pty, Termios, input_all, input, input_char, input_cooked, input_raw, interrupt, end_line,
  line_done, gather, echo, output, out_put, erase_one, erase_line, erase_word, erase_while,
  but_last, last_or, rub_out,
}
use bax_os_dev.Pty.Bounds.{IsBounded, input_all-IsBounded}
use bax_os_dev.Pty.Editing.{Echoes}
use bax_os_dev.Pty.Cooked.{IsNone, ArePlain, keys, input_all-line}
use bax_os_dev.Terminals.Woken.{read-input_all}
use bax_os_dev.Terminals.{
  read, runs, Handle, Table, bytes, number, interrupted, slave_can_read, wait_for, write, pty_drop,
}
use bax_os_dev.Terminals.Reading.{EndsRight, wait_for-EndsRight, write-loses_newline}
use bax_os_dev.Terminals.Counts.{IsOpen, Dropped, pty_drop-Dropped}

abbrev cooked : Termios
cooked = record {
  iflag = 0x500;
  oflag = 5;
  cflag = 0x4BF;
  lflag = 0x8A3B;
  discipline = 0;
  cc =
      3 ∷ 0x1C ∷ 0x7F ∷ 0x15 ∷ 4 ∷ 0 ∷ 1 ∷ 0 ∷ 0x11 ∷ 0x13 ∷ 0x1A ∷ 0 ∷ 0x12 ∷ 0x0F ∷ 0x17 ∷ 0x16
      ∷ 0 ∷ [];
  ispeed = 38400;
  ospeed = 38400;
}

abbrev fresh : Pty
fresh = record {
  masters = 1;
  slaves = 0;
  opened = false;
  locked = true;
  eof = false;
  pgrp = 7;
  sid = 7;
  t = cooked;
  size = record { rows = 24; cols = 80; xpixel = 0; ypixel = 0 };
  input_queue = [];
  output_queue = [];
  line = [];
  signals = [];
}

-- ICANON and ISIG off
abbrev raw : Pty
raw = record fresh { t = record cooked { lflag = 0x8A38 } }

typing : Unit {0}
unfolding input_all input input_char input_cooked input_raw interrupt end_line line_done gather echo
    output out_put erase_one erase_line erase_word erase_while but_last last_or rub_out
typing = tt

abbrev hi : List ℕ
hi = b'h' ∷ b'i' ∷ []

-- "hx", rubbed out, "i", Enter: "hi\n" is there to read.
rub_out_and_enter :
    (input_all (b'h' ∷ b'x' ∷ 0x7F ∷ b'i' ∷ b'\r' ∷ []) fresh).input_queue ≡ hi ++ (b'\n' ∷ [])
unfolding typing
rub_out_and_enter = refl

-- Ctrl-C is shown, and the foreground group gets its signal.
interrupted_line :
    let p = input_all (b'h' ∷ 3 ∷ []) fresh in
    (p.line ≡ []) × (p.signals ≡ (7, 2) ∷ []) × (p.output_queue ≡ b'h' ∷ b'^' ∷ b'C' ∷ [])
unfolding typing
interrupted_line = (refl, refl, refl)

fresh-IsBounded : IsBounded fresh
fresh-IsBounded = omega arith

input_all-IsBounded_example : IsBounded (input_all (b'h' ∷ 3 ∷ []) fresh)
input_all-IsBounded_example = input_all-IsBounded (b'h' ∷ 3 ∷ []) fresh fresh-IsBounded

newline-IsNone : IsNone b'\n' (keys fresh)
newline-IsNone = omega arith

hi-ArePlain : ArePlain fresh hi
hi-ArePlain = omega arith

input_all-line_example :
    Echoes
      (record fresh { input_queue = hi ++ (b'\n' ∷ []) })
      (input_all (hi ++ (b'\n' ∷ [])) fresh)
input_all-line_example =
    input_all-line hi fresh refl newline-IsNone hi-ArePlain refl (omega arith) (omega arith)

abbrev reader : Handle
reader = record { folder = 1; slave_end = true; nonblock = false }

asleep : slave_can_read fresh ≡ false
unfolding slave_can_read
asleep = refl

read-input_all_example :
    (read reader 100
      (runs (λ p. p) ∷ (runs (input_all (hi ++ (b'\n' ∷ []))) ∷ interrupted ∷ []))
      fresh).0
    ≡ bytes (hi ++ (b'\n' ∷ []))
read-input_all_example =
    read-input_all reader (runs (λ p. p) ∷ []) (interrupted ∷ []) hi 100 fresh refl refl asleep
      (refl, refl) newline-IsNone hi-ArePlain refl refl (omega arith) (omega arith)

abbrev typed_ahead : Pty
typed_ahead = record fresh { input_queue = hi ++ (b'\n' ∷ b'x' ∷ []) }

wait_for-EndsRight_example :
    EndsRight false slave_can_read (wait_for false slave_can_read (interrupted ∷ []) fresh)
wait_for-EndsRight_example = wait_for-EndsRight false slave_can_read (interrupted ∷ []) fresh

abbrev two_words : Pty
two_words = record fresh { line = b'l' ∷ b's' ∷ b' ' ∷ b'x' ∷ b'y' ∷ b' ' ∷ [] }

word_gone : (erase_word two_words).line ≡ b'l' ∷ b's' ∷ b' ' ∷ []
unfolding typing
word_gone = refl

-- One byte of the queue is left.
abbrev nearly_full : Pty
nearly_full = record fresh { output_queue = replicate 4095 b'x' }

write-loses_newline_example :
    write (record { folder = 1; slave_end = true; nonblock = true }) (b'\n' ∷ []) [] nearly_full
    ≡ (number 1, record nearly_full { output_queue = nearly_full.output_queue ++ (b'\r' ∷ []) })
write-loses_newline_example =
    write-loses_newline true [] nearly_full refl refl
      (omega (arith, length-replicate {A = ℕ} 4095 b'x')) (omega arith)

abbrev master : Handle
master = record { folder = 1; slave_end = false; nonblock = false }

abbrev table : Table
table = some fresh ∷ none ∷ none ∷ none ∷ none ∷ none ∷ none ∷ none ∷ []

master-IsOpen : IsOpen master fresh table
master-IsOpen = record {
  first = omega arith;
  last = omega arith;
  whole = refl;
  there = refl;
  held = omega arith;
}

pty_drop-Dropped_example : Dropped master fresh table (pty_drop master table)
pty_drop-Dropped_example = pty_drop-Dropped master fresh table master-IsOpen (omega arith)
