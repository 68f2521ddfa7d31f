-- ===== src/Pty.antt =====
-- src/modules/ipc/pty.c, one pseudo-terminal and its line discipline.
pub mod Bounds
pub mod Editing
pub mod Cooked
use bax_os_dev.Base.{
  ℕ, zero, suc, ◌+◌, ◌-◌, ◌*◌, ◌%◌, ◌^◌, Bool, true, false, not, ◌&&◌, ◌||◌, Option, none, some,
  List, [], ◌∷◌, ◌++◌, length, take, drop, get_or, ltb, leb, ◌==◌, if◌then◌else◌, bit_and,
}

-- QUEUE and LINE
abbrev pub queue_bytes : ℕ
queue_bytes = 4096

abbrev pub line_bytes : ℕ
line_bytes = 256

-- The flags of `struct termios` that the line discipline reads.
abbrev pub icrnl : ℕ
icrnl = 0x100

abbrev pub opost : ℕ
opost = 0x1

abbrev pub onlcr : ℕ
onlcr = 0x4

abbrev pub isig : ℕ
isig = 0x1

abbrev pub icanon : ℕ
icanon = 0x2

abbrev pub echo_flag : ℕ
echo_flag = 0x8

abbrev pub echoe : ℕ
echoe = 0x10

abbrev pub echoctl : ℕ
echoctl = 0x200

-- `struct termios`: a character of `cc` is a byte, and a byte past the end is never read.
pub record Termios : Type 0 where
  pub iflag : ℕ
  pub oflag : ℕ
  pub cflag : ℕ
  pub lflag : ℕ
  pub discipline : ℕ
  pub cc : List ℕ
  pub ispeed : ℕ
  pub ospeed : ℕ

pub record WinSize : Type 0 where
  pub rows : ℕ
  pub cols : ℕ
  pub xpixel : ℕ
  pub ypixel : ℕ

-- `struct pty`. Each queue is its bytes in use, and its `_len` is their number. A character is a
-- byte. `signals` is what `signal_pgrp` was called with, the latest first.
pub record Pty : Type 0 where
  pub masters : ℕ
  pub slaves : ℕ
  pub opened : Bool
  pub locked : Bool
  pub eof : Bool
  pub pgrp : ℕ
  pub sid : ℕ
  pub t : Termios
  pub size : WinSize
  pub input_queue : List ℕ
  pub output_queue : List ℕ
  pub line : List ℕ
  pub signals : List (ℕ × ℕ)

-- '\b'
abbrev pub backspace : ℕ
backspace = 8

-- `(flags & mask) != 0`
abbrev pub has : ℕ → ℕ → Bool
has flags mask = not (bit_and flags mask == 0)

abbrev pub lflag_has : Pty → ℕ → Bool
lflag_has p mask = has p.t.lflag mask

-- `p->t.cc[i]`
abbrev pub cc_of : Pty → ℕ → ℕ
cc_of p i = get_or p.t.cc i 0

-- `out_put`
unfoldable pub out_put : ℕ → Pty → Pty
out_put c p =
    if ltb (length p.output_queue) queue_bytes
    then record p { output_queue = p.output_queue ++ (c ∷ []) }
    else p

-- `output`: a newline gets a carriage return before it.
unfoldable pub output : ℕ → Pty → Pty
output c p =
    out_put c
      (if has p.t.oflag opost && has p.t.oflag onlcr && c == b'\n' then out_put b'\r' p else p)

-- `echo`
unfoldable pub echo : ℕ → Pty → Pty
echo c p =
    if not (lflag_has p echo_flag)
    then p
    else if lflag_has p echoctl && ltb c 0x20 && not (c == b'\n') && not (c == b'\t')
    then output ((c + b'@') % 256) (output b'^' p)
    else output c p

-- `line_len--`
unfoldable pub but_last : List ℕ → List ℕ
but_last [] = []
but_last (x ∷ []) = []
but_last (x ∷ y ∷ xs) = x ∷ but_last (y ∷ xs)

-- `line[line_len - 1]`
unfoldable pub last_or : List ℕ → ℕ → ℕ
last_or [] d = d
last_or (x ∷ []) d = x
last_or (x ∷ y ∷ xs) d = last_or (y ∷ xs) d

-- What `erase_one` shows of an erased character.
unfoldable pub rub_out : Pty → Pty
rub_out p =
    if lflag_has p echo_flag && lflag_has p echoe
    then output backspace (output b' ' (output backspace p))
    else p

-- `erase_one`
unfoldable pub erase_one : Pty → Pty
erase_one p = if length p.line == 0 then p else rub_out (record p { line = but_last p.line })

-- The loops that erase while the last character passes a test; the fuel is the line's length.
unfoldable pub erase_while : (ℕ → Bool) → ℕ → Pty → Pty
erase_while test zero p = p
erase_while test (suc fuel) p =
    let rest = erase_while test fuel (erase_one p) in
    if ltb 0 (length p.line) && test (last_or p.line 0) then rest else p

abbrev pub is_any : ℕ → Bool
is_any c = true

abbrev pub is_space : ℕ → Bool
is_space c = c == b' '

abbrev pub is_graph : ℕ → Bool
is_graph c = not (c == b' ')

-- VKILL: the whole line.
unfoldable pub erase_line : Pty → Pty
erase_line p = erase_while is_any (length p.line) p

-- VWERASE: the spaces at the end, then the word before them.
unfoldable pub erase_word : Pty → Pty
erase_word p =
    let p' = erase_while is_space (length p.line) p in erase_while is_graph (length p'.line) p'

-- `line_done`: what fits of the line is there to read.
unfoldable pub line_done : Pty → Pty
line_done p =
    let room = queue_bytes - length p.input_queue in
    let n = if ltb (length p.line) room then length p.line else room in
    record p { input_queue = p.input_queue ++ take n p.line; line = [] }

-- `signal_pgrp`, as the terminal calls it.
abbrev pub signal_pgrp : ℕ → Pty → Pty
signal_pgrp sig p = record p { signals = (p.pgrp, sig) ∷ p.signals }

abbrev pub sigint : ℕ
sigint = 2

abbrev pub sigquit : ℕ
sigquit = 3

-- `input` on Ctrl-C and Ctrl-\.
unfoldable pub interrupt : ℕ → Pty → Pty
interrupt c p =
    signal_pgrp (if c == cc_of p 0 then sigint else sigquit)
      (record (echo c p) { line = []; input_queue = [] })

-- `input` where ICANON is off.
unfoldable pub input_raw : ℕ → Pty → Pty
input_raw c p = echo c (
    if ltb (length p.input_queue) queue_bytes
    then record p { input_queue = p.input_queue ++ (c ∷ []) }
    else p)

-- The end of a line goes onto it while there is a byte left.
unfoldable pub end_line : ℕ → Pty → Pty
end_line c p =
    line_done (
      echo c (if ltb (length p.line) line_bytes then record p { line = p.line ++ (c ∷ []) } else p))

-- A character of a line.
unfoldable pub gather : ℕ → Pty → Pty
gather c p =
    if ltb (length p.line) (line_bytes - 1)
    then echo c (record p { line = p.line ++ (c ∷ []) })
    else p

-- `input` where ICANON is on. VERASE, VKILL, VEOF, VEOL and VWERASE are 2, 3, 4, 11 and 14.
unfoldable pub input_cooked : ℕ → Pty → Pty
input_cooked c p =
    if c == cc_of p 2 || c == backspace
    then erase_one p
    else if c == cc_of p 3
    then erase_line p
    else if c == cc_of p 14
    then erase_word p
    else if c == cc_of p 4 && not (cc_of p 4 == 0)
    then line_done (record p { eof = length p.line == 0 })
    else if c == b'\n' || not (cc_of p 11 == 0) && c == cc_of p 11
    then end_line c p
    else gather c p

-- `input` once a carriage return has been made a newline.
unfoldable pub input_char : ℕ → Pty → Pty
input_char c p =
    if lflag_has p isig && (c == cc_of p 0 || c == cc_of p 1)
    then interrupt c p
    else if lflag_has p icanon
    then input_cooked c p
    else input_raw c p

-- `input`
unfoldable pub input : ℕ → Pty → Pty
input c p = input_char (if c == b'\r' && has p.t.iflag icrnl then b'\n' else c) p

-- The loop of `pty_write` at the master's end.
unfoldable pub input_all : List ℕ → Pty → Pty
input_all [] p = p
input_all (c ∷ cs) p = input_all cs (input c p)
