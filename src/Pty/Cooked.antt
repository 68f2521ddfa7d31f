-- ===== src/Pty/Cooked.antt =====
-- Lines gathered by src/modules/ipc/pty.c: what is typed reaches the slave a line at a time.
use bax_os_dev.Base.{
  ℕ, ◌+◌, ◌-◌, ◌≤◌, ◌<◌, ◌≡◌, refl, List, [], ◌∷◌, ◌++◌, arith, length, length-append, take, true,
  false, if◌then◌else◌, ◌&&◌, ◌==◌, ap, append-nil, append_assoc, ◌≢◌, ◌⊎◌,
}
use bax_os_dev.Pty.{
  Pty, queue_bytes, line_bytes, echo, icanon, isig, lflag_has, icrnl, has, cc_of, line_done,
  end_line, gather, input_cooked, input_char, input, input_all, backspace, interrupt, sigint,
  sigquit, input_raw,
}
use bax_os_dev.Pty.Editing.{Echoes, echo-Echoes}

-- The characters that mean something to the line discipline, but for the end of a line.
abbrev pub keys : Pty → List ℕ
keys p = cc_of p 0 ∷ cc_of p 1 ∷ cc_of p 2 ∷ backspace ∷ cc_of p 3 ∷ cc_of p 14 ∷ cc_of p 4 ∷ []

abbrev pub IsNone : ℕ → List ℕ → Type 0
IsNone c [] = Unit {0}
IsNone c (k ∷ ks) = (c ≢ k) × IsNone c ks

-- An ordinary character: none of the keys, and none that ends a line.
abbrev pub IsPlain : Pty → ℕ → Type 0
IsPlain p c = IsNone c (cc_of p 11 ∷ b'\n' ∷ b'\r' ∷ keys p)

abbrev pub ArePlain : Pty → List ℕ → Type 0
ArePlain p [] = Unit {0}
ArePlain p (c ∷ cs) = IsPlain p c × ArePlain p cs

gather_lem :
    (c : ℕ) (p : Pty)
    → length p.line < line_bytes - 1
    → Echoes (record p { line = p.line ++ (c ∷ []) }) (gather c p)
unfolding gather
gather_lem c p h = ground (arith, echo-Echoes c (record p { line = p.line ++ (c ∷ []) }))

-- A plain character goes onto the line.
input-plain : (c : ℕ) (p : Pty) → lflag_has p icanon ≡ true → IsPlain p c → input c p ≡ gather c p
unfolding input input_char input_cooked
input-plain c p cooked h = ground arith

ArePlain-of : (cs : List ℕ) (p q : Pty) → q.t ≡ p.t → ArePlain p cs → ArePlain q cs
ArePlain-of [] p q e h = tt
ArePlain-of (c ∷ cs) p q e h = (rw e h.0, ArePlain-of cs p q e h.1)

-- Plain characters typed at a cooked terminal are gathered on its line, in order, while they fit.
pub input_all-plain :
    (cs : List ℕ) (p : Pty)
    → lflag_has p icanon ≡ true
    → ArePlain p cs
    → length p.line + length cs < line_bytes
    → Echoes (record p { line = p.line ++ cs }) (input_all cs p)
unfolding input_all
input_all-plain [] p cooked h fits = ground (arith, append-nil p.line)
input_all-plain (c ∷ cs) p cooked h fits =
    let e = gather_lem c p (omega arith) in
    let p' = gather c p in
    ground (
      arith,
      input-plain c p cooked h.0,
      e,
      length-append p.line (c ∷ []),
      append_assoc p.line (c ∷ []) cs,
      ArePlain-of cs p p' e.same_termios h.1,
      input_all-plain cs p',
    )

take_all {ℓ} : {A : Type ℓ} (l : List A) → take (length l) l ≡ l
take_all [] = refl
take_all (x ∷ l) = ap (λ r. x ∷ r) (take_all l)

-- `line_done`, where the line fits behind what is there to read already.
line_done_fits :
    (p : Pty)
    → length p.input_queue + length p.line ≤ queue_bytes
    → line_done p ≡ record p { input_queue = p.input_queue ++ p.line; line = [] }
unfolding line_done
line_done_fits p h = ground (arith, take_all p.line, full)
  where
    full :
        length p.line ≡ queue_bytes - length p.input_queue
        → take (queue_bytes - length p.input_queue) p.line ≡ p.line
    full e = rw (← e) (take_all p.line)

input-newline :
    (p : Pty) → lflag_has p icanon ≡ true → IsNone b'\n' (keys p) → input b'\n' p ≡ end_line b'\n' p
unfolding input input_char input_cooked
input-newline p cooked h = ground arith

end_line_lem :
    (c : ℕ) (p : Pty)
    → length p.line < line_bytes
    → length p.input_queue + length p.line < queue_bytes
    → Echoes
        (record p { input_queue = p.input_queue ++ (p.line ++ (c ∷ [])); line = [] })
        (end_line c p)
unfolding end_line
end_line_lem c p short fits =
    let longer = record p { line = p.line ++ (c ∷ []) } in
    ground
      (arith, echo-Echoes c longer, length-append p.line (c ∷ []), line_done_fits (echo c longer))

input_all-append :
    (cs ds : List ℕ) (p : Pty) → input_all (cs ++ ds) p ≡ input_all ds (input_all cs p)
unfolding input_all
input_all-append [] ds p = refl
input_all-append (c ∷ cs) ds p = input_all-append cs ds (input c p)

keys_of : (p q : Pty) → q.t ≡ p.t → IsNone b'\n' (keys p) → IsNone b'\n' (keys q)
keys_of p q e h = rw e h

-- At a cooked terminal with nothing gathered, where no key is the newline, a line of fewer than
-- 256 plain characters and its newline, typed with room for it in the queue, is put behind what
-- was there to read, and the line is empty again; termios, signals, the end of file and the group
-- are as they were.
pub input_all-line :
    (cs : List ℕ) (p : Pty)
    → lflag_has p icanon ≡ true
    → IsNone b'\n' (keys p)
    → ArePlain p cs
    → p.line ≡ []
    → length cs < line_bytes
    → length p.input_queue + length cs < queue_bytes
    → Echoes
        (record p { input_queue = p.input_queue ++ (cs ++ (b'\n' ∷ [])); line = [] })
        (input_all (cs ++ (b'\n' ∷ [])) p)
unfolding input_all
input_all-line cs p cooked newline plain empty short fits =
    let none : length p.line ≡ 0 = ap length empty in
    let e = input_all-plain cs p cooked plain (omega arith) in
    let p' = input_all cs p in
    let gathered : p'.line ≡ cs = ground (arith, e, empty) in
    ground (
      arith,
      input_all-append cs (b'\n' ∷ []) p,
      e,
      gathered,
      ap length gathered,
      keys_of p p' e.same_termios newline,
      input-newline p',
      end_line_lem b'\n' p',
    )

-- Where ISIG is on, the interrupt key and the quit key, unless they are the carriage return, empty
-- the line and the queue of what was typed and send SIGINT or SIGQUIT to the foreground group;
-- termios, the end of file and the group are as they were.
pub input-signal :
    (c : ℕ) (p : Pty)
    → c ≢ b'\r'
    → lflag_has p isig ≡ true
    → (c ≡ cc_of p 0) ⊎ (c ≡ cc_of p 1)
    → Echoes
        (record p {
          line = [];
          input_queue = [];
          signals = (p.pgrp, if c == cc_of p 0 then sigint else sigquit) ∷ p.signals;
        })
        (input c p)
unfolding input input_char interrupt
input-signal c p cr sig key = ground (arith, echo-Echoes c p)

-- At a raw terminal every character is there to read at once, in order, while the queue has room:
-- only a carriage return is changed, where the terminal says so.
abbrev pub typed : Pty → ℕ → ℕ
typed p c = if c == b'\r' && has p.t.iflag icrnl then b'\n' else c

abbrev pub all_typed : Pty → List ℕ → List ℕ
all_typed p [] = []
all_typed p (c ∷ cs) = typed p c ∷ all_typed p cs

all_typed_of : (cs : List ℕ) (p q : Pty) → q.t ≡ p.t → all_typed q cs ≡ all_typed p cs
all_typed_of [] p q e = refl
all_typed_of (c ∷ cs) p q e = rw (e, all_typed_of cs p q e)

input-raw :
    (c : ℕ) (p : Pty)
    → lflag_has p icanon ≡ false
    → lflag_has p isig ≡ false
    → length p.input_queue < queue_bytes
    → Echoes (record p { input_queue = p.input_queue ++ (typed p c ∷ []) }) (input c p)
unfolding input input_char input_raw
input-raw c p raw quiet fits =
    ground (
      arith,
      echo-Echoes (typed p c) (record p { input_queue = p.input_queue ++ (typed p c ∷ []) }),
    )

-- At a terminal with ICANON and ISIG off, bytes typed with room for them in the queue are put
-- there in order, a carriage return as a newline where ICRNL is on; the line, termios, signals,
-- the end of file and the group are as they were.
pub input_all-raw :
    (cs : List ℕ) (p : Pty)
    → lflag_has p icanon ≡ false
    → lflag_has p isig ≡ false
    → length p.input_queue + length cs ≤ queue_bytes
    → Echoes (record p { input_queue = p.input_queue ++ all_typed p cs }) (input_all cs p)
unfolding input_all
input_all-raw [] p raw quiet fits = ground (arith, append-nil p.input_queue)
input_all-raw (c ∷ cs) p raw quiet fits =
    let e = input-raw c p raw quiet (omega arith) in
    let p' = input c p in
    ground (
      arith,
      e,
      length-append p.input_queue (typed p c ∷ []),
      append_assoc p.input_queue (typed p c ∷ []) (all_typed p cs),
      all_typed_of cs p p' e.same_termios,
      input_all-raw cs p',
    )
