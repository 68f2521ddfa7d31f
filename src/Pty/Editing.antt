-- ===== src/Pty/Editing.antt =====
-- Line editing of src/modules/ipc/pty.c: what echo leaves alone, and what the erasing keys remove.
use bax_os_dev.Base.{
  ℕ, zero, suc, ◌≤◌, ◌<◌, ◌≡◌, refl, List, [], ◌∷◌, ◌++◌, arith, length, Bool, true, false,
  Bool-cases, inl, inr, ltb, if◌then◌else◌, ◌&&◌, ap, ◌∙◌, sym, ◌⊎◌, append-nil, append_assoc,
  ltb→lt,
}
use bax_os_dev.Pty.Bounds.{length-but_last}
use bax_os_dev.Pty.{
  Pty, out_put, output, echo, but_last, last_or, rub_out, erase_one, erase_while, erase_line,
  erase_word, is_any, is_space, is_graph,
}

-- What the echo of a key may change: what the master reads, and nothing else.
pub record Echoes (p after : Pty) : Type 0 where
  pub same_line : after.line ≡ p.line
  pub same_input : after.input_queue ≡ p.input_queue
  pub same_termios : after.t ≡ p.t
  pub same_signals : after.signals ≡ p.signals
  pub same_eof : after.eof ≡ p.eof
  pub same_pgrp : after.pgrp ≡ p.pgrp

out_put-Echoes : (c : ℕ) (p : Pty) → Echoes p (out_put c p)
unfolding out_put
out_put-Echoes c p = ground arith

output-Echoes : (c : ℕ) (p : Pty) → Echoes p (output c p)
unfolding output
output-Echoes c p =
    ground (arith, out_put-Echoes c p, out_put-Echoes b'\r' p, out_put-Echoes c (out_put b'\r' p))

pub echo-Echoes : (c : ℕ) (p : Pty) → Echoes p (echo c p)
unfolding echo
echo-Echoes c p = grind (arith, output-Echoes)

rub_out-Echoes : (p : Pty) → Echoes p (rub_out p)
unfolding rub_out
rub_out-Echoes p = grind (arith, output-Echoes)

but_last_of_empty : (l : List ℕ) → length l ≡ 0 → but_last l ≡ l
unfolding but_last
but_last_of_empty [] h = refl
but_last_of_empty (x ∷ l) h = absurd (omega arith)

-- `erase_one` takes the last character off the line, and all else that it does is echo.
pub erase_one-Echoes : (p : Pty) → Echoes (record p { line = but_last p.line }) (erase_one p)
unfolding erase_one
erase_one-Echoes p =
    ground (arith, but_last_of_empty p.line, rub_out-Echoes (record p { line = but_last p.line }))

-- Erasing on a line by itself.
unfoldable pub erase_list : (ℕ → Bool) → ℕ → List ℕ → List ℕ
erase_list test zero l = l
erase_list test (suc fuel) l =
    let rest = erase_list test fuel (but_last l) in
    if ltb 0 (length l) && test (last_or l 0) then rest else l

erase_while-Echoes :
    (test : ℕ → Bool) (fuel : ℕ) (p : Pty)
    → Echoes (record p { line = erase_list test fuel p.line }) (erase_while test fuel p)
unfolding erase_while erase_list
erase_while-Echoes test zero p = ground arith
erase_while-Echoes test (suc fuel) p =
    ground (arith, erase_while-Echoes test fuel (erase_one p), erase_one-Echoes p)

-- Every character passes a test.
abbrev pub All : (ℕ → Bool) → List ℕ → Type 0
All test [] = Unit {0}
All test (c ∷ cs) = (test c ≡ true) × All test cs

All-append : (test : ℕ → Bool) (a b : List ℕ) → All test a → All test b → All test (a ++ b)
All-append test [] b p q = q
All-append test (x ∷ a) b p q = (p.0, All-append test a b p.1 q)

but_last-append : (l : List ℕ) → 0 < length l → l ≡ but_last l ++ (last_or l 0 ∷ [])
unfolding but_last last_or
but_last-append [] h = absurd (omega arith)
but_last-append (x ∷ []) h = refl
but_last-append (x ∷ y ∷ xs) h = ap (λ r. x ∷ r) (but_last-append (y ∷ xs) (omega arith))

-- What a loop that erases leaves of a line: the line less its longest end that passes the test.
pub record Erased (test : ℕ → Bool) (before after : List ℕ) : Type 0 where
  pub gone : List ℕ
  pub splits : before ≡ after ++ gone
  pub all_pass : All test gone
  pub stops : (after ≡ []) ⊎ (test (last_or after 0) ≡ false)

nothing_Erased :
    (test : ℕ → Bool) (l : List ℕ) → (l ≡ []) ⊎ (test (last_or l 0) ≡ false) → Erased test l l
nothing_Erased test l h = record {
  gone = [];
  splits = sym (append-nil l);
  all_pass = tt;
  stops = h;
}

one_more_Erased :
    (test : ℕ → Bool) (l after : List ℕ)
    → 0 < length l
    → test (last_or l 0) ≡ true
    → Erased test (but_last l) after
    → Erased test l after
one_more_Erased test l after h t e = record {
  gone = e.gone ++ (last_or l 0 ∷ []);
  splits =
      but_last-append l h
      ∙ ap (λ r. r ++ (last_or l 0 ∷ [])) e.splits
      ∙ append_assoc after e.gone (last_or l 0 ∷ []);
  all_pass = All-append test e.gone (last_or l 0 ∷ []) e.all_pass (t, tt);
  stops = e.stops;
}

empty_of_length : (l : List ℕ) → length l ≡ 0 → l ≡ []
empty_of_length [] h = refl
empty_of_length (x ∷ l) h = absurd (omega arith)

pub erase_list-Erased :
    (test : ℕ → Bool) (fuel : ℕ) (l : List ℕ)
    → length l ≤ fuel
    → Erased test l (erase_list test fuel l)
unfolding erase_list
erase_list-Erased test zero l h = nothing_Erased test l (inl (empty_of_length l (omega arith)))
erase_list-Erased test (suc fuel) l h = elim (Bool-cases (ltb 0 (length l))) [
  | inr e ↦ rw (e, ◌&&◌) (nothing_Erased test l (inl (empty_of_length l (ground (arith, e)))))
  | inl e ↦ elim (Bool-cases (test (last_or l 0))) [
    | inr f ↦ rw (e, ◌&&◌, f) (nothing_Erased test l (inr f))
    | inl f ↦
        rw (e, ◌&&◌, f)
          (one_more_Erased test l (erase_list test fuel (but_last l)) (ltb→lt 0 _ e) f
            (erase_list-Erased test fuel (but_last l) (omega (arith, length-but_last l))))
  ]
]

erase_list-any : (fuel : ℕ) (l : List ℕ) → length l ≤ fuel → erase_list is_any fuel l ≡ []
erase_list-any fuel l h = ground (arith, (erase_list-Erased is_any fuel l h).stops)

-- The kill key leaves the line empty; what is there to read, termios, signals, the end of file and
-- the group are as they were.
pub erase_line_lem : (p : Pty) → Echoes (record p { line = [] }) (erase_line p)
unfolding erase_line
erase_line_lem p =
    ground
      (arith, erase_while-Echoes is_any (length p.line) p, erase_list-any (length p.line) p.line)

-- The word-erase key takes the spaces that the line ends in, and then what is left up to the last
-- space before.
pub record WordErased (before after : List ℕ) : Type 0 where
  pub word : List ℕ
  pub spaces : List ℕ
  pub splits : before ≡ after ++ (word ++ spaces)
  pub is_word : All is_graph word
  pub are_spaces : All is_space spaces
  pub stops : (after ≡ []) ⊎ (last_or after 0 ≡ b' ')

-- The word-erase key takes off the line the spaces that it ends in and the characters before them
-- that are no spaces, and what is left is empty or ends in a space; what is there to read,
-- termios, signals, the end of file and the group are as they were.
pub erase_word-WordErased :
    (p : Pty)
    → WordErased p.line (erase_word p).line
      × Echoes (record p { line = (erase_word p).line }) (erase_word p)
unfolding erase_word
erase_word-WordErased p =
    let first = erase_while is_space (length p.line) p in
    let e1 = erase_while-Echoes is_space (length p.line) p in
    let e2 = erase_while-Echoes is_graph (length first.line) first in
    let s1 = erase_list-Erased is_space (length p.line) p.line (omega arith) in
    let s2 = erase_list-Erased is_graph (length first.line) first.line (omega arith) in
    let two = erase_list is_graph (length first.line) first.line in
    (
      record {
        word = s2.gone;
        spaces = s1.gone;
        splits =
            s1.splits
            ∙ ap (λ l. l ++ s1.gone) (sym e1.same_line ∙ s2.splits)
            ∙ append_assoc two s2.gone s1.gone
            ∙ ap (λ l. l ++ (s2.gone ++ s1.gone)) (sym e2.same_line);
        is_word = s2.all_pass;
        are_spaces = s1.all_pass;
        stops = ground (arith, e2.same_line, s2.stops);
      },
      ground (arith, e1, e2),
    )
