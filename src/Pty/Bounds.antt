-- ===== src/Pty/Bounds.antt =====
-- The queues and the line of src/modules/ipc/pty.c never outgrow their arrays.
use bax_os_dev.Base.{
  ℕ, zero, suc, ◌-◌, ◌≤◌, ◌≡◌, List, [], ◌∷◌, ◌++◌, arith, length, length-append, length-take, take,
  Bool, Bool-cases, inl, inr, ltb, if◌then◌else◌, ◌&&◌, ◌==◌,
}
use bax_os_dev.Pty.{
  Pty, queue_bytes, line_bytes, out_put, output, echo, but_last, last_or, rub_out, erase_one,
  erase_while, erase_line, erase_word, line_done, interrupt, input_raw, end_line, gather,
  input_cooked, input_char, input, input_all, is_any, is_space, is_graph,
}

pub record IsBounded (p : Pty) : Type 0 where
  pub in_fits : length p.input_queue ≤ queue_bytes
  pub out_fits : length p.output_queue ≤ queue_bytes
  pub line_fits : length p.line ≤ line_bytes

out_put-IsBounded : (c : ℕ) (p : Pty) → IsBounded p → IsBounded (out_put c p)
unfolding out_put
out_put-IsBounded c p b = ground (arith, length-append p.output_queue (c ∷ []))

pub output-IsBounded : (c : ℕ) (p : Pty) → IsBounded p → IsBounded (output c p)
unfolding output
output-IsBounded c p b = grind (arith, out_put-IsBounded)

echo-IsBounded : (c : ℕ) (p : Pty) → IsBounded p → IsBounded (echo c p)
unfolding echo
echo-IsBounded c p b = grind (arith, output-IsBounded)

pub length-but_last : (l : List ℕ) → length (but_last l) ≡ length l - 1
unfolding but_last
length-but_last [] = omega arith
length-but_last (x ∷ []) = omega arith
length-but_last (x ∷ y ∷ xs) = omega (arith, length-but_last (y ∷ xs))

rub_out-IsBounded : (p : Pty) → IsBounded p → IsBounded (rub_out p)
unfolding rub_out
rub_out-IsBounded p b = grind (arith, output-IsBounded)

erase_one-IsBounded : (p : Pty) → IsBounded p → IsBounded (erase_one p)
unfolding erase_one
erase_one-IsBounded p b =
    ground (arith, rub_out-IsBounded (record p { line = but_last p.line }), length-but_last p.line)

erase_while-IsBounded :
    (test : ℕ → Bool) (fuel : ℕ) (p : Pty) → IsBounded p → IsBounded (erase_while test fuel p)
unfolding erase_while
erase_while-IsBounded test zero p b = b
erase_while-IsBounded test (suc fuel) p b =
    let rest = erase_while-IsBounded test fuel (erase_one p) (erase_one-IsBounded p b) in
    elim (Bool-cases (ltb 0 (length p.line) && test (last_or p.line 0))) [
      | inl e ↦ rw e rest
      | inr e ↦ rw e b
    ]

pub line_done-IsBounded : (p : Pty) → IsBounded p → IsBounded (line_done p)
unfolding line_done
line_done-IsBounded p b =
    let room = queue_bytes - length p.input_queue in
    let n = if ltb (length p.line) room then length p.line else room in
    ground (arith, length-append p.input_queue (take n p.line), length-take n p.line)

interrupt-IsBounded : (c : ℕ) (p : Pty) → IsBounded p → IsBounded (interrupt c p)
unfolding interrupt
interrupt-IsBounded c p b = grind (arith, echo-IsBounded)

input_raw-IsBounded : (c : ℕ) (p : Pty) → IsBounded p → IsBounded (input_raw c p)
unfolding input_raw
input_raw-IsBounded c p b =
    let longer = record p { input_queue = p.input_queue ++ (c ∷ []) } in
    ground
      (arith, length-append p.input_queue (c ∷ []), echo-IsBounded c p b, echo-IsBounded c longer)

end_line-IsBounded : (c : ℕ) (p : Pty) → IsBounded p → IsBounded (end_line c p)
unfolding end_line
end_line-IsBounded c p b =
    let longer = record p { line = p.line ++ (c ∷ []) } in
    ground (
      arith,
      length-append p.line (c ∷ []),
      echo-IsBounded c p b,
      echo-IsBounded c longer,
      line_done-IsBounded (echo c p),
      line_done-IsBounded (echo c longer),
    )

gather-IsBounded : (c : ℕ) (p : Pty) → IsBounded p → IsBounded (gather c p)
unfolding gather
gather-IsBounded c p b =
    let longer = record p { line = p.line ++ (c ∷ []) } in
    ground (arith, length-append p.line (c ∷ []), echo-IsBounded c longer)

input_cooked-IsBounded : (c : ℕ) (p : Pty) → IsBounded p → IsBounded (input_cooked c p)
unfolding input_cooked erase_line erase_word
input_cooked-IsBounded c p b =
    let spaces = erase_while is_space (length p.line) p in
    ground (
      arith,
      erase_one-IsBounded p b,
      erase_while-IsBounded is_any (length p.line) p b,
      erase_while-IsBounded is_space (length p.line) p b,
      erase_while-IsBounded is_graph (length spaces.line) spaces,
      line_done-IsBounded (record p { eof = length p.line == 0 }),
      end_line-IsBounded c p b,
      gather-IsBounded c p b,
    )

input_char-IsBounded : (c : ℕ) (p : Pty) → IsBounded p → IsBounded (input_char c p)
unfolding input_char
input_char-IsBounded c p b =
    grind (arith, interrupt-IsBounded, input_cooked-IsBounded, input_raw-IsBounded)

pub input-IsBounded : (c : ℕ) (p : Pty) → IsBounded p → IsBounded (input c p)
unfolding input
input-IsBounded c p b = input_char-IsBounded _ p b

-- Whatever is typed at a terminal whose two queues hold 4096 bytes at most and whose line holds
-- 256 at most, they do so afterwards.
pub input_all-IsBounded : (cs : List ℕ) (p : Pty) → IsBounded p → IsBounded (input_all cs p)
unfolding input_all
input_all-IsBounded [] p b = b
input_all-IsBounded (c ∷ cs) p b = input_all-IsBounded cs (input c p) (input-IsBounded c p b)
