-- ===== src/Terminals/Reading.antt =====
-- Waiting, reading and writing at the two ends of src/modules/ipc/pty.c.
use bax_os_dev.Base.{
  ℕ, suc, ◌+◌, ◌≤◌, ◌<◌, ◌≡◌, refl, List, [], ◌∷◌, ◌++◌, arith, length, length-append, take, drop,
  Bool, true, false, Bool-cases, inl, inr, ltb, if◌then◌else◌, ◌==◌, ap, ◌∙◌, sym, ◌≢◌,
  take-append-drop, length-take,
}
use bax_os_dev.Pty.{
  Pty, queue_bytes, line_bytes, has, opost, onlcr, out_put, output, icanon, lflag_has, input_all,
}
use bax_os_dev.Pty.Cooked.{ArePlain, IsNone, keys, input_all-line}
use bax_os_dev.Terminals.{
  Reply, bytes, number, Turn, runs, interrupted, Wait, ready, fails, still, wait_for, taken, left,
  line_end, line_count, slave_read, write_from, write, slave_can_write, eagain, eintr,
}

-- How a wait may end.
abbrev pub EndsRight : Bool → (Pty → Bool) → Wait → Type 0
EndsRight nonblock test (ready ts p) = test p ≡ true
EndsRight nonblock test (fails e p) = (test p ≡ false) × (e ≡ (if nonblock then eagain else eintr))
EndsRight nonblock test (still p) = (test p ≡ false) × (nonblock ≡ false)

-- A wait goes on only with the test true. It fails only with the test false: with EAGAIN where the
-- descriptor is non-blocking, and with EINTR where it is not.
pub wait_for-EndsRight :
    (nonblock : Bool) (test : Pty → Bool) (ts : List Turn) (p : Pty)
    → EndsRight nonblock test (wait_for nonblock test ts p)
unfolding wait_for
wait_for-EndsRight nonblock test [] p = elim (Bool-cases (test p)) [
  | inl e ↦ rw e e
  | inr e ↦ elim (Bool-cases nonblock) [ inl f ↦ rw (e, f) (e, refl) | inr f ↦ rw (e, f) (e, refl) ]
]
wait_for-EndsRight nonblock test (interrupted ∷ ts) p = elim (Bool-cases (test p)) [
  | inl e ↦ rw e e
  | inr e ↦ elim (Bool-cases nonblock) [ inl f ↦ rw (e, f) (e, refl) | inr f ↦ rw (e, f) (e, refl) ]
]
wait_for-EndsRight true test (runs act ∷ ts) p = elim (Bool-cases (test p)) [
  | inl e ↦ rw e e
  | inr e ↦ rw e (e, refl)
]
wait_for-EndsRight false test (runs act ∷ ts) p =
    let next = wait_for-EndsRight false test ts (act p) in
    elim (Bool-cases (test p)) [ inl e ↦ rw e e | inr e ↦ rw e next ]

wait_for-ready :
    (nonblock : Bool) (test : Pty → Bool) (ts : List Turn) (p : Pty)
    → test p ≡ true
    → wait_for nonblock test ts p ≡ ready ts p
unfolding wait_for
wait_for-ready nonblock test [] p e = rw e
wait_for-ready nonblock test (interrupted ∷ ts) p e = rw e
wait_for-ready nonblock test (runs act ∷ ts) p e = rw e

-- No character of a list is a newline.
abbrev pub NoNewline : List ℕ → Type 0
NoNewline [] = Unit {0}
NoNewline (c ∷ cs) = (c ≢ b'\n') × NoNewline cs

line_end-append : (cs rest : List ℕ) → NoNewline cs → line_end (cs ++ (b'\n' ∷ rest)) ≡ length cs
unfolding line_end
line_end-append [] rest h = refl
line_end-append (c ∷ cs) rest h = ground (arith, line_end-append cs rest h.1)

take_append : (cs rest : List ℕ) (c : ℕ) → take (length cs + 1) (cs ++ (c ∷ rest)) ≡ cs ++ (c ∷ [])
take_append [] rest c = refl
take_append (x ∷ cs) rest c =
    let e : suc (length cs) + 1 ≡ suc (length cs + 1) = omega arith in
    rw e (ap (λ r. x ∷ r) (take_append cs rest c))

drop_append : (cs rest : List ℕ) (c : ℕ) → drop (length cs + 1) (cs ++ (c ∷ rest)) ≡ rest
drop_append [] rest c = refl
drop_append (x ∷ cs) rest c =
    let e : suc (length cs) + 1 ≡ suc (length cs + 1) = omega arith in rw e (drop_append cs rest c)

line_count_lem :
    (cs rest : List ℕ) (count : ℕ)
    → NoNewline cs
    → length cs < count
    → line_count count (cs ++ (b'\n' ∷ rest)) ≡ length cs + 1
unfolding line_count
line_count_lem cs rest count h k =
    ground (arith, line_end-append cs rest h, length-append cs (b'\n' ∷ rest))

-- At a cooked terminal with a line and its newline to be read, a read of the slave that asks for
-- more bytes than the line has without its newline gets that line with its newline, and leaves
-- what follows it.
pub slave_read-line :
    (cs rest : List ℕ) (count : ℕ) (p : Pty)
    → lflag_has p icanon ≡ true
    → p.input_queue ≡ cs ++ (b'\n' ∷ rest)
    → NoNewline cs
    → length cs < count
    → slave_read count p ≡ (bytes (cs ++ (b'\n' ∷ [])), record p { input_queue = rest })
unfolding slave_read
slave_read-line cs rest count p cooked queue no_newline room = ground (
  arith,
  queue,
  ap length queue,
  line_count_lem cs rest count no_newline room,
  length-append cs (b'\n' ∷ rest),
  take_append cs rest b'\n',
  drop_append cs rest b'\n',
)

plain-NoNewline : (cs : List ℕ) (p : Pty) → ArePlain p cs → NoNewline cs
plain-NoNewline [] p h = tt
plain-NoNewline (c ∷ cs) p h = (h.0.1.0, plain-NoNewline cs p h.1)

-- At a cooked terminal with nothing gathered or to be read, where no key is the newline, a line of
-- fewer than 256 plain characters typed with its newline is what the next read of the slave gets,
-- if it asks for more bytes than the line has without its newline, and nothing is left to read.
pub slave_read-input_all :
    (cs : List ℕ) (count : ℕ) (p : Pty)
    → lflag_has p icanon ≡ true
    → IsNone b'\n' (keys p)
    → ArePlain p cs
    → p.line ≡ []
    → p.input_queue ≡ []
    → length cs < line_bytes
    → length cs < count
    → let (reply, p') = slave_read count (input_all (cs ++ (b'\n' ∷ [])) p) in
      (reply ≡ bytes (cs ++ (b'\n' ∷ []))) × (p'.input_queue ≡ [])
slave_read-input_all cs count p cooked newline plain no_line no_input short room =
    let empty : length p.input_queue ≡ 0 = ap length no_input in
    let e = input_all-line cs p cooked newline plain no_line short (omega arith) in
    let typed = input_all (cs ++ (b'\n' ∷ [])) p in
    let queue : typed.input_queue ≡ cs ++ (b'\n' ∷ []) =
      e.same_input ∙ ap (λ q. q ++ (cs ++ (b'\n' ∷ []))) no_input in
    let still_cooked : lflag_has typed icanon ≡ true = rw e.same_termios cooked in
    rw (slave_read-line cs [] count typed still_cooked queue (plain-NoNewline cs p plain) room)
      (refl, refl)

-- What a read takes off a queue is its front, and no more than was asked for.
taken_lem :
    (count : ℕ) (q : List ℕ)
    → (taken count q ++ left count q ≡ q) × (length (taken count q) ≤ count)
taken_lem count q =
    let n = if ltb (length q) count then length q else count in
    (take-append-drop n q, ground (arith, length-take n q))

-- What a read returned, and what it left, beside the queue before: the bytes are its front.
pub record ReadsFront (count : ℕ) (before after : List ℕ) (reply : Reply) : Type 0 where
  pub got : List ℕ
  pub returned : reply ≡ bytes got
  pub front : before ≡ got ++ after
  pub within : length got ≤ count

line_count-le : (count : ℕ) (q : List ℕ) → line_count count q ≤ count
unfolding line_count
line_count-le count q = ground arith

-- In every mode, a read of the slave returns the front of what is there, no more of it than was
-- asked for, and leaves the rest.
pub slave_read-ReadsFront :
    (count : ℕ) (p : Pty)
    → let (reply, p') = slave_read count p in ReadsFront count p.input_queue p'.input_queue reply
unfolding slave_read
slave_read-ReadsFront count p =
    let n = if lflag_has p icanon then line_count count p.input_queue else count in
    let front = taken_lem n p.input_queue in
    elim (Bool-cases (length p.input_queue == 0)) [
      | inl e ↦ rw e (record { got = []; returned = refl; front = refl; within = omega arith })
      | inr e ↦ rw e (record {
        got = taken n p.input_queue;
        returned = refl;
        front = sym front.0;
        within = ground (arith, front.1, line_count-le count p.input_queue);
      })
    ]

-- With OPOST and ONLCR on, a master there and one byte of the output queue free, a newline that
-- the slave writes is lost: the write reports it written, and only the carriage return before it
-- is in the queue.
pub write-loses_newline :
    (nonblock : Bool) (ts : List Turn) (p : Pty)
    → has p.t.oflag opost ≡ true
    → has p.t.oflag onlcr ≡ true
    → length p.output_queue + 1 ≡ queue_bytes
    → 0 < p.masters
    → write (record { folder = 1; slave_end = true; nonblock = nonblock }) (b'\n' ∷ []) ts p
      ≡ (number 1, record p { output_queue = p.output_queue ++ (b'\r' ∷ []) })
unfolding write write_from
write-loses_newline nonblock ts p post crlf full attended =
    ground (arith, waits, go, has_master, lost)
  where
    waits : ltb queue_bytes (length p.output_queue + 2) ≡ true
    waits = ground arith

    go : wait_for nonblock slave_can_write ts p ≡ ready ts p
    go = wait_for-ready nonblock slave_can_write ts p (unfold slave_can_write in ground arith)

    has_master : (p.masters == 0) ≡ false
    has_master = ground arith

    lost : output b'\n' p ≡ record p { output_queue = p.output_queue ++ (b'\r' ∷ []) }
    lost =
        unfold output in unfold out_put in ground (arith, length-append p.output_queue (b'\r' ∷ []))
