-- ===== src/Terminals/Woken.antt =====
-- A read of src/modules/ipc/pty.c that waits, and what wakes it.
use bax_os_dev.Base.{
  ℕ, ◌<◌, ◌≡◌, refl, ap, ◌∙◌, arith, Bool, true, false, List, [], ◌∷◌, ◌++◌, length, length-append,
}
use bax_os_dev.Pty.{Pty, lflag_has, icanon, input_all, line_bytes}
use bax_os_dev.Pty.Cooked.{ArePlain, IsNone, keys, input_all-line}
use bax_os_dev.Terminals.Reading.{slave_read-input_all}
use bax_os_dev.Terminals.{
  Handle, Turn, runs, interrupted, ready, Reply, bytes, wait_for, slave_can_read, slave_read, read,
}

-- Turns of others that leave a terminal as it is, without a signal.
abbrev pub AreIdle : Pty → List Turn → Type 0
AreIdle p [] = p ≡ p
AreIdle p (runs act ∷ ts) = (act p ≡ p) × AreIdle p ts
AreIdle p (interrupted ∷ ts) = ⊥

wait_for-ready :
    (test : Pty → Bool) (ts : List Turn) (p : Pty)
    → test p ≡ true
    → wait_for false test ts p ≡ ready ts p
unfolding wait_for
wait_for-ready test [] p e = rw e refl
wait_for-ready test (interrupted ∷ ts) p e = rw e refl
wait_for-ready test (runs act ∷ ts) p e = rw e refl

-- A wait goes past the idle turns to the one that makes its test true.
wait_for-wakes :
    (test : Pty → Bool) (idle ts : List Turn) (act : Pty → Pty) (p : Pty)
    → AreIdle p idle
    → test p ≡ false
    → test (act p) ≡ true
    → wait_for false test (idle ++ (runs act ∷ ts)) p ≡ ready ts (act p)
unfolding wait_for
wait_for-wakes test [] ts act p i no_yet e = rw no_yet (wait_for-ready test ts (act p) e)
wait_for-wakes test (interrupted ∷ idle) ts act p i no_yet e = elim i [ ]
wait_for-wakes test (runs a ∷ idle) ts act p (same, i) no_yet e =
    rw (no_yet, same) (wait_for-wakes test idle ts act p i no_yet e)

read-ready :
    (h : Handle) (count : ℕ) (ts left : List Turn) (p q : Pty)
    → h.slave_end ≡ true
    → h.nonblock ≡ false
    → wait_for false slave_can_read ts p ≡ ready left q
    → read h count ts p ≡ slave_read count q
unfolding read
read-ready h count ts left p q end block e = rw (read, end, block, e) (rw end refl)

-- At a cooked terminal that a blocking read of the slave finds nothing at, and where no key is the
-- newline, the read waits past the turns that leave the terminal as it is, however many, and
-- returns the line when a turn types one of fewer than 256 plain characters with its newline,
-- whatever turns come after, if it asks for more bytes than the line has without its newline.
pub read-input_all :
    (h : Handle) (idle ts : List Turn) (cs : List ℕ) (count : ℕ) (p : Pty)
    → h.slave_end ≡ true
    → h.nonblock ≡ false
    → slave_can_read p ≡ false
    → AreIdle p idle
    → IsNone b'\n' (keys p)
    → ArePlain p cs
    → p.line ≡ []
    → lflag_has p icanon ≡ true
    → length cs < line_bytes
    → length cs < count
    → let line = cs ++ (b'\n' ∷ []) in
      (read h count (idle ++ (runs (input_all line) ∷ ts)) p).0 ≡ bytes line
unfolding slave_can_read
read-input_all h idle ts cs count p end block asleep i newline plain no_line cooked short room =
    let line = cs ++ (b'\n' ∷ []) in
    let typed = input_all line p in
    let no_input : p.input_queue ≡ [] = nothing p.input_queue (ground arith) in
    let e =
      input_all-line cs p cooked newline plain no_line short (ground (arith, ap length no_input)) in
    let queue : typed.input_queue ≡ line = e.same_input ∙ ap (λ q. q ++ line) no_input in
    let awake : slave_can_read typed ≡ true =
      ground (arith, ap length queue, length-append cs (b'\n' ∷ [])) in
    let got = slave_read-input_all cs count p cooked newline plain no_line no_input short room in
    ap (λ (r : Reply × Pty). r.0)
      (read-ready h count (idle ++ (runs (input_all line) ∷ ts)) ts p typed end block
        (wait_for-wakes slave_can_read idle ts (input_all line) p i asleep awake))
    ∙ got.0
  where
    nothing : (q : List ℕ) → (length q ≡ 0) → q ≡ []
    nothing [] e = refl
    nothing (c ∷ q) e = absurd (omega arith)
