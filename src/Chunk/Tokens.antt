-- ===== src/Chunk/Tokens.antt =====
-- The tokens of src/tuxpac/unpack.c's `lzma_chunk`: each writes something, and none has touched the
-- window yet.
use bax_os_dev.Base.{ℕ, ◌+◌, ◌*◌, ◌≤◌, ◌≡◌, refl, subst, Bool-cases, inl, inr, arith, ◌==◌}
use bax_os_dev.Window.{Window}
use bax_os_dev.Probs.{bit_in}
use bax_os_dev.Chunk.{
  Lzma, Token, literal, again, literal_token, match_token, length_token, older, rep_token,
  next_token, low_of_total,
}

-- A token that writes something, and its state with the window as it was.
abbrev pub IsToken : Window → Token × Lzma → Type 0
IsToken w (literal b, l) = l.window ≡ w
IsToken w (again d n, l) = (l.window ≡ w) × (1 ≤ n)

length_token-IsToken : (ps : ℕ) (l : Lzma) → IsToken l.window (length_token ps l)
unfolding length_token
length_token-IsToken ps l = (refl, omega arith)

older-window : (l : Lzma) → (older l).window ≡ l.window
unfolding older
older-window l = ground arith

literal_token-IsToken : (l : Lzma) → IsToken l.window (literal_token l)
unfolding literal_token
literal_token-IsToken l = refl

match_token-IsToken : (ps : ℕ) (l : Lzma) → IsToken l.window (match_token ps l)
unfolding match_token
match_token-IsToken ps l = (refl, omega arith)

rep_token-IsToken : (ps : ℕ) (l : Lzma) → IsToken l.window (rep_token ps l)
unfolding rep_token
rep_token-IsToken ps l =
    let p = l.probs in
    let v0 = bit_in l.state p.g0 l.coder in
    let p0 = record p { g0 = v0.probs } in
    let long = bit_in (l.state * 16 + ps) p.rep0_long v0.coder in
    let p1 = record p0 { rep0_long = long.probs } in
    let l0 : Lzma = record l { probs = p0; coder = v0.coder } in
    elim (Bool-cases (v0.value == 0)) [
      | inr e ↦ rw e (
          subst (λ w. IsToken w (length_token ps (older l0))) (older-window l0)
            (length_token-IsToken ps (older l0)))
      | inl e ↦ elim (Bool-cases (long.value == 0)) [
        | inl f ↦ rw (e, f) (refl, omega arith)
        | inr f ↦ rw (e, f) (length_token-IsToken ps (record l { probs = p1; coder = long.coder }))
      ]
    ]

pub next_token-IsToken : (l : Lzma) → IsToken l.window (next_token l)
unfolding next_token
next_token-IsToken l =
    let p = l.probs in
    let ps = low_of_total l.pb l.window in
    let v = bit_in (l.state * 16 + ps) p.is_match l.coder in
    let p1 = record p { is_match = v.probs } in
    let r = bit_in l.state p1.is_rep v.coder in
    let p2 = record p1 { is_rep = r.probs } in
    let l2 : Lzma = record l { probs = p2; coder = r.coder } in
    elim (Bool-cases (v.value == 0)) [
      | inl e ↦ rw e (literal_token-IsToken (record l { probs = p1; coder = v.coder }))
      | inr e ↦ elim (Bool-cases (r.value == 0)) [
        | inl f ↦ rw (e, f) (match_token-IsToken ps l2)
        | inr f ↦ rw (e, f) (rep_token-IsToken ps l2)
      ]
    ]
