-- ===== src/Window/History.antt =====
-- The window of src/tuxpac/unpack.c against the history of the bytes put into it: looking back
-- gives the bytes of the history, copying repeats them, and the sink is given them all, in order.
use bax_os_dev.Base.{
  ℕ, zero, suc, ◌+◌, ◌-◌, ◌≤◌, ◌<◌, ◌≡◌, ◌≢◌, refl, ap, sym, ◌∙◌, Bool, true, ◌||◌, ◌&&◌, List, [],
  ◌∷◌, ◌++◌, take, get_or, set, ltb, leb, ◌==◌, if◌then◌else◌, length, arith, Bool-cases, inl, inr,
  get_or-set_self, get_or-set_ne, length-set, length-replicate, append_assoc, append-nil, ==_iff,
}
use bax_os_dev.Window.{
  Window, Sink, window_open, back_index, back, flush, put, copy_from, copy, window_close,
}

-- A history, its first byte first.
abbrev pub written : List ℕ → List ℕ
written [] = []
written (b ∷ recent) = written recent ++ (b ∷ [])

-- A window that holds a history, its latest byte first.
pub record Holds (recent : List ℕ) (w : Window) : Type 0 where
  pub sized : length w.win ≡ w.wsize
  pub inside : w.wpos < w.wsize
  pub looks_back :
      (d : ℕ) → 1 ≤ d → d ≤ w.wsize → d ≤ length recent → back d w ≡ get_or recent (d - 1) 0
  pub counted : w.total ≤ length recent
  pub given : written recent ≡ w.sunk ++ take w.wpos w.win

take-set : (l : List ℕ) (i b : ℕ) → i < length l → take (i + 1) (set l i b) ≡ take i l ++ (b ∷ [])
take-set [] i b h = absurd (omega arith)
take-set (x ∷ l) zero b h = refl
take-set (x ∷ l) (suc i) b h =
    let e : suc i + 1 ≡ suc (i + 1) = omega arith in
    rw e (ap (λ r. x ∷ r) (take-set l i b (omega arith)))

-- An empty window holds the empty history.
pub window_open-Holds : (size : ℕ) → 0 < size → Holds [] (window_open size)
unfolding window_open
window_open-Holds size h = record {
  sized = length-replicate size 0;
  inside = h;
  looks_back = λ d one _ none. absurd (omega arith);
  counted = omega arith;
  given = refl;
}

-- Where the next byte goes.
abbrev next_pos : Window → ℕ
next_pos w = if w.wpos + 1 == w.wsize then 0 else w.wpos + 1

-- A byte one further back stands where it stood, and not where the next one went.
back_index-next :
    (wsize wpos d : ℕ)
    → wpos < wsize
    → 1 ≤ d
    → d + 1 ≤ wsize
    → (back_index wsize (if wpos + 1 == wsize then 0 else wpos + 1) (d + 1)
        ≡ back_index wsize wpos d)
      × (wpos ≢ back_index wsize wpos d)
back_index-next wsize wpos d h one small = ground arith

back_index-first :
    (wsize wpos : ℕ)
    → wpos < wsize
    → back_index wsize (if wpos + 1 == wsize then 0 else wpos + 1) 1 ≡ wpos
back_index-first wsize wpos h = ground arith

module _ (sink : Sink) where
  -- What `put` makes of each part of the window.
  record Puts (b : ℕ) (w after : Window) : Type 0 where
    win : after.win ≡ set w.win w.wpos b
    wsize : after.wsize ≡ w.wsize
    wpos : after.wpos ≡ next_pos w
    total : after.total ≤ w.total + 1
    sunk :
        after.sunk
        ≡ (if w.wpos + 1 == w.wsize then w.sunk ++ take w.wsize (set w.win w.wpos b) else w.sunk)

  put-Puts : (b : ℕ) (w : Window) → Puts b w (put sink b w)
  unfolding put flush
  put-Puts b w = ground arith

  put-back :
      (b : ℕ) (recent : List ℕ) (w : Window) (d : ℕ)
      → Holds recent w
      → 1 ≤ d
      → d ≤ w.wsize
      → d ≤ suc (length recent)
      → back d (put sink b w) ≡ get_or (b ∷ recent) (d - 1) 0
  unfolding back
  put-back b recent w zero h one small old = absurd (omega arith)
  put-back b recent w (suc zero) h one small old =
      let p = put-Puts b w in
      rw (p.win, p.wsize, p.wpos, back_index-first w.wsize w.wpos h.inside)
        (get_or-set_self w.win w.wpos b 0 (omega (arith, h.sized, h.inside)))
  put-back b recent w (suc (suc d)) h one small old =
      let p = put-Puts b w in
      let at = back_index-next w.wsize w.wpos (suc d) h.inside (omega arith) (omega arith) in
      let e : suc (suc d) ≡ suc d + 1 = omega arith in
      let f : suc (suc d) - 1 ≡ suc d = omega arith in
      let g : suc d - 1 ≡ d = omega arith in
      ap (λ k. back k (put sink b w)) e
      ∙ rw (p.win, p.wsize, p.wpos, at.0)
          (get_or-set_ne w.win w.wpos (back_index w.wsize w.wpos (suc d)) b 0 at.1
            ∙ h.looks_back (suc d) (omega arith) (omega arith) (omega arith)
            ∙ ap (λ k. get_or recent k 0) g
            ∙ sym (ap (λ k. get_or (b ∷ recent) k 0) f))

  put-given :
      (b : ℕ) (recent : List ℕ) (w : Window)
      → Holds recent w
      → let w' = put sink b w in written (b ∷ recent) ≡ w'.sunk ++ take w'.wpos w'.win
  put-given b recent w h =
      let p = put-Puts b w in
      let grown : written (b ∷ recent) ≡ w.sunk ++ take (w.wpos + 1) (set w.win w.wpos b) =
        ap (λ l. l ++ (b ∷ [])) h.given
        ∙ append_assoc w.sunk (take w.wpos w.win) (b ∷ [])
        ∙ ap (λ l. w.sunk ++ l)
            (sym (take-set w.win w.wpos b (omega (arith, h.sized, h.inside)))) in
      elim (Bool-cases (w.wpos + 1 == w.wsize)) [
        | inr e ↦ grown ∙ sym (rw (p.sunk, p.win, p.wpos, e) refl)
        | inl e ↦
            let full : w.wpos + 1 ≡ w.wsize = (==_iff _ _).0 e in
            grown
            ∙ ap (λ k. w.sunk ++ take k (set w.win w.wpos b)) full
            ∙ sym (append-nil (w.sunk ++ take w.wsize (set w.win w.wpos b)))
            ∙ sym (rw (p.sunk, p.win, p.wpos, e) refl)
      ]

  -- `put` adds a byte to the history.
  pub put-Holds :
      (b : ℕ) (recent : List ℕ) (w : Window) → Holds recent w → Holds (b ∷ recent) (put sink b w)
  put-Holds b recent w h =
      let p = put-Puts b w in
      record {
        sized = ground (arith, p, length-set w.win w.wpos b, h.sized);
        inside = ground (arith, p, h.inside);
        looks_back =
            λ d one small old. put-back b recent w d h one (omega (arith, p.wsize, small)) old;
        counted = omega (arith, p.total, h.counted);
        given = put-given b recent w h;
      }

  -- The history after `n` bytes are copied from `d` back: each is the byte `d` before it.
  unfoldable pub repeated : ℕ → ℕ → List ℕ → List ℕ
  repeated d zero recent = recent
  repeated d (suc n) recent = repeated d n (get_or recent (d - 1) 0 ∷ recent)

  copy_from-Holds :
      (d n : ℕ) (recent : List ℕ) (w : Window)
      → Holds recent w
      → 1 ≤ d
      → d ≤ w.wsize
      → d ≤ length recent
      → Holds (repeated d n recent) (copy_from sink d n w)
  unfolding copy_from repeated
  copy_from-Holds d zero recent w h one small old = h
  copy_from-Holds d (suc n) recent w h one small old = rw (h.looks_back d one small old) (
      copy_from-Holds d n (get_or recent (d - 1) 0 ∷ recent) (put sink (get_or recent (d - 1) 0) w)
        (put-Holds (get_or recent (d - 1) 0) recent w h) one
        (omega (arith, (put-Puts (get_or recent (d - 1) 0) w).wsize)) (omega arith))

  -- In a window that holds a history, `copy` refuses a distance of 0, one past what was put since
  -- the dictionary was reset, and one past the window, and keeps the history; at any other the
  -- window then holds the history repeated from that far back, byte by byte.
  pub copy-Holds :
      (d n : ℕ) (recent : List ℕ) (w : Window)
      → Holds recent w
      → let (ok, w') = copy sink d n w in
        (ok ≡ (ltb 0 d && (leb d w.total && leb d w.wsize)))
        × Holds (if ok then repeated d n recent else recent) w'
  unfolding copy
  copy-Holds d n recent w h = elim (Bool-cases (d == 0 || (ltb w.total d || ltb w.wsize d))) [
    | inl e ↦ rw e (ground (arith, e), h)
    | inr e ↦
        let one : 1 ≤ d = ground (arith, e) in
        let small : d ≤ w.wsize = ground (arith, e) in
        let old : d ≤ length recent = ground (arith, e, h.counted) in
        rw e (ground (arith, e), copy_from-Holds d n recent w h one small old)
  ]

  -- If a window holds a history and `window_close` returns true, the sink has been given the whole
  -- history, in order.
  pub window_close-Holds :
      (ok bad : Bool) (recent : List ℕ) (w : Window)
      → Holds recent w
      → (window_close sink ok bad w).0 ≡ true
      → (window_close sink ok bad w).1.sunk ≡ written recent
  unfolding window_close
  window_close-Holds ok bad recent w h done = ground (arith, h.given, append-nil w.sunk, nothing)
    where
      nothing : w.wpos ≡ 0 → take w.wpos w.win ≡ []
      nothing e = rw e refl
