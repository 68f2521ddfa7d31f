-- ===== src/Chunk/Output.antt =====
-- What `lzma_chunk` of src/tuxpac/unpack.c writes, and that its loop ends.
use bax_os_dev.Base.{
  ℕ, zero, suc, ◌+◌, ◌-◌, ◌≤◌, ◌<◌, ◌≡◌, refl, ap, sym, ◌∙◌, subst, Bool, true, false, ◌||◌,
  Bool-cases, inl, inr, arith, List, [], ◌∷◌, ◌++◌, append_assoc, length, length-append, get_or,
  ltb, leb, if◌then◌else◌, ◌&&◌,
}
use bax_os_dev.Window.{Window, Sink, put, copy}
use bax_os_dev.Window.History.{Holds, repeated, put-Holds, copy-Holds}
use bax_os_dev.Chunk.Tokens.{IsToken, next_token-IsToken}
use bax_os_dev.Chunk.{Lzma, Token, literal, again, next_token, chunk_from, lzma_chunk}

-- Why a chunk stops in a state with `room` bytes still to be written: the source has run out or
-- the sink has stopped it, or the last token is longer than that or from too far back.
pub data Refusal (room : ℕ) : Lzma → Type 0 where
  ended : (l : Lzma) → (l.coder.source.bad || l.window.wstop) ≡ true → Refusal room l
  too_long :
      (before l : Lzma) (d n : ℕ) → next_token before ≡ (again d n, l) → room < n → Refusal room l
  too_far :
      (before l : Lzma) (d n : ℕ)
      → next_token before ≡ (again d n, l)
      → (ltb 0 d && (leb d l.window.total && leb d l.window.wsize)) ≡ false
      → Refusal room l

-- What a chunk of `left` bytes makes of a history: as many bytes more, or fewer and a reason.
pub data Writes (left : ℕ) (recent : List ℕ) : Bool × Lzma → Type 0 where
  whole :
      (more : List ℕ) (l : Lzma)
      → length more ≡ left
      → Holds (more ++ recent) l.window
      → Writes left recent (true, l)
  stopped :
      (more : List ℕ) (room : ℕ) (l : Lzma)
      → length more + room ≡ left
      → 0 < room
      → Refusal room l
      → Holds (more ++ recent) l.window
      → Writes left recent (false, l)

-- What is written after some bytes is written with them.
Writes-after :
    (n rest left : ℕ) (first recent : List ℕ) (r : Bool × Lzma)
    → length first ≡ n
    → n + rest ≡ left
    → Writes rest (first ++ recent) r
    → Writes left recent r
Writes-after n rest left first recent r size sum (whole more l e h) =
    whole (more ++ first) l (omega (arith, length-append more first, e, size, sum))
      (subst (λ x. Holds x l.window) (sym (append_assoc more first recent)) h)
Writes-after n rest left first recent r size sum (stopped more room l e p why h) =
    stopped (more ++ first) room l (omega (arith, length-append more first, e, size, sum)) p why
      (subst (λ x. Holds x l.window) (sym (append_assoc more first recent)) h)

module _ (sink : Sink) where
  repeated-grows :
      (d n : ℕ) (recent : List ℕ)
      → (more : List ℕ) × (length more ≡ n) × (repeated sink d n recent ≡ more ++ recent)
  unfolding repeated
  repeated-grows d zero recent = ([], refl, refl)
  repeated-grows d (suc n) recent =
      let (more, size, same) = repeated-grows d n (get_or recent (d - 1) 0 ∷ recent) in
      (
        more ++ (get_or recent (d - 1) 0 ∷ []),
        omega (arith, size, length-append more (get_or recent (d - 1) 0 ∷ [])),
        same ∙ sym (append_assoc more (get_or recent (d - 1) 0 ∷ []) recent),
      )

  -- What the chunk does with a token.
  abbrev write_token : ℕ → ℕ → Token × Lzma → Bool × Lzma
  write_token fuel k t = elim t.0 [
    | literal b ↦ chunk_from sink fuel k (record t.1 { window = put sink b t.1.window })
    | again d n ↦
        let (ok, w) = copy sink d n t.1.window in
        let rest = chunk_from sink fuel (suc k - n) (record t.1 { window = w }) in
        if ltb (suc k) n then (false, t.1) else if ok then rest else (false, t.1)
  ]

  write_token-Writes :
      (fuel k : ℕ)
      → ((left : ℕ) (recent : List ℕ) (l : Lzma)
          → Holds recent l.window
          → left ≤ fuel
          → Writes left recent (chunk_from sink fuel left l))
      → (recent : List ℕ) (before : Lzma) (t : Token × Lzma) (w : Window) → next_token before ≡ t
      → IsToken w t
      → Holds recent w
      → k ≤ fuel
      → Writes (suc k) recent (write_token fuel k t)
  write_token-Writes fuel k ih recent before (literal b, l) w from is h le =
      let h' : Holds recent l.window = subst (λ x. Holds recent x) (sym is) h in
      Writes-after 1 k (suc k) (b ∷ []) recent _ refl (omega arith) (
        ih k (b ∷ recent) (record l { window = put sink b l.window })
          (put-Holds sink b recent l.window h') le)
  write_token-Writes fuel k ih recent before (again d n, l) w from is h le =
      let h' : Holds recent l.window = subst (λ x. Holds recent x) (sym is.0) h in
      let copied = copy-Holds sink d n recent l.window h' in
      let (more, size, same) = repeated-grows d n recent in
      elim (Bool-cases (ltb (suc k) n)) [
        | inl e ↦ rw e (
            stopped [] (suc k) l (omega arith) (omega arith)
              (too_long before l d n from (ground (arith, e))) h')
        | inr e ↦ elim (Bool-cases (copy sink d n l.window).0) [
          | inr f ↦
              rw (e, f)
                (stopped [] (suc k) l (omega arith) (omega arith)
                  (too_far before l d n from (sym copied.0 ∙ f)) h')
          | inl f ↦
              let h2 : Holds (more ++ recent) (copy sink d n l.window).1 =
                let h3 : Holds (repeated sink d n recent) (copy sink d n l.window).1 =
                  subst
                    (λ ok.
                      Holds (if ok then repeated sink d n recent else recent)
                        (copy sink d n l.window).1)
                    f copied.1 in
                subst (λ x. Holds x (copy sink d n l.window).1) same h3 in
              rw (e, f)
                (Writes-after n (suc k - n) (suc k) more recent _ size (ground (arith, e)) (
                  ih (suc k - n) (more ++ recent) (record l { window = (copy sink d n l.window).1 })
                    h2 (omega (arith, is.1, le))))
        ]
      ]

  chunk_from-Writes :
      (fuel left : ℕ) (recent : List ℕ) (l : Lzma)
      → Holds recent l.window
      → left ≤ fuel
      → Writes left recent (chunk_from sink fuel left l)
  unfolding chunk_from
  chunk_from-Writes fuel zero recent l h le = whole [] l refl h
  chunk_from-Writes zero (suc k) recent l h le = absurd (omega arith)
  chunk_from-Writes (suc fuel) (suc k) recent l h le =
      elim (Bool-cases (l.coder.source.bad || l.window.wstop)) [
        | inl e ↦ rw e (stopped [] (suc k) l (omega arith) (omega arith) (ended l e) h)
        | inr e ↦ rw e (
            write_token-Writes fuel k (chunk_from-Writes fuel) recent l (next_token l) l.window refl
              (next_token-IsToken l) h (omega arith))
      ]

  -- Given a window that holds a history, `lzma_chunk` of a number of bytes either returns true,
  -- and the window holds that history with exactly as many bytes more; or it returns false with
  -- fewer bytes more, and the source has run out, the sink has stopped it, or the last match
  -- decoded is longer than what is left or from too far back.
  pub lzma_chunk-Writes :
      (left : ℕ) (recent : List ℕ) (l : Lzma)
      → Holds recent l.window
      → Writes left recent (lzma_chunk sink left l)
  unfolding lzma_chunk
  lzma_chunk-Writes left recent l h = chunk_from-Writes left left recent l h (omega arith)

  write_token-fuel :
      (fuel fuel' k : ℕ)
      → ((left : ℕ) (l : Lzma)
          → left ≤ fuel
          → left ≤ fuel'
          → chunk_from sink fuel left l ≡ chunk_from sink fuel' left l)
      → (t : Token × Lzma) (w : Window) → IsToken w t
      → k ≤ fuel
      → k ≤ fuel'
      → write_token fuel k t ≡ write_token fuel' k t
  write_token-fuel fuel fuel' k ih (literal b, l) w is le le' =
      ih k (record l { window = put sink b l.window }) le le'
  write_token-fuel fuel fuel' k ih (again d n, l) w is le le' =
      rw
        (ih (suc k - n) (record l { window = (copy sink d n l.window).1 }) (omega (arith, is.1))
          (omega (arith, is.1)))
        refl

  chunk_from-fuel :
      (fuel fuel' left : ℕ) (l : Lzma)
      → left ≤ fuel
      → left ≤ fuel'
      → chunk_from sink fuel left l ≡ chunk_from sink fuel' left l
  unfolding chunk_from
  chunk_from-fuel fuel fuel' zero l le le' = refl
  chunk_from-fuel zero fuel' (suc k) l le le' = absurd (omega arith)
  chunk_from-fuel (suc fuel) zero (suc k) l le le' = absurd (omega arith)
  chunk_from-fuel (suc fuel) (suc fuel') (suc k) l le le' =
      ap (λ r. if l.coder.source.bad || l.window.wstop then (false, l) else r)
        (write_token-fuel fuel fuel' k (chunk_from-fuel fuel fuel') (next_token l) l.window
          (next_token-IsToken l) (omega arith) (omega arith))

  -- The loop of `lzma_chunk` gives the same with any number of rounds allowed that is not below
  -- the number of bytes to be written, so that none of its results comes from the limit.
  pub chunk_from-lzma_chunk :
      (fuel left : ℕ) (l : Lzma)
      → left ≤ fuel
      → chunk_from sink fuel left l ≡ lzma_chunk sink left l
  unfolding lzma_chunk
  chunk_from-lzma_chunk fuel left l le = chunk_from-fuel fuel left left l le (omega arith)
