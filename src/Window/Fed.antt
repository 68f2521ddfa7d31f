-- ===== src/Window/Fed.antt =====
-- A source of src/tuxpac/unpack.c that is read into the window byte by byte, with a sink that takes
-- all of it.
use bax_os_dev.Base.{
  ℕ, ◌≤◌, ◌≡◌, ◌<◌, refl, sym, ◌∙◌, ap, subst, arith, true, false, List, [], ◌∷◌, ◌++◌,
  append_assoc, append-nil, take, drop, set, length-append, length,
}
use bax_os_dev.Source.{Source, src_byte, src_read}
use bax_os_dev.Source.Stream.{stream, ReadsByte, src_byte-ReadsByte, src_read-ReadsAll}
use bax_os_dev.Window.{Window, Sink, put, flush, window_open, window_close}
use bax_os_dev.Window.History.{Holds, written, put-Holds, window_open-Holds, window_close-Holds}

-- Bytes put into the history, one after the other.
unfoldable pub onto : List ℕ → List ℕ → List ℕ
onto [] recent = recent
onto (b ∷ bs) recent = onto bs (b ∷ recent)

pub onto-append : (xs ys recent : List ℕ) → onto (xs ++ ys) recent ≡ onto ys (onto xs recent)
unfolding onto
onto-append [] ys recent = refl
onto-append (x ∷ xs) ys recent = onto-append xs ys (x ∷ recent)

pub written-onto : (bs recent : List ℕ) → written (onto bs recent) ≡ written recent ++ bs
unfolding onto
written-onto [] recent = sym (append-nil (written recent))
written-onto (b ∷ bs) recent =
    written-onto bs (b ∷ recent) ∙ append_assoc (written recent) (b ∷ []) bs

-- What is still to be read, from a source that has not run out.
pub record Has (rest : List ℕ) (s : Source) : Type 0 where
  pub stream : stream s ≡ rest
  pub sound : s.bad ≡ false

-- A window that holds a history, and a sink that has not stopped it.
pub record Goes (recent : List ℕ) (w : Window) : Type 0 where
  pub holds : Holds recent w
  pub on : w.wstop ≡ false

pub Has-byte :
    (b : ℕ) (rest : List ℕ) (s : Source)
    → Has (b ∷ rest) s
    → let (c, s') = src_byte s in (c ≡ b) × Has rest s'
Has-byte b rest s h =
    let r = subst (λ bs. ReadsByte s bs (src_byte s)) h.stream (src_byte-ReadsByte s) in
    (r.0, record { stream = r.1; sound = r.3 ∙ h.sound })

take-whole : (first rest : List ℕ) → take (length first) (first ++ rest) ≡ first
take-whole [] rest = refl
take-whole (b ∷ first) rest = ap (λ l. b ∷ l) (take-whole first rest)

drop-whole : (first rest : List ℕ) → drop (length first) (first ++ rest) ≡ rest
drop-whole [] rest = refl
drop-whole (b ∷ first) rest = drop-whole first rest

pub Has-whole :
    (first rest : List ℕ) (s : Source)
    → Has (first ++ rest) s
    → let (whole, got, s') = src_read (length first) s in
      (whole ≡ true) × (got ≡ first) × Has rest s'
Has-whole first rest s h =
    let n = length first in
    let r = src_read-ReadsAll n s in
    let enough : n ≤ length (stream s) =
      omega (arith, ap length h.stream, length-append first rest) in
    (
      ground (arith, r.whole, enough),
      r.bytes ∙ ap (take n) h.stream ∙ take-whole first rest,
      record {
        stream = r.rest ∙ ap (drop n) h.stream ∙ drop-whole first rest;
        sound = r.sound enough ∙ h.sound;
      },
    )

pub window_open-Goes : (size : ℕ) → 0 < size → Goes [] (window_open size)
unfolding window_open
window_open-Goes size h = record { holds = window_open-Holds size h; on = refl }

module _ (sink : Sink) (takes : (before block : List ℕ) → sink before block ≡ true) where
  pub put-Goes :
      (b : ℕ) (recent : List ℕ) (w : Window) → Goes recent w → Goes (b ∷ recent) (put sink b w)
  put-Goes b recent w g = record {
    holds = put-Holds sink b recent w g.holds;
    on = unfold put flush in ground (arith, g.on, takes w.sunk (take w.wsize (set w.win w.wpos b)));
  }

  closes :
      (recent : List ℕ) (w : Window) → Goes recent w → (window_close sink true false w).0 ≡ true
  unfolding window_close
  closes recent w g = ground (arith, g.on, takes w.sunk (take w.wpos w.win))

  -- Once the decoder has done its work, the sink has the whole history.
  pub close-Goes :
      (recent : List ℕ) (w : Window)
      → Goes recent w
      → let (ok, w') = window_close sink true false w in (ok ≡ true) × (w'.sunk ≡ written recent)
  close-Goes recent w g =
      let ok = closes recent w g in (ok, window_close-Holds sink true false recent w g.holds ok)
