-- ===== src/Lzma2/Stored.antt =====
-- What `lzma2` of src/tuxpac/unpack.c makes of chunks that are stored.
use bax_os_dev.Base.{
  ℕ, zero, suc, ◌+◌, ◌-◌, ◌*◌, ◌/◌, ◌%◌, ◌^◌, ◌≤◌, ◌<◌, ◌≡◌, refl, sym, subst, arith, Bool, true,
  false, List, [], ◌∷◌, ◌++◌, append_assoc, length, Option, none, some, ◌==◌, ◌||◌, if◌then◌else◌,
  if-both, if-true, if-false,
}
use bax_os_dev.Window.{Window, Sink, back, put}
use bax_os_dev.Window.Fed.{onto, onto-append, Has, Goes, Has-byte, put-Goes}
use bax_os_dev.Window.History.{Holds}
use bax_os_dev.Chunk.{Lzma}
use bax_os_dev.Lzma2.{
  with_window, take_byte, take_size, reset_total, stored_bytes, stored_chunk, chunk_of, chunks_from,
  lzma2,
}

-- A stored chunk: whether it resets the dictionary, and its bytes.
pub record Stored : Type 0 where
  pub resets : Bool
  pub bytes : List ℕ

-- How stored chunks are written, up to the 0 behind the last.
abbrev pub file_of : List Stored → List ℕ
file_of [] = 0 ∷ []
file_of (c ∷ cs) =
    (if c.resets then 1 else 2)
    ∷ ((length c.bytes - 1) / 2 ^ 8 ∷ ((length c.bytes - 1) % 2 ^ 8 ∷ (c.bytes ++ file_of cs)))

-- The bytes of all of them.
abbrev pub bytes_of : List Stored → List ℕ
bytes_of [] = []
bytes_of (c ∷ cs) = c.bytes ++ bytes_of cs

-- Each has from 1 to 65536 bytes.
abbrev pub AreSized : List Stored → Type 0
AreSized [] = Unit {0}
AreSized (c ∷ cs) = ((0 < length c.bytes) × (length c.bytes ≤ 2 ^ 16)) × AreSized cs

-- A decoder with bytes still to be read, and a history.
pub record Stands (recent rest : List ℕ) (l : Lzma) : Type 0 where
  pub has : Has rest l.coder.source
  pub goes : Goes recent l.window

-- A result that is true, and where the decoder then stands.
abbrev pub Unpacks : List ℕ → List ℕ → Option (Bool × Lzma) → Type 0
Unpacks recent rest none = ⊥
Unpacks recent rest (some (ok, l)) = (ok ≡ true) × Stands recent rest l

byte-Stands :
    (b : ℕ) (recent rest : List ℕ) (l : Lzma)
    → Stands recent (b ∷ rest) l
    → let (c, l') = take_byte l in (c ≡ b) × Stands recent rest l'
byte-Stands b recent rest l st =
    let (same, h) = Has-byte b rest l.coder.source st.has in
    (same, record { has = h; goes = st.goes })

size-Stands :
    (high low : ℕ) (recent rest : List ℕ) (l : Lzma)
    → Stands recent (high ∷ (low ∷ rest)) l
    → let (n, l') = take_size 0 l in (n ≡ high * 2 ^ 8 + low + 1) × Stands recent rest l'
size-Stands high low recent rest l st =
    let (e, st1) = byte-Stands high recent (low ∷ rest) l st in
    let (f, st2) = byte-Stands low recent rest (take_byte l).1 st1 in (omega (arith, e, f), st2)

reset-Holds :
    (recent : List ℕ) (w : Window) → Holds recent w → Holds recent (record w { total = 0 })
unfolding back
reset-Holds recent w h = record {
  sized = h.sized;
  inside = h.inside;
  looks_back = h.looks_back;
  counted = omega arith;
  given = h.given;
}

reset-Stands :
    (resets : Bool) (recent rest : List ℕ) (l : Lzma)
    → Stands recent rest l
    → Stands recent rest (reset_total resets l)
reset-Stands resets recent rest l st =
    if-both (Stands recent rest) resets _ l
      (record {
        has = st.has;
        goes = record { holds = reset-Holds recent l.window st.goes.holds; on = st.goes.on };
      })
      st

still_on :
    (recent rest : List ℕ) (l : Lzma)
    → Stands recent rest l
    → (l.coder.source.bad || l.window.wstop) ≡ false
still_on recent rest l st = ground (arith, st.has.sound, st.goes.on)

module _ (sink : Sink) (takes : (before block : List ℕ) → sink before block ≡ true) where
  stored_bytes-Stands :
      (bs recent rest : List ℕ) (l : Lzma)
      → Stands recent (bs ++ rest) l
      → Stands (onto bs recent) rest (stored_bytes sink (length bs) l)
  unfolding stored_bytes onto
  stored_bytes-Stands [] recent rest l st = st
  stored_bytes-Stands (b ∷ bs) recent rest l st =
      let (same, st1) = byte-Stands b recent (bs ++ rest) l st in
      let (c, l1) = take_byte l in
      let put_b : Goes (b ∷ recent) (put sink c l1.window) =
        subst (λ x. Goes (x ∷ recent) (put sink c l1.window)) same
          (put-Goes sink takes c recent l1.window st1.goes) in
      if-false (Stands (onto bs (b ∷ recent)) rest) l.coder.source.bad l _ st.has.sound (
        stored_bytes-Stands bs (b ∷ recent) rest (with_window (put sink c l1.window) l1)
          (record { has = st1.has; goes = put_b }))

  stored_chunk-Stands :
      (c : ℕ) (bs recent rest : List ℕ) (l : Lzma)
      → (0 < length bs) × (length bs ≤ 2 ^ 16)
      → Stands recent ((length bs - 1) / 2 ^ 8 ∷ ((length bs - 1) % 2 ^ 8 ∷ (bs ++ rest))) l
      → Stands (onto bs recent) rest (stored_chunk sink c l)
  unfolding stored_chunk
  stored_chunk-Stands c bs recent rest l size st =
      let (n, l1) = take_size 0 l in
      let (e, st1) = size-Stands _ _ recent (bs ++ rest) l st in
      let all : n ≡ length bs = omega (arith, e, size) in
      subst (λ k. Stands (onto bs recent) rest (stored_bytes sink k (reset_total (c == 1) l1)))
        (sym all)
        (stored_bytes-Stands bs recent rest (reset_total (c == 1) l1)
          (reset-Stands (c == 1) recent (bs ++ rest) l1 st1))

  chunks_from-Unpacks :
      (fuel : ℕ) (props : Bool) (cs : List Stored) (recent rest : List ℕ) (l : Lzma)
      → AreSized cs
      → Stands recent (file_of cs ++ rest) l
      → length cs < fuel
      → Unpacks (onto (bytes_of cs) recent) rest (chunks_from sink fuel props l)
  unfolding chunks_from chunk_of onto
  chunks_from-Unpacks zero props cs recent rest l sized st lt = absurd (omega arith)
  chunks_from-Unpacks (suc fuel) props [] recent rest l sized st lt =
      let (e, st1) = byte-Stands 0 recent rest l st in
      let (c, l1) = take_byte l in
      let P : Option (Bool × Lzma) → Type 0 = Unpacks recent rest in
      if-false P (l1.coder.source.bad || l1.window.wstop) _ _ (still_on recent rest l1 st1)
        (if-true P (c == 0) _ _ (ground (arith, e)) (refl, st1))
  chunks_from-Unpacks (suc fuel) props (x ∷ cs) recent rest l sized st lt =
      let n = length x.bytes in
      let first : ℕ = if x.resets then 1 else 2 in
      let (e, st1) =
        byte-Stands first recent
          ((n - 1) / 2 ^ 8 ∷ ((n - 1) % 2 ^ 8 ∷ ((x.bytes ++ file_of cs) ++ rest))) l st in
      let (c, l1) = take_byte l in
      let one : (c == 1 || c == 2) ≡ true = ground (arith, e) in
      let st2 = stored_chunk-Stands c x.bytes recent (file_of cs ++ rest) l1 sized.0 (
        subst (λ r. Stands recent ((n - 1) / 2 ^ 8 ∷ ((n - 1) % 2 ^ 8 ∷ r)) l1)
          (append_assoc x.bytes (file_of cs) rest) st1) in
      let P : Option (Bool × Lzma) → Type 0 = Unpacks (onto (x.bytes ++ bytes_of cs) recent) rest in
      if-false P (l1.coder.source.bad || l1.window.wstop) _ _ (still_on recent _ l1 st1) (
        if-false P (c == 0) _ _ (ground (arith, e)) (
          rw one (
            subst (λ r. Unpacks r rest (chunks_from sink fuel props (stored_chunk sink c l1)))
              (sym (onto-append x.bytes (bytes_of cs) recent))
              (chunks_from-Unpacks fuel props cs (onto x.bytes recent) rest (stored_chunk sink c l1)
                sized.1 st2 (omega arith)))))

  -- For a source that has stored chunks of 1 to 65536 bytes, each with or without a reset of the
  -- dictionary, then a 0 and anything, a window that holds a history, and a sink that takes
  -- everything, `lzma2` with more fuel than there are chunks returns true; the window holds that
  -- history with the bytes of all chunks, in order, and what is behind the 0 is left.
  pub lzma2-Unpacks :
      (fuel : ℕ) (cs : List Stored) (recent rest : List ℕ) (l : Lzma)
      → AreSized cs
      → Has (file_of cs ++ rest) l.coder.source
      → Goes recent l.window
      → length cs < fuel
      → Unpacks (onto (bytes_of cs) recent) rest (lzma2 sink fuel l)
  unfolding lzma2
  lzma2-Unpacks fuel cs recent rest l sized h g lt =
      chunks_from-Unpacks fuel false cs recent rest l sized (record { has = h; goes = g }) lt
