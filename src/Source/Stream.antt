-- ===== src/Source/Stream.antt =====
-- A source of src/tuxpac/unpack.c is a stream of bytes: how they come into the buffer is not seen.
use bax_os_dev.Base.{
  ℕ, zero, suc, ◌+◌, ◌-◌, ◌≤◌, ◌<◌, ◌≡◌, refl, ap, sym, ◌∙◌, Bool, true, false, Option, none, some,
  List, [], ◌∷◌, ◌++◌, length, take, drop, ltb, if◌then◌else◌, Option-cases, inl, inr, arith, leb,
  append_assoc, length-append, take-prefix, drop-prefix, take-take-drop, drop-drop, length-take,
  length-drop, append-nil, subst,
}
use bax_os_dev.Source.{Source, refill, src_byte, read_from, src_read}

-- What `fill` still gives, up to the first call that gives nothing.
unfoldable pub joined : List (List ℕ) → List ℕ
joined [] = []
joined ([] ∷ cs) = []
joined ((b ∷ bs) ∷ cs) = (b ∷ bs) ++ joined cs

-- The bytes that are still to be read.
unfoldable pub stream : Source → List ℕ
stream s = s.held ++ (if s.bad then [] else joined s.chunks)

-- `src_byte` reads the first byte of the stream, and finds the source bad at its end.
abbrev pub ReadsByte : Source → List ℕ → ℕ × Source → Type 0
ReadsByte s [] (b, s') = (b ≡ 0) × (s'.bad ≡ true) × (stream s' ≡ []) × (s'.count ≡ s.count)
ReadsByte s (c ∷ rest) (b, s') =
    (b ≡ c) × (stream s' ≡ rest) × (s'.count ≡ s.count + 1) × (s'.bad ≡ s.bad)

byte_of :
    (held : List ℕ) (chunks : List (List ℕ)) (count : ℕ) (bad : Bool)
    → let s : Source = record { held = held; chunks = chunks; count = count; bad = bad } in
      ReadsByte s (stream s) (src_byte s)
unfolding stream src_byte refill joined
byte_of (b ∷ bs) chunks count bad = (refl, refl, refl, refl)
byte_of [] chunks count true = (refl, refl, refl, refl)
byte_of [] [] count false = (refl, refl, refl, refl)
byte_of [] ([] ∷ cs) count false = (refl, refl, refl, refl)
byte_of [] ((b ∷ bs) ∷ cs) count false = (refl, refl, refl, refl)

-- `src_byte` returns the next byte of the stream, counts it and leaves the rest; at the end of the
-- stream it returns 0 and the source is bad from then on.
pub src_byte-ReadsByte : (s : Source) → ReadsByte s (stream s) (src_byte s)
src_byte-ReadsByte s = byte_of s.held s.chunks s.count s.bad

-- A read gets the next bytes of the stream, and says whether there were enough.
pub record ReadsAll (n : ℕ) (s : Source) (out : List ℕ) (r : Bool × List ℕ × Source) : Type 0 where
  pub whole : r.0 ≡ leb n (length (stream s))
  pub bytes : r.1 ≡ out ++ take n (stream s)
  pub rest : stream r.2 ≡ drop n (stream s)
  pub counted : r.2.count ≡ s.count + length (take n (stream s))
  pub sound : n ≤ length (stream s) → r.2.bad ≡ s.bad

-- What `refill` finds: the end of the stream, or a byte at the front of the buffer.
abbrev Refills : Source → Option Source → Type 0
Refills s none = stream s ≡ []
Refills s (some s') =
    (stream s' ≡ stream s) × (0 < length s'.held) × (s'.count ≡ s.count) × (s'.bad ≡ s.bad)

refill_of :
    (held : List ℕ) (chunks : List (List ℕ)) (count : ℕ) (bad : Bool)
    → let s : Source = record { held = held; chunks = chunks; count = count; bad = bad } in
      Refills s (refill s)
unfolding stream refill joined
refill_of (b ∷ bs) chunks count bad = (refl, omega arith, refl, refl)
refill_of [] chunks count true = refl
refill_of [] [] count false = refl
refill_of [] ([] ∷ cs) count false = refl
refill_of [] ((b ∷ bs) ∷ cs) count false = (refl, omega arith, refl, refl)

refill-Refills : (s : Source) → Refills s (refill s)
refill-Refills s = refill_of s.held s.chunks s.count s.bad

module _ (s s' : Source) (n k : ℕ) (out : List ℕ) (found : Refills s (some s')) (few : k ≤ n)
    (has : k ≤ length s'.held) where
  abbrev after : Source
  after = record s' { held = drop k s'.held; count = s'.count + k }

  stream-after : stream after ≡ drop k (stream s)
  unfolding stream
  stream-after =
      sym (drop-prefix s'.held (if s'.bad then [] else joined s'.chunks) k has)
      ∙ ap (drop k) found.0

  taken_after : take k s'.held ≡ take k (stream s)
  unfolding stream
  taken_after =
      sym (take-prefix s'.held (if s'.bad then [] else joined s'.chunks) k has)
      ∙ ap (take k) found.0

  -- A round that takes `k` of the bytes leaves the rest to the next one.
  round-ReadsAll :
      (r : Bool × List ℕ × Source)
      → ReadsAll (n - k) after (out ++ take k s'.held) r
      → ReadsAll n s out r
  round-ReadsAll r a =
      let sum : k + (n - k) ≡ n = omega arith in
      record {
        whole = ground (arith, a.whole, stream-after, length-drop k (stream s), enough);
        bytes =
            a.bytes
            ∙ ap (λ l. out ++ take k s'.held ++ take (n - k) l) stream-after
            ∙ append_assoc out (take k s'.held) (take (n - k) (drop k (stream s)))
            ∙ ap (λ l. out ++ (l ++ take (n - k) (drop k (stream s)))) taken_after
            ∙ ap (λ l. out ++ l) (take-take-drop k (n - k) (stream s))
            ∙ ap (λ m. out ++ take m (stream s)) sum;
        rest =
            a.rest
            ∙ ap (drop (n - k)) stream-after
            ∙ drop-drop k (n - k) (stream s)
            ∙ ap (λ m. drop m (stream s)) sum;
        counted = omega (
          arith,
          a.counted,
          found.2,
          ap (λ l. length (take (n - k) l)) stream-after,
          length-take (n - k) (drop k (stream s)),
          length-take n (stream s),
          length-drop k (stream s),
          enough,
        );
        sound = λ all.
            a.sound (omega (arith, all, ap length stream-after, length-drop k (stream s)))
            ∙ found.3;
      }
    where
      enough : k ≤ length (stream s)
      enough =
          unfold stream in
          omega (
            arith,
            ap length found.0,
            length-append s'.held (if s'.bad then [] else joined s'.chunks),
          )

append-eq-nil : (a b : List ℕ) → a ++ b ≡ [] → a ≡ []
append-eq-nil [] b e = refl
append-eq-nil (x ∷ a) b e = cc

ended-ReadsAll :
    (n : ℕ) (out : List ℕ) (s : Source)
    → stream s ≡ []
    → ReadsAll (suc n) s out (false, out, record s { bad = true })
unfolding stream
ended-ReadsAll n out s over = record {
  whole = ground (arith, ap length over);
  bytes = rw over (sym (append-nil out));
  rest = bad_stream ∙ rw over refl;
  counted = rw over (omega arith);
  sound = λ all. absurd (omega (arith, all, ap length over));
}
  where
    bad_stream : stream (record s { bad = true }) ≡ []
    bad_stream =
        append-nil s.held ∙ append-eq-nil s.held (if s.bad then [] else joined s.chunks) over

read_from-ReadsAll :
    (fuel n : ℕ) (out : List ℕ) (s : Source) → n < fuel → ReadsAll n s out (read_from fuel n out s)
unfolding read_from
read_from-ReadsAll zero n out s h = absurd (omega arith)
read_from-ReadsAll (suc fuel) zero out s h = record {
  whole = ground arith;
  bytes = sym (append-nil out);
  rest = refl;
  counted = omega arith;
  sound = λ all. refl;
}
read_from-ReadsAll (suc fuel) (suc n) out s h =
    let found = refill-Refills s in
    elim (Option-cases (refill s)) [
      | inl e ↦
          let over : stream s ≡ [] = subst (Refills s) e found in
          rw (e, read_from) (ended-ReadsAll n out s over)
      | inr (s', e) ↦
          let k = if ltb (length s'.held) (suc n) then length s'.held else suc n in
          let f : Refills s (some s') = subst (Refills s) e found in
          let few : k ≤ suc n = ground arith in
          let has : k ≤ length s'.held = ground arith in
          let some_taken : 0 < k = ground (arith, f.1) in
          let s'' : Source = record s' { held = drop k s'.held; count = s'.count + k } in
          rw (e, read_from)
            (round-ReadsAll s s' (suc n) k out f few has _
              (read_from-ReadsAll fuel (suc n - k) (out ++ take k s'.held) s'' (omega arith)))
    ]

-- `src_read` of n bytes gets the next n bytes of the stream, or as many as there are, in order,
-- adds their number to the count, leaves the rest of the stream, and returns true exactly if it
-- got all; and then the source is bad only if it was before.
pub src_read-ReadsAll : (n : ℕ) (s : Source) → ReadsAll n s [] (src_read n s)
unfolding src_read
src_read-ReadsAll n s = read_from-ReadsAll (n + 1) n [] s (omega arith)
