-- ===== src/Input/Keys.antt =====
-- The keys that src/kernel/input.c takes to be held.
use bax_os_dev.Base.{
  ℕ, zero, suc, ◌*◌, ◌/◌, ◌%◌, ◌^◌, ◌≤◌, ◌<◌, ◌≡◌, ◌≢◌, refl, sym, ◌∙◌, ap, arith, Bool, true,
  false, not, List, length, get_or, set, get_or-set_self, get_or-set_ne, Option, some, none, ltb,
  ◌==◌, ◌||◌, ◌&&◌, if◌then◌else◌, if-both, length-set, Bool-cases, inl, inr,
}
use native.Mathlib.Nat.{div-div-eq-div-mul}
use bax_os_dev.Input.{
  Event, Queue, ev_key, key_bytes, has_bit, with_bit, without_bit, key_value, key_down, put_event,
  event_of, input_report,
}

half_div : (b j : ℕ) → b / 2 ^ suc j ≡ b / 2 / 2 ^ j
half_div b j =
    let e : 2 ^ suc j ≡ 2 * 2 ^ j = omega arith in
    ap (λ m. b / m) e ∙ sym (div-div-eq-div-mul b 2 (2 ^ j))

has_bit-half : (b j : ℕ) → has_bit b (suc j) ≡ has_bit (b / 2) j
has_bit-half b j = ap (λ m. m % 2 == 1) (half_div b j)

has_bit-le : (b k : ℕ) → has_bit b k ≡ true → 2 ^ k ≤ b
has_bit-le b zero h = ground (arith, h)
has_bit-le b (suc k) h =
    let below = has_bit-le (b / 2) k (sym (has_bit-half b k) ∙ h) in omega (arith, below)

-- A byte is halved and its lowest bit kept by a change of a higher bit.
with_bit-half :
    (b k : ℕ) → (with_bit b (suc k) / 2 ≡ with_bit (b / 2) k) × (with_bit b (suc k) % 2 ≡ b % 2)
with_bit-half b k = rw (has_bit-half b k) (ground arith)

without_bit-half :
    (b k : ℕ)
    → (without_bit b (suc k) / 2 ≡ without_bit (b / 2) k) × (without_bit b (suc k) % 2 ≡ b % 2)
without_bit-half b k =
    let enough : has_bit (b / 2) k ≡ true → 2 ^ k ≤ b / 2 = has_bit-le (b / 2) k in
    rw (has_bit-half b k) (ground (arith, enough))

-- The bit that is set, or cleared, and the others, which stay.
abbrev Sets : ℕ → ℕ → ℕ → Type 0
Sets b k j =
    (has_bit (with_bit b k) j ≡ (j == k || has_bit b j))
    × (has_bit (without_bit b k) j ≡ (not (j == k) && has_bit b j))

bits-Sets : (b k j : ℕ) → Sets b k j
bits-Sets b zero zero = ground arith
bits-Sets b zero (suc j) =
    let same : with_bit b 0 / 2 ≡ b / 2 = ground arith in
    let same' : without_bit b 0 / 2 ≡ b / 2 = ground arith in
    let higher : suc j == 0 ≡ false = ground arith in
    let with =
      has_bit-half (with_bit b 0) j ∙ ap (λ m. has_bit m j) same ∙ sym (has_bit-half b j) in
    let without =
      has_bit-half (without_bit b 0) j ∙ ap (λ m. has_bit m j) same' ∙ sym (has_bit-half b j) in
    rw higher (with, without)
bits-Sets b (suc k) zero = ground (arith, with_bit-half b k, without_bit-half b k)
bits-Sets b (suc k) (suc j) =
    let ih = bits-Sets (b / 2) k j in
    let same : (suc j == suc k) ≡ (j == k) = ground arith in
    let with =
      has_bit-half (with_bit b (suc k)) j
      ∙ ap (λ m. has_bit m j) (with_bit-half b k).0
      ∙ ih.0
      ∙ ap (λ h. j == k || h) (sym (has_bit-half b j)) in
    let without =
      has_bit-half (without_bit b (suc k)) j
      ∙ ap (λ m. has_bit m j) (without_bit-half b k).0
      ∙ ih.1
      ∙ ap (λ h. not (j == k) && h) (sym (has_bit-half b j)) in
    rw same (with, without)

-- Whether a key is held.
abbrev pub key_held : Queue → ℕ → Bool
key_held q code = has_bit (get_or q.down (code / 8) 0) (code % 8)

-- Whether a report is of a key of the bitmap.
abbrev pub is_key : ℕ → ℕ → Bool
is_key kind code = kind == ev_key && ltb code (key_bytes * 8)

down_lem :
    (us kind code value : ℕ) (q : Queue)
    → (input_report us kind code value q).down ≡ key_down q kind code value
unfolding input_report put_event
down_lem us kind code value q = go q.events
  where
    go :
        (o : Option (List Event))
        → let q' = record q { down = key_down q kind code value } in
          let after : Queue = elim o [
            | none ↦ q'
            | some events ↦
                put_event (event_of us kind code (key_value q kind code value)) events q'
          ] in
          after.down ≡ key_down q kind code value
    go none = refl
    go (some events) = refl

-- The bits of a byte after a key's bit was set or cleared.
key_byte_lem :
    (value byte k j : ℕ)
    → has_bit (if value == 0 then without_bit byte k else with_bit byte k) j
      ≡ (if j == k then not (value == 0) else has_bit byte j)
key_byte_lem value byte k j =
    let (with, without) = bits-Sets byte k j in
    elim (Bool-cases (value == 0)) [
      | inl e ↦
          rw (e, without) (elim (Bool-cases (j == k)) [ inl f ↦ rw f refl | inr f ↦ rw f refl ])
      | inr e ↦ rw (e, with) (elim (Bool-cases (j == k)) [ inl f ↦ rw f refl | inr f ↦ rw f refl ])
    ]

set_key_lem :
    (code value c : ℕ) (down : List ℕ)
    → length down ≡ key_bytes
    → code < key_bytes * 8
    → let byte = get_or down (code / 8) 0 in
      let new = if value == 0 then without_bit byte (code % 8) else with_bit byte (code % 8) in
      has_bit (get_or (set down (code / 8) new) (c / 8) 0) (c % 8)
      ≡ (if c == code then not (value == 0) else has_bit (get_or down (c / 8) 0) (c % 8))
set_key_lem code value c down size small =
    let byte = get_or down (code / 8) 0 in
    let new = if value == 0 then without_bit byte (code % 8) else with_bit byte (code % 8) in
    elim (Bool-cases (c / 8 == code / 8)) [
      | inl e ↦
          let at : c / 8 ≡ code / 8 = ground (arith, e) in
          let same : (c == code) ≡ (c % 8 == code % 8) = ground (arith, at) in
          rw (at, get_or-set_self down (code / 8) new 0 (omega (arith, size, small)), same)
            (key_byte_lem value byte (code % 8) (c % 8))
      | inr e ↦
          let off : code / 8 ≢ c / 8 = ground (arith, e) in
          let other : (c == code) ≡ false = ground (arith, e) in
          rw (other, get_or-set_ne down (code / 8) (c / 8) new 0 off) refl
    ]

key_down_lem :
    (kind code value c : ℕ) (q : Queue)
    → length q.down ≡ key_bytes
    → has_bit (get_or (key_down q kind code value) (c / 8) 0) (c % 8)
      ≡ (if is_key kind code && c == code then not (value == 0) else key_held q c)
key_down_lem kind code value c q size = elim (Bool-cases (is_key kind code)) [
  | inl e ↦ rw e (set_key_lem code value c q.down size (ground (arith, e)))
  | inr e ↦ rw e refl
]

-- After a report to a device, a key is held exactly if the report was of that key, and its value
-- not 0, or the report was not of that key and it was held before; the bitmap keeps its size.
pub input_report-key_held :
    (us kind code value c : ℕ) (q : Queue)
    → length q.down ≡ key_bytes
    → let q' = input_report us kind code value q in
      (key_held q' c ≡ (if is_key kind code && c == code then not (value == 0) else key_held q c))
      × (length q'.down ≡ key_bytes)
input_report-key_held us kind code value c q size =
    let e = down_lem us kind code value q in
    (
      ap (λ d. has_bit (get_or d (c / 8) 0) (c % 8)) e ∙ key_down_lem kind code value c q size,
      ap length e
          ∙ if-both (λ d. length d ≡ key_bytes) (is_key kind code) _ q.down
              (length-set q.down _ _ ∙ size) size,
    )
