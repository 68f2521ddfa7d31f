-- ===== src/Shared/Held.antt =====
-- The pages that the table of src/kernel/share.c holds, whatever chain they are on.
use bax_os_dev.Base.{
  ℕ, ◌^◌, ◌<◌, Bool, true, false, ◌==◌, if◌then◌else◌, ◌≡◌, sym, ◌∙◌, arith, Bool-cases, inl, inr,
  Option, some, subst,
}
use mathlib.Core.Option.{some-injective}
use bax_os_dev.Shared.{Entry}

-- What the table says of an entry that is in use.
pub record Held : Type 0 where
  pub start : ℕ
  pub index : ℕ
  pub frame : ℕ
  pub refs : ℕ

abbrev pub held_of : Entry → Held
held_of e = record { start = e.start; index = e.index; frame = e.frame; refs = e.refs }

-- Whether two entries are the same page of a file; 0 is no file.
abbrev pub same_key : Held → Held → Bool
same_key p q =
    if p.start == 0 then false else if p.start == q.start then p.index == q.index else false

abbrev pub same_frame : Held → Held → Bool
same_frame p q = p.frame == q.frame

-- No two entries have the same page of a file, or the same page of memory, and no count wraps.
pub record IsProper (v : ℕ → Option Held) : Type 0 where
  pub one_key :
      (i j : ℕ) (p q : Held) → v i ≡ some p → v j ≡ some q → same_key p q ≡ true → (i == j) ≡ true
  pub one_frame :
      (i j : ℕ) (p q : Held) → v i ≡ some p → v j ≡ some q → same_frame p q ≡ true → (i == j) ≡ true
  pub fits : (j : ℕ) (p : Held) → v j ≡ some p → p.refs < 2 ^ 32

abbrev pub instead : ℕ → Option Held → (ℕ → Option Held) → ℕ → Option Held
instead i x v j = if j == i then x else v j

-- What is put at `i` is no page that another entry has.
pub record Suits (v : ℕ → Option Held) (i : ℕ) (p : Held) : Type 0 where
  pub new_key : (j : ℕ) (q : Held) → v j ≡ some q → same_key p q ≡ true → (i == j) ≡ true
  pub new_frame : (j : ℕ) (q : Held) → v j ≡ some q → same_frame p q ≡ true → (i == j) ≡ true
  pub counted : p.refs < 2 ^ 32

-- A relation of pages that holds between no two entries, but of an entry to itself.
abbrev One : (Held → Held → Bool) → (ℕ → Option Held) → Type 0
One same v =
    (i j : ℕ) (p q : Held) → v i ≡ some p → v j ≡ some q → same p q ≡ true → (i == j) ≡ true

One-instead :
    (same : Held → Held → Bool) (v : ℕ → Option Held) (i : ℕ) (x : Option Held)
    → ((p q : Held) → same p q ≡ true → same q p ≡ true)
    → ((p : Held)
        → x ≡ some p
        → (j : ℕ) (q : Held) → v j ≡ some q
        → same p q ≡ true
        → (i == j) ≡ true)
    → One same v
    → One same (instead i x v)
One-instead same v i x turn new one a b p q ea eb s = elim (Bool-cases (a == i)) [
  | inl ai ↦ elim (Bool-cases (b == i)) [
    | inl bi ↦ ground arith
    | inr bn ↦ ground (arith, new p (ground arith) b q (ground arith) s)
  ]
  | inr an ↦ elim (Bool-cases (b == i)) [
    | inl bi ↦ ground (arith, new q (ground arith) a p (ground arith) (turn p q s))
    | inr bn ↦ one a b p q (ground arith) (ground arith) s
  ]
]

pub IsProper-instead :
    (v : ℕ → Option Held) (i : ℕ) (x : Option Held)
    → ((p : Held) → x ≡ some p → Suits v i p)
    → IsProper v
    → IsProper (instead i x v)
IsProper-instead v i x suits proper = record {
  one_key =
      One-instead same_key v i x (λ p q s. ground arith) (λ p e. (suits p e).new_key)
        proper.one_key;
  one_frame =
      One-instead same_frame v i x (λ p q s. ground arith) (λ p e. (suits p e).new_frame)
        proper.one_frame;
  fits = λ j p e. elim (Bool-cases (j == i)) [
    | inl same ↦ (suits p (ground arith)).counted
    | inr ne ↦ proper.fits j p (ground arith)
  ];
}

pub IsProper-same : (v w : ℕ → Option Held) → ((j : ℕ) → w j ≡ v j) → IsProper v → IsProper w
IsProper-same v w same proper = record {
  one_key = λ a b p q ea eb. proper.one_key a b p q (sym (same a) ∙ ea) (sym (same b) ∙ eb);
  one_frame = λ a b p q ea eb. proper.one_frame a b p q (sym (same a) ∙ ea) (sym (same b) ∙ eb);
  fits = λ j p e. proper.fits j p (sym (same j) ∙ e);
}

pub IsProper-put :
    (v : ℕ → Option Held) (i : ℕ) (p : Held)
    → Suits v i p
    → IsProper v
    → IsProper (instead i (some p) v)
IsProper-put v i p suits proper =
    IsProper-instead v i (some p) (λ q e. subst (Suits v i) (some-injective p q e) suits) proper

-- Another count suits.
pub Suits-count :
    (v : ℕ → Option Held) (i c : ℕ) (p : Held)
    → v i ≡ some p
    → c < 2 ^ 32
    → IsProper v
    → Suits v i (record p { refs = c })
Suits-count v i c p there fits proper = record {
  new_key = λ j q. proper.one_key i j p q there;
  new_frame = λ j q. proper.one_frame i j p q there;
  counted = fits;
}
