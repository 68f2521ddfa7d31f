-- ===== src/Shared/Again.antt =====
-- Calls of src/kernel/share.c one behind the other, on the table that the kernel starts with or any
-- sound one: adding a page, or writing to the disk, and then looking for a page.
use mathlib.Core.Option
use bax_os_dev.Base.{
  Option, none, some, ◌≢◌, ◌⊎◌, ℕ, ◌+◌, ◌*◌, ◌^◌, ◌<◌, Bool, true, false, ◌==◌, if◌then◌else◌, ◌≡◌,
  refl, sym, ap, ◌∙◌, arith, Bool-cases, inl, inr, subst, if-both,
}
use mathlib.Core.Option.{some-injective}
use bax_os_dev.Shared.{Shared, frame_number}
use bax_os_dev.Shared.{page_bytes, page_sectors, nothing_shared}
use bax_os_dev.Chains.Tables.{IsListed-empty}
use bax_os_dev.Shared.Calls.{shared_add, shared_find, shared_written}
use bax_os_dev.Shared.Held.{Held, instead, IsProper}
use bax_os_dev.Shared.Sound.{view, live, keyed, unused, IsSound}
use bax_os_dev.Shared.Gains.{IsNew, new_page}
use bax_os_dev.Shared.Add.{shared_add-Added, Added}
use bax_os_dev.Shared.Find.{shared_find-Found, Found}
use bax_os_dev.Shared.Written.{
  shared_written-Written, wiped, is_over, is_over-some, is_over-file, is_over-same, OnDisk,
}

false_ne_true : false ≢ true
false_ne_true e = ground arith

nothing-live : (j : ℕ) → live nothing_shared j ≡ false
unfolding live nothing_shared
nothing-live j = ground arith

pub nothing-view : (j : ℕ) → view nothing_shared j ≡ none
unfolding view
nothing-view j = rw (nothing-live j)

pub nothing_shared-Sound : IsSound nothing_shared
unfolding nothing_shared keyed live unused
nothing_shared-Sound = record {
  tables = record {
    by_key = λ h. IsListed-empty refl (λ j. ground arith);
    by_frame = λ h. IsListed-empty refl (λ j. ground arith);
    free = IsListed-empty refl (λ j. ground arith);
  };
  proper = record {
    one_key = λ i j p q e. absurd (ground (arith, nothing-view i, e));
    one_frame = λ i j p q e. absurd (ground (arith, nothing-view i, e));
    fits = λ j p e. absurd (ground (arith, nothing-view j, e));
  };
}

-- In a table that has the page `p` at `i`, looking for it finds it.
Found-there :
    (t : Shared) (start index i : ℕ) (p : Held) (r : ℕ × Shared)
    → IsProper (view t)
    → view t i ≡ some p
    → (start == 0) ≡ false
    → p.start ≡ start
    → p.index ≡ index
    → Found t start index r
    → r.0 ≡ p.frame * page_bytes
Found-there t start index i p r proper there file a b (inl (z, same, absent)) =
    absurd (ground (arith, absent i p there))
Found-there t start index i p r proper there file a b (inr (j, q, tq, c, d, at, still, left)) =
    let one = proper.one_key i j p q there tq (ground arith) in
    let eq : i ≡ j = ground arith in
    let same : p ≡ q = some-injective p q (sym there ∙ ap (view t) eq ∙ tq) in
    at ∙ ap (λ (h : Held). h.frame * page_bytes) (sym same)

instead_self : (i : ℕ) (p : Held) (v : ℕ → Option Held) → instead i (some p) v i ≡ some p
instead_self i p v = let e : (i == i) ≡ true = ground arith in rw e

abbrev pub Counted : Shared → Type 0
Counted s = (i : ℕ) (p : Held) → view s i ≡ some p → p.refs + 1 < 2 ^ 32

-- What is put into a table is there, or what is there was there before.
instead-cases :
    (v w : ℕ → Option Held) (i : ℕ) (e : Held)
    → ((j : ℕ) → w j ≡ instead i (some e) v j)
    → (j : ℕ) (p : Held) → w j ≡ some p
    → (e ≡ p) ⊎ (v j ≡ some p)
instead-cases v w i e left j p there = elim (Bool-cases (j == i)) [
  | inl same ↦
      let at : j ≡ i = ground arith in
      inl (some-injective e p (sym (instead_self i e v) ∙ sym (left i) ∙ ap w (sym at) ∙ there))
  | inr ne ↦ inr (ap (λ (b : Bool). if b then some e else v j) (sym ne) ∙ sym (left j) ∙ there)
]

pub bound_grown :
    (s t : Shared) (i : ℕ) (e : Held)
    → ((j : ℕ) → view t j ≡ instead i (some e) (view s) j)
    → e.refs + 1 < 2 ^ 32
    → Counted s
    → Counted t
bound_grown s t i e left lt bound j p there =
    elim (instead-cases (view s) (view t) i e left j p there) [
      | inl q ↦ subst (λ (h : Held). h.refs + 1 < 2 ^ 32) q lt
      | inr before ↦ bound j p before
    ]

pub OnDisk-instead :
    (v w : ℕ → Option Held) (i : ℕ) (e : Held)
    → ((j : ℕ) → w j ≡ instead i (some e) v j)
    → e.start + e.index * page_sectors + page_sectors < 2 ^ 32
    → OnDisk v
    → OnDisk w
OnDisk-instead v w i e left lt disk j p there file = elim (instead-cases v w i e left j p there) [
  | inl q ↦ subst (λ (h : Held). h.start + h.index * page_sectors + page_sectors < 2 ^ 32) q lt
  | inr before ↦ disk j p before file
]

-- In a sound table whose room can double in 32 bits and whose counts are below the largest there
-- is, after a page of a file in no entry has been added, looking for it returns the frame that it
-- was added with.
pub shared_find-shared_add :
    (memory : ℕ → Bool) (start index page : ℕ) (s : Shared)
    → s.room < 2 ^ 31
    → (start == 0) ≡ false
    → IsSound s
    → IsNew s (new_page start index page)
    → Counted s
    → let (ok, t) = shared_add memory start index page s in
      ok ≡ true → (shared_find start index t).0 ≡ frame_number page * page_bytes
shared_find-shared_add memory start index page s lt file sound new bound =
    go (shared_add memory start index page s)
      (shared_add-Added memory start index page s lt file sound new)
  where
    go :
        (r : Bool × Shared)
        → Added memory s (new_page start index page) r
        → r.0 ≡ true
        → (shared_find start index (r.1)).0 ≡ frame_number page * page_bytes
    go r (inl (no_room, same, empty, refused)) ok = absurd (ground arith)
    go (added, t) (inr (yes_room, (still, (i, free, left)))) ok =
        let here : view t i ≡ some (new_page start index page) =
          left i ∙ instead_self i (new_page start index page) (view s) in
        Found-there t start index i (new_page start index page) (shared_find start index t)
          still.proper here file refl refl
          (shared_find-Found t start index still file
            (bound_grown s t i (new_page start index page) left (omega arith) bound))

wiped-some :
    (lba count : ℕ) (o : Option Held) (p : Held)
    → Option.map (wiped lba count) o ≡ some p
    → (q : Held) × (o ≡ some q) × (wiped lba count q ≡ p)
wiped-some lba count none p e = absurd (cc)
wiped-some lba count (some q) p e = (q, refl, some-injective (wiped lba count q) p e)

-- A page that is still one of a file is not among the sectors written.
wiped-apart :
    (lba count : ℕ) (q p : Held)
    → wiped lba count q ≡ p
    → (p.start == 0) ≡ false
    → is_over lba count p ≡ false
wiped-apart lba count q p e file = elim (Bool-cases (is_over lba count q)) [
  | inl over ↦ absurd (
      ground (
        arith,
        ap (λ (h : Held). h.start)
            (sym (ap (λ (b : Bool). if b then record q { start = 0 } else q) over) ∙ e),
        file,
      ))
  | inr out ↦
      let same : q ≡ p = sym (ap (λ (b : Bool). if b then record q { start = 0 } else q) out) ∙ e in
      subst (λ (h : Held). is_over lba count h ≡ false) same out
]

wiped-refs : (lba count : ℕ) (q : Held) → (wiped lba count q).refs ≡ q.refs
wiped-refs lba count q =
    if-both (λ (h : Held). h.refs ≡ q.refs) (is_over lba count q) (record q { start = 0 }) q refl
      refl

-- In a sound table whose counts are below the largest there is, and whose pages of files end below
-- 2 ^ 32, after a write to the disk that ends below 2 ^ 32 and has a sector of a page of a file,
-- looking for that page returns 0.
pub shared_find-shared_written :
    (lba count start index : ℕ) (s : Shared)
    → lba + count < 2 ^ 32
    → OnDisk (view s)
    → IsSound s
    → Counted s
    → is_over lba count (new_page start index 0) ≡ true
    → (shared_find start index (shared_written lba count s)).0 ≡ 0
shared_find-shared_written lba count start index s low disk sound bound over =
    let t = shared_written lba count s in
    let (still, left) =
      shared_written-Written lba count s (is_over-some lba count (new_page start index 0) over) low
        disk sound in
    let file = is_over-file lba count (new_page start index 0) over in
    let counted : Counted t = λ i p there.
      let (q, sq, e) = wiped-some lba count (view s i) p (sym (left i) ∙ there) in
      let refs = sym (wiped-refs lba count q) ∙ ap (λ (h : Held). h.refs) e in
      subst (λ n. n + 1 < 2 ^ 32) refs (bound i q sq) in
    elim (shared_find-Found t start index still file counted) [
      | inl (z, same, absent) ↦ z
      | inr (i, p, there, a, b, at, more, others) ↦
          let (q, sq, e) = wiped-some lba count (view s i) p (sym (left i) ∙ there) in
          let out : is_over lba count p ≡ false = wiped-apart lba count q p e (ground (arith, a)) in
          let same : is_over lba count p ≡ is_over lba count (new_page start index 0) =
            is_over-same lba count p (new_page start index 0) a b in
          absurd (false_ne_true (sym out ∙ same ∙ over))
    ]
