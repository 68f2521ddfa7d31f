-- ===== src/Shared/Counts.antt =====
-- The counts of src/kernel/share.c: an entry's set to another, and the entry of a page.
use bax_os_dev.Base.{
  Option, some, ℕ, suc, ◌^◌, ◌<◌, Bool, true, false, ◌==◌, ◌≡◌, refl, ap, arith, Bool-cases, inl,
  inr, ◌⊎◌,
}
use bax_os_dev.Chains.Updates.{update_field}
use bax_os_dev.Chains.{update}
use bax_os_dev.Shared.{Entry, Shared, frame_number, of_frame}
use bax_os_dev.Shared.Tables.{keys_spared, frames_spared, free_spared, key_data}
use bax_os_dev.Shared.Held.{Held, held_of, IsProper-put, Suits-count, IsProper-same, instead}
use bax_os_dev.Shared.Sound.{
  view, live, keyed, unused, is_at, HasTables, HasTables-same, IsSound, of_frame-HasOr, live-below,
}
use bax_os_dev.Shared.LetGo.{view-live, view-some}

-- The table with another count of an entry.
abbrev pub count_at : ℕ → ℕ → Shared → Shared
count_at i c s = record s { entries = update s.entries i (record (s.entries i) { refs = c }) }

pub count_at-HasTables :
    (i c : ℕ) (s : Shared) (k f r : ℕ → Bool) → HasTables s k f r → HasTables (count_at i c s) k f r
count_at-HasTables i c s k f r h =
    let e = record (s.entries i) { refs = c } in
    let es = update s.entries i e in
    record {
      by_key =
          keys_spared s es k k (λ j. refl)
            (λ j o. update_field (λ (x : Entry). x.next_key) s.entries i e j refl)
            (λ j o. update_field (key_data s) s.entries i e j refl) h.by_key;
      by_frame =
          frames_spared s es f f (λ j. refl)
            (λ j o. update_field (λ (x : Entry). x.next_frame) s.entries i e j refl)
            (λ j o. update_field (λ (x : Entry). x.frame) s.entries i e j refl) h.by_frame;
      free =
          free_spared s es r r (λ j. refl)
            (λ j o. update_field (λ (x : Entry). x.next_key) s.entries i e j refl) h.free;
    }

-- A live entry's count set to one that is neither 0 nor too large.
module _ (s : Shared) (i c : ℕ) (on : live s i ≡ true) (positive : (c == 0) ≡ false) where
  count_at-live : (j : ℕ) → live (count_at i c s) j ≡ live s j
  unfolding live
  count_at-live j = elim (Bool-cases (j == i)) [
    | inl same ↦ let at : j ≡ i = ground arith in rw (same, at) (ground arith)
    | inr ne ↦ rw ne
  ]

  count_at-keyed : (j : ℕ) → keyed (count_at i c s) j ≡ keyed s j
  unfolding keyed
  count_at-keyed j = rw (
    count_at-live j,
    update_field (λ (x : Entry). x.start) s.entries i (record (s.entries i) { refs = c }) j refl,
  )

  count_at-unused : (j : ℕ) → unused (count_at i c s) j ≡ unused s j
  unfolding unused live
  count_at-unused j = elim (Bool-cases (j == i)) [
    | inl same ↦ let at : j ≡ i = ground arith in rw (same, at) (ground arith)
    | inr ne ↦ rw ne
  ]

  abbrev pub counted_view : ℕ → Option Held
  counted_view = instead i (some (record (held_of (s.entries i)) { refs = c })) (view s)

  count_at-view : (j : ℕ) → view (count_at i c s) j ≡ counted_view j
  unfolding view
  count_at-view j = elim (Bool-cases (j == i)) [
    | inl same ↦ let at : j ≡ i = ground arith in rw (count_at-live j, same, at, on)
    | inr ne ↦ rw (count_at-live j, ne)
  ]

  pub count_at-Sound :
      c < 2 ^ 32
      → IsSound s
      → IsSound (count_at i c s) × ((j : ℕ) → view (count_at i c s) j ≡ counted_view j)
  count_at-Sound fits sound =
      let p = held_of (s.entries i) in
      let there = view-live s i on in
      (
        record {
          tables =
              HasTables-same count_at-keyed count_at-live count_at-unused
                (count_at-HasTables i c s (keyed s) (live s) (unused s) sound.tables);
          proper = IsProper-same counted_view (view (count_at i c s)) count_at-view (
              IsProper-put (view s) i (record p { refs = c })
                (Suits-count (view s) i c p there fits sound.proper) sound.proper);
        },
        count_at-view,
      )

-- Of the page at an address: no entry has it, or one does.
abbrev pub Shares : Shared → ℕ → ℕ → Held → Type 0
Shares s page i p = (view s i ≡ some p) × (p.frame ≡ frame_number page)

abbrev pub SharesNone : Shared → ℕ → Type 0
SharesNone s page = (i : ℕ) (p : Held) → view s i ≡ some p → (p.frame == frame_number page) ≡ false

pub of_frame-cases :
    (s : Shared) (page : ℕ)
    → IsSound s
    → ((of_frame page s ≡ 0) × SharesNone s page)
      ⊎ ((i : ℕ) × (of_frame page s ≡ suc i)
          × (live s i ≡ true)
          × (is_at page (s.entries i) ≡ true))
of_frame-cases s page sound =
    elim (of_frame-HasOr s (live s) (live-below s) sound.tables.by_frame page) [
      | inl (e, absent) ↦ inl (
        e,
        λ i p there.
            let (on, same) = view-some s i p there in
            let at : (s.entries i).frame ≡ p.frame = ap (λ (h : Held). h.frame) same in
            ground (arith, absent i),
      )
      | inr (i, e, found) ↦ inr (i, e, ground arith, ground arith)
    ]
