-- ===== src/Shared/Placed.antt =====
-- The loop of `grow` in src/kernel/share.c, which puts each entry on its chains.
use bax_os_dev.Base.{
  zero, ◌≤◌, leb, ℕ, suc, ◌<◌, Bool, true, false, ◌&&◌, ◌==◌, ◌≡◌, refl, ap, ◌∙◌, arith, Bool-cases,
  inl, inr,
}
use bax_os_dev.Chains.Updates.{update_field, update_other, update_self, ne_of_tests}
use bax_os_dev.Chains.{update}
use bax_os_dev.Shared.{Entry, Shared, link_key, link_frame}
use bax_os_dev.Chains.Tables.{IsListed-link, IsListed-empty}
use bax_os_dev.Shared.Tables.{keys_spared, frames_spared, with_key, key_data}
use bax_os_dev.Shared.Calls.{place_entry, place_below}
use bax_os_dev.Shared.Held.{Held, held_of}
use bax_os_dev.Shared.Sound.{live, keyed, unused, HasTables, HasTables-same}
use bax_os_dev.Shared.Link.{
  plus, link_key-HasTables, link_frame-HasTables, link_key-held, link_frame-held, link_key-room,
  link_frame-room,
}

-- What is true of an entry of those behind the loop's place.
abbrev pub from : ℕ → (ℕ → Bool) → ℕ → Bool
from n on j = leb n j && on j

from-plus : (on : ℕ → Bool) (i j : ℕ) → on i ≡ true → from i on j ≡ plus (from (suc i) on) i j
from-plus on i j o = elim (Bool-cases (j == i)) [
  | inl same ↦ let at : j ≡ i = ground arith in rw at (ground (arith, o))
  | inr ne ↦ ground arith
]

from-skip : (on : ℕ → Bool) (i j : ℕ) → on i ≡ false → from i on j ≡ from (suc i) on j
from-skip on i j o = elim (Bool-cases (j == i)) [
  | inl same ↦ let at : j ≡ i = ground arith in rw at (ground (arith, o))
  | inr ne ↦ ground arith
]

-- An entry that nobody has, before the free ones.
abbrev pub put_free : ℕ → Shared → Shared
put_free i s = record s {
  entries = update s.entries i (record (s.entries i) { next_key = s.free_head });
  free_head = suc i;
}

put_free-HasTables :
    (s : Shared) (k f r : ℕ → Bool) (i : ℕ)
    → HasTables s k f r
    → k i ≡ false
    → r i ≡ false
    → HasTables (put_free i s) k f (plus r i)
put_free-HasTables s k f r i h off used =
    let e = with_key (s.entries i) s.free_head in
    let es = update s.entries i e in
    record {
      by_key =
          keys_spared s es k k (λ j. refl)
            (λ j o.
              ap (λ (x : Entry). x.next_key)
                (update_other s.entries i e j (ne_of_tests k i j off o)))
            (λ j o. update_field (key_data s) s.entries i e j refl) h.by_key;
      by_frame =
          frames_spared s es f f (λ j. refl)
            (λ j o. update_field (λ (x : Entry). x.next_frame) s.entries i e j refl)
            (λ j o. update_field (λ (x : Entry). x.frame) s.entries i e j refl) h.by_frame;
      free =
          IsListed-link i used (ap (λ (x : Entry). x.next_key) (update_self s.entries i e))
            (λ j o.
              ap (λ (x : Entry). x.next_key)
                (update_other s.entries i e j (ne_of_tests r i j used o)))
            h.free;
    }

-- The loop's state: the entries as at first but for their links, and those behind its place placed.
pub record IsPlaced (s : Shared) (n : ℕ) (t : Shared) : Type 0 where
  pub same : (j : ℕ) → held_of (t.entries j) ≡ held_of (s.entries j)
  pub room : t.room ≡ s.room
  pub tables : HasTables t (from n (keyed s)) (from n (live s)) (from n (unused s))

IsPlaced-free :
    (s t : Shared) (i : ℕ) → unused s i ≡ true → IsPlaced s (suc i) t → IsPlaced s i (put_free i t)
unfolding unused keyed live
IsPlaced-free s t i free p = record {
  same =
      λ j. update_field held_of t.entries i (with_key (t.entries i) t.free_head) j refl ∙ p.same j;
  room = p.room;
  tables =
      HasTables-same (λ j. from-skip (keyed s) i j (ground arith))
        (λ j. from-skip (live s) i j (ground arith)) (λ j. from-plus (unused s) i j free)
        (put_free-HasTables t (from (suc i) (keyed s)) (from (suc i) (live s))
          (from (suc i) (unused s)) i p.tables (ground arith) (ground arith));
}

IsPlaced-file :
    (s t : Shared) (i : ℕ)
    → keyed s i ≡ true
    → IsPlaced s (suc i) t
    → IsPlaced s i (link_frame i (link_key i t))
unfolding unused keyed live
IsPlaced-file s t i file p = record {
  same = λ j. link_frame-held i j (link_key i t) ∙ link_key-held i j t ∙ p.same j;
  room = link_frame-room i (link_key i t) ∙ link_key-room i t ∙ p.room;
  tables =
      HasTables-same (λ j. from-plus (keyed s) i j file)
        (λ j. from-plus (live s) i j (ground arith)) (λ j. from-skip (unused s) i j (ground arith))
        (link_frame-HasTables (link_key i t) (plus (from (suc i) (keyed s)) i)
          (from (suc i) (live s)) (from (suc i) (unused s)) i
          (link_key-HasTables t (from (suc i) (keyed s)) (from (suc i) (live s))
            (from (suc i) (unused s)) i p.tables (ground arith) (ground arith))
          (ground arith));
}

IsPlaced-plain :
    (s t : Shared) (i : ℕ)
    → live s i ≡ true
    → keyed s i ≡ false
    → IsPlaced s (suc i) t
    → IsPlaced s i (link_frame i t)
unfolding unused live
IsPlaced-plain s t i on plain p = record {
  same = λ j. link_frame-held i j t ∙ p.same j;
  room = link_frame-room i t ∙ p.room;
  tables =
      HasTables-same (λ j. from-skip (keyed s) i j plain) (λ j. from-plus (live s) i j on)
        (λ j. from-skip (unused s) i j (ground arith))
        (link_frame-HasTables t (from (suc i) (keyed s)) (from (suc i) (live s))
          (from (suc i) (unused s)) i p.tables (ground arith));
}

place_entry-IsPlaced :
    (s t : Shared) (i : ℕ) → i < s.room → IsPlaced s (suc i) t → IsPlaced s i (place_entry i t)
unfolding place_entry unused live keyed
place_entry-IsPlaced s t i lt p =
    let refs : (t.entries i).refs ≡ (s.entries i).refs = ap (λ (h : Held). h.refs) (p.same i) in
    let start : (t.entries i).start ≡ (s.entries i).start = ap (λ (h : Held). h.start) (p.same i) in
    elim (Bool-cases ((t.entries i).refs == 0)) [
      | inl free ↦ rw free (IsPlaced-free s t i (ground arith) p)
      | inr held ↦ elim (Bool-cases ((t.entries i).start == 0)) [
        | inl plain ↦ rw (held, plain) (IsPlaced-plain s t i (ground arith) (ground arith) p)
        | inr file ↦ rw (held, file) (IsPlaced-file s t i (ground arith) p)
      ]
    ]

pub place_below-IsPlaced :
    (s : Shared) (n : ℕ) (t : Shared) → n ≤ s.room → IsPlaced s n t → IsPlaced s 0 (place_below n t)
unfolding place_below
place_below-IsPlaced s zero t le p = p
place_below-IsPlaced s (suc i) t le p =
    place_below-IsPlaced s i (place_entry i t) (omega arith)
      (place_entry-IsPlaced s t i (omega arith) p)

-- Empty chains, before the loop.
pub starts_empty :
    (s : Shared)
    → ((h : ℕ) → s.by_key h ≡ 0)
    → ((h : ℕ) → s.by_frame h ≡ 0)
    → s.free_head ≡ 0
    → IsPlaced s s.room s
unfolding live keyed unused
starts_empty s k f r = record {
  same = λ j. refl;
  room = refl;
  tables = record {
    by_key = λ h. IsListed-empty (k h) (λ i. ground arith);
    by_frame = λ h. IsListed-empty (f h) (λ i. ground arith);
    free = IsListed-empty r (λ i. ground arith);
  };
}
