-- ===== src/Shared/Gains.antt =====
-- What the table of src/kernel/share.c says with a page put in it.
use bax_os_dev.Base.{none, some, ℕ, ◌-◌, true, false, ◌==◌, ◌≡◌, refl, ap, ◌∙◌, arith}
use bax_os_dev.Chains.Updates.{update_other, update_self}
use bax_os_dev.Chains.{update}
use bax_os_dev.Shared.{Shared, frame_number, link_key, link_frame}
use bax_os_dev.Chains.Tables.{IsListed-pop}
use bax_os_dev.Shared.Calls.{fill, some_free, one_used}
use bax_os_dev.Shared.Held.{Held, held_of, instead, Suits, same_key, same_frame}
use bax_os_dev.Shared.Sound.{view, live, keyed, unused, HasTables, IsSound}
use bax_os_dev.Shared.Release.{minus}
use bax_os_dev.Shared.Link.{
  plus, link_key-HasTables, link_frame-HasTables, link_key-held, link_frame-held, link_key-room,
  link_frame-room,
}
use bax_os_dev.Shared.Fill.{filled, head-spare, fill-HasTables, filled-Sound}

-- A page that no entry has, as a file's page or as a page of memory.
abbrev pub IsNew : Shared → Held → Type 0
IsNew s e =
    (j : ℕ) (q : Held) → view s j ≡ some q → (same_key e q ≡ false) × (same_frame e q ≡ false)

IsNew-Suits : (s : Shared) (i : ℕ) (e : Held) → e.refs ≡ 1 → IsNew s e → Suits (view s) i e
IsNew-Suits s i e refs new = record {
  new_key = λ j q there same. absurd (ground (arith, new j q there));
  new_frame = λ j q there same. absurd (ground (arith, new j q there));
  counted = omega (arith, refs);
}

fill-held :
    (start index page : ℕ) (s : Shared) (some_free : (s.free_head == 0) ≡ false) (j : ℕ)
    → held_of ((fill start index page s).entries j)
      ≡ held_of (update s.entries (s.free_head - 1) (filled start index page s some_free) j)
unfolding fill
fill-held start index page s some_free j = refl

fill-room : (start index page : ℕ) (s : Shared) → (fill start index page s).room ≡ s.room
unfolding fill
fill-room start index page s = refl

unused-apart : (s : Shared) (j : ℕ) → unused s j ≡ true → (keyed s j ≡ false) × (live s j ≡ false)
unfolding unused keyed live
unused-apart s j on = (ground arith, ground arith)

unused-view : (s : Shared) (j : ℕ) → unused s j ≡ true → view s j ≡ none
unfolding view
unused-view s j on = rw ((unused-apart s j on).1)

abbrev pub new_page : ℕ → ℕ → ℕ → Held
new_page start index page = record {
  start = start;
  index = index;
  frame = frame_number page;
  refs = 1;
}

-- A free entry has become the page.
abbrev pub Gains : Shared → Held → Shared → Type 0
Gains s e t =
    IsSound t × ((i : ℕ) × (view s i ≡ none) × ((j : ℕ) → view t j ≡ instead i (some e) (view s) j))

module _ (start index page : ℕ) (s : Shared) (some_free : (s.free_head == 0) ≡ false)
    (sound : IsSound s) (new : IsNew s (new_page start index page)) where
  unused_spare : unused s (s.free_head - 1) ≡ true
  unused_spare =
      (IsListed-pop (s.free_head - 1) (head-spare start index page s some_free) sound.tables.free).0

  fill-tables :
      let i = s.free_head - 1 in
      HasTables (fill start index page s) (keyed s) (live s) (minus (unused s) i)
  fill-tables =
      fill-HasTables start index page s some_free (keyed s) (live s) (unused s) sound.tables
        (unused-apart s)

  pub add-Gains :
      (start == 0) ≡ false
      → let i = s.free_head - 1 in
        Gains s
          (new_page start index page)
          (one_used (link_frame i (link_key i (fill start index page s))))
  add-Gains file =
      let i = s.free_head - 1 in
      let f = fill start index page s in
      let t = one_used (link_frame i (link_key i f)) in
      let e = new_page start index page in
      let (k_off, l_off) = unused-apart s i unused_spare in
      let linked =
        link_frame-HasTables (link_key i f) (plus (keyed s) i) (live s) (minus (unused s) i) i
          (link_key-HasTables f (keyed s) (live s) (minus (unused s) i) i fill-tables k_off
            (ground arith))
          l_off in
      let tables : HasTables t (plus (keyed s) i) (plus (live s) i) (minus (unused s) i) = record {
        by_key = linked.by_key;
        by_frame = linked.by_frame;
        free = linked.free;
      } in
      let held : (j : ℕ)
          → held_of (t.entries j)
            ≡ held_of (update s.entries i (filled start index page s some_free) j) =
        λ j.
          link_frame-held i j (link_key i f)
          ∙ link_key-held i j f
          ∙ fill-held start index page s some_free j in
      let (still, left) =
        filled-Sound s t i e refl
          (link_frame-room i (link_key i f) ∙ link_key-room i f ∙ fill-room start index page s)
          (held i ∙ ap held_of (update_self s.entries i (filled start index page s some_free)))
          (λ j ne.
            held j
            ∙ ap held_of (update_other s.entries i (filled start index page s some_free) j ne))
          unused_spare (plus (keyed s) i) (plus (live s) i) tables (λ j. ground arith) (λ j. refl)
          (IsNew-Suits s i e refl new) sound.proper in
      (still, (i, unused-view s i unused_spare, left))

  pub adopt-Gains :
      (start == 0) ≡ true
      → let i = s.free_head - 1 in
        Gains s (new_page start index page) (one_used (link_frame i (fill start index page s)))
  adopt-Gains plain =
      let i = s.free_head - 1 in
      let f = fill start index page s in
      let t = one_used (link_frame i f) in
      let e = new_page start index page in
      let l_off = (unused-apart s i unused_spare).1 in
      let linked =
        link_frame-HasTables f (keyed s) (live s) (minus (unused s) i) i fill-tables l_off in
      let tables : HasTables t (keyed s) (plus (live s) i) (minus (unused s) i) = record {
        by_key = linked.by_key;
        by_frame = linked.by_frame;
        free = linked.free;
      } in
      let held : (j : ℕ)
          → held_of (t.entries j)
            ≡ held_of (update s.entries i (filled start index page s some_free) j) =
        λ j. link_frame-held i j f ∙ fill-held start index page s some_free j in
      let (still, left) =
        filled-Sound s t i e refl (link_frame-room i f ∙ fill-room start index page s)
          (held i ∙ ap held_of (update_self s.entries i (filled start index page s some_free)))
          (λ j ne.
            held j
            ∙ ap held_of (update_other s.entries i (filled start index page s some_free) j ne))
          unused_spare (keyed s) (plus (live s) i) tables (λ j. ground arith) (λ j. refl)
          (IsNew-Suits s i e refl new) sound.proper in
      (still, (i, unused-view s i unused_spare, left))
