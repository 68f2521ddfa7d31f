-- ===== src/Cache/Enlarge.antt =====
-- Room for twice the lines in src/modules/storage/cache.c, and the chains built again.
use bax_os_dev.Base.{
  lt→ltb, ℕ, zero, suc, ◌+◌, ◌-◌, ◌*◌, ◌≤◌, ◌<◌, Bool, true, false, ◌&&◌, ◌||◌, ltb, ◌==◌,
  if◌then◌else◌, ◌≡◌, refl, sym, ap, ◌∙◌, arith, Bool-cases, inl, inr, subst,
}
use bax_os_dev.Chains.Tables.{IsTable-same}
use bax_os_dev.Cache.{Line, Cache, no_sector, nexts, has_data}
use bax_os_dev.Cache.Cached.{
  hooked, buckets, IsLineTable, tally, with_data, IsCached, hooked-below, tally-same,
}
use bax_os_dev.Chains.Tables.{IsListed-empty}
use bax_os_dev.Cache.{no_line}
use bax_os_dev.Cache.Calls.{hook, hook_from, enlarge}
use bax_os_dev.Cache.Cached.{tally-full}
use bax_os_dev.Cache.Hook.{bare, hook-bare, hook-IsLineTable}

-- What is hooked of the lines before the loop's place.
abbrev pub upto : ℕ → (ℕ → Bool) → ℕ → Bool
upto m on j = ltb j m && on j

-- The loop has come to `m`: the lines say the same, and those before it are on their chains.
record IsRehooked (s : Cache) (m : ℕ) (t : Cache) : Type 0 where
  pub same : (j : ℕ) → bare (t.lines j) ≡ bare (s.lines j)
  pub room : t.room ≡ s.room
  pub count : t.count ≡ s.count
  pub table : IsLineTable t (upto m (hooked s))

IsLineTable-also :
    (t : Cache) (on also : ℕ → Bool)
    → ((j : ℕ) → also j ≡ on j)
    → IsLineTable t on
    → IsLineTable t also
IsLineTable-also t on also same k =
    IsTable-same (buckets t) t.heads (nexts t) on k (nexts t) also (buckets t) (λ j o. refl) same
      (λ j o. refl)

upto-suc : (on : ℕ → Bool) (m j : ℕ) → on m ≡ true → upto (suc m) on j ≡ (m == j || upto m on j)
upto-suc on m j o = elim (Bool-cases (j == m)) [
  | inl same ↦ let at : j ≡ m = ground arith in rw at (ground (arith, o))
  | inr ne ↦ ground arith
]

upto-skip : (on : ℕ → Bool) (m j : ℕ) → on m ≡ false → upto (suc m) on j ≡ upto m on j
upto-skip on m j o = elim (Bool-cases (j == m)) [
  | inl same ↦ let at : j ≡ m = ground arith in rw at (ground (arith, o))
  | inr ne ↦ ground arith
]

abbrev pub rehook_one : ℕ → Cache → Cache
rehook_one i s = if (s.lines i).first == no_sector then s else hook i s

hook-kept : (i : ℕ) (t : Cache) → ((hook i t).room ≡ t.room) × ((hook i t).count ≡ t.count)
unfolding hook
hook-kept i t = (refl, refl)

rehook_one-IsRehooked :
    (s : Cache) (m : ℕ) (t : Cache)
    → m < s.room
    → has_data (s.lines m) ≡ true
    → IsRehooked s m t
    → IsRehooked s (suc m) (rehook_one m t)
unfolding hooked
rehook_one-IsRehooked s m t lt full r =
    let first : (t.lines m).first ≡ (s.lines m).first = ap (λ (l : Line). l.first) (r.same m) in
    elim (Bool-cases ((t.lines m).first == no_sector)) [
      | inl empty ↦ rw empty (record {
        same = r.same;
        room = r.room;
        count = r.count;
        table =
            IsLineTable-also t (upto m (hooked s)) (upto (suc m) (hooked s))
              (λ j. upto-skip (hooked s) m j (ground (arith, first, empty))) r.table;
      })
      | inr file ↦ rw file (record {
        same = λ j. hook-bare m j t ∙ r.same j;
        room = (hook-kept m t).0 ∙ r.room;
        count = (hook-kept m t).1 ∙ r.count;
        table =
            IsLineTable-also (hook m t) (λ j. m == j || upto m (hooked s) j)
              (upto (suc m) (hooked s)) (λ j. upto-suc (hooked s) m j (ground (arith, first, file)))
              (hook-IsLineTable t (upto m (hooked s)) m (ground arith) r.table);
      })
    ]

hook_from-IsRehooked :
    (s : Cache) (was n m : ℕ) (t : Cache)
    → n + m ≡ was
    → was ≤ s.room
    → ((i : ℕ) → i < was → has_data (s.lines i) ≡ true)
    → IsRehooked s m t
    → IsRehooked s was (hook_from was n t)
unfolding hook_from
hook_from-IsRehooked s was zero m t e le full r =
    let same : m ≡ was = omega (arith, e) in subst (λ k. IsRehooked s k t) same r
hook_from-IsRehooked s was (suc n) m t e le full r =
    let at : was - suc n ≡ m = omega (arith, e) in
    rw at (
      hook_from-IsRehooked s was n (suc m) (rehook_one m t) (omega (arith, e)) le full
        (rehook_one-IsRehooked s m t (omega (arith, e, le)) (full m (omega (arith, e))) r))

-- The larger block, before the loop.
abbrev pub twice : Cache → Cache
twice s = record s {
  lines = λ i. if ltb i s.room then s.lines i else no_line;
  heads = λ h. 0;
  room = s.room * 2;
}

twice-hooked : (s : Cache) (j : ℕ) → hooked (twice s) j ≡ hooked s j
unfolding hooked has_data
twice-hooked s j = elim (Bool-cases (ltb j s.room)) [
  | inl inside ↦ let more : ltb j (s.room * 2) ≡ true = ground arith in rw (inside, more)
  | inr out ↦
      let none_there : (ltb j (s.room * 2) && (true && false)) ≡ false = ground arith in
      rw (out, none_there)
]

twice-data : (s : Cache) (j : ℕ) → j < s.room → has_data ((twice s).lines j) ≡ has_data (s.lines j)
twice-data s j lt = let inside : ltb j s.room ≡ true = ground arith in rw inside

twice_new : (s : Cache) (j : ℕ) → s.room ≤ j → has_data ((twice s).lines j) ≡ false
unfolding has_data
twice_new s j le = let out : ltb j s.room ≡ false = ground arith in rw out

tally_last : (m : ℕ) (on : ℕ → Bool) → on m ≡ false → tally (suc m) on ≡ tally m on
unfolding tally
tally_last m on off = rw off

tally_more_room :
    (k n : ℕ) (on : ℕ → Bool) → ((j : ℕ) → n ≤ j → on j ≡ false) → tally (k + n) on ≡ tally n on
tally_more_room zero n on off = ap (λ (m : ℕ). tally m on) (omega arith)
tally_more_room (suc k) n on off =
    let e : suc k + n ≡ suc (k + n) = omega arith in
    ap (λ (m : ℕ). tally m on) e
    ∙ tally_last (k + n) on (off (k + n) (omega arith))
    ∙ tally_more_room k n on off

hooked_out : (s : Cache) (j : ℕ) → ltb j s.room ≡ false → hooked s j ≡ false
unfolding hooked
hooked_out s j out = rw out

upto-twice : (s : Cache) (j : ℕ) → upto s.room (hooked (twice s)) j ≡ hooked s j
upto-twice s j = elim (Bool-cases (ltb j s.room)) [
  | inl inside ↦ rw inside (twice-hooked s j)
  | inr out ↦ rw (out, hooked_out s j out)
]

tally-twice : (s : Cache) → tally (s.room * 2) (with_data (twice s)) ≡ tally s.room (with_data s)
tally-twice s =
    let e : s.room * 2 ≡ s.room + s.room = omega arith in
    ap (λ (m : ℕ). tally m (with_data (twice s))) e
    ∙ tally_more_room s.room s.room (with_data (twice s)) (twice_new s)
    ∙ tally-same s.room (with_data s) (with_data (twice s)) (twice-data s)

starts_unhooked : (s : Cache) → IsRehooked (twice s) 0 (twice s)
starts_unhooked s = record {
  same = λ j. refl;
  room = refl;
  count = refl;
  table = λ h. IsListed-empty refl (λ j. ground arith);
}

enlarge-IsRehooked :
    (content : ℕ → ℕ) (s : Cache)
    → IsCached content s
    → s.count ≡ s.room
    → IsRehooked (twice s) s.room (enlarge s)
unfolding enlarge
enlarge-IsRehooked content s c full =
    let all = tally-full s.room (with_data s) (omega (arith, c.counted, full)) in
    hook_from-IsRehooked (twice s) s.room s.room 0 (twice s) (omega arith) (omega arith)
      (λ i lt. twice-data s i lt ∙ all i lt) (starts_unhooked s)

module _ (content : ℕ → ℕ) (s : Cache) (c : IsCached content s) (full : s.count ≡ s.room) where
  rehooked : IsRehooked (twice s) s.room (enlarge s)
  rehooked = enlarge-IsRehooked content s c full

  enlarge-line : (j : ℕ) → hooked s j ≡ true → bare ((enlarge s).lines j) ≡ bare (s.lines j)
  enlarge-line j o =
      let inside : ltb j s.room ≡ true = lt→ltb j s.room (hooked-below s j o) in
      rehooked.same j ∙ ap (λ (b : Bool). bare (if b then s.lines j else no_line)) inside

  enlarge-data : (j : ℕ) → has_data ((enlarge s).lines j) ≡ has_data ((twice s).lines j)
  unfolding has_data
  enlarge-data j = ap has_data (rehooked.same j)

  enlarge-hooked : (j : ℕ) → hooked (enlarge s) j ≡ hooked s j
  unfolding hooked has_data
  enlarge-hooked j =
      let r = rehooked in
      rw (r.room, ap (λ (l : Line). l.first) (r.same j), ap has_data (r.same j)) (twice-hooked s j)

  pub enlarge-IsCached : IsCached content (enlarge s)
  enlarge-IsCached = record {
    table =
        IsLineTable-also (enlarge s) (upto s.room (hooked (twice s))) (hooked (enlarge s))
          (λ j. enlarge-hooked j ∙ sym (upto-twice s j)) rehooked.table;
    held = λ j f o e k lt.
        let was = sym (enlarge-hooked j) ∙ o in
        let same = enlarge-line j was in
        c.held j f was (sym (ap (λ (l : Line). l.sectors) same) ∙ e) k lt
        ∙ ap (λ (l : Line). content (l.first + k)) (sym same);
    counted =
        rehooked.count
        ∙ c.counted
        ∙ sym (tally-twice s)
        ∙ sym (
            tally-same (s.room * 2) (with_data (twice s)) (with_data (enlarge s))
              (λ j lt. enlarge-data j))
        ∙ ap (λ (m : ℕ). tally m (with_data (enlarge s))) (sym rehooked.room);
  }
