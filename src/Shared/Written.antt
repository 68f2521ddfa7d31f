-- ===== src/Shared/Written.antt =====
-- `shared_written` of src/kernel/share.c: a write to the disk, and the pages of files it is over.
use mathlib.Core.Option
use bax_os_dev.Base.{
  Option, none, some, zero, ℕ, suc, leb, ◌||◌, ◌+◌, ◌-◌, ◌*◌, ◌^◌, ◌<◌, Bool, true, false, not,
  ◌&&◌, ltb, ◌==◌, if◌then◌else◌, ◌≡◌, refl, sym, ap, ◌∙◌, arith, Bool-cases, inl, inr, if-true,
  if-false, subst, if-both,
}
use mathlib.Core.Option.{some-injective}
use bax_os_dev.Shared.{Shared, Entry, page_sectors, unlink_key}
use bax_os_dev.Shared.Calls.{overlaps, written_from, shared_written}
use bax_os_dev.Shared.Held.{Held, held_of, instead}
use bax_os_dev.Shared.Sound.{view, live, keyed, IsSound}
use bax_os_dev.Shared.Unlinked.{nameless, unlinked-Sound, unlinked_view, unlink_key-room}

-- Whether a page of a file has a sector.
abbrev pub has_sector : ℕ → Held → Bool
has_sector k p =
    let first = p.start + p.index * page_sectors in
    not (p.start == 0) && leb first k && ltb k (first + page_sectors)

-- Whether a page of a file has one of the sectors from `lba` on, `count` of them.
unfoldable pub is_over : ℕ → ℕ → Held → Bool
is_over lba zero p = false
is_over lba (suc count) p = has_sector lba p || is_over (suc lba) count p

-- The pages of files end below 2 ^ 32 on the disk.
abbrev pub OnDisk : (ℕ → Option Held) → Type 0
OnDisk v =
    (i : ℕ) (p : Held)
    → v i ≡ some p
    → (p.start == 0) ≡ false
    → p.start + p.index * page_sectors + page_sectors < 2 ^ 32

-- A page has one of the sectors if it begins before their end and they begin before its own.
is_over_lem :
    (lba count : ℕ) (p : Held)
    → is_over lba count p ≡ (
        not (p.start == 0)
        && ltb 0 count
        && ltb (p.start + p.index * page_sectors) (lba + count)
        && ltb lba (p.start + p.index * page_sectors + page_sectors))
unfolding is_over
is_over_lem lba zero p = ground arith
is_over_lem lba (suc count) p = ground (arith, is_over_lem (suc lba) count p)

pub is_over-some : (lba count : ℕ) (p : Held) → is_over lba count p ≡ true → 0 < count
unfolding is_over
is_over-some lba zero p over = absurd (ground (arith, over))
is_over-some lba (suc count) p over = omega arith

-- It is the page of the file alone that tells.
pub is_over-same :
    (lba count : ℕ) (p q : Held)
    → p.start ≡ q.start
    → p.index ≡ q.index
    → is_over lba count p ≡ is_over lba count q
unfolding is_over
is_over-same lba zero p q a b = refl
is_over-same lba (suc count) p q a b = simp (a, b, is_over-same (suc lba) count p q a b)

pub is_over-file : (lba count : ℕ) (p : Held) → is_over lba count p ≡ true → (p.start == 0) ≡ false
is_over-file lba count p over = ground (arith, is_over_lem lba count p, over)

-- The comparison of `shared_written` tells whether the page has one of the sectors, where nothing
-- wraps.
overlaps-is_over :
    (lba count : ℕ) (e : Entry)
    → 0 < count
    → lba + count < 2 ^ 32
    → (e.refs == 0) ≡ false
    → ((e.start == 0) ≡ false → e.start + e.index * page_sectors + page_sectors < 2 ^ 32)
    → overlaps lba count e ≡ is_over lba count (held_of e)
unfolding overlaps
overlaps-is_over lba count e few low held disk = elim (Bool-cases (e.start == 0)) [
  | inl none_of ↦ ground (arith, is_over_lem lba count (held_of e))
  | inr file ↦ ground (arith, is_over_lem lba count (held_of e), disk file)
]

abbrev pub wiped : ℕ → ℕ → Held → Held
wiped lba count p = if is_over lba count p then nameless p else p

abbrev pub write_one : ℕ → ℕ → ℕ → Shared → Shared
write_one lba count i s = if overlaps lba count (s.entries i) then unlink_key i s else s

abbrev pub wiped_view : ℕ → ℕ → (ℕ → Option Held) → ℕ → Option Held
wiped_view lba count v j = Option.map (wiped lba count) (v j)

module _ (lba count : ℕ) (few : 0 < count) (low : lba + count < 2 ^ 32) (s : Shared) (i : ℕ)
    (sound : IsSound s) (lt : i < s.room)
    (disk : (p : Held)
      → view s i ≡ some p
      → (p.start == 0) ≡ false
      → p.start + p.index * page_sectors + page_sectors < 2 ^ 32) where
  overlaps-keyed : overlaps lba count (s.entries i) ≡ true → keyed s i ≡ true
  unfolding overlaps keyed live
  overlaps-keyed over = ground arith

  overlaps-held : overlaps lba count (s.entries i) ≡ true → ((s.entries i).refs == 0) ≡ false
  unfolding overlaps
  overlaps-held over = ground arith

  view_free : ((s.entries i).refs == 0) ≡ true → view s i ≡ none
  unfolding view live
  view_free free =
      let off : (ltb i s.room && not ((s.entries i).refs == 0)) ≡ false = ground arith in rw off

  view_held : ((s.entries i).refs == 0) ≡ false → view s i ≡ some (held_of (s.entries i))
  unfolding view live
  view_held held =
      let on : (ltb i s.room && not ((s.entries i).refs == 0)) ≡ true = ground arith in rw on

  same_test :
      ((s.entries i).refs == 0) ≡ false
      → overlaps lba count (s.entries i) ≡ is_over lba count (held_of (s.entries i))
  same_test held = overlaps-is_over lba count (s.entries i) few low held (disk _ (view_held held))

  view_kept : overlaps lba count (s.entries i) ≡ false → wiped_view lba count (view s) i ≡ view s i
  view_kept apart = elim (Bool-cases ((s.entries i).refs == 0)) [
    | inl free ↦ rw (view_free free) refl
    | inr held ↦
        let out : is_over lba count (held_of (s.entries i)) ≡ false =
          sym (same_test held) ∙ apart in
        rw (view_held held, out) refl
  ]

  view_wiped :
      overlaps lba count (s.entries i) ≡ true
      → wiped_view lba count (view s) i ≡ some (nameless (held_of (s.entries i)))
  view_wiped over =
      let held = overlaps-held over in
      let on : is_over lba count (held_of (s.entries i)) ≡ true = sym (same_test held) ∙ over in
      rw (view_held held, on) refl

  kept :
      overlaps lba count (s.entries i) ≡ false
      → (j : ℕ) → instead i (wiped_view lba count (view s) i) (view s) j ≡ view s j
  kept apart j = elim (Bool-cases (j == i)) [
    | inl same ↦ let at : j ≡ i = ground arith in rw (same, at) (view_kept apart)
    | inr ne ↦ rw ne
  ]

  abbrev pub OneWritten : Shared → Type 0
  OneWritten t =
      IsSound t
      × (t.room ≡ s.room)
      × ((j : ℕ) → view t j ≡ instead i (wiped_view lba count (view s) i) (view s) j)

  write_one-OneWritten : OneWritten (write_one lba count i s)
  write_one-OneWritten = elim (Bool-cases (overlaps lba count (s.entries i))) [
    | inl over ↦ if-true OneWritten (overlaps lba count (s.entries i)) (unlink_key i s) s over (
        let on = overlaps-keyed over in
        (
          unlinked-Sound s i sound on,
          unlink_key-room i s,
          λ j.
              unlinked_view s i sound on j
              ∙ ap (λ (o : Option Held). instead i o (view s) j) (sym (view_wiped over)),
        ))
    | inr apart ↦
        if-false OneWritten (overlaps lba count (s.entries i)) (unlink_key i s) s apart
          (sound, refl, λ j. sym (kept apart j))
  ]

-- The loop has come to `m`: what stands before it is written over.
abbrev pub Written : ℕ → ℕ → (ℕ → Option Held) → ℕ → Shared → Type 0
Written lba count v m t =
    IsSound t × ((j : ℕ) → view t j ≡ (if ltb j m then wiped_view lba count v j else v j))

view_out : (s : Shared) (j : ℕ) → ltb j s.room ≡ false → view s j ≡ none
unfolding view live
view_out s j out = rw out

Written-suc :
    (lba count : ℕ) (v : ℕ → Option Held) (m : ℕ) (s : Shared)
    → 0 < count
    → lba + count < 2 ^ 32
    → OnDisk v
    → m < s.room
    → Written lba count v m s
    → Written lba count v (suc m) (write_one lba count m s)
Written-suc lba count v m s few low disk lt (sound, seen) =
    let here : ltb m m ≡ false = ground arith in
    let as_was : view s m ≡ v m =
      seen m ∙ ap (λ (b : Bool). if b then wiped_view lba count v m else v m) here in
    let (still, same_room, left) =
      write_one-OneWritten lba count few low s m sound lt (λ p at. disk m p (sym as_was ∙ at)) in
    (
      still,
      λ j. left j ∙ elim (Bool-cases (j == m)) [
        | inl same ↦
            let at : j ≡ m = ground arith in
            let done : ltb m (suc m) ≡ true = ground arith in rw (same, at, done, seen m, here)
        | inr ne ↦ let next : ltb j (suc m) ≡ ltb j m = ground arith in rw (ne, next, seen j)
      ],
    )

write_one-room : (lba count i : ℕ) (s : Shared) → (write_one lba count i s).room ≡ s.room
write_one-room lba count i s =
    if-both (λ (t : Shared). t.room ≡ s.room) (overlaps lba count (s.entries i)) (unlink_key i s) s
      (unlink_key-room i s) refl

written_from-Written :
    (lba count : ℕ) (v : ℕ → Option Held) (n m : ℕ) (s : Shared)
    → 0 < count
    → lba + count < 2 ^ 32
    → OnDisk v
    → n + m ≡ s.room
    → Written lba count v m s
    → Written lba count v s.room (written_from lba count n s)
unfolding written_from
written_from-Written lba count v zero m s few low disk e w =
    let same : m ≡ s.room = omega (arith, e) in subst (λ k. Written lba count v k s) same w
written_from-Written lba count v (suc n) m s few low disk e w =
    let at : s.room - suc n ≡ m = omega (arith, e) in
    let t = write_one lba count m s in
    let room = write_one-room lba count m s in
    let rest =
      written_from-Written lba count v n (suc m) t few low disk (omega (arith, e, room))
        (Written-suc lba count v m s few low disk (omega (arith, e)) w) in
    rw at (subst (λ k. Written lba count v k (written_from lba count n t)) room rest)

-- Where the pages of files in the table and the sectors written end below 2 ^ 32, a write of one
-- sector or more to the disk leaves a sound table sound: an entry whose page of a file has one of
-- those sectors is no page of a file any more, but keeps its frame and count, and every other
-- entry is as it was.
pub shared_written-Written :
    (lba count : ℕ) (s : Shared)
    → 0 < count
    → lba + count < 2 ^ 32
    → OnDisk (view s)
    → IsSound s
    → let t = shared_written lba count s in
      IsSound t × ((j : ℕ) → view t j ≡ Option.map (wiped lba count) (view s j))
unfolding shared_written
shared_written-Written lba count s few low disk sound =
    let (still, seen) =
      written_from-Written lba count (view s) s.room 0 s few low disk (omega arith)
        (sound, λ j. ground arith) in
    (still, λ j. seen j ∙ all_seen j)
  where
    all_seen :
        (j : ℕ)
        → (if ltb j s.room then wiped_view lba count (view s) j else view s j)
          ≡ Option.map (wiped lba count) (view s j)
    all_seen j = elim (Bool-cases (ltb j s.room)) [
      | inl inside ↦ rw inside
      | inr out ↦ rw (out, view_out s j out)
    ]
