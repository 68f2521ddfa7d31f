-- ===== src/Input/Reports.antt =====
-- What reading an input device of src/kernel/input.c gives after drivers have reported to it.
use mathlib.Core.List
use bax_os_dev.Base.{
  ℕ, zero, suc, ◌+◌, ◌-◌, ◌/◌, ◌%◌, ◌^◌, ◌≤◌, ◌<◌, ◌≡◌, refl, sym, ◌∙◌, ap, subst, arith, true,
  false, not, List, [], ◌∷◌, ◌++◌, append_assoc, append-nil, length, length-append, length-drop,
  get_or, set, take, drop, take_nothing, drop_nothing, drop-prefix, drop-drop, Option, some, none,
  ◌==◌, if◌then◌else◌, if-true, if-false, Bool-cases, inl, inr,
}
use bax_os_dev.Input.{
  Event, Queue, Report, max_events, waiting, no_event, key_value, key_down, put_event, event_of,
  input_report, reported, input_ready, shifted, read_events, input_read,
}
use bax_os_dev.Input.Ring.{
  between, contents, IsRing, latest, latest_few, length-between, put_event-Puts,
}

-- A device that is open.
abbrev pub IsOpen : Queue → Type 0
IsOpen q = (events : List Event) × IsRing events q

-- The events that reports are noted as: a key that is held and pressed is one that repeats.
unfoldable pub noted : List Report → Queue → List Event
noted [] q = []
noted (r ∷ rs) q =
    event_of r.us r.kind r.code (key_value q r.kind r.code r.value)
    ∷ noted rs (input_report r.us r.kind r.code r.value q)

contents-few :
    (events : List Event) (q : Queue) → IsRing events q → length (contents q) ≤ max_events
contents-few events q r =
    rw (r.is_open) (omega (arith, r.few, length-between (waiting q) q.head events))

latest-append : (a b : List Event) → latest (latest a ++ b) ≡ latest (a ++ b)
latest-append a b =
    let k = length a - max_events in
    let m = length (drop k a ++ b) - max_events in
    let sum : k + m ≡ length (a ++ b) - max_events =
      omega (arith, length-append a b, length-append (drop k a) b, length-drop k a) in
    ap (drop m) (sym (drop-prefix a b k (omega arith)))
    ∙ drop-drop k m (a ++ b)
    ∙ ap (λ n. drop n (a ++ b)) sum

-- A report to an open device is put behind the events that wait.
report_lem :
    (us kind code value : ℕ) (events : List Event) (q : Queue)
    → IsRing events q
    → let q' = input_report us kind code value q in
      IsOpen q'
      × (contents q'
          ≡ latest (contents q ++ (event_of us kind code (key_value q kind code value) ∷ [])))
unfolding input_report
report_lem us kind code value events q r =
    let q1 = record q { down = key_down q kind code value } in
    let e = event_of us kind code (key_value q kind code value) in
    let r1 : IsRing events q1 = record {
      is_open = r.is_open;
      sized = r.sized;
      head = r.head;
      tail = r.tail;
      few = r.few;
    } in
    let p = put_event-Puts e events q1 r1 in
    let put : input_report us kind code value q ≡ put_event e events q1 =
      ap
        (λ (o : Option (List Event)).
          let after : Queue = elim o [ none ↦ q1 | some events ↦ put_event e events q1 ] in after)
        r.is_open in
    subst (λ x. IsOpen x × (contents x ≡ latest (contents q ++ (e ∷ [])))) (sym put)
      ((set events (q.tail % max_events) e, p.ring), p.has)

reported_lem :
    (rs : List Report) (q : Queue)
    → IsOpen q
    → IsOpen (reported rs q) × (contents (reported rs q) ≡ latest (contents q ++ noted rs q))
unfolding reported noted
reported_lem [] q (events, r) = (
  (events, r),
  sym (ap latest (append-nil (contents q)) ∙ latest_few (contents q) (contents-few events q r)),
)
reported_lem (x ∷ rs) q (events, r) =
    let (o1, now) = report_lem x.us x.kind x.code x.value events q r in
    let q1 = input_report x.us x.kind x.code x.value q in
    let (o2, then_) = reported_lem rs q1 o1 in
    let e = event_of x.us x.kind x.code (key_value q x.kind x.code x.value) in
    (
      o2,
      then_
          ∙ ap (λ l. latest (l ++ noted rs q1)) now
          ∙ latest-append (contents q ++ (e ∷ [])) (noted rs q1)
          ∙ ap latest (append_assoc (contents q) (e ∷ []) (noted rs q1)),
    )

-- Where a read leaves the head.
record Reads (n room shift head tail : ℕ) (events : List Event) (r : List Event × ℕ) : Type 0 where
  got : r.0 ≡ List.map (shifted shift) (take room (between n head events))
  small : r.1 < 2 ^ 32
  waits : (tail + 2 ^ 32 - r.1) % 2 ^ 32 ≡ n - room
  rest : between (n - room) r.1 events ≡ drop room (between n head events)

read_events-Reads :
    (room n shift head tail : ℕ) (events : List Event)
    → head < 2 ^ 32
    → n ≤ max_events
    → tail ≡ (head + n) % 2 ^ 32
    → Reads n room shift head tail events (read_events room shift events head tail)
unfolding read_events between
read_events-Reads zero n shift head tail events small few at =
    let same : n - 0 ≡ n = omega arith in
    record { got = refl; small = small; waits = omega (arith, at); rest = rw same refl }
read_events-Reads (suc room) zero shift head tail events small few at =
    let nothing : 0 - suc room ≡ 0 = omega arith in
    let stop : (head == tail) ≡ true = ground (arith, at, small) in
    rw stop (record {
      got = refl;
      small = small;
      waits = omega (arith, at);
      rest = ap (λ k. between k head events) nothing;
    })
read_events-Reads (suc room) (suc n) shift head tail events small few at =
    let go : (head == tail) ≡ false = ground (arith, at, small, few) in
    let r =
      read_events-Reads room n shift ((head + 1) % 2 ^ 32) tail events (omega arith) (omega arith)
        (omega (arith, at)) in
    let less : suc n - suc room ≡ n - room = omega arith in
    let x = get_or events (head % max_events) no_event in
    rw go (record {
      got = ap (λ l. shifted shift x ∷ l) r.got;
      small = r.small;
      waits = r.waits ∙ sym less;
      rest =
          ap (λ k. between k (read_events room shift events ((head + 1) % 2 ^ 32) tail).1 events)
            less
          ∙ r.rest;
    })

-- What a read returns and leaves, given the events that wait and the bitmap of the keys.
pub record Taken (room shift : ℕ) (es : List Event) (down : List ℕ) (r : List Event × Queue)
    : Type 0 where
  pub got : r.0 ≡ List.map (shifted shift) (take room es)
  pub rest : contents r.1 ≡ drop room es
  pub opened : IsOpen r.1
  pub keys : r.1.down ≡ down

contents_lem :
    (events : List Event) (q : Queue)
    → IsRing events q
    → contents q ≡ between (waiting q) q.head events
contents_lem events q r =
    ap
      (λ (o : Option (List Event)).
        let es : List Event = elim o [ none ↦ [] | some l ↦ between (waiting q) q.head l ] in es)
      r.is_open

ring-Taken :
    (room shift : ℕ) (events : List Event) (q : Queue)
    → IsRing events q
    → let (es, head) = read_events room shift events q.head q.tail in
      Taken room shift
        (contents q)
        q.down
        (if not (q.head == q.tail) then (es, record q { head = head }) else ([], q))
unfolding between
ring-Taken room shift events q r =
    let all =
      read_events-Reads room (waiting q) shift q.head q.tail events r.head r.few
        (omega (arith, r.head, r.tail)) in
    let head = (read_events room shift events q.head q.tail).1 in
    let after = record q { head = head } in
    let ring : IsRing events after = record {
      is_open = r.is_open;
      sized = r.sized;
      head = all.small;
      tail = r.tail;
      few = omega (arith, all.waits, r.few);
    } in
    let P : List Event × Queue → Type 0 = Taken room shift (contents q) q.down in
    elim (Bool-cases (q.head == q.tail)) [
      | inr e ↦ if-true P (not (q.head == q.tail)) _ _ (ground (arith, e)) (record {
        got =
            all.got
            ∙ ap (λ l. List.map (shifted shift) (take room l)) (sym (contents_lem events q r));
        rest =
            contents_lem events after ring
            ∙ ap (λ k. between k head events) all.waits
            ∙ all.rest
            ∙ ap (drop room) (sym (contents_lem events q r));
        opened = (events, ring);
        keys = refl;
      })
      | inl e ↦
          let none_wait : waiting q ≡ 0 = ground (arith, e, r.head) in
          let empty : contents q ≡ [] =
            contents_lem events q r ∙ ap (λ k. between k q.head events) none_wait in
          if-false P (not (q.head == q.tail)) _ _ (ground (arith, e)) (record {
            got =
                sym
                  (ap (λ l. List.map (shifted shift) l) (ap (take room) empty ∙ take_nothing room));
            rest = empty ∙ sym (ap (drop room) empty ∙ drop_nothing room);
            opened = (events, r);
            keys = refl;
          })
    ]

-- At a device that is open, a read gets as many as it has room for of the latest 128 of the events
-- that waited and of those reported meanwhile, in order and with their times on the clock chosen,
-- and leaves the rest waiting; it leaves the device open and the keys held as the reports made
-- them.
pub input_read-Taken :
    (rs : List Report) (since count : ℕ) (q : Queue)
    → IsOpen q
    → Taken
        (count / 24)
        (if (reported rs q).monotonic then 0 else since)
        (latest (contents q ++ noted rs q))
        (reported rs q).down
        (input_read rs since count q)
unfolding input_read input_ready between
input_read-Taken rs since count q o =
    let ((events, r), now) = reported_lem rs q o in
    let q' = reported rs q in
    let shift = if q'.monotonic then 0 else since in
    let result : Option (List Event) → List Event × Queue = λ (o : Option (List Event)). elim o [
      | none ↦ ([], q')
      | some events ↦
          let (es, head) = read_events (count / 24) shift events q'.head q'.tail in
          if not (q'.head == q'.tail) then (es, record q' { head = head }) else ([], q')
    ] in
    subst (λ l. Taken (count / 24) shift l q'.down (input_read rs since count q)) now
      (subst (Taken (count / 24) shift (contents q') q'.down) (sym (ap result r.is_open))
        (ring-Taken (count / 24) shift events q' r))
