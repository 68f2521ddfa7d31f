-- ===== src/Input/Ring.antt =====
-- The ring of src/kernel/input.c against the list of the events that wait.
use bax_os_dev.Base.{
  ℕ, zero, suc, ◌+◌, ◌-◌, ◌%◌, ◌^◌, ◌≤◌, ◌<◌, ◌≡◌, ◌≢◌, refl, sym, ◌∙◌, ap, arith, true, false,
  List, [], ◌∷◌, ◌++◌, length, length-append, length-set, get_or, set, get_or-set_self,
  get_or-set_ne, drop, some, none, ◌==◌, Bool-cases, inl, inr,
}
use bax_os_dev.Input.{Event, Queue, max_events, waiting, no_event, put_event}

-- The events from `head` on, so many of them.
unfoldable pub between : ℕ → ℕ → List Event → List Event
between zero head events = []
between (suc n) head events =
    get_or events (head % max_events) no_event ∷ between n ((head + 1) % 2 ^ 32) events

-- The events that wait, the oldest first.
abbrev pub contents : Queue → List Event
contents q = elim q.events [ none ↦ [] | some events ↦ between (waiting q) q.head events ]

-- A queue that is open: a ring of 128 places, and no more than that waiting.
pub record IsRing (events : List Event) (q : Queue) : Type 0 where
  pub is_open : q.events ≡ some events
  pub sized : length events ≡ max_events
  pub head : q.head < 2 ^ 32
  pub tail : q.tail < 2 ^ 32
  pub few : waiting q ≤ max_events

-- No more than 128 events, the latest.
abbrev pub latest : List Event → List Event
latest es = drop (length es - max_events) es

pub length-between : (n head : ℕ) (events : List Event) → length (between n head events) ≡ n
unfolding between
length-between zero head events = refl
length-between (suc n) head events = ap suc (length-between n ((head + 1) % 2 ^ 32) events)

-- A place that is not among those waiting can be written.
between-set :
    (n m i head : ℕ) (e : Event) (events : List Event)
    → i ≡ (head + m) % max_events
    → n ≤ m
    → m < max_events
    → between n head (set events i e) ≡ between n head events
unfolding between
between-set zero m i head e events at le small = refl
between-set (suc n) zero i head e events at le small = absurd (omega arith)
between-set (suc n) (suc m) i head e events at le small =
    let other : i ≢ head % max_events = omega (arith, at, small) in
    rw
      (
        get_or-set_ne events i (head % max_events) e no_event other,
        between-set n m i ((head + 1) % 2 ^ 32) e events (omega (arith, at)) (omega arith)
            (omega arith),
      )
      refl

between-snoc :
    (n i head : ℕ) (e : Event) (events : List Event)
    → length events ≡ max_events
    → i ≡ (head + n) % max_events
    → n < max_events
    → between (n + 1) head (set events i e) ≡ between n head events ++ (e ∷ [])
unfolding between
between-snoc zero i head e events size at small =
    let here : head % max_events ≡ i = omega (arith, at) in
    rw (here, get_or-set_self events i e no_event (omega (arith, at, size))) refl
between-snoc (suc n) i head e events size at small =
    let one : suc n + 1 ≡ suc (n + 1) = omega arith in
    let other : i ≢ head % max_events = omega (arith, at, small) in
    rw
      (
        one,
        get_or-set_ne events i (head % max_events) e no_event other,
        between-snoc n i ((head + 1) % 2 ^ 32) e events size (omega (arith, at)) (omega arith),
      )
      refl

-- What a ring is after an event was put into it.
pub record Puts (e : Event) (events : List Event) (q after : Queue) : Type 0 where
  pub ring : IsRing (set events (q.tail % max_events) e) after
  pub has : contents after ≡ latest (contents q ++ (e ∷ []))

pub latest_few : (es : List Event) → length es ≤ max_events → latest es ≡ es
latest_few es le =
    let none_less : length es - max_events ≡ 0 = omega (arith, le) in rw none_less refl

-- With one event more than 128, the oldest goes.
latest_full :
    (n head : ℕ) (e : Event) (events : List Event)
    → suc n ≡ max_events
    → latest (between (suc n) head events ++ (e ∷ []))
      ≡ between n ((head + 1) % 2 ^ 32) events ++ (e ∷ [])
unfolding between
latest_full n head e events all =
    let rest = between n ((head + 1) % 2 ^ 32) events in
    let one : suc (length (rest ++ (e ∷ []))) - max_events ≡ 1 =
      omega
        (arith, all, length-append rest (e ∷ []), length-between n ((head + 1) % 2 ^ 32) events) in
    ap (λ k. drop k (get_or events (head % max_events) no_event ∷ (rest ++ (e ∷ [])))) one

module _ (e : Event) (events : List Event) (q : Queue) (r : IsRing events q) where
  abbrev last_put : List Event
  last_put = set events (q.tail % max_events) e

  full-Puts :
      (n : ℕ) → suc n ≡ max_events → waiting q ≡ max_events → Puts e events q (put_event e events q)
  unfolding put_event
  full-Puts n all full =
      let head = (q.head + 1) % 2 ^ 32 in
      let test : (waiting q == max_events) ≡ true = ground (arith, full) in
      let now : waiting (put_event e events q) ≡ n + 1 =
        rw test (omega (arith, full, all, r.head, r.tail)) in
      let was : contents q ≡ between (suc n) q.head events =
        rw (r.is_open) (ap (λ k. between k q.head events) (full ∙ sym all)) in
      let has : contents (put_event e events q) ≡ between (n + 1) head last_put =
        ap (λ k. between k (put_event e events q).head last_put) now ∙ rw test refl in
      record {
        ring = record {
          is_open = refl;
          sized = length-set events (q.tail % max_events) e ∙ r.sized;
          head = rw test (omega arith);
          tail = omega arith;
          few = omega (arith, now, all);
        };
        has =
            has
            ∙ between-snoc n (q.tail % max_events) head e events r.sized
                (omega (arith, full, all, r.head, r.tail)) (omega (arith, all))
            ∙ sym (ap (λ l. latest (l ++ (e ∷ []))) was ∙ latest_full n q.head e events all);
      }

  room-Puts : (n : ℕ) → waiting q ≡ n → n < max_events → Puts e events q (put_event e events q)
  unfolding put_event
  room-Puts n w less =
      let test : (waiting q == max_events) ≡ false = ground (arith, w, less) in
      let now : waiting (put_event e events q) ≡ n + 1 =
        rw test (omega (arith, w, less, r.head, r.tail)) in
      let was : contents q ≡ between n q.head events =
        rw (r.is_open) (ap (λ k. between k q.head events) w) in
      let has : contents (put_event e events q) ≡ between (n + 1) q.head last_put =
        ap (λ k. between k (put_event e events q).head last_put) now ∙ rw test refl in
      let small : length (contents q ++ (e ∷ [])) ≤ max_events = rw was (
        omega (
          arith,
          length-append (between n q.head events) (e ∷ []),
          length-between n q.head events,
          less,
        )) in
      record {
        ring = record {
          is_open = refl;
          sized = length-set events (q.tail % max_events) e ∙ r.sized;
          head = rw test r.head;
          tail = omega arith;
          few = omega (arith, now, less);
        };
        has =
            has
            ∙ between-snoc n (q.tail % max_events) q.head e events r.sized
                (omega (arith, w, r.head, r.tail)) less
            ∙ sym (latest_few (contents q ++ (e ∷ [])) small ∙ ap (λ l. l ++ (e ∷ [])) was);
      }

  pub put_event-Puts : Puts e events q (put_event e events q)
  put_event-Puts = elim (Bool-cases (waiting q == max_events)) [
    | inl full ↦ full-Puts 127 (omega arith) (ground (arith, full))
    | inr room ↦ room-Puts (waiting q) refl (ground (arith, room, r.few))
  ]
