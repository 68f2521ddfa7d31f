-- ===== src/Input.antt =====
-- src/kernel/input.c: the events that wait to be read at each input device, and the keys held there.
-- A queue is `queues[device]`. The 32 bits of `value` are an int32_t.
pub mod Ring
pub mod Reports
pub mod Keys
use bax_os_dev.Base.{
  ℕ, zero, suc, ◌+◌, ◌-◌, ◌*◌, ◌/◌, ◌%◌, ◌^◌, Bool, true, false, not, ◌&&◌, ◌||◌, Option, none,
  some, List, [], ◌∷◌, ◌++◌, get_or, set, replicate, ltb, leb, ◌==◌, if◌then◌else◌,
}

-- `EVENTS`, `EV_KEY`, `INPUT_KEY_BYTES`
abbrev pub max_events : ℕ
max_events = 128

abbrev pub ev_key : ℕ
ev_key = 1

abbrev pub key_bytes : ℕ
key_bytes = 48

-- `struct event`
pub record Event : Type 0 where
  pub sec : ℕ
  pub usec : ℕ
  pub kind : ℕ
  pub code : ℕ
  pub value : ℕ

-- `struct queue`: `events` is none before the device is opened.
pub record Queue : Type 0 where
  pub events : Option (List Event)
  pub head : ℕ
  pub tail : ℕ
  pub monotonic : Bool
  pub down : List ℕ

-- `q->tail - q->head`, which are unsigned.
abbrev pub waiting : Queue → ℕ
waiting q = (q.tail + 2 ^ 32 - q.head) % 2 ^ 32

-- Whether a byte has a bit, and the byte with it and without it.
abbrev pub has_bit : ℕ → ℕ → Bool
has_bit byte k = byte / 2 ^ k % 2 == 1

abbrev pub with_bit : ℕ → ℕ → ℕ
with_bit byte k = if has_bit byte k then byte else byte + 2 ^ k

abbrev pub without_bit : ℕ → ℕ → ℕ
without_bit byte k = if has_bit byte k then byte - 2 ^ k else byte

abbrev pub no_event : Event
no_event = record { sec = 0; usec = 0; kind = 0; code = 0; value = 0 }

-- A key that is pressed while it is held is one that repeats: its value becomes 2.
abbrev pub key_value : Queue → ℕ → ℕ → ℕ → ℕ
key_value q kind code value =
    if (kind == ev_key && ltb code (key_bytes * 8))
      && (not (value == 0) && has_bit (get_or q.down (code / 8) 0) (code % 8))
    then 2
    else value

-- The bitmap of the keys held.
abbrev pub key_down : Queue → ℕ → ℕ → ℕ → List ℕ
key_down q kind code value =
    let byte = get_or q.down (code / 8) 0 in
    if kind == ev_key && ltb code (key_bytes * 8)
    then set q.down (code / 8)
        (if value == 0 then without_bit byte (code % 8) else with_bit byte (code % 8))
    else q.down

-- An event put into the ring, over the oldest if it is full.
unfoldable pub put_event : Event → List Event → Queue → Queue
put_event e events q =
    let head = if waiting q == max_events then (q.head + 1) % 2 ^ 32 else q.head in
    record q {
      events = some (set events (q.tail % max_events) e);
      head = head;
      tail = (q.tail + 1) % 2 ^ 32;
    }

abbrev pub event_of : ℕ → ℕ → ℕ → ℕ → Event
event_of us kind code value = record {
  sec = us / 1000000;
  usec = us % 1000000;
  kind = kind % 2 ^ 16;
  code = code % 2 ^ 16;
  value = value;
}

-- `input_report`, `us` microseconds after the start.
unfoldable pub input_report : ℕ → ℕ → ℕ → ℕ → Queue → Queue
input_report us kind code value q =
    let q' = record q { down = key_down q kind code value } in
    let e = event_of us kind code (key_value q kind code value) in
    elim q.events [ none ↦ q' | some events ↦ put_event e events q' ]

-- `input_open`, `got` being whether `mem_alloc` found the memory, and `fresh` what was in it.
unfoldable pub input_open : Bool → List Event → Queue → Bool × Queue
input_open got fresh q = elim q.events [
  | some events ↦ (true, q)
  | none ↦ if got then (true, record q { events = some fresh }) else (false, q)
]

-- A call of `input_report`, to be made by a driver.
pub record Report : Type 0 where
  pub us : ℕ
  pub kind : ℕ
  pub code : ℕ
  pub value : ℕ

-- What the drivers report to a queue, one after the other.
unfoldable pub reported : List Report → Queue → Queue
reported [] q = q
reported (r ∷ rs) q = reported rs (input_report r.us r.kind r.code r.value q)

-- `input_ready`: the drivers read the hardware first.
unfoldable pub input_ready : List Report → Queue → Bool × Queue
input_ready rs q = let q' = reported rs q in (not (q'.head == q'.tail), q')

-- An event with the time it is read with.
abbrev pub shifted : ℕ → Event → Event
shifted shift e =
    let us = (e.sec * 1000000 + e.usec + shift) % 2 ^ 64 in
    record e { sec = us / 1000000; usec = us % 1000000 }

-- The loop of `input_read`, with room for so many events: those read, and where `head` is then.
unfoldable pub read_events : ℕ → ℕ → List Event → ℕ → ℕ → List Event × ℕ
read_events zero shift events head tail = ([], head)
read_events (suc room) shift events head tail =
    let e = get_or events (head % max_events) no_event in
    let (es, head') = read_events room shift events ((head + 1) % 2 ^ 32) tail in
    if head == tail then ([], head) else (shifted shift e ∷ es, head')

-- `input_read` of `count` bytes; nothing waits at a device that is not open, and `since` is what `realtime_us` has more than `efi_uptime_us`. An
-- event has 24 bytes.
unfoldable pub input_read : List Report → ℕ → ℕ → Queue → List Event × Queue
input_read rs since count q =
    let (ready, q') = input_ready rs q in
    let shift = if q'.monotonic then 0 else since in
    elim q'.events [
      | none ↦ ([], q')
      | some events ↦
          let (es, head) = read_events (count / 24) shift events q'.head q'.tail in
          if ready then (es, record q' { head = head }) else ([], q')
    ]

-- `input_clock`
unfoldable pub input_clock : Bool → Queue → Queue
input_clock monotonic q = record q { monotonic = monotonic }

-- `input_release`, for each of `queues`.
unfoldable pub input_release : List Queue → List Queue
input_release [] = []
input_release (q ∷ qs) =
    record q { events = none; head = 0; tail = 0; monotonic = false } ∷ input_release qs
