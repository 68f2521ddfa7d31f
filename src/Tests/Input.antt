-- ===== src/Tests/Input.antt =====
-- src/kernel/input.c: keys reported to the keyboard and read.
use bax_os_dev.Base.{
  ℕ, ◌≡◌, refl, arith, true, not, ◌&&◌, List, [], ◌∷◌, ◌++◌, some, none, replicate, length,
  if◌then◌else◌, ◌==◌, length-replicate,
}
use bax_os_dev.Input.{
  Event, Queue, Report, no_event, key_bytes, input_report, put_event, input_read, input_ready,
  reported, read_events,
}
use bax_os_dev.Input.Ring.{IsRing, contents, latest}
use bax_os_dev.Input.Reports.{Taken, noted, input_read-Taken}
use bax_os_dev.Input.Keys.{key_held, is_key, input_report-key_held}

abbrev closed : Queue
closed = record { events = none; head = 0; tail = 0; monotonic = true; down = replicate 48 0 }

abbrev ring : List Event
ring = replicate 128 no_event

-- The counters are near their end.
abbrev keyboard : Queue
keyboard = record closed { events = some ring; head = 0xFFFF_FFFF; tail = 0xFFFF_FFFF }

keyboard-IsRing : IsRing ring keyboard
keyboard-IsRing = record {
  is_open = refl;
  sized = length-replicate 128 no_event;
  head = omega arith;
  tail = omega arith;
  few = omega arith;
}

-- A key goes down, repeats, and goes up.
abbrev typed : List Report
typed =
    record { us = 1500000; kind = 1; code = 30; value = 1 }
    ∷ record { us = 2000000; kind = 1; code = 30; value = 1 }
    ∷ record { us = 2500001; kind = 1; code = 30; value = 0 }
    ∷ []

input_read-Taken_example :
    Taken 2
      (if (reported typed keyboard).monotonic then 0 else 7)
      (latest (contents keyboard ++ noted typed keyboard))
      (reported typed keyboard).down
      (input_read typed 7 48 keyboard)
input_read-Taken_example = input_read-Taken typed 7 48 keyboard (ring, keyboard-IsRing)

read_two :
    (input_read typed 7 48 keyboard).0
    ≡ record { sec = 1; usec = 500000; kind = 1; code = 30; value = 1 }
      ∷ record { sec = 2; usec = 0; kind = 1; code = 30; value = 2 }
      ∷ []
unfolding input_read input_ready reported input_report put_event read_events
read_two = refl

input_report-key_held_example :
    let q = input_report 5 1 30 1 closed in
    (key_held q 31 ≡ (if is_key 1 30 && 31 == 30 then not (1 == 0) else key_held closed 31))
    × (length q.down ≡ key_bytes)
input_report-key_held_example =
    input_report-key_held 5 1 30 1 31 closed (length-replicate {A = ℕ} 48 0)
