-- ===== src/Samples/ThreadRuns.antt =====
-- Runs of the thread store: two events of one conversation, an interpretation and the expiry.
use samdi.Common.{◌≡◌, ◌≤◌, refl, none, final, arith}
use samdi.Common.Table.{find}
use samdi.ControlPlane.Db.{Db, thread_key}
use samdi.ControlPlane.Threads.{append}
use samdi.ControlPlane.Threads.Append.{IsThreaded, seq_of}
use samdi.ControlPlane.Threads.Invariant.{append-IsThreaded}
use samdi.Samples.Start.{uuid, uuid-IsInjective, start}

pub start-IsThreaded : IsThreaded uuid start
start-IsThreaded = record {
  unique = tt;
  new_threads = λ m le. refl;
  new_events = λ m le. refl;
  one_open = λ i j t u ft fu ot ou same_channel same_key. cc;
  counted = λ id. refl;
  behind = λ id. omega arith;
}

-- Two events of the conversation `c1`.
abbrev one_event : Db
one_event = final (append uuid "mail" "c1" "first" none start)

abbrev two_events : Db
two_events = final (append uuid "mail" "c1" "second" none one_event)

one_event-IsThreaded : IsThreaded uuid one_event
one_event-IsThreaded =
    append-IsThreaded uuid uuid-IsInjective start start-IsThreaded "mail" "c1" "first" none

append-IsThreaded_example : IsThreaded uuid two_events
append-IsThreaded_example =
    append-IsThreaded uuid uuid-IsInjective one_event one_event-IsThreaded "mail" "c1" "second" none

-- The second event joined the thread of the first, under the second identifier.
two_seq : seq_of (find thread_key "x" two_events.threads) ≡ 2
unfolding append
two_seq = refl

-- One event of the two was interpreted.
two_seq_bound : 1 ≤ seq_of (find thread_key "x" two_events.threads)
two_seq_bound = rw two_seq (omega arith)

two_events-IsThreaded : IsThreaded uuid two_events
two_events-IsThreaded =
    append-IsThreaded uuid uuid-IsInjective one_event one_event-IsThreaded "mail" "c1" "second" none
