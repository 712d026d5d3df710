-- ===== src/Event/Counting.antt =====
-- The counters of the event controller, over any sequence of informer events.
use observability.Base.{
  ◌+◌, ◌/◌, ◌≡◌, List, [], ◌∷◌, ◌++◌, Option, none, some, arith, Text, codes, length, length-append,
}
use observability.Event.{
  Object, event, other, World, payload_of, tag_of, on_add, on_delete, on_update,
}

-- An informer event, with what the forwarder returns.
pub data Input : Type 0 where
  added : Option Text → Object → Input
  deleted : Input
  updated : Input

handle : Input → World → World
handle (added reply o) w = on_add reply o w
handle deleted w = on_delete w
handle updated w = on_update w

pub handle_all : List Input → World → World
handle_all [] w = w
handle_all (i ∷ is) w = handle_all is (handle i w)

abbrev pub start : World
start = record {
  counters = record {
    received = 0;
    updated = 0;
    deleted = 0;
    sent = 0;
    failed = 0;
    convert_failed = 0;
  };
  posted = [];
  printed = [];
}

record Counts (w : World) : Type 0 where
  balance : w.counters.received ≡ w.counters.sent + w.counters.failed + w.counters.convert_failed
  posts : length w.posted ≡ w.counters.sent + w.counters.failed
  prints : length w.printed ≡ w.counters.convert_failed + (w.counters.failed + 99) / 100

handle-Counts : (i : Input) (w : World) → Counts w → Counts (handle i w)
unfolding handle on_add on_delete on_update
handle-Counts (added none (event e)) w h =
    ground (arith, length-append {0} w.posted ((tag_of e, payload_of e) ∷ []))
handle-Counts (added (some m) (event e)) w h = ground (
  arith,
  length-append {0} w.posted ((tag_of e, payload_of e) ∷ []),
  length-append {0} w.printed ((codes "unable to forward event: " ++ m) ∷ []),
)
handle-Counts (added reply (other t)) w h =
    ground (arith, length-append {0} w.printed ((codes "got something other an event: " ++ t) ∷ []))
handle-Counts deleted w h = ground arith
handle-Counts updated w h = ground arith

handle_all-Counts : (is : List Input) (w : World) → Counts w → Counts (handle_all is w)
unfolding handle_all
handle_all-Counts [] w h = h
handle_all-Counts (i ∷ is) w h = handle_all-Counts is (handle i w) (handle-Counts i w h)

-- Over any sequence of informer events, every event received is sent, failed or not converted, each
-- one sent or failed was posted, and what is printed is a line for each that was not converted and
-- one for the first of each hundred failures.
pub counters_balance :
    (is : List Input)
    → ((handle_all is start).counters.received
        ≡ (handle_all is start).counters.sent
          + (handle_all is start).counters.failed
          + (handle_all is start).counters.convert_failed)
      × (length (handle_all is start).posted
          ≡ (handle_all is start).counters.sent + (handle_all is start).counters.failed)
      × (length (handle_all is start).printed
          ≡ (handle_all is start).counters.convert_failed
            + ((handle_all is start).counters.failed + 99) / 100)
counters_balance is =
    let h = handle_all-Counts is start (omega arith) in (h.balance, h.posts, h.prints)
