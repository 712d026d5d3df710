-- ===== src/Tests/Event.antt =====
-- The counters of pkg/event at concrete inputs.
use observability.Base.{◌≡◌, ◌+◌, ◌/◌, List, [], ◌∷◌, none, some, codes, length}
use observability.Event.{event, other}
use observability.Event.Counting.{
  Input, added, deleted, updated, handle_all, start, counters_balance,
}

abbrev inputs : List Input
inputs =
    added none (
      event (record {
        message = codes "hi";
        source_host = codes "h";
        involved_name = codes "p";
        involved_namespace = codes "a";
      }))
    ∷ added none (other (codes "int"))
    ∷ updated
    ∷ added (some (codes "down")) (
        event (record {
          message = codes "ho";
          source_host = codes "h";
          involved_name = codes "p";
          involved_namespace = codes "a";
        }))
    ∷ deleted
    ∷ []

counters_balance_example :
    ((handle_all inputs start).counters.received
      ≡ (handle_all inputs start).counters.sent
        + (handle_all inputs start).counters.failed
        + (handle_all inputs start).counters.convert_failed)
    × (length (handle_all inputs start).posted
        ≡ (handle_all inputs start).counters.sent + (handle_all inputs start).counters.failed)
    × (length (handle_all inputs start).printed
        ≡ (handle_all inputs start).counters.convert_failed
          + ((handle_all inputs start).counters.failed + 99) / 100)
counters_balance_example = counters_balance inputs
