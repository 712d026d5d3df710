-- ===== src/Event.antt =====
-- pkg/event/controller.go: events of the cluster, forwarded to fluentd. The forwarder is a parameter
-- by what it returns; the counters are those of `expvar`.
pub mod Counting
use observability.Base.{
  ℕ, ◌+◌, ◌%◌, Bool, true, false, List, [], ◌∷◌, ◌++◌, Option, none, some, ◌==◌, if◌then◌else◌,
  Text, codes,
}

pub record Counters : Type 0 where
  pub received : ℕ
  pub updated : ℕ
  pub deleted : ℕ
  pub sent : ℕ
  pub failed : ℕ
  pub convert_failed : ℕ

-- What is read of a `v1.Event`.
pub record KubeEvent : Type 0 where
  pub message : Text
  pub source_host : Text
  pub involved_name : Text
  pub involved_namespace : Text

-- What an informer hands to a handler; anything else has its type's name.
pub data Object : Type 0 where
  event : KubeEvent → Object
  other : Text → Object

-- The map that is posted, with its inner map `kubernetes`.
pub record Payload : Type 0 where
  pub log : Text
  pub stream : Text
  pub host : Text
  pub pod_name : Text
  pub namespace_name : Text
  pub source_type : Text

pub record World : Type 0 where
  pub counters : Counters
  pub posted : List (Text × Payload)
  pub printed : List Text

unfoldable pub payload_of : KubeEvent → Payload
payload_of e = record {
  log = e.message;
  stream = codes "stdout";
  host = e.source_host;
  pod_name = e.involved_name;
  namespace_name = e.involved_namespace;
  source_type = codes "k8s.event";
}

unfoldable pub tag_of : KubeEvent → Text
tag_of e = codes "k8s.event._" ++ (e.involved_namespace ++ codes "_")

-- `sendToFluent`: one in a hundred failures is printed. The reply is the error of `Post`.
unfoldable pub send_to_fluent : Option Text → Text → Payload → World → World
send_to_fluent none tag m w = record w {
  posted = w.posted ++ (tag, m) ∷ [];
  counters = record w.counters { sent = w.counters.sent + 1 };
}
send_to_fluent (some e) tag m w = record w {
  posted = w.posted ++ (tag, m) ∷ [];
  printed =
      if w.counters.failed % 100 == 0
      then w.printed ++ (codes "unable to forward event: " ++ e) ∷ []
      else w.printed;
  counters = record w.counters { failed = w.counters.failed + 1 };
}

abbrev count_received : World → World
count_received w = record w { counters = record w.counters { received = w.counters.received + 1 } }

unfoldable pub on_add : Option Text → Object → World → World
unfolding send_to_fluent
on_add reply (event e) w = send_to_fluent reply (tag_of e) (payload_of e) (count_received w)
on_add reply (other type) w =
    let v = count_received w in
    record v {
      counters = record v.counters { convert_failed = v.counters.convert_failed + 1 };
      printed = v.printed ++ (codes "got something other an event: " ++ type) ∷ [];
    }

unfoldable pub on_delete : World → World
on_delete w = record w { counters = record w.counters { deleted = w.counters.deleted + 1 } }

unfoldable pub on_update : World → World
on_update w = record w { counters = record w.counters { updated = w.counters.updated + 1 } }
