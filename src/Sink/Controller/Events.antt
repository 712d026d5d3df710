-- ===== src/Sink/Controller/Events.antt =====
-- What the informers report of the sinks in the cluster, and the outputs that calls publish.
use observability.Base.{
  ◌≡◌, List, [], ◌∷◌, ◌++◌, Option, none, some, if◌then◌else◌, Text, codes, text_eq, refl,
}
use observability.Api.{LogSink, ClusterLogSink}
use observability.Sink.Controller.{
  Patch, Effect, patch_config_map, Replies, patch_config, World, send,
}

-- The goroutines that run the handlers: that of the informer of log sinks, and that of the informer of
-- cluster log sinks.
pub data Thread : Type 0 where
  of_log_sinks of_cluster_log_sinks : Thread

-- A report of an informer. A deletion that the informer missed is reported by a tombstone, which is no
-- sink.
pub data Event : Type 0 where
  added deleted : LogSink → Event
  updated : LogSink → LogSink → Event
  cluster_added cluster_deleted : ClusterLogSink → Event
  cluster_updated : ClusterLogSink → ClusterLogSink → Event
  tombstone : Thread → Event

-- The log sinks by their namespaces and names, and the cluster log sinks by their clusters and names.
pub record Cluster : Type 0 where
  pub sinks : Text → Option LogSink
  pub cluster_sinks : Text → Option ClusterLogSink

abbrev pub set_at {ℓ} : {A : Type ℓ} → Text → Option A → (Text → Option A) → Text → Option A
set_at k v f j = if text_eq k j then v else f j

abbrev pub identity : LogSink → Text
identity s = s.meta.namespace ++ (codes "|" ++ s.meta.name)

abbrev pub cluster_identity : ClusterLogSink → Text
cluster_identity s = s.meta.cluster_name ++ (codes "|" ++ s.meta.name)

-- The sinks that are reported, behind an event: a tombstone reports none.
unfoldable pub after : Event → Cluster → Cluster
after (added s) k = record k { sinks = set_at (identity s) (some s) k.sinks }
after (deleted s) k = record k { sinks = set_at (identity s) none k.sinks }
after (updated o n) k = record k { sinks = set_at (identity n) (some n) k.sinks }
after (cluster_added s) k = record k {
  cluster_sinks = set_at (cluster_identity s) (some s) k.cluster_sinks;
}
after (cluster_deleted s) k = record k {
  cluster_sinks = set_at (cluster_identity s) none k.cluster_sinks;
}
after (cluster_updated o n) k = record k {
  cluster_sinks = set_at (cluster_identity n) (some n) k.cluster_sinks;
}
after (tombstone t) k = k

unfoldable pub current : List Event → Cluster → Cluster
current [] k = k
current (e ∷ es) k = current es (after e k)

abbrev pub no_sinks : Cluster
no_sinks = record { sinks = λ j. none; cluster_sinks = λ j. none }

-- An update is of a sink as it was reported, and keeps its names.
abbrev pub Genuine : Event → Cluster → Type 0
Genuine (updated o n) k =
    (k.sinks (identity o) ≡ some o)
    × (o.meta.name ≡ n.meta.name)
    × (o.meta.namespace ≡ n.meta.namespace)
Genuine (cluster_updated o n) k =
    (k.cluster_sinks (cluster_identity o) ≡ some o)
    × (o.meta.name ≡ n.meta.name)
    × (o.meta.cluster_name ≡ n.meta.cluster_name)
Genuine _ k = Unit

abbrev pub AllGenuine : List Event → Cluster → Type 0
AllGenuine [] k = Unit
AllGenuine (e ∷ es) k = Genuine e k × AllGenuine es (after e k)

-- The outputs that a call patches in.
abbrev outputs_path : Text
outputs_path = codes "/data/outputs.conf"

patched_value : List Patch → Option Text
patched_value [] = none
patched_value (p ∷ ps) = if text_eq p.path outputs_path then some p.value else patched_value ps

patched_by : Effect → Option Text
patched_by (patch_config_map name ps) = patched_value ps
patched_by _ = none

abbrev later : Option Text → Option Text → Option Text
later none o = o
later (some v) o = some v

-- The outputs that the last of the patches among some calls sends.
pub published : List Effect → Option Text
published [] = none
published (e ∷ es) = later (published es) (patched_by e)

published-append :
    (es fs : List Effect) {v : Text} → published fs ≡ some v → published (es ++ fs) ≡ some v
unfolding published
published-append [] fs h = h
published-append (e ∷ es) fs h = rw (published-append es fs h)

calls-published :
    (p d : Option Text) (v : Text)
    → published (
        patch_config
          (record { patched = p; deleted = d })
          ((record { op = codes "replace"; path = outputs_path; value = v }) ∷ []))
      ≡ some v
unfolding published patch_config patched_by patched_value text_eq
calls-published none none v = refl
calls-published none (some e) v = refl
calls-published (some e) none v = refl
calls-published (some e) (some e') v = refl

pub published-send :
    (r : Replies) (text : Text) (w : World) → published (send r text w).effects ≡ some text
unfolding send
published-send r text w = published-append w.effects _ (calls-published r.patched r.deleted text)
