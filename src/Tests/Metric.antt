-- ===== src/Tests/Metric.antt =====
-- The controllers of pkg/metric at concrete inputs.
use observability.Base.{
  none, text_eq, ◌≡◌, refl, Bool, true, false, List, [], ◌∷◌, ◌++◌, map, suc, Option, some, Text,
  codes, All, take,
}
use observability.GoMap.{distinct_keys, has_key, lookup, values}
use observability.Api.{str, MetricSinkMap, MetricSink, MetricSinkSpec, ClusterMetricSink}
use observability.Metric.ClusterConfig.{TelegrafConfig, ClusterConfig, telegraf_config, plugins_at}
use observability.Metric.ClusterConfig.Grouping.{
  Proper, of_type, all_inputs, all_outputs, telegraf_config_plugins,
}
use observability.Metric.Controller.{metric_sink, AddReplies, on_add, on_delete}
use observability.Metric.Controller.Calls.{
  target, In, add_succeeds, delete_succeeds, succeeding, Owned, on_add_until_error,
  on_add-on_delete, on_add-Owned,
}
use observability.Metric.ClusterController.{Replies}
use observability.Metric.ClusterController.Sync.{
  Event, added, deleted, updated, tombstone, set_sink, sinks_of, current, PatchedIn, AllGenuine,
  handle_all, idle, published_conf-current,
}
use observability.Tests.Data.{named}

abbrev cpu : MetricSinkMap
cpu = (codes "type", str (codes "cpu")) ∷ []

abbrev file : MetricSinkMap
file = (codes "type", str (codes "file")) ∷ []

abbrev sink : MetricSink
sink = record {
  type_meta = record { kind = []; api_version = [] };
  meta = named "m" "a";
  spec = record { inputs = cpu ∷ []; outputs = file ∷ [] };
}

abbrev changed : MetricSink
changed = record sink { spec = record { inputs = cpu ∷ []; outputs = [] } }

abbrev cluster_config : ClusterConfig
cluster_config = record {
  default_inputs = (codes "cpu", [] ∷ []) ∷ [];
  cluster_name = codes "c";
  cluster_sinks =
      (codes "m", record { type_meta = sink.type_meta; meta = sink.meta; spec = sink.spec }) ∷ [];
}

abbrev encode : TelegrafConfig → Option Text
encode t = some (codes "x")

-- The third call fails.
abbrev replies : AddReplies
replies = record add_succeeds { config_map = false }

abbrev never_equal : MetricSinkSpec → MetricSinkSpec → Bool
never_equal a b = false

defaults_distinct : distinct_keys cluster_config.default_inputs ≡ true
unfolding distinct_keys has_key
defaults_distinct = refl

inputs-Proper : Proper (all_inputs (values cluster_config.cluster_sinks))
unfolding all_inputs values distinct_keys has_key
inputs-Proper = (refl, tt)

outputs-Proper : Proper (all_outputs (values cluster_config.cluster_sinks))
unfolding all_outputs values distinct_keys has_key
outputs-Proper = (refl, tt)

telegraf_config_plugins_example :
    (plugins_at (codes "cpu") (telegraf_config cluster_config).inputs
      ≡ plugins_at (codes "cpu") cluster_config.default_inputs
        ++ of_type (codes "cpu") (all_inputs (values cluster_config.cluster_sinks)))
    × (plugins_at (codes "cpu") (telegraf_config cluster_config).outputs
        ≡ of_type (codes "cpu") (all_outputs (values cluster_config.cluster_sinks)))
telegraf_config_plugins_example =
    telegraf_config_plugins (codes "cpu") cluster_config defaults_distinct inputs-Proper
      outputs-Proper

on_add_until_error_example :
    (on_add encode (codes "1") (codes "c") replies (metric_sink sink)).1
    ≡ take
        (suc (succeeding replies))
        (on_add encode (codes "1") (codes "c") add_succeeds (metric_sink sink)).1
on_add_until_error_example = on_add_until_error encode (codes "1") (codes "c") replies sink

on_add-on_delete_example :
    All
      (λ c. In (target c) (map target (on_delete delete_succeeds (metric_sink sink))))
      (on_add encode (codes "1") (codes "c") replies (metric_sink sink)).1
on_add-on_delete_example = on_add-on_delete encode (codes "1") (codes "c") replies sink

on_add-Owned_example :
    All (Owned sink) (on_add encode (codes "1") (codes "c") replies (metric_sink sink)).1
on_add-Owned_example = on_add-Owned encode (codes "1") (codes "c") replies sink

abbrev cluster_sink : ClusterMetricSink
cluster_sink = record { type_meta = sink.type_meta; meta = sink.meta; spec = sink.spec }

abbrev changed_sink : ClusterMetricSink
changed_sink = record cluster_sink { spec = changed.spec }

abbrev no_replies : Replies
no_replies = record { patched = none; deleted = none }

-- An update of equal objects, one of the spec, and a deletion.
abbrev events : List Event
events =
    updated no_replies true cluster_sink cluster_sink
    ∷ updated no_replies false cluster_sink changed_sink
    ∷ tombstone no_replies
    ∷ deleted no_replies changed_sink
    ∷ []

events-AllGenuine :
    AllGenuine events (set_sink (codes "m") (some cluster_sink) (sinks_of cluster_config))
unfolding lookup text_eq
events-AllGenuine = ((λ _. (refl, refl)), ((λ e. cc e), (tt, (tt, tt))))

sinks_distinct : distinct_keys cluster_config.cluster_sinks ≡ true
unfolding distinct_keys has_key
sinks_distinct = refl

published_conf-current_example :
    PatchedIn encode cluster_config
      (current (added no_replies cluster_sink ∷ events) (sinks_of cluster_config))
      (handle_all encode (added no_replies cluster_sink ∷ events) (idle cluster_config)).effects
published_conf-current_example =
    published_conf-current encode cluster_config no_replies cluster_sink events sinks_distinct
      events-AllGenuine
