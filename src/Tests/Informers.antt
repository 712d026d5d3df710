-- ===== src/Tests/Informers.antt =====
-- The factory of informers at concrete inputs.
use observability.Base.{
  ◌≡◌, ◌≤◌, ◌⊎◌, ◌≢◌, refl, pos, List, [], ◌∷◌, none, some, false, Text, codes, text_eq,
}
use observability.Api.{MetricSink, LogSink, ClusterLogSink, ClusterMetricSink}
use observability.GoMap.{lookup, insert}
use observability.Client.Request.{
  Rest, ListOptions, get, in_namespace, of_resource, list_params, with_timeout, timeout_of,
}
use observability.Client.Groups.{GroupClient}
use observability.Client.Fake.{resource_named}
use observability.Informers.Factory.{
  Informer, State, is_set, start, start_informers, start_informer, informer_for, resync_period_of,
  new_shared_informer_factory_with_options, apply_options, with_namespace, with_tweak_list_options,
  with_custom_resync_config,
}
use observability.Informers.Kinds.{
  default_log_sink_informer, log_sink_informer, new_filtered_log_sink_informer,
  metric_sink_informer, default_metric_sink_informer,
}
use observability.Informers.Access.{
  log_sink, metric_sink, informer_of_kind, observability_of, for_resource,
}
use observability.Informers.Keys.{count}
use observability.Informers.Ops.{Op, request, start_all, run_op, run_ops, new_state}
use observability.Informers.Runs.{run_at_most_once, start_runs_all}
use observability.Informers.Sharing.{informer_shared}
use observability.Informers.Watched.{informers_list_namespace}
use observability.Informers.Resources.{resource_of, generic, for_resource_exact}

-- A REST client that reaches nothing.
abbrev no_rest : (T : Type 0) → T → Rest T Text Text
no_rest T t = record {
  into_object = λ r. (t, some (codes "down"));
  into_list = λ r. ([], some (codes "down"));
  error = λ r. some (codes "down");
  watch = λ r. (none, some (codes "down"));
}

abbrev spec_of_log : LogSink
spec_of_log = record {
  type_meta = record { kind = []; api_version = [] };
  meta = record { name = []; namespace = []; cluster_name = []; uid = [] };
  spec = record {
    type = [];
    syslog = record { host = []; port = pos 0; enable_tls = false };
    webhook = record { url = [] };
    insecure_skip_verify = false;
  };
}

abbrev spec_of_metric : MetricSink
spec_of_metric = record {
  type_meta = record { kind = []; api_version = [] };
  meta = record { name = []; namespace = []; cluster_name = []; uid = [] };
  spec = record { inputs = []; outputs = [] };
}

abbrev pub client : GroupClient Text Text
client = record {
  rest_client = record {
    for_log_sinks = no_rest _ spec_of_log;
    for_cluster_log_sinks = no_rest ClusterLogSink (record {
      type_meta = spec_of_log.type_meta;
      meta = spec_of_log.meta;
      spec = spec_of_log.spec;
    });
    for_metric_sinks = no_rest _ spec_of_metric;
    for_cluster_metric_sinks = no_rest ClusterMetricSink (record {
      type_meta = spec_of_metric.type_meta;
      meta = spec_of_metric.meta;
      spec = spec_of_metric.spec;
    });
  };
}

-- Log sinks are requested twice, and the factory is started twice.
abbrev calls : List Op
calls = request log_sink ∷ start_all ∷ request metric_sink ∷ request log_sink ∷ start_all ∷ []

abbrev first_state : State Text Text
first_state = new_state client (pos 30) (codes "apps") none ((codes "LogSink", pos 60) ∷ []) 5

run_at_most_once_example : count 5 (run_ops calls first_state).runs ≤ 1
run_at_most_once_example =
    run_at_most_once client (pos 30) (codes "apps") none ((codes "LogSink", pos 60) ∷ []) 5 calls 5

abbrev log_informer : Informer Text Text
log_informer =
    new_filtered_log_sink_informer client (codes "apps") (pos 60) (codes "namespace" ∷ []) none 5

log_informer_there :
    lookup (codes "LogSink") (run_ops calls first_state).factory.informers ≡ some log_informer
unfolding run_ops run_op informer_of_kind log_sink_informer metric_sink_informer informer_for lookup
    insert start start_informers start_informer is_set observability_of resync_period_of text_eq
    new_shared_informer_factory_with_options apply_options with_namespace with_tweak_list_options
    with_custom_resync_config default_log_sink_informer default_metric_sink_informer
log_informer_there = refl

start_runs_all_example :
    count log_informer.address (run_op start_all (run_ops calls first_state)).runs ≡ 1
start_runs_all_example =
    start_runs_all client (pos 30) (codes "apps") none ((codes "LogSink", pos 60) ∷ []) 5 calls
      (codes "LogSink") log_informer log_informer_there

informer_shared_example :
    let (i, st') = informer_of_kind log_sink first_state in
    let (j, st'') = informer_of_kind log_sink (run_ops calls st') in j ≡ i
informer_shared_example = informer_shared log_sink first_state calls

for_resource_exact_example :
    ((kind : _) × (resource_named (codes "pods") ≡ resource_of kind)
      × (let (i, st') = informer_of_kind kind first_state in
          for_resource (resource_named (codes "pods")) first_state
          ≡ (some (generic (resource_named (codes "pods")) i), st')))
    ⊎ (((kind : _) → resource_named (codes "pods") ≢ resource_of kind)
        × (for_resource (resource_named (codes "pods")) first_state ≡ (none, first_state)))
for_resource_exact_example = for_resource_exact (resource_named (codes "pods")) first_state

abbrev options : ListOptions
options = record {
  label_selector = [];
  field_selector = [];
  watch = false;
  resource_version = codes "0";
  timeout_seconds = none;
}

-- Asks for one label.
abbrev labelled : ListOptions → ListOptions
labelled o = record o { label_selector = codes "a=b" }

abbrev tweaked_informer : Informer Text Text
tweaked_informer =
    new_filtered_log_sink_informer client (codes "apps") (pos 60) (codes "namespace" ∷ [])
      (some labelled) 5

abbrev tweaked_state : State Text Text
tweaked_state =
    new_state client (pos 30) (codes "apps") (some labelled) ((codes "LogSink", pos 60) ∷ []) 5

tweaked_informer_there :
    lookup (codes "LogSink") (run_ops calls tweaked_state).factory.informers ≡ some tweaked_informer
unfolding run_ops run_op informer_of_kind log_sink_informer metric_sink_informer informer_for lookup
    insert start start_informers start_informer is_set observability_of resync_period_of text_eq
    new_shared_informer_factory_with_options apply_options with_namespace with_tweak_list_options
    with_custom_resync_config default_log_sink_informer default_metric_sink_informer
tweaked_informer_there = refl

informers_list_namespace_example :
    let (l, err) = client.rest_client.for_log_sinks.into_list (record {
      verb = get;
      setters =
          in_namespace (codes "apps")
          ∷ of_resource (codes "logsinks")
          ∷ list_params (labelled options)
          ∷ with_timeout (timeout_of none)
          ∷ [];
    }) in
    tweaked_informer.list_func options ≡ (some l, err)
informers_list_namespace_example =
    informers_list_namespace client (pos 30) (codes "apps") (some labelled)
      ((codes "LogSink", pos 60) ∷ []) 5 calls tweaked_informer options tweaked_informer_there
