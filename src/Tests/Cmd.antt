-- ===== src/Tests/Cmd.antt =====
-- The start-ups at concrete inputs.
use observability.Base.{◌≡◌, refl, List, [], ◌∷◌, ◌++◌, none, some, true, Text, codes, text_eq}
use observability.GoMap.{lookup}
use observability.Api.{LogSink, ClusterMetricSink}
use observability.Client.Groups.{made}
use observability.Sink.Config.{new_config}
use observability.Sink.Controller.{Replies, set_cluster_name_filter, add_sink, remove_sink}
use observability.Sink.Controller.Events.{
  added, deleted, of_log_sinks, AllGenuine, current, no_sinks, published,
}
use observability.Sink.Controller.Threads.{
  System, change, Move, report, read, patch, step, run, reports,
}
use observability.Sink.Controller.Threads.{start}
use observability.Sink.Controller.Sync.{IsTextOf}
use observability.Metric.ClusterController
use observability.Metric.ClusterController.Sync
use observability.Cmd.Exit.{up, cluster_name_of, cluster_name_label}
use observability.Cmd.SinkController
use observability.Cmd.SinkController.{sink_controller_publishes}
use observability.Cmd.MetricController
use observability.Cmd.Validator
use observability.Cmd.Validator.{validator_serves_tls}
use observability.Webhook.Lifecycle
use observability.Webhook.Lifecycle.{serve_on, serve_tls, mux, new_server, with_tls_config}
use observability.Tests.Data.{named, syslog_spec, parse_example}
use observability.Tests.Informers.{client}

abbrev no_replies : Replies
no_replies = record { patched = none; deleted = none }

abbrev sink_outside : SinkController.Outside Unit Unit Text Text
sink_outside = record {
  load = made (record { namespace = codes "knative" });
  write_report = none;
  in_cluster_config = made tt;
  versioned_client = λ cfg. made client;
  core_client = λ cfg. made tt;
  list_nodes = λ core. made (((codes "pks-system/cluster.name", codes "c1") ∷ []) ∷ []);
}

abbrev sink_running : SinkController.Running Text Text
sink_running =
    SinkController.watch_sinks (codes "knative") client (
      set_cluster_name_filter no_replies (codes "c1")
        (record { config = new_config; effects = [] }))

sink_controller_up : SinkController.main sink_outside no_replies ≡ up sink_running
unfolding SinkController.main cluster_name_of cluster_name_label lookup text_eq
sink_controller_up = refl

abbrev a_sink : LogSink
a_sink = record {
  type_meta = record { kind = []; api_version = [] };
  meta = named "logs" "apps";
  spec = syslog_spec;
}

abbrev sink_moves : List Move
sink_moves =
    report (added a_sink)
    ∷ read of_log_sinks
    ∷ patch of_log_sinks no_replies
    ∷ report (deleted a_sink)
    ∷ []

abbrev last_state : System
last_state =
    elim (run parse_example (sink_moves ++ read of_log_sinks ∷ patch of_log_sinks no_replies ∷ [])
      (start sink_running.world)) [ none ↦ start sink_running.world | some s ↦ s ]

run-sink_moves :
    run parse_example
      (sink_moves ++ read of_log_sinks ∷ patch of_log_sinks no_replies ∷ [])
      (start sink_running.world)
    ≡ some last_state
unfolding run step change add_sink remove_sink
run-sink_moves = refl

sink_moves-AllGenuine : AllGenuine (reports sink_moves) no_sinks
unfolding reports
sink_moves-AllGenuine = (tt, (tt, tt))

no_report : reports [] ≡ []
unfolding reports
no_report = refl

sink_controller_publishes_example :
    SinkController.Watches sink_running
    × ((text : Text) × (published last_state.world.effects ≡ some text)
        × IsTextOf parse_example (current (reports sink_moves) no_sinks) text)
sink_controller_publishes_example =
    sink_controller_publishes sink_outside no_replies sink_running parse_example sink_moves []
      of_log_sinks no_replies last_state sink_controller_up sink_moves-AllGenuine no_report
      run-sink_moves

abbrev metric_outside : MetricController.Outside Unit Unit Unit Text Text
metric_outside = record {
  load = made (record { namespace = codes "knative"; use_insecure_kubernetes_port = true });
  write_report = none;
  in_cluster_config = made tt;
  versioned_client = λ cfg. made client;
  core_client = λ cfg. made tt;
  kubernetes_client = λ cfg. made tt;
  list_nodes = λ core. made (((codes "zone", codes "a") ∷ []) ∷ []);
}

abbrev metric_running : MetricController.Running Text Text
metric_running =
    MetricController.watch_sinks
      (record { namespace = codes "knative"; use_insecure_kubernetes_port = true }) client []

abbrev a_metric_sink : ClusterMetricSink
a_metric_sink = record {
  type_meta = record { kind = []; api_version = [] };
  meta = named "cpu" "";
  spec = record { inputs = []; outputs = [] };
}

abbrev validator_outside : Validator.Outside Text
validator_outside = record {
  load = λ env. made (record env { http_addr = codes ":8443" });
  load_key_pair = λ cert key. made cert;
  write_report = some (codes "closed");
}

abbrev validator_running : Validator.Running Text
validator_running = record {
  server = new_server (codes ":8443") (with_tls_config (codes "/etc/validator-certs/tls.crt") ∷ []);
  printed = codes "Unable to write envstruct report: closed" ∷ [];
}

validator_up : Validator.main validator_outside ≡ up validator_running
unfolding Validator.main
validator_up = refl

validator_serves_tls_example :
    (cert : Text) × (key : Text) × (t : Text) × (validator_outside.load_key_pair cert key ≡ made t)
    × ((Lifecycle.start (codes ":8443") validator_running.server).srv
        ≡ some (record { tls_config = some t; patterns = mux }))
    × (serve_on (codes ":8443") (Lifecycle.start (codes ":8443") validator_running.server)
        ≡ serve_tls (codes ":8443"))
validator_serves_tls_example =
    validator_serves_tls validator_outside validator_running (codes ":8443") validator_up
