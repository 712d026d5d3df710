-- ===== src/Tests/Client.antt =====
-- The typed clients and their fakes at concrete inputs.
use Prim.Native.Nat.{◌^◌}
use observability.Base.{
  ℕ, not, ◌==◌, pos, ◌≡◌, ◌↔◌, ◌<◌, ◌≤◌, ◌*◌, refl, [], ◌∷◌, none, some, false, Text, codes, arith,
  text_eq, if◌then◌else◌,
}
use observability.Api.{LogSink, ClusterLogSink, MetricSink, ClusterMetricSink}
use observability.Client.Request.{Rest, ListOptions, timeout_of}
use observability.Client.Asked.{Asked, Server}
use observability.Client.Agreement.{update_status_call, run_client}
use observability.Client.Confined.{SameAbout, client_confined}
use observability.Client.Groups.{GroupRest, Config, made}
use observability.Client.Clientset
use observability.Client.Clientset.{Clientset, Library}
use observability.Tests.Data.{syslog_spec}
use observability.Client.Timeouts.{timeout_exact}

abbrev sink_named : Text → MetricSink
sink_named name = record {
  type_meta = record { kind = codes "MetricSink"; api_version = [] };
  meta = record { name = name; namespace = codes "apps"; cluster_name = []; uid = [] };
  spec = record { inputs = []; outputs = [] };
}

abbrev answered : Asked MetricSink → MetricSink
answered a = elim a.name [ none ↦ sink_named (codes "new") | some name ↦ sink_named name ]

-- A server with two sinks, and one that has others in the other namespaces.
abbrev server : Server MetricSink Text
server = record {
  objects = λ a. (answered a, none);
  lists = λ a. (
    record {
      resource_version = codes "7";
      items = sink_named (codes "cpu") ∷ sink_named (codes "disk") ∷ [];
    },
    none,
  );
  watches = λ a. (some (codes "events"), none);
  label_of = λ opts. none;
}

abbrev other_server : Server MetricSink Text
other_server = record {
  objects =
      λ a. (if text_eq a.ns (codes "apps") then answered a else sink_named (codes "other"), none);
  lists = λ a. (
    record {
      resource_version = codes "7";
      items =
          if text_eq a.ns (codes "apps")
          then sink_named (codes "cpu") ∷ sink_named (codes "disk") ∷ []
          else [];
    },
    none,
  );
  watches = λ a. (if text_eq a.ns (codes "apps") then some (codes "events") else none, none);
  label_of = λ opts. none;
}

abbrev options : ListOptions
options = record {
  label_selector = [];
  field_selector = [];
  watch = false;
  resource_version = [];
  timeout_seconds = some 30;
}

servers_agree : SameAbout (codes "metricsinks") (codes "apps") server other_server
unfolding text_eq
servers_agree = record {
  objects = λ a n r. rw n refl;
  lists = λ a n r. rw n refl;
  watches = λ a n r. rw n refl;
}

client_confined_example :
    run_client
      (codes "metricsinks")
      (codes "apps")
      (λ s. s.meta.name)
      server
      (update_status_call (sink_named (codes "cpu")))
    ≡ run_client
        (codes "metricsinks")
        (codes "apps")
        (λ s. s.meta.name)
        other_server
        (update_status_call (sink_named (codes "cpu")))
client_confined_example =
    client_confined (codes "metricsinks") (codes "apps") (λ s. s.meta.name) server other_server
      servers_agree (update_status_call (sink_named (codes "cpu")))

timeout_exact_example :
    ((timeout_of (some 30) ≡ 30 * 1000000000) × (timeout_of (some 30) < 2 ^ 63)) ↔ (30 ≤ 9223372036)
timeout_exact_example = timeout_exact 30 (omega arith)

abbrev no_rest : (T : Type 0) → T → Rest T Text Text
no_rest T t = record {
  into_object = λ r. (t, some (codes "down"));
  into_list = λ r. ([], some (codes "down"));
  error = λ r. some (codes "down");
  watch = λ r. (none, some (codes "down"));
}

abbrev log_sink_named : Text → LogSink
log_sink_named name = record {
  type_meta = record { kind = []; api_version = [] };
  meta = record { name = name; namespace = []; cluster_name = []; uid = [] };
  spec = syslog_spec;
}

abbrev group_rest : GroupRest Text Text
group_rest = record {
  for_log_sinks = no_rest LogSink (log_sink_named []);
  for_cluster_log_sinks = no_rest ClusterLogSink (record {
    type_meta = record { kind = []; api_version = [] };
    meta = record { name = []; namespace = []; cluster_name = []; uid = [] };
    spec = syslog_spec;
  });
  for_metric_sinks = no_rest MetricSink (sink_named []);
  for_cluster_metric_sinks = no_rest ClusterMetricSink (record {
    type_meta = record { kind = []; api_version = [] };
    meta = record { name = []; namespace = []; cluster_name = []; uid = [] };
    spec = record { inputs = []; outputs = [] };
  });
}

-- A limiter and a discovery client stand as texts, and the queries for each second as a number.
abbrev library : Library Text ℕ Text Text Text
library = record {
  rest_client_for = λ c. made group_rest;
  default_user_agent = codes "go";
  discovery_for = λ c. made (elim c.rate_limiter [ none ↦ codes "free" | some r ↦ r ]);
  discovery_of_rest = λ r. [];
  token_bucket = λ q b n. codes "bucket";
  is_positive = λ q. not (q == 0);
}

abbrev config : Config Text ℕ
config = record {
  group = [];
  version = [];
  api_path = [];
  user_agent = [];
  rate_limiter = none;
  qps = 5;
  burst = pos 10;
}

abbrev clients : Clientset Text Text Text
clients = record {
  discovery_client = codes "bucket";
  observability_v1alpha1 = record { rest_client = group_rest };
}
