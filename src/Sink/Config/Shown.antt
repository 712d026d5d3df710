-- ===== src/Sink/Config/Shown.antt =====
-- What the text of a configuration depends on: of each sink its name, its namespace and its spec.
use observability.Base.{
  true, false, ◌≡◌, refl, ap, List, [], ◌∷◌, ◌++◌, map, Option, Text, Bool-cases, inl, inr,
}
use observability.GoMap.Laws.{map_values, values-map_values, length-map_values}
use observability.Api.{LogSink, ClusterLogSink}
use observability.Sink.Config.{
  Url, Config, syslog_sink, syslog_cluster_sink, syslog_sinks, syslog_cluster_sinks, is_syslog,
  is_webhook, webhook_sinks, webhook_cluster_sinks, build_http_config, syslog_config,
  webhook_config, config_string,
}

-- What the configuration shows of a sink: its name, its namespace and its spec.
unfoldable pub shown : LogSink → LogSink
shown s = record s {
  type_meta = record { kind = []; api_version = [] };
  meta = record s.meta { cluster_name = []; uid = [] };
}

unfoldable pub cluster_shown : ClusterLogSink → ClusterLogSink
cluster_shown s = record s {
  type_meta = record { kind = []; api_version = [] };
  meta = record s.meta { namespace = []; cluster_name = []; uid = [] };
}

syslog_sinks-shown : (ss : List LogSink) → syslog_sinks (map shown ss) ≡ syslog_sinks ss
unfolding syslog_sinks syslog_sink shown
syslog_sinks-shown [] = refl
syslog_sinks-shown (s ∷ ss) = elim (Bool-cases (is_syslog s.spec)) [
  | inl e ↦ rw e (ap (◌∷◌ (syslog_sink s)) (syslog_sinks-shown ss))
  | inr e ↦ rw e (syslog_sinks-shown ss)
]

syslog_cluster_sinks-shown :
    (ss : List ClusterLogSink)
    → syslog_cluster_sinks (map cluster_shown ss) ≡ syslog_cluster_sinks ss
unfolding syslog_cluster_sinks syslog_cluster_sink cluster_shown
syslog_cluster_sinks-shown [] = refl
syslog_cluster_sinks-shown (s ∷ ss) = elim (Bool-cases (is_syslog s.spec)) [
  | inl e ↦ rw e (ap (◌∷◌ (syslog_cluster_sink s)) (syslog_cluster_sinks-shown ss))
  | inr e ↦ rw e (syslog_cluster_sinks-shown ss)
]

module _ (parse_url : Text → Option Url) where
  webhook_sinks-shown :
      (ss : List LogSink) → webhook_sinks parse_url (map shown ss) ≡ webhook_sinks parse_url ss
  unfolding webhook_sinks shown
  webhook_sinks-shown [] = refl
  webhook_sinks-shown (s ∷ ss) = elim (Bool-cases (is_webhook s.spec)) [
    | inl e ↦ rw e (
        ap (◌++◌ (build_http_config parse_url s.meta.namespace s.spec false))
          (webhook_sinks-shown ss))
    | inr e ↦ rw e (webhook_sinks-shown ss)
  ]

  webhook_cluster_sinks-shown :
      (ss : List ClusterLogSink)
      → webhook_cluster_sinks parse_url (map cluster_shown ss) ≡ webhook_cluster_sinks parse_url ss
  unfolding webhook_cluster_sinks cluster_shown
  webhook_cluster_sinks-shown [] = refl
  webhook_cluster_sinks-shown (s ∷ ss) = elim (Bool-cases (is_webhook s.spec)) [
    | inl e ↦
        rw e
          (ap (◌++◌ (build_http_config parse_url [] s.spec true)) (webhook_cluster_sinks-shown ss))
    | inr e ↦ rw e (webhook_cluster_sinks-shown ss)
  ]

unfoldable pub shown_config : Config → Config
shown_config c = record {
  sinks = map_values shown c.sinks;
  cluster_sinks = map_values cluster_shown c.cluster_sinks;
}

-- The text depends on no more than that.
pub config_string-shown :
    (parse_url : Text → Option Url) (c : Config)
    → config_string parse_url (shown_config c) ≡ config_string parse_url c
unfolding config_string syslog_config webhook_config shown_config
config_string-shown parse_url c = simp (
  values-map_values, length-map_values, syslog_sinks-shown, syslog_cluster_sinks-shown,
  webhook_sinks-shown, webhook_cluster_sinks-shown,
)
