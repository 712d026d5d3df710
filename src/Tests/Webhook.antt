-- ===== src/Tests/Webhook.antt =====
-- The verdicts of pkg/webhook at concrete inputs.
use observability.Base.{
  map, ◌⊎◌, length, ◌≡◌, ◌↔◌, true, refl, [], ◌∷◌, Option, none, some, if◌then◌else◌, Text, codes,
  text_eq,
}
use observability.Api.{str, MetricSinkMap, ClusterLogSink, ClusterMetricSink}
use observability.Metric.ClusterConfig.{TelegrafConfig}
use observability.Webhook.Server.{
  AdmissionReview, HttpRequest, review, deserialize_review, log_sink_handler, AdmissionRequest,
  Decoder, ok, allow, has_prefix, refuse_spec, validate_log_sink_config_request,
  to_admission_error_response, config_log_change_type_error, Machine, refuse_inputs,
  config_includes_kubernetes_error,
}
use observability.Webhook.Server.Verdict.{Allowed, Allows, validate_log_sink_exact}
use observability.Webhook.Server.Replies.{
  Unreadable, any_allows, log_sink_handler_twice, log_sink_handler_allows,
}
use observability.Webhook.Lifecycle.{
  Server, new_server, with_tls_config, mux, start, close, returns, address_of,
}
use observability.Webhook.Lifecycle.Reach.{made, started, close-Reachable}
use observability.Tests.Data.{named, syslog_spec, cluster_sink}

abbrev syslog_cluster_sink : ClusterLogSink
syslog_cluster_sink = record cluster_sink { spec = syslog_spec }

abbrev plugin : MetricSinkMap
plugin = (codes "type", str (codes "cpu")) ∷ []

abbrev metric_sink : ClusterMetricSink
metric_sink = record {
  type_meta = record { kind = []; api_version = [] };
  meta = named "m" "a";
  spec = record { inputs = plugin ∷ []; outputs = plugin ∷ [] };
}

-- Reads two log sinks and a metric sink.
abbrev decoder : Decoder
decoder = record {
  log_sink = λ t.
      if text_eq t (codes "new")
      then some cluster_sink
      else if text_eq t (codes "old")
      then some syslog_cluster_sink
      else none;
  metric_sink = λ t. if text_eq t (codes "new") then some metric_sink else none;
}

abbrev update : AdmissionRequest
update = record {
  uid = codes "1";
  operation = codes "UPDATE";
  object = codes "new";
  old_object = codes "old";
}

abbrev create : AdmissionRequest
create = record update { operation = codes "CREATE" }

create_allowed : validate_log_sink_config_request decoder create ≡ ok (allow create)
unfolding validate_log_sink_config_request text_eq refuse_spec has_prefix
create_allowed = refl

update_refused :
    validate_log_sink_config_request decoder update
    ≡ ok (to_admission_error_response config_log_change_type_error)
unfolding validate_log_sink_config_request text_eq
update_refused = refl

validate_log_sink_exact_example :
    (Allows (validate_log_sink_config_request decoder update) ↔ Allowed decoder update)
    × (Allowed decoder update
        → validate_log_sink_config_request decoder update
          ≡ ok (record { uid = codes "1"; allowed = true; message = none }))
validate_log_sink_exact_example = validate_log_sink_exact decoder update

abbrev encode : TelegrafConfig → Option Text
encode t = some (codes "x")

-- Every configuration is written, found again and accepted.
abbrev machine : Machine
machine = record { writes = λ t. true; found = λ t. t; accepts = λ t. true }

refuse_kubernetes :
    refuse_inputs (((codes "type", str (codes "kubernetes")) ∷ []) ∷ [])
    ≡ some config_includes_kubernetes_error
unfolding refuse_inputs observability.GoMap.lookup text_eq
refuse_kubernetes = refl

-- Reads two reviews.
abbrev decode : Text → Option AdmissionReview
decode t =
    if text_eq t (codes "update")
    then some (record { request = some update })
    else if text_eq t (codes "create")
    then some (record { request = some create })
    else none

abbrev post : Text → HttpRequest
post t = record { content_type = codes "application/json"; body = some t }

-- Reads the new object alone.
abbrev forgetful : Decoder
forgetful = record decoder {
  log_sink = λ t. if text_eq t (codes "new") then some cluster_sink else none;
}

log_sink_handler_twice_example :
    (length (log_sink_handler decode forgetful (post (codes "update"))) ≡ 2) ↔ (
      (req : AdmissionRequest) × (deserialize_review decode (post (codes "update")) ≡ ok req)
      × Unreadable forgetful req)
log_sink_handler_twice_example = log_sink_handler_twice decode forgetful (post (codes "update"))

-- Both replies are written.
two_replies : length (log_sink_handler decode forgetful (post (codes "update"))) ≡ 2
unfolding log_sink_handler text_eq
two_replies = refl

create_read : deserialize_review decode (post (codes "create")) ≡ ok create
unfolding deserialize_review text_eq
create_read = refl

log_sink_handler_allows_example :
    ((any_allows (log_sink_handler decode decoder (post (codes "create"))) ≡ true)
      ↔ Allowed decoder create)
    × (Allowed decoder create
        → log_sink_handler decode decoder (post (codes "create"))
          ≡ review (some (record { uid = codes "1"; allowed = true; message = none })) ∷ [])
log_sink_handler_allows_example =
    log_sink_handler_allows decode decoder (post (codes "create")) create create_read

-- A server with TLS that was started, and whose listener does not close.
abbrev running_server : Server Text
running_server =
    start (codes "[::]:80") (new_server (codes ":80") (map with_tls_config (codes "cert" ∷ [])))

close-Reachable_example :
    ((running_server.lis ≡ none)
      × (address_of running_server ≡ [])
      × (close none (some (codes "closed")) running_server ≡ returns none))
    ⊎ ((address : Text) × (running_server.lis ≡ some address)
        × (address_of running_server ≡ address)
        × (running_server.srv
            ≡ some (record { tls_config = running_server.tls_config; patterns = mux }))
        × (close none (some (codes "closed")) running_server ≡ returns (some (codes "closed"))))
close-Reachable_example =
    close-Reachable none (some (codes "closed")) running_server
      (started (codes "[::]:80") (made (codes ":80") (codes "cert" ∷ [])))
