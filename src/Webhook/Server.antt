-- ===== src/Webhook/Server.antt =====
-- pkg/webhook/server.go and error.go: the handlers of the admission requests. The JSON of a request
-- is decoded by a parameter. The life of the server
-- is in Webhook/Lifecycle.
pub mod Verdict
pub mod MetricVerdict
pub mod Replies
use observability.Base.{
  ℕ, ℤ, pos, ltb_ℤ, Bool, true, false, not, ◌||◌, ◌&&◌, ◌==◌, List, [], ◌∷◌, Option, none, some,
  Text, codes, text_eq, if◌then◌else◌,
}
use observability.GoMap.{lookup}
use observability.Metric.ClusterConfig.{
  TelegrafConfig, kubernetes_default, new_config, upsert_sink, cluster_config_string,
}
use observability.Api.{
  SinkSpec, ClusterLogSink, Value, as_string, MetricSinkMap, MetricSinkSpec, ClusterMetricSink,
}

abbrev pub config_telegraf_error : Text
config_telegraf_error = codes "Failed to validate metricsink config"

abbrev pub config_includes_kubernetes_error : Text
config_includes_kubernetes_error =
    codes "Kubernetes input plugin added by default in ClusterMetricSink"

abbrev pub config_log_no_type_error : Text
config_log_no_type_error = codes "LogSink should have type"

abbrev pub config_log_change_type_error : Text
config_log_change_type_error = codes "Changing sink type invalid"

abbrev pub config_syslog_bad_port_error : Text
config_syslog_bad_port_error = codes "Port for syslog invalid, should be between 1 and 65535"

abbrev pub config_syslog_bad_host_error : Text
config_syslog_bad_host_error = codes "Host for syslog invalid"

abbrev pub config_syslog_insecure_error : Text
config_syslog_insecure_error = codes "Insecure syslog sink not allowed"

abbrev pub config_webhook_bad_url_error : Text
config_webhook_bad_url_error = codes "URL for webhook invalid"

abbrev pub config_webhook_insecure_error : Text
config_webhook_insecure_error = codes "Insecure webhook not allowed, scheme must be https"

abbrev pub config_metric_no_type_error : Text
config_metric_no_type_error = codes "Must specify type for each inputs/outputs"

abbrev pub config_metric_non_string_type_error : Text
config_metric_non_string_type_error = codes "Input/output type must be a string"

-- `httpError`.
pub record HttpError : Type 0 where
  pub message : Text
  pub code : ℕ

abbrev pub new_error : Text → ℕ → HttpError
new_error msg code = record { message = msg; code = code }

abbrev pub err_invalid_request : HttpError
err_invalid_request = new_error (codes "Invalid request") 422

abbrev pub err_unable_to_deserialize : HttpError
err_unable_to_deserialize = new_error (codes "Unable to deserialize request object") 400

abbrev pub err_unable_to_read_body : HttpError
err_unable_to_read_body = new_error (codes "Unable to read request body") 500

abbrev pub err_unable_to_write_config : HttpError
err_unable_to_write_config = new_error (codes "Unable to write telegraf.conf") 500

abbrev pub err_unsupported_media : HttpError
err_unsupported_media = new_error (codes "Expected a Content-Type of application/json") 415

-- `v1beta1.AdmissionResponse`, with the message of its `Result`.
pub record AdmissionResponse : Type 0 where
  pub uid : Text
  pub allowed : Bool
  pub message : Option Text

-- `v1beta1.AdmissionRequest`, with the raw objects.
pub record AdmissionRequest : Type 0 where
  pub uid : Text
  pub operation : Text
  pub object : Text
  pub old_object : Text

-- `v1beta1.AdmissionReview`; the request is a pointer.
pub record AdmissionReview : Type 0 where
  pub request : Option AdmissionRequest

-- A result or an HTTP error.
pub data Outcome {ℓ} (A : Type ℓ) : Type ℓ where
  ok : A → Outcome A
  fail : HttpError → Outcome A

infixl 5 ◌>>=◌
abbrev pub ◌>>=◌ {ℓ κ} : {A : Type ℓ} {B : Type κ} → Outcome A → (A → Outcome B) → Outcome B
ok a >>= f = f a
fail e >>= f = fail e

abbrev pub or_fail {ℓ} : {A : Type ℓ} → HttpError → Option A → Outcome A
or_fail e none = fail e
or_fail e (some a) = ok a

-- `toAdmissionErrorResponse`.
abbrev pub to_admission_error_response : Text → AdmissionResponse
to_admission_error_response msg = record { uid = []; allowed = false; message = some msg }

abbrev pub allow : AdmissionRequest → AdmissionResponse
allow r = record { uid = r.uid; allowed = true; message = none }

-- `strings.HasPrefix`, with the prefix first.
unfoldable pub has_prefix : Text → Text → Bool
has_prefix [] s = true
has_prefix (p ∷ ps) [] = false
has_prefix (p ∷ ps) (c ∷ s) = p == c && has_prefix ps s

abbrev pub is_https : Text → Bool
is_https url = has_prefix (codes "https://") url

-- The message that refuses a spec, by the `switch` on its type; `none` lets it pass.
unfoldable pub refuse_spec : SinkSpec → Option Text
unfolding has_prefix
refuse_spec spec =
    if text_eq spec.type (codes "syslog")
    then (if not spec.syslog.enable_tls
        then some config_syslog_insecure_error
        else if text_eq spec.syslog.host []
        then some config_syslog_bad_host_error
        else if ltb_ℤ (pos 65535) spec.syslog.port || ltb_ℤ spec.syslog.port (pos 1)
        then some config_syslog_bad_port_error
        else none)
    else if text_eq spec.type (codes "webhook")
    then (if text_eq spec.webhook.url []
        then some config_webhook_bad_url_error
        else if not (is_https spec.webhook.url)
        then some config_webhook_insecure_error
        else none)
    else some config_log_no_type_error

-- `json.Unmarshal` into the two types of sinks; `none` is an error.
pub record Decoder : Type 0 where
  pub log_sink : Text → Option ClusterLogSink
  pub metric_sink : Text → Option ClusterMetricSink

abbrev pub answer : AdmissionRequest → Option Text → AdmissionResponse
answer r none = allow r
answer r (some msg) = to_admission_error_response msg

-- The test of an update: `some` is an old object with another type.
abbrev type_change : ClusterLogSink → ClusterLogSink → Option Text
type_change old new =
    if not (text_eq old.spec.type new.spec.type) then some config_log_change_type_error else none

abbrev pub first_of_two : Option Text → Option Text → Option Text
first_of_two none m = m
first_of_two (some msg) m = some msg

module _ (d : Decoder) where
  -- The change of type that an update makes.
  unfoldable pub refuse_update : AdmissionRequest → ClusterLogSink → Outcome (Option Text)
  refuse_update r cls =
      if text_eq r.operation (codes "UPDATE")
      then (do
        old ← or_fail err_unable_to_deserialize (d.log_sink r.old_object)
        ok (type_change old cls))
      else ok none

  -- `validateLogSinkConfigRequest`.
  unfoldable pub validate_log_sink_config_request : AdmissionRequest → Outcome AdmissionResponse
  unfolding refuse_update
  validate_log_sink_config_request r = do
    cls ← or_fail err_unable_to_deserialize (d.log_sink r.object)
    changed ← refuse_update r cls
    ok (answer r (first_of_two changed (refuse_spec cls.spec)))

-- The loop over the inputs, and the one over the outputs.
unfoldable pub refuse_inputs : List MetricSinkMap → Option Text
refuse_inputs [] = none
refuse_inputs (i ∷ is) = elim (lookup (codes "type") i) [
  | none ↦ some config_metric_no_type_error
  | some v ↦ elim (as_string v) [
    | none ↦ some config_metric_non_string_type_error
    | some t ↦
        let rest = refuse_inputs is in
        if text_eq t (codes "kubernetes") then some config_includes_kubernetes_error else rest
  ]
]

unfoldable pub refuse_outputs : List MetricSinkMap → Option Text
refuse_outputs [] = none
refuse_outputs (o ∷ os) = elim (lookup (codes "type") o) [
  | none ↦ some config_metric_no_type_error
  | some v ↦ elim (as_string v) [
    | none ↦ some config_metric_non_string_type_error
    | some t ↦ refuse_outputs os
  ]
]

-- The machine, as one request meets it: whether a configuration is written to /tmp/telegraf.conf, what
-- is in that file when telegraf reads it, which may be from another request by then, and whether
-- `telegraf --test` accepts what it reads.
pub record Machine : Type 0 where
  pub writes : Text → Bool
  pub found : Text → Text
  pub accepts : Text → Bool

-- The configuration that is tested: the one sink, beside the default inputs.
unfoldable pub tested_config : (TelegrafConfig → Option Text) → ClusterMetricSink → Text
tested_config encode cms =
    cluster_config_string encode (upsert_sink cms (new_config [] (kubernetes_default false ∷ [])))

module _ (encode : TelegrafConfig → Option Text) (machine : Machine) where
  unfoldable pub run_telegraf : AdmissionRequest → ClusterMetricSink → Outcome AdmissionResponse
  run_telegraf r cms =
      if not (machine.writes (tested_config encode cms))
      then fail err_unable_to_write_config
      else if not (machine.accepts (machine.found (tested_config encode cms)))
      then ok (to_admission_error_response config_telegraf_error)
      else ok (allow r)

  -- `validateMetricSinkConfig`.
  unfoldable pub validate_metric_sink_config :
      AdmissionRequest → ClusterMetricSink → Outcome AdmissionResponse
  unfolding run_telegraf
  validate_metric_sink_config r cms =
      elim (first_of_two (refuse_inputs cms.spec.inputs) (refuse_outputs cms.spec.outputs)) [
        | some msg ↦ ok (to_admission_error_response msg)
        | none ↦ run_telegraf r cms
      ]

-- The parts of an HTTP request that the handlers read; `none` is a body that cannot be read.
pub record HttpRequest : Type 0 where
  pub content_type : Text
  pub body : Option Text

-- What a handler writes: an error with its status, or the JSON of a review with its response.
pub data Reply : Type 0 where
  http_error : HttpError → Reply
  review : Option AdmissionResponse → Reply

module _ (decode : Text → Option AdmissionReview) where
  -- `deserializeReview`, whose result is used for its request alone.
  unfoldable pub deserialize_review : HttpRequest → Outcome AdmissionRequest
  deserialize_review r =
      if not (text_eq r.content_type (codes "application/json"))
      then fail err_unsupported_media
      else do
        text ← or_fail err_unable_to_read_body r.body
        rev ← or_fail err_unable_to_deserialize (decode text)
        or_fail err_invalid_request rev.request

  -- `logSinkHandler`: behind the error of a validation it writes a review with no response too.
  unfoldable pub log_sink_handler : Decoder → HttpRequest → List Reply
  unfolding deserialize_review validate_log_sink_config_request
  log_sink_handler d r = elim (deserialize_review r) [
    | fail e ↦ http_error e ∷ []
    | ok req ↦ elim (validate_log_sink_config_request d req) [
      | fail e ↦ http_error err_unable_to_deserialize ∷ review none ∷ []
      | ok resp ↦ review (some resp) ∷ []
    ]
  ]

  -- `metricSinkHandler`.
  unfoldable pub metric_sink_handler :
      Decoder → (TelegrafConfig → Option Text) → Machine → HttpRequest → List Reply
  unfolding deserialize_review validate_metric_sink_config
  metric_sink_handler d encode machine r =
      elim (do
        req ← deserialize_review r
        cms ← or_fail err_unable_to_deserialize (d.metric_sink req.object)
        validate_metric_sink_config encode machine req cms) [
          | fail e ↦ http_error e ∷ []
          | ok resp ↦ review (some resp) ∷ []
        ]
