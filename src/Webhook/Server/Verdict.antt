-- ===== src/Webhook/Server/Verdict.antt =====
-- What the admission webhook lets through.
use observability.Base.{
  ℕ, ℤ, pos, negsuc, ltb_ℤ, ◌≤◌, Bool, true, false, ◌||◌, ◌≡◌, ◌≢◌, ◌↔◌, refl, ◌⊎◌, inl, inr, [],
  ◌∷◌, ◌++◌, none, some, arith, Text, codes, text_eq, text_eq_iff, text_eq_refl, Bool-cases,
  Option-cases,
}
use observability.Api.{SinkSpec, ClusterLogSink}
use observability.Webhook.Server.{
  HttpError, AdmissionRequest, AdmissionResponse, Outcome, ok, fail, allow,
  to_admission_error_response, first_of_two, has_prefix, refuse_spec, Decoder, refuse_update,
  validate_log_sink_config_request, is_https,
}

-- A spec that the webhook is meant to let through: syslog over TLS to a host and a port that exist,
-- or a webhook over https.
pub record SecureSyslog (spec : SinkSpec) : Type 0 where
  pub type : spec.type ≡ codes "syslog"
  pub tls : spec.syslog.enable_tls ≡ true
  pub host : spec.syslog.host ≢ []
  pub port : (n : ℕ) × (spec.syslog.port ≡ pos n) × (1 ≤ n) × (n ≤ 65535)

pub record SecureWebhook (spec : SinkSpec) : Type 0 where
  pub type : spec.type ≡ codes "webhook"
  pub scheme : (rest : Text) × (spec.webhook.url ≡ codes "https://" ++ rest)

abbrev pub IsSecure : SinkSpec → Type 0
IsSecure spec = SecureSyslog spec ⊎ SecureWebhook spec

has_prefix_split : (p s : Text) → has_prefix p s ≡ true → (rest : Text) × (s ≡ p ++ rest)
unfolding has_prefix
has_prefix_split [] s h = (s, refl)
has_prefix_split (p ∷ ps) [] h = cc
has_prefix_split (p ∷ ps) (c ∷ s) h =
    let (rest, e) = has_prefix_split ps s (ground arith) in (rest, ground arith)

has_prefix-append : (p rest : Text) → has_prefix p (p ++ rest) ≡ true
unfolding has_prefix
has_prefix-append [] rest = refl
has_prefix-append (p ∷ ps) rest = ground (arith, has_prefix-append ps rest)

port_in_range :
    (z : ℤ)
    → (ltb_ℤ (pos 65535) z || ltb_ℤ z (pos 1)) ≡ false
    → (n : ℕ) × (z ≡ pos n) × (1 ≤ n) × (n ≤ 65535)
port_in_range (pos n) h = (n, refl, ground arith, ground arith)
port_in_range (negsuc n) h = cc

not_empty : (t : Text) → text_eq t [] ≡ false → t ≢ []
not_empty t h e = cc (rw e at h, text_eq_refl [])

url_not_empty : (rest : Text) → text_eq (codes "https://" ++ rest) [] ≡ false
unfolding text_eq
url_not_empty rest = refl

is_webhook_not_syslog : text_eq (codes "webhook") (codes "syslog") ≡ false
unfolding text_eq
is_webhook_not_syslog = refl

refuse_spec-IsSecure : (spec : SinkSpec) → refuse_spec spec ≡ none → IsSecure spec
unfolding refuse_spec
refuse_spec-IsSecure spec h = elim (Bool-cases (text_eq spec.type (codes "syslog"))) [
  | inl e ↦ inl (record {
    type = (text_eq_iff _ _).0 e;
    tls = ground arith;
    host = not_empty spec.syslog.host (ground arith);
    port = port_in_range spec.syslog.port (ground arith);
  })
  | inr e ↦ inr (record {
    type = (text_eq_iff _ _).0 (ground arith);
    scheme = has_prefix_split (codes "https://") spec.webhook.url (ground arith);
  })
]

eq_false : (t : Text) → t ≢ [] → text_eq t [] ≡ false
eq_false t n = elim (Bool-cases (text_eq t [])) [
  | inl e ↦ absurd (n ((text_eq_iff t []).0 e))
  | inr e ↦ e
]

IsSecure-refuse_spec : (spec : SinkSpec) → IsSecure spec → refuse_spec spec ≡ none
unfolding refuse_spec
IsSecure-refuse_spec spec (inl s) = ground (
  arith,
  (text_eq_iff spec.type (codes "syslog")).1 s.type,
  s.tls,
  eq_false spec.syslog.host s.host,
  s.port.1,
  s.port.2,
  s.port.3,
)
IsSecure-refuse_spec spec (inr s) =
    let web : text_eq spec.type (codes "webhook") ≡ true = (text_eq_iff _ _).1 s.type in
    let not_syslog : text_eq spec.type (codes "syslog") ≡ false = rw s.type is_webhook_not_syslog in
    let https : is_https spec.webhook.url ≡ true =
      rw (s.scheme.1) (has_prefix-append (codes "https://") s.scheme.0) in
    let not_empty_url : text_eq spec.webhook.url [] ≡ false =
      rw (s.scheme.1) (url_not_empty s.scheme.0) in
    ground arith

abbrev pub is_update : AdmissionRequest → Bool
is_update r = text_eq r.operation (codes "UPDATE")

-- What an update asks of the object that it replaces: it is read, and has the type of the new one.
abbrev pub KeepsType : Decoder → AdmissionRequest → ClusterLogSink → Type 0
KeepsType d r cls =
    (is_update r ≡ false)
    ⊎ ((old : ClusterLogSink) × (d.log_sink r.old_object ≡ some old)
        × (old.spec.type ≡ cls.spec.type))

-- An outcome is a response whose `Allowed` is set.
abbrev pub Allows : Outcome AdmissionResponse → Type 0
Allows o = (resp : AdmissionResponse) × (o ≡ ok resp) × (resp.allowed ≡ true)

abbrev pub Fails {ℓ} : {A : Type ℓ} → Outcome A → Type ℓ
Fails o = (e : HttpError) × (o ≡ fail e)

pub Outcome-cases {ℓ} : {A : Type ℓ} (o : Outcome A) → ((a : A) × (o ≡ ok a)) ⊎ Fails o
Outcome-cases (ok a) = inl (a, refl)
Outcome-cases (fail e) = inr (e, refl)

pub refusal_allows_not :
    (msg : Text) (resp : AdmissionResponse)
    → to_admission_error_response msg ≡ resp
    → resp.allowed ≢ true
refusal_allows_not msg resp e t = cc

module _ (d : Decoder) (r : AdmissionRequest) where
  -- What an allowing response rests on.
  pub record Allowed : Type 0 where
    pub sink : ClusterLogSink
    pub decoded : d.log_sink r.object ≡ some sink
    pub keeps_type : KeepsType d r sink
    pub secure : IsSecure sink.spec

  -- A response that allows is that of the request.
  allowing_response :
      Allows (validate_log_sink_config_request d r)
      → validate_log_sink_config_request d r ≡ ok (allow r)
  unfolding validate_log_sink_config_request
  allowing_response (resp, e, t) = elim (Option-cases (d.log_sink r.object)) [
    | inl f ↦ absurd (ground arith)
    | inr (cls, f) ↦ elim (Outcome-cases (refuse_update d r cls)) [
      | inr (x, g) ↦ absurd (ground arith)
      | inl (changed, g) ↦ elim (Option-cases (first_of_two changed (refuse_spec cls.spec))) [
        | inl h ↦ ground arith
        | inr (msg, h) ↦ absurd (refusal_allows_not msg resp (ground arith) t)
      ]
    ]
  ]

  allowed-Allowed : validate_log_sink_config_request d r ≡ ok (allow r) → Allowed
  unfolding validate_log_sink_config_request refuse_update
  allowed-Allowed h = elim (Option-cases (d.log_sink r.object)) [
    | inl e ↦ absurd (ground arith)
    | inr (cls, e) ↦ record {
      sink = cls;
      decoded = e;
      keeps_type = elim (Bool-cases (is_update r)) [
        | inr no_update ↦ inl no_update
        | inl update ↦ elim (Option-cases (d.log_sink r.old_object)) [
          | inl e' ↦ absurd (ground arith)
          | inr (old, e') ↦
              inr (old, e', (text_eq_iff old.spec.type cls.spec.type).0 (ground arith))
        ]
      ];
      secure = refuse_spec-IsSecure cls.spec (ground arith);
    }
  ]

  Allowed-allowed : Allowed → validate_log_sink_config_request d r ≡ ok (allow r)
  unfolding validate_log_sink_config_request refuse_update
  Allowed-allowed a = go a.keeps_type
    where
      go : KeepsType d r a.sink → validate_log_sink_config_request d r ≡ ok (allow r)
      go (inl e) = ground (arith, a.decoded, IsSecure-refuse_spec a.sink.spec a.secure)
      go (inr (old, e, same)) = ground (
        arith,
        a.decoded,
        IsSecure-refuse_spec a.sink.spec a.secure,
        (text_eq_iff old.spec.type a.sink.spec.type).1 same,
      )

-- The response to a log sink has `Allowed` set exactly when its object is read, its spec is secure
-- (syslog over TLS with a host and a port from 1 to 65535, or a webhook over https), and, for an
-- update, the old object is read and has the same type; it then has the UID of the request and no
-- message.
pub validate_log_sink_exact :
    (d : Decoder) (r : AdmissionRequest)
    → (Allows (validate_log_sink_config_request d r) ↔ Allowed d r)
      × (Allowed d r
          → validate_log_sink_config_request d r
            ≡ ok (record { uid = r.uid; allowed = true; message = none }))
validate_log_sink_exact d r = (
  (
    (λ a. allowed-Allowed d r (allowing_response d r a)),
    (λ a. (allow r, Allowed-allowed d r a, refl)),
  ),
  Allowed-allowed d r,
)
