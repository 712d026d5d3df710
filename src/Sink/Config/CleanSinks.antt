-- ===== src/Sink/Config/CleanSinks.antt =====
-- The sinks whose texts can stand as values of a document, and the outputs of those for syslog.
use observability.Base.{
  ℤ, pos, negsuc, itoa, itoa_ℤ, itoa-digits, Bool, true, false, ◌&&◌, ◌≡◌, refl, List, [], ◌∷◌,
  ◌++◌, map, Option, none, some, arith, leb, ◌==◌, Text, codes, All, All-append, Bool-cases, inl,
  inr, ◌+◌,
}
use observability.Api.{SinkSpec, LogSink, ClusterLogSink}
use observability.Flb.Document.{OneLine}
use observability.Flb.Document.Checks.{Clean, literal-Key, literal_value}
use observability.Sink.Config.{
  Url, SyslogSink, canonical_namespace, syslog_sink, syslog_cluster_sink, syslog_sinks,
  syslog_cluster_sinks, sort_insert, sort_slice, is_syslog,
}
use observability.Sink.Config.Outputs.{tls_settings, scope_setting, syslog_output}
use observability.Sink.Config.Blocks.{CleanSetting, CleanOutput}

-- What the program lets through as a value: the texts of a sink and of its URL are clean. Only the
-- match of an http output has text in front of the namespace, which may begin with white space.
abbrev pub CleanUrl : Option Url → Type 0
CleanUrl none = Unit
CleanUrl (some url) = Clean url.hostname × Clean url.port × Clean url.path

module _ (parse_url : Text → Option Url) where
  abbrev pub CleanSpec : SinkSpec → Type 0
  CleanSpec spec = Clean spec.syslog.host × CleanUrl (parse_url spec.webhook.url)

  abbrev pub CleanSink : LogSink → Type 0
  CleanSink s = Clean s.meta.name × Clean s.meta.namespace × CleanSpec s.spec

  abbrev pub CleanClusterSink : ClusterLogSink → Type 0
  CleanClusterSink s = Clean s.meta.name × CleanSpec s.spec

abbrev pub CleanSyslog : SyslogSink → Type 0
CleanSyslog s = Clean s.name × Clean s.addr × Clean s.namespace

OneLine-of_digits : (t : Text) → All (λ c. (leb b'0' c && leb c b'9') ≡ true) t → OneLine t
OneLine-of_digits [] h = tt
OneLine-of_digits (c ∷ t) h = (ground arith, OneLine-of_digits t h.1)

itoa_ℤ-OneLine : (z : ℤ) → OneLine (itoa_ℤ z)
unfolding itoa_ℤ
itoa_ℤ-OneLine (pos n) = OneLine-of_digits (itoa n) (itoa-digits n)
itoa_ℤ-OneLine (negsuc n) = (refl, OneLine-of_digits (itoa (n + 1)) (itoa-digits (n + 1)))

-- An address begins as its host, or with the colon.
addr-Clean : (host : Text) (z : ℤ) → Clean host → Clean (host ++ (b':' ∷ itoa_ℤ z))
addr-Clean [] z h = ((refl, itoa_ℤ-OneLine z), refl)
addr-Clean (c ∷ host) z h =
    (All-append (λ c. c == b'\n' ≡ false) (c ∷ host) _ h.0 (refl, itoa_ℤ-OneLine z), h.1)

canonical_namespace-Clean : (ns : Text) → Clean ns → Clean (canonical_namespace ns)
unfolding canonical_namespace
canonical_namespace-Clean [] h = ((refl, (refl, (refl, (refl, (refl, (refl, (refl, tt))))))), refl)
canonical_namespace-Clean (c ∷ ns) h = h

pub syslog_sinks-Clean :
    (parse_url : Text → Option Url) (ss : List LogSink)
    → All (CleanSink parse_url) ss
    → All CleanSyslog (syslog_sinks ss)
unfolding syslog_sinks syslog_sink
syslog_sinks-Clean p [] h = tt
syslog_sinks-Clean p (s ∷ ss) h = elim (Bool-cases (is_syslog s.spec)) [
  | inl e ↦ rw e (
    (
      h.0.0,
      addr-Clean s.spec.syslog.host s.spec.syslog.port h.0.2.0,
      canonical_namespace-Clean s.meta.namespace h.0.1,
    ),
    syslog_sinks-Clean p ss h.1,
  )
  | inr e ↦ rw e (syslog_sinks-Clean p ss h.1)
]

pub syslog_cluster_sinks-Clean :
    (parse_url : Text → Option Url) (ss : List ClusterLogSink)
    → All (CleanClusterSink parse_url) ss
    → All CleanSyslog (syslog_cluster_sinks ss)
unfolding syslog_cluster_sinks syslog_cluster_sink
syslog_cluster_sinks-Clean p [] h = tt
syslog_cluster_sinks-Clean p (s ∷ ss) h = elim (Bool-cases (is_syslog s.spec)) [
  | inl e ↦ rw e (
    (h.0.0, addr-Clean s.spec.syslog.host s.spec.syslog.port h.0.1.0, (tt, refl)),
    syslog_cluster_sinks-Clean p ss h.1,
  )
  | inr e ↦ rw e (syslog_cluster_sinks-Clean p ss h.1)
]

module _ {ℓ κ} {A : Type ℓ} (P : A → Type κ) (less : A → A → Bool) where
  sort_insert-All : (x : A) (xs : List A) → P x → All P xs → All P (sort_insert less x xs)
  unfolding sort_insert
  sort_insert-All x [] h k = (h, tt)
  sort_insert-All x (y ∷ ys) h k = elim (Bool-cases (less x y)) [
    | inl e ↦ rw e (h, k)
    | inr e ↦ rw e (k.0, sort_insert-All x ys h k.1)
  ]

  pub sort_slice-All : (xs : List A) → All P xs → All P (sort_slice less xs)
  unfolding sort_slice
  sort_slice-All [] h = tt
  sort_slice-All (x ∷ xs) h = sort_insert-All x (sort_slice less xs) h.0 (sort_slice-All xs h.1)

scope-Clean : (ns : Text) → Clean ns → CleanSetting (scope_setting ns)
scope-Clean [] h = (literal-Key b'C' (codes "luster") refl, literal_value (codes "true") refl)
scope-Clean (c ∷ ns) h = (literal-Key b'N' (codes "amespace") refl, h)

tls-Clean : (tls : Option Bool) → All CleanSetting (tls_settings tls)
tls-Clean none = tt
tls-Clean (some true) = (
  (
    literal-Key b'T' (codes "LSConfig") refl,
    literal_value (codes "{\"insecure_skip_verify\":true}") refl,
  ),
  tt,
)
tls-Clean (some false) =
    ((literal-Key b'T' (codes "LSConfig") refl, literal_value (codes "{}") refl), tt)

syslog_output-Clean : (s : SyslogSink) → CleanSyslog s → CleanOutput (syslog_output s)
unfolding syslog_output
syslog_output-Clean s h = (
  (literal-Key b'N' (codes "ame") refl, literal_value (codes "syslog") refl),
  (
    (literal-Key b'M' (codes "atch") refl, literal_value (codes "*") refl),
    (
      (literal-Key b'I' (codes "nstanceName") refl, h.0),
      ((literal-Key b'A' (codes "ddr") refl, h.1), (scope-Clean s.namespace h.2, tls-Clean s.tls)),
    ),
  ),
)

pub syslog_outputs-Clean :
    (ss : List SyslogSink) → All CleanSyslog ss → All CleanOutput (map syslog_output ss)
syslog_outputs-Clean [] h = tt
syslog_outputs-Clean (s ∷ ss) h = (syslog_output-Clean s h.0, syslog_outputs-Clean ss h.1)
