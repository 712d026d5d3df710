-- ===== src/Sink/Config.antt =====
-- pkg/sink/config.go: the sinks that are known, and the text of their outputs. The methods hold
-- the mutex from their first to their last statement, so each is one step.
pub mod Outputs
pub mod Blocks
pub mod CleanSinks
pub mod Reading
pub mod Shown
pub mod Order
pub mod Injection
use observability.Base.{
  ℕ, ◌+◌, ℤ, itoa_ℤ, Bool, true, false, not, ◌&&◌, ◌||◌, List, [], ◌∷◌, ◌++◌, map, Option, none,
  some, ◌==◌, if◌then◌else◌, Text, codes, text_eq, text_lt, length,
}
use observability.GoMap.{GoMap, insert, remove, values}
use observability.Api.{SinkSpec, LogSink, ClusterLogSink}

-- What the program reads of a `*url.URL`: `Scheme`, `Hostname()`, `Port()` and `Path`.
pub record Url : Type 0 where
  pub scheme : Text
  pub hostname : Text
  pub port : Text
  pub path : Text

abbrev newline : Text
newline = b'\n' ∷ []

abbrev pub null_config : Text
null_config = codes "\n[OUTPUT]\n    Name null\n    Match *\n"

pub record Config : Type 0 where
  pub sinks : GoMap LogSink
  pub cluster_sinks : GoMap ClusterLogSink

unfoldable pub new_config : Config
new_config = record { sinks = []; cluster_sinks = [] }

-- `fmt.Sprintf("%s|%s", ...)`.
unfoldable pub key : LogSink → Text
key s = s.meta.namespace ++ (b'|' ∷ s.meta.name)

unfoldable pub cluster_key : ClusterLogSink → Text
cluster_key s = s.meta.cluster_name ++ (b'|' ∷ s.meta.name)

unfoldable pub upsert_sink : LogSink → Config → Config
upsert_sink s c = record c { sinks = insert (key s) s c.sinks }

unfoldable pub upsert_cluster_sink : ClusterLogSink → Config → Config
upsert_cluster_sink s c = record c { cluster_sinks = insert (cluster_key s) s c.cluster_sinks }

unfoldable pub delete_sink : LogSink → Config → Config
delete_sink s c = record c { sinks = remove (key s) c.sinks }

unfoldable pub delete_cluster_sink : ClusterLogSink → Config → Config
delete_cluster_sink s c = record c { cluster_sinks = remove (cluster_key s) c.cluster_sinks }

-- The struct `sink`; `TLS` is the flag of the struct `tls`, or `nil`.
pub record SyslogSink : Type 0 where
  pub addr : Text
  pub namespace : Text
  pub tls : Option Bool
  pub name : Text

-- `tls.String`: `omitempty` leaves a false flag out of the JSON.
unfoldable pub tls_string : Option Bool → Text
tls_string none = []
tls_string (some true) = codes "\n    TLSConfig {\"insecure_skip_verify\":true}"
tls_string (some false) = codes "\n    TLSConfig {}"

unfoldable pub cluster_or_namespace : Text → Text
cluster_or_namespace [] = codes "Cluster true"
cluster_or_namespace (c ∷ ns) = codes "Namespace " ++ (c ∷ ns)

-- `sink.String`.
unfoldable pub sink_string : SyslogSink → Text
unfolding tls_string cluster_or_namespace
sink_string s =
    codes "\n[OUTPUT]\n    Name syslog\n    Match *\n    InstanceName "
    ++ (s.name
        ++ (codes "\n    Addr "
            ++ (s.addr
                ++ (codes "\n    "
                    ++ (cluster_or_namespace s.namespace ++ (tls_string s.tls ++ newline))))))

-- `sinkList.String`.
unfoldable pub sink_list_string : List SyslogSink → Text
sink_list_string [] = []
sink_list_string (s ∷ ss) = sink_string s ++ sink_list_string ss

unfoldable pub canonical_namespace : Text → Text
canonical_namespace [] = codes "default"
canonical_namespace (c ∷ ns) = c ∷ ns

abbrev addr_of : SinkSpec → Text
addr_of spec = spec.syslog.host ++ (b':' ∷ itoa_ℤ spec.syslog.port)

abbrev tls_of : SinkSpec → Option Bool
tls_of spec = if spec.syslog.enable_tls then some spec.insecure_skip_verify else none

abbrev pub is_syslog : SinkSpec → Bool
is_syslog spec = text_eq spec.type (codes "syslog")

abbrev pub is_webhook : SinkSpec → Bool
is_webhook spec = text_eq spec.type (codes "webhook")

unfoldable pub syslog_sink : LogSink → SyslogSink
syslog_sink s = record {
  addr = addr_of s.spec;
  namespace = canonical_namespace s.meta.namespace;
  tls = tls_of s.spec;
  name = s.meta.name;
}

unfoldable pub syslog_cluster_sink : ClusterLogSink → SyslogSink
syslog_cluster_sink s = record {
  addr = addr_of s.spec;
  namespace = [];
  tls = tls_of s.spec;
  name = s.meta.name;
}

-- The two loops over the maps that fill the lists to sort.
unfoldable pub syslog_sinks : List LogSink → List SyslogSink
syslog_sinks [] = []
syslog_sinks (s ∷ ss) =
    let rest = syslog_sinks ss in if is_syslog s.spec then syslog_sink s ∷ rest else rest

unfoldable pub syslog_cluster_sinks : List ClusterLogSink → List SyslogSink
syslog_cluster_sinks [] = []
syslog_cluster_sinks (s ∷ ss) =
    let rest = syslog_cluster_sinks ss in
    if is_syslog s.spec then syslog_cluster_sink s ∷ rest else rest

unfoldable pub sink_less : SyslogSink → SyslogSink → Bool
sink_less a b =
    if not (text_eq a.namespace b.namespace)
    then text_lt a.namespace b.namespace
    else text_lt a.name b.name

unfoldable pub cluster_sink_less : SyslogSink → SyslogSink → Bool
cluster_sink_less a b = text_lt a.name b.name

-- `sort.Slice`. Where the order leaves no ties every way to sort has the same result.
module _ {ℓ} {A : Type ℓ} (less : A → A → Bool) where
  unfoldable pub sort_insert : A → List A → List A
  sort_insert x [] = x ∷ []
  sort_insert x (y ∷ ys) = if less x y then x ∷ y ∷ ys else y ∷ sort_insert x ys

  unfoldable pub sort_slice : List A → List A
  unfolding sort_insert
  sort_slice [] = []
  sort_slice (x ∷ xs) = sort_insert x (sort_slice xs)

-- The branch on two empty lists returns what the other one does.
unfoldable pub syslog_config : Config → Text
unfolding sort_slice
syslog_config c =
    let sinks = sort_slice sink_less (syslog_sinks (values c.sinks)) in
    let cluster_sinks =
      sort_slice cluster_sink_less (syslog_cluster_sinks (values c.cluster_sinks)) in
    if length sinks + length cluster_sinks == 0
    then []
    else sink_list_string sinks ++ sink_list_string cluster_sinks

abbrev is_empty : Text → Bool
is_empty s = text_eq s []

unfoldable pub http_port : Url → Text
http_port url =
    let port = url.port in
    let port' = if is_empty port && text_eq url.scheme (codes "https") then codes "443" else port in
    if is_empty port' && text_eq url.scheme (codes "http") then codes "80" else port'

unfoldable pub http_extras : Url → SinkSpec → Text
http_extras url spec =
    if text_eq url.scheme (codes "https")
    then codes "    tls On\n"
      ++ (if spec.insecure_skip_verify then codes "    tls.verify Off\n" else [])
    else []

unfoldable pub http_match : Text → Bool → Text
http_match namespace is_cluster =
    if is_cluster then codes "*" else codes "*_" ++ (namespace ++ codes "_*")

unfoldable pub http_path : Url → Text
http_path url = if is_empty url.path then codes "/" else url.path

-- `fmt.Sprintf(httpOutputConfig, ...)`.
unfoldable pub http_output_config : Text → Text → Text → Text → Text → Text
http_output_config match host port path extras =
    codes "\n[OUTPUT]\n    Name http\n    Match "
    ++ (match
        ++ (codes "\n    Format json\n    Host "
            ++ (host
                ++ (codes "\n    Port "
                    ++ (port
                        ++ (codes "\n    URI " ++ (path ++ (newline ++ (extras ++ newline)))))))))

-- The configuration of a parsed URL; `none` is an error of `url.Parse`.
unfoldable pub http_config_of : Text → SinkSpec → Bool → Option Url → Text
unfolding http_output_config http_port http_extras http_match http_path
http_config_of namespace spec is_cluster none = []
http_config_of namespace spec is_cluster (some url) =
    http_output_config (http_match namespace is_cluster) url.hostname (http_port url)
      (http_path url) (http_extras url spec)

module _ (parse_url : Text → Option Url) where
  unfoldable pub build_http_config : Text → SinkSpec → Bool → Text
  unfolding http_config_of
  build_http_config namespace spec is_cluster =
      http_config_of namespace spec is_cluster (parse_url spec.webhook.url)

  unfoldable pub webhook_sinks : List LogSink → Text
  webhook_sinks [] = []
  webhook_sinks (s ∷ ss) =
      let rest = webhook_sinks ss in
      if is_webhook s.spec then build_http_config s.meta.namespace s.spec false ++ rest else rest

  unfoldable pub webhook_cluster_sinks : List ClusterLogSink → Text
  webhook_cluster_sinks [] = []
  webhook_cluster_sinks (s ∷ ss) =
      let rest = webhook_cluster_sinks ss in
      if is_webhook s.spec then build_http_config [] s.spec true ++ rest else rest

  unfoldable pub webhook_config : Config → Text
  webhook_config c =
      webhook_sinks (values c.sinks) ++ webhook_cluster_sinks (values c.cluster_sinks)

  -- `String`.
  unfoldable pub config_string : Config → Text
  config_string c =
      if length c.sinks + length c.cluster_sinks == 0
      then null_config
      else syslog_config c ++ webhook_config c
