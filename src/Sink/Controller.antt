-- ===== src/Sink/Controller.antt =====
-- pkg/sink/common.go, controller.go, cluster_controller.go and cluster_config.go: the handlers of
-- the events on log sinks.
pub mod Events
pub mod Sync
pub mod Threads
pub mod Interleaving
pub mod Handled
use observability.Base.{
  Bool, not, ◌&&◌, List, [], ◌∷◌, ◌++◌, Option, none, some, Text, codes, text_eq, eq_ℤ, eq_Bool,
  if◌then◌else◌,
}
use observability.Api.{SinkSpec, LogSink, ClusterLogSink}
use observability.Sink.Config.{
  Url, Config, upsert_sink, upsert_cluster_sink, delete_sink, delete_cluster_sink, config_string,
}

pub record Patch : Type 0 where
  pub op : Text
  pub path : Text
  pub value : Text

abbrev pub config_map_name : Text
config_map_name = codes "fluent-bit"

abbrev pub pod_selector : Text
pod_selector = codes "app=fluent-bit"

-- The calls that a handler makes. The patches stand for their JSON, which is of strings alone.
pub data Effect : Type 0 where
  patch_config_map : Text → List Patch → Effect
  delete_pods : Text → Effect
  print : Text → Effect

-- What the two calls of the API server return, `none` for `nil`.
pub record Replies : Type 0 where
  pub patched : Option Text
  pub deleted : Option Text

abbrev print_error : Option Text → List Effect
print_error none = []
print_error (some e) = print e ∷ []

unfoldable pub patch_config : Replies → List Patch → List Effect
patch_config r patches =
    patch_config_map config_map_name patches
    ∷ (print_error r.patched ++ (delete_pods pod_selector ∷ print_error r.deleted))

-- The state that the two controllers share, and the calls made so far.
pub record World : Type 0 where
  pub config : Config
  pub effects : List Effect

-- What an informer hands to a handler, as an `interface{}`.
pub data Object : Type 0 where
  log_sink : LogSink → Object
  cluster_log_sink : ClusterLogSink → Object
  other : Object

abbrev pub replace : Text → Text → List Patch
replace path value = (record { op = codes "replace"; path = path; value = value }) ∷ []

abbrev pub perform : List Effect → World → World
perform es w = record w { effects = w.effects ++ es }

-- `SetClusterNameFilter`.
unfoldable pub set_cluster_name_filter : Replies → Text → World → World
unfolding patch_config
set_cluster_name_filter r [] w = w
set_cluster_name_filter r (c ∷ name) w =
    perform
      (patch_config r (
        replace (codes "/data/cluster-name-filter.conf") (
          codes "\n[FILTER]\n    Name record_modifier\n    Match *\n    Record cluster_name "
          ++ ((c ∷ name) ++ b'\n' ∷ []))))
      w

-- `reflect.DeepEqual` on two specs.
unfoldable pub spec_eq : SinkSpec → SinkSpec → Bool
spec_eq a b =
    text_eq a.type b.type
    && (text_eq a.syslog.host b.syslog.host
        && (eq_ℤ a.syslog.port b.syslog.port
            && (eq_Bool a.syslog.enable_tls b.syslog.enable_tls
                && (text_eq a.webhook.url b.webhook.url
                    && eq_Bool a.insecure_skip_verify b.insecure_skip_verify))))

-- What a handler does to the shared configuration, `none` where it returns at once: `Controller.OnAdd`,
-- `OnDelete` and `OnUpdate`, and those of `ClusterController`, up to the change.
unfoldable pub add_sink : Object → Config → Option Config
add_sink (log_sink s) c = some (upsert_sink s c)
add_sink _ c = none

unfoldable pub remove_sink : Object → Config → Option Config
remove_sink (log_sink s) c = some (delete_sink s c)
remove_sink _ c = none

unfoldable pub update_sink : Object → Object → Config → Option Config
unfolding add_sink spec_eq
update_sink (log_sink o) (log_sink n) c =
    if not (spec_eq o.spec n.spec) then add_sink (log_sink n) c else none
update_sink _ _ c = none

unfoldable pub add_cluster_sink : Object → Config → Option Config
add_cluster_sink (cluster_log_sink s) c = some (upsert_cluster_sink s c)
add_cluster_sink _ c = none

unfoldable pub remove_cluster_sink : Object → Config → Option Config
remove_cluster_sink (cluster_log_sink s) c = some (delete_cluster_sink s c)
remove_cluster_sink _ c = none

unfoldable pub update_cluster_sink : Object → Object → Config → Option Config
unfolding add_cluster_sink spec_eq
update_cluster_sink (cluster_log_sink o) (cluster_log_sink n) c =
    if not (spec_eq o.spec n.spec) then add_cluster_sink (cluster_log_sink n) c else none
update_cluster_sink _ _ c = none

-- The patch of the outputs with a text that was read before.
unfoldable pub send : Replies → Text → World → World
unfolding patch_config
send r text w = perform (patch_config r (replace (codes "/data/outputs.conf") text)) w
