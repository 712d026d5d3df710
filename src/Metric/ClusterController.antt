-- ===== src/Metric/ClusterController.antt =====
-- pkg/metric/cluster_controller.go: the handlers of the events on cluster metric sinks.
-- `reflect.DeepEqual` on the objects, whose metadata is not all modelled, is a parameter.
pub mod Sync
use observability.Base.{
  Bool, not, List, [], ◌∷◌, ◌++◌, Option, none, some, Text, codes, if◌then◌else◌,
}
use observability.Api.{ClusterMetricSink}
use observability.Metric.ClusterConfig.{
  TelegrafConfig, ClusterConfig, cluster_config_string, upsert_sink, delete_sink,
}

pub record Patch : Type 0 where
  pub op : Text
  pub path : Text
  pub value : Text

abbrev pub config_map_name : Text
config_map_name = codes "telegraf"

abbrev pub pod_selector : Text
pod_selector = codes "app=telegraf"

pub data Effect : Type 0 where
  patch_config_map : Text → List Patch → Effect
  delete_pods : Text → Effect
  print : Text → Effect

-- What the two calls of the API server return, `none` for `nil`.
pub record Replies : Type 0 where
  pub patched : Option Text
  pub deleted : Option Text

abbrev print_error : Option Text → List Effect
print_error none = []
print_error (some e) = print e ∷ []

pub record World : Type 0 where
  pub config : ClusterConfig
  pub effects : List Effect

pub data Object : Type 0 where
  cluster_metric_sink : ClusterMetricSink → Object
  other : Object

module _ (encode : TelegrafConfig → Option Text) (deep_equal : Object → Object → Bool) where
  -- What stands behind the change of the configuration in both handlers.
  unfoldable pub publish : Replies → World → World
  publish r w = record w {
    effects =
        w.effects
        ++ (patch_config_map config_map_name (
              (record {
                op = codes "replace";
                path = codes "/data/cluster-metric-sinks.conf";
                value = cluster_config_string encode w.config;
              })
              ∷ [])
            ∷ (print_error r.patched ++ (delete_pods pod_selector ∷ print_error r.deleted)));
  }

  unfoldable pub on_add : Replies → Object → World → World
  unfolding publish
  on_add r (cluster_metric_sink s) w = publish r (record w { config = upsert_sink s w.config })
  on_add r other w = w

  unfoldable pub on_delete : Replies → Object → World → World
  unfolding publish
  on_delete r (cluster_metric_sink s) w = publish r (record w { config = delete_sink s w.config })
  on_delete r other w = w

  unfoldable pub on_update : Replies → Object → Object → World → World
  unfolding on_add
  on_update r old new w = if not (deep_equal old new) then on_add r new w else w
