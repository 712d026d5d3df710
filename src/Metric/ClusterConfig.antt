-- ===== src/Metric/ClusterConfig.antt =====
-- pkg/metric/cluster_config.go: the metric sinks of the cluster, and their telegraf configuration.
-- The TOML encoder is a parameter. The slices that `copyInputs` shares with the defaults are full,
-- so `append` copies them, and they are values here.
pub mod Grouping
use observability.Base.{
  ℕ, Bool, true, false, ◌||◌, List, [], ◌∷◌, ◌++◌, Option, none, some, ◌==◌, if◌then◌else◌, Text,
  codes, text_eq, length,
}
use observability.GoMap.{GoMap, lookup, insert, remove, values}
use observability.Api.{Value, str, bool, MetricSinkMap, ClusterMetricSink, as_string}

abbrev pub empty_config : Text
empty_config = codes "[inputs]\n\n  [[inputs.cpu]]\n\n[outputs]\n\n  [[outputs.discard]]\n"

-- The plugins of each type, with their settings.
abbrev pub Plugins : Type 0
Plugins = GoMap (List (GoMap Value))

-- `telegrafConfig`.
pub record TelegrafConfig : Type 0 where
  pub global_tags : GoMap Text
  pub inputs : Plugins
  pub outputs : Plugins

module _ (encode : TelegrafConfig → Option Text) where
  -- `telegrafConfig.String`; `none` is an error of the encoder.
  unfoldable pub telegraf_config_string : TelegrafConfig → Text
  telegraf_config_string t =
      if length t.inputs == 0 || length t.outputs == 0
      then empty_config
      else elim (encode t) [ none ↦ [] | some s ↦ s ]

pub record ClusterConfig : Type 0 where
  pub default_inputs : Plugins
  pub cluster_name : Text
  pub cluster_sinks : GoMap ClusterMetricSink

-- `KubernetesDefault`.
unfoldable pub kubernetes_default : Bool → ClusterConfig → ClusterConfig
kubernetes_default true c = record c {
  default_inputs =
      insert (codes "kubernetes") (((codes "url", str (codes "http://127.0.0.1:10255")) ∷ []) ∷ [])
        c.default_inputs;
}
kubernetes_default false c = record c {
  default_inputs =
      insert (codes "kubernetes")
        (((codes "bearer_token", str (codes "/var/run/secrets/kubernetes.io/serviceaccount/token"))
            ∷ (codes "insecure_skip_verify", bool true)
            ∷ (codes "url", str (codes "https://127.0.0.1:10250"))
            ∷ [])
          ∷ [])
        c.default_inputs;
}

unfoldable pub apply_all : List (ClusterConfig → ClusterConfig) → ClusterConfig → ClusterConfig
apply_all [] c = c
apply_all (m ∷ ms) c = apply_all ms (m c)

-- `NewConfig`.
unfoldable pub new_config : Text → List (ClusterConfig → ClusterConfig) → ClusterConfig
unfolding apply_all
new_config name modifiers =
    apply_all modifiers (record { default_inputs = []; cluster_name = name; cluster_sinks = [] })

unfoldable pub copy_onto : Plugins → Plugins → Plugins
copy_onto cloned [] = cloned
copy_onto cloned ((k, v) ∷ m) = copy_onto (insert k v cloned) m

-- `copyInputs`.
unfoldable pub copy_inputs : Plugins → Plugins
unfolding copy_onto
copy_inputs m = copy_onto [] m

abbrev pub type_key : Text
type_key = codes "type"

unfoldable pub settings_onto : GoMap Value → MetricSinkMap → GoMap Value
settings_onto acc [] = acc
settings_onto acc ((k, v) ∷ m) =
    settings_onto (if text_eq k type_key then acc else insert k v acc) m

-- The settings of a plugin: all keys but its type.
unfoldable pub settings : MetricSinkMap → GoMap Value
unfolding settings_onto
settings m = settings_onto [] m

-- `m["type"].(string)`.
unfoldable pub plugin_type : MetricSinkMap → Option Text
plugin_type m = elim (lookup type_key m) [ none ↦ none | some v ↦ as_string v ]

-- `m[t]`, which is `nil` for a missing key.
unfoldable pub plugins_at : Text → Plugins → List (GoMap Value)
plugins_at t m = elim (lookup t m) [ none ↦ [] | some ps ↦ ps ]

unfoldable pub append_settings : Plugins → Option Text → GoMap Value → Plugins
append_settings ps none s = ps
append_settings ps (some t) s = insert t (plugins_at t ps ++ s ∷ []) ps

-- One round of either loop below.
unfoldable pub append_plugin : Plugins → MetricSinkMap → Plugins
append_plugin ps m = append_settings ps (plugin_type m) (settings m)

unfoldable pub append_plugins : Plugins → List MetricSinkMap → Plugins
append_plugins ps [] = ps
append_plugins ps (m ∷ ms) = append_plugins (append_plugin ps m) ms

-- `appendInputsAndOutputs`.
unfoldable pub append_inputs_and_outputs :
    TelegrafConfig → List MetricSinkMap → List MetricSinkMap → TelegrafConfig
unfolding append_plugins
append_inputs_and_outputs t inputs outputs = record t {
  inputs = append_plugins t.inputs inputs;
  outputs = append_plugins t.outputs outputs;
}

unfoldable pub append_sinks : TelegrafConfig → List ClusterMetricSink → TelegrafConfig
unfolding append_inputs_and_outputs
append_sinks t [] = t
append_sinks t (s ∷ ss) = append_sinks (append_inputs_and_outputs t s.spec.inputs s.spec.outputs) ss

-- The tags of a cluster that has a name.
unfoldable pub global_tags_of : Text → GoMap Text
global_tags_of [] = []
global_tags_of (c ∷ name) = (codes "cluster_name", c ∷ name) ∷ []

-- The configuration that `ClusterConfig.String` encodes.
unfoldable pub telegraf_config : ClusterConfig → TelegrafConfig
unfolding append_sinks copy_inputs global_tags_of
telegraf_config c =
    append_sinks
      (record {
        global_tags = global_tags_of c.cluster_name;
        inputs = copy_inputs c.default_inputs;
        outputs = [];
      })
      (values c.cluster_sinks)

-- `ClusterConfig.String`.
unfoldable pub cluster_config_string : (TelegrafConfig → Option Text) → ClusterConfig → Text
unfolding telegraf_config_string telegraf_config
cluster_config_string encode c = telegraf_config_string encode (telegraf_config c)

unfoldable pub upsert_sink : ClusterMetricSink → ClusterConfig → ClusterConfig
upsert_sink s c = record c { cluster_sinks = insert s.meta.name s c.cluster_sinks }

unfoldable pub delete_sink : ClusterMetricSink → ClusterConfig → ClusterConfig
delete_sink s c = record c { cluster_sinks = remove s.meta.name c.cluster_sinks }
