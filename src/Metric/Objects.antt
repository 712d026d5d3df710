-- ===== src/Metric/Objects.antt =====
-- pkg/metric/controller.go: the objects that the controller of the metric sinks makes for a sink.
use observability.Base.{ℕ, true, List, [], ◌∷◌, ◌++◌, Option, Text, codes, text_eq, if◌then◌else◌}
use observability.GoMap.{GoMap}
use observability.Api.{str, bool, MetricSink}
use observability.Metric.ClusterConfig.{
  TelegrafConfig, telegraf_config_string, append_inputs_and_outputs, global_tags_of,
}

pub record OwnerReference : Type 0 where
  pub api_version : Text
  pub kind : Text
  pub name : Text
  pub uid : Text

-- The metadata of an object that the controller makes.
pub record Meta : Type 0 where
  pub cluster_name : Text
  pub name : Text
  pub namespace : Text
  pub labels : GoMap Text
  pub owner_references : List OwnerReference

pub record ConfigMap : Type 0 where
  pub meta : Meta
  pub entries : GoMap Text

pub record Container : Type 0 where
  pub name : Text
  pub image : Text
  pub command : List Text
  pub mounts : GoMap Text
  pub image_pull_policy : Text

-- A volume is its name and that of its config map, a mount the name of a volume and a path.
pub record Deployment : Type 0 where
  pub meta : Meta
  pub match_labels : GoMap Text
  pub replicas : ℕ
  pub template_labels : GoMap Text
  pub volumes : GoMap Text
  pub containers : List Container

pub record Subject : Type 0 where
  pub kind : Text
  pub name : Text
  pub namespace : Text

pub record RoleRef : Type 0 where
  pub api_group : Text
  pub kind : Text
  pub name : Text

pub record RoleBinding : Type 0 where
  pub meta : Meta
  pub subjects : List Subject
  pub role_ref : RoleRef

pub record PolicyRule : Type 0 where
  pub verbs : List Text
  pub api_groups : List Text
  pub resources : List Text
  pub resource_names : List Text

pub record Role : Type 0 where
  pub meta : Meta
  pub rules : List PolicyRule

-- `getAppName`.
unfoldable pub get_app_name : MetricSink → Text
get_app_name ms = codes "telegraf-" ++ ms.meta.name

abbrev app_label : MetricSink → GoMap Text
app_label ms = (codes "app", get_app_name ms) ∷ []

abbrev owner : MetricSink → List OwnerReference
owner ms =
    (record {
      api_version = ms.type_meta.api_version;
      kind = ms.type_meta.kind;
      name = ms.meta.name;
      uid = ms.meta.uid;
    })
    ∷ []

abbrev object_meta : MetricSink → Meta
object_meta ms = record {
  cluster_name = [];
  name = get_app_name ms;
  namespace = ms.meta.namespace;
  labels = app_label ms;
  owner_references = owner ms;
}

abbrev pub default_telegraf_conf : Text
default_telegraf_conf =
    codes
      "\n[agent]\n  interval = \"10s\"\n  round_interval = true\n  metric_batch_size = 1000\n  metric_buffer_limit = 10000\n"
    ++ (codes
          "  collection_jitter = \"0s\"\n  flush_interval = \"10s\"\n  flush_jitter = \"0s\"\n  precision = \"\"\n  debug = false\n"
        ++ codes "  quiet = false\n  logfile = \"\"\n  hostname = \"\"\n  omit_hostname = false")

-- `getTelegrafRole`.
unfoldable pub get_telegraf_role : MetricSink → Role
get_telegraf_role ms = record {
  meta = object_meta ms;
  rules =
      (record {
        verbs = codes "use" ∷ [];
        api_groups = codes "extensions" ∷ [];
        resources = codes "podsecuritypolicies" ∷ [];
        resource_names = codes "telegraf" ∷ [];
      })
      ∷ (record {
        verbs = codes "get" ∷ codes "list" ∷ codes "watch" ∷ [];
        api_groups = [] ∷ [];
        resources = codes "pods" ∷ [];
        resource_names = [];
      })
      ∷ [];
}

-- `getTelegrafRoleBinding`.
unfoldable pub get_telegraf_role_binding : MetricSink → RoleBinding
get_telegraf_role_binding ms = record {
  meta = object_meta ms;
  subjects =
      (record {
        kind = codes "ServiceAccount";
        name = codes "default";
        namespace = ms.meta.namespace;
      })
      ∷ [];
  role_ref = record {
    api_group = codes "rbac.authorization.k8s.io";
    kind = codes "Role";
    name = get_app_name ms;
  };
}

module _ (telegraf_image_version : Text) where
  -- `getTelegrafDeployment`, over the version that the build sets.
  unfoldable pub get_telegraf_deployment : MetricSink → Deployment
  get_telegraf_deployment ms = record {
    meta = record (object_meta ms) { cluster_name = ms.meta.cluster_name };
    match_labels = app_label ms;
    replicas = 1;
    template_labels = app_label ms;
    volumes = (codes "telegraf-config", get_app_name ms) ∷ [];
    containers =
        (record {
          name = codes "telegraf";
          image = codes "telegraf:" ++ telegraf_image_version;
          command = codes "telegraf" ∷ codes "--config-directory" ∷ codes "/etc/telegraf" ∷ [];
          mounts = (codes "telegraf-config", codes "/etc/telegraf") ∷ [];
          image_pull_policy = codes "IfNotPresent";
        })
        ∷ [];
  }

-- The configuration that `metricSinkConfig` encodes.
unfoldable pub sink_telegraf_config : Text → MetricSink → TelegrafConfig
sink_telegraf_config cluster_name ms =
    append_inputs_and_outputs
      (record {
        global_tags = global_tags_of cluster_name;
        inputs =
            (
              codes "prometheus",
              ((codes "monitor_kubernetes_pods", bool true)
                    ∷ (codes "monitor_kubernetes_pods_namespace", str ms.meta.namespace)
                    ∷ [])
                  ∷ [],
            )
            ∷ [];
        outputs = [];
      })
      ms.spec.inputs ms.spec.outputs

-- `setDefaultTypeMeta`.
unfoldable pub set_default_type_meta : MetricSink → MetricSink
set_default_type_meta ms = record ms {
  type_meta = record {
    kind = if text_eq ms.type_meta.kind [] then codes "MetricSink" else ms.type_meta.kind;
    api_version =
        if text_eq ms.type_meta.api_version []
        then codes "observability.knative.dev/v1alpha1"
        else ms.type_meta.api_version;
  };
}

module _ (encode : TelegrafConfig → Option Text) (cluster_name : Text) where
  -- `metricSinkConfig`.
  unfoldable pub metric_sink_config : MetricSink → Text
  unfolding sink_telegraf_config
  metric_sink_config ms = telegraf_config_string encode (sink_telegraf_config cluster_name ms)

  -- `getTelegrafConfigMap`.
  unfoldable pub get_telegraf_config_map : MetricSink → ConfigMap
  unfolding metric_sink_config
  get_telegraf_config_map ms = record {
    meta = object_meta ms;
    entries =
        (codes "telegraf.conf", default_telegraf_conf)
        ∷ (codes "metric-sinks.conf", metric_sink_config ms)
        ∷ [];
  }
