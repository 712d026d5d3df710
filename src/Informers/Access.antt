-- ===== src/Informers/Access.antt =====
-- pkg/client/informers/externalversions/generic.go, sink/interface.go, sink/v1alpha1/interface.go, and
-- `Observability` of factory.go: the ways to the informers.
use observability.Base.{Option, none, some, Bool, false, Text, codes, text_eq, if◌then◌else◌}
use observability.Client.Fake.{GroupVersionResource}
use observability.Informers.Factory.{Tweak, Informer, Factory, State}
use observability.Informers.Kinds.{
  SinkInformer, log_sink_informer, cluster_log_sink_informer, metric_sink_informer,
  cluster_metric_sink_informer,
}

-- `group` and `version`, without the factory.
pub record Access : Type 0 where
  pub namespace : Text
  pub tweak_list_options : Option Tweak

-- `sink.New`.
abbrev pub new_group : Text → Option Tweak → Access
new_group ns tweak = record { namespace = ns; tweak_list_options = tweak }

-- `New` of v1alpha1.
abbrev pub new_version : Text → Option Tweak → Access
new_version ns tweak = record { namespace = ns; tweak_list_options = tweak }

-- `V1alpha1`.
abbrev pub v1alpha1 : Access → Access
v1alpha1 g = new_version g.namespace g.tweak_list_options

abbrev pub log_sinks : Access → SinkInformer
log_sinks v = record { namespace = v.namespace; tweak_list_options = v.tweak_list_options }

abbrev pub cluster_log_sinks : Access → SinkInformer
cluster_log_sinks v = record { namespace = v.namespace; tweak_list_options = v.tweak_list_options }

abbrev pub metric_sinks : Access → SinkInformer
metric_sinks v = record { namespace = v.namespace; tweak_list_options = v.tweak_list_options }

abbrev pub cluster_metric_sinks : Access → SinkInformer
cluster_metric_sinks v = record {
  namespace = v.namespace;
  tweak_list_options = v.tweak_list_options;
}

-- The four types of sinks.
pub data Kind : Type 0 where
  log_sink cluster_log_sink metric_sink cluster_metric_sink : Kind

-- `genericInformer`.
pub record GenericInformer (L W : Type 0) : Type 0 where
  pub informer : Informer L W
  pub group : Text
  pub resource : Text

-- `resource == v1alpha1.SchemeGroupVersion.WithResource(name)`.
abbrev pub is_resource : GroupVersionResource → Text → Bool
is_resource gvr name =
    if text_eq gvr.group (codes "observability.knative.dev")
    then if text_eq gvr.version (codes "v1alpha1") then text_eq gvr.resource name else false
    else false

-- The switch of `ForResource`.
unfoldable pub kind_of_resource : GroupVersionResource → Option Kind
kind_of_resource gvr =
    if is_resource gvr (codes "clusterlogsinks")
    then some cluster_log_sink
    else if is_resource gvr (codes "clustermetricsinks")
    then some cluster_metric_sink
    else if is_resource gvr (codes "logsinks")
    then some log_sink
    else if is_resource gvr (codes "metricsinks")
    then some metric_sink
    else none

module _ {L W : Type 0} where
  unfoldable pub observability_of : Factory L W → Access
  observability_of f = new_group f.namespace f.tweak_list_options

  -- `f.Observability().V1alpha1().LogSinks().Informer()` and the other three.
  unfoldable pub informer_of_kind : Kind → State L W → Informer L W × State L W
  unfolding log_sink_informer cluster_log_sink_informer metric_sink_informer
      cluster_metric_sink_informer observability_of
  informer_of_kind log_sink st =
      log_sink_informer (log_sinks (v1alpha1 (observability_of st.factory))) st
  informer_of_kind cluster_log_sink st =
      cluster_log_sink_informer (cluster_log_sinks (v1alpha1 (observability_of st.factory))) st
  informer_of_kind metric_sink st =
      metric_sink_informer (metric_sinks (v1alpha1 (observability_of st.factory))) st
  informer_of_kind cluster_metric_sink st =
      cluster_metric_sink_informer (cluster_metric_sinks (v1alpha1 (observability_of st.factory)))
        st

  -- `ForResource`; `none` is the error.
  unfoldable pub for_resource :
      GroupVersionResource → State L W → Option (GenericInformer L W) × State L W
  unfolding kind_of_resource informer_of_kind
  for_resource gvr st = elim (kind_of_resource gvr) [
    | none ↦ (none, st)
    | some kind ↦
        let (i, st') = informer_of_kind kind st in
        (some (record { informer = i; group = gvr.group; resource = gvr.resource }), st')
  ]
