-- ===== src/Informers/Kinds.antt =====
-- pkg/client/informers/externalversions/sink/v1alpha1: logsink.go, clusterlogsink.go, metricsink.go and
-- clustermetricsink.go. The clients are those of Client/Groups.
use observability.Base.{ℕ, ℤ, List, [], ◌∷◌, Option, none, some, Text, codes}
use observability.Client.Request.{ListOptions}
use observability.Client.Typed.{Interface}
use observability.Client.Groups.{
  GroupClient, log_sinks, cluster_log_sinks, metric_sinks, cluster_metric_sinks,
}
use observability.Informers.Factory.{Tweak, Informer, NewInformerFunc, State, informer_for}

-- `if tweakListOptions != nil`.
abbrev pub tweaked : Option Tweak → ListOptions → ListOptions
tweaked none options = options
tweaked (some tweak) options = tweak options

-- The indexers of `defaultInformer`, by their names: that of `cache.NamespaceIndex`.
abbrev pub by_namespace : List Text
by_namespace = codes "namespace" ∷ []

-- `logSinkInformer` and the other three, without the factory, which is the state.
pub record SinkInformer : Type 0 where
  pub tweak_list_options : Option Tweak
  pub namespace : Text

module _ {L W : Type 0} where
  -- `NewSharedIndexInformer` with the functions of a client.
  abbrev shared_index_informer :
      {T : Type 0} → Interface T L W → Option Tweak → Text → ℤ → List Text → ℕ → Informer L W
  shared_index_informer client tweak example resync_period indexers address = record {
    address = address;
    list_func = λ options. client.list (tweaked tweak options);
    watch_func = λ options. client.watch (tweaked tweak options);
    example = example;
    resync_period = resync_period;
    indexers = indexers;
  }

  unfoldable pub new_filtered_log_sink_informer :
      GroupClient L W → Text → ℤ → List Text → Option Tweak → ℕ → Informer L W
  unfolding log_sinks
  new_filtered_log_sink_informer client ns resync_period indexers tweak =
      shared_index_informer (log_sinks client ns) tweak (codes "LogSink") resync_period indexers

  unfoldable pub new_log_sink_informer : GroupClient L W → Text → ℤ → List Text → ℕ → Informer L W
  unfolding new_filtered_log_sink_informer
  new_log_sink_informer client ns resync_period indexers =
      new_filtered_log_sink_informer client ns resync_period indexers none

  unfoldable pub default_log_sink_informer : SinkInformer → NewInformerFunc L W
  unfolding new_filtered_log_sink_informer
  default_log_sink_informer f client resync_period =
      new_filtered_log_sink_informer client f.namespace resync_period by_namespace
        f.tweak_list_options

  unfoldable pub log_sink_informer : SinkInformer → State L W → Informer L W × State L W
  unfolding informer_for default_log_sink_informer
  log_sink_informer f st = informer_for (codes "LogSink") (default_log_sink_informer f) st

  unfoldable pub new_filtered_cluster_log_sink_informer :
      GroupClient L W → Text → ℤ → List Text → Option Tweak → ℕ → Informer L W
  unfolding cluster_log_sinks
  new_filtered_cluster_log_sink_informer client ns resync_period indexers tweak =
      shared_index_informer (cluster_log_sinks client ns) tweak (codes "ClusterLogSink")
        resync_period indexers

  unfoldable pub new_cluster_log_sink_informer :
      GroupClient L W → Text → ℤ → List Text → ℕ → Informer L W
  unfolding new_filtered_cluster_log_sink_informer
  new_cluster_log_sink_informer client ns resync_period indexers =
      new_filtered_cluster_log_sink_informer client ns resync_period indexers none

  unfoldable pub default_cluster_log_sink_informer : SinkInformer → NewInformerFunc L W
  unfolding new_filtered_cluster_log_sink_informer
  default_cluster_log_sink_informer f client resync_period =
      new_filtered_cluster_log_sink_informer client f.namespace resync_period by_namespace
        f.tweak_list_options

  unfoldable pub cluster_log_sink_informer : SinkInformer → State L W → Informer L W × State L W
  unfolding informer_for default_cluster_log_sink_informer
  cluster_log_sink_informer f st =
      informer_for (codes "ClusterLogSink") (default_cluster_log_sink_informer f) st

  unfoldable pub new_filtered_metric_sink_informer :
      GroupClient L W → Text → ℤ → List Text → Option Tweak → ℕ → Informer L W
  unfolding metric_sinks
  new_filtered_metric_sink_informer client ns resync_period indexers tweak =
      shared_index_informer ((metric_sinks client ns).sinks) tweak (codes "MetricSink")
        resync_period indexers

  unfoldable pub new_metric_sink_informer :
      GroupClient L W → Text → ℤ → List Text → ℕ → Informer L W
  unfolding new_filtered_metric_sink_informer
  new_metric_sink_informer client ns resync_period indexers =
      new_filtered_metric_sink_informer client ns resync_period indexers none

  unfoldable pub default_metric_sink_informer : SinkInformer → NewInformerFunc L W
  unfolding new_filtered_metric_sink_informer
  default_metric_sink_informer f client resync_period =
      new_filtered_metric_sink_informer client f.namespace resync_period by_namespace
        f.tweak_list_options

  unfoldable pub metric_sink_informer : SinkInformer → State L W → Informer L W × State L W
  unfolding informer_for default_metric_sink_informer
  metric_sink_informer f st = informer_for (codes "MetricSink") (default_metric_sink_informer f) st

  unfoldable pub new_filtered_cluster_metric_sink_informer :
      GroupClient L W → Text → ℤ → List Text → Option Tweak → ℕ → Informer L W
  unfolding cluster_metric_sinks
  new_filtered_cluster_metric_sink_informer client ns resync_period indexers tweak =
      shared_index_informer ((cluster_metric_sinks client ns).sinks) tweak
        (codes "ClusterMetricSink") resync_period indexers

  unfoldable pub new_cluster_metric_sink_informer :
      GroupClient L W → Text → ℤ → List Text → ℕ → Informer L W
  unfolding new_filtered_cluster_metric_sink_informer
  new_cluster_metric_sink_informer client ns resync_period indexers =
      new_filtered_cluster_metric_sink_informer client ns resync_period indexers none

  unfoldable pub default_cluster_metric_sink_informer : SinkInformer → NewInformerFunc L W
  unfolding new_filtered_cluster_metric_sink_informer
  default_cluster_metric_sink_informer f client resync_period =
      new_filtered_cluster_metric_sink_informer client f.namespace resync_period by_namespace
        f.tweak_list_options

  unfoldable pub cluster_metric_sink_informer : SinkInformer → State L W → Informer L W × State L W
  unfolding informer_for default_cluster_metric_sink_informer
  cluster_metric_sink_informer f st =
      informer_for (codes "ClusterMetricSink") (default_cluster_metric_sink_informer f) st
