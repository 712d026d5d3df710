-- ===== src/Informers/ListerAccess.antt =====
-- pkg/client/informers/externalversions/sink/v1alpha1: the listers of the informers. `indexer_of` is
-- `GetIndexer` of client-go.
use observability.Api.{LogSink, ClusterLogSink, MetricSink, ClusterMetricSink}
use observability.Informers.Factory.{Informer, State}
use observability.Informers.Kinds.{
  SinkInformer, log_sink_informer, cluster_log_sink_informer, metric_sink_informer,
  cluster_metric_sink_informer,
}
use observability.Listers.{
  Indexer, Lister, new_log_sink_lister, new_cluster_log_sink_lister, new_metric_sink_lister,
  new_cluster_metric_sink_lister,
}

module _ {L W S : Type 0} where
  unfoldable pub log_sink_lister :
      (Informer L W → Indexer LogSink S) → SinkInformer → State L W → Lister LogSink S × State L W
  unfolding log_sink_informer new_log_sink_lister
  log_sink_lister indexer_of f st =
      let (i, st') = log_sink_informer f st in (new_log_sink_lister (indexer_of i), st')

  unfoldable pub cluster_log_sink_lister :
      (Informer L W → Indexer ClusterLogSink S)
      → SinkInformer
      → State L W
      → Lister ClusterLogSink S × State L W
  unfolding cluster_log_sink_informer new_cluster_log_sink_lister
  cluster_log_sink_lister indexer_of f st =
      let (i, st') = cluster_log_sink_informer f st in
      (new_cluster_log_sink_lister (indexer_of i), st')

  unfoldable pub metric_sink_lister :
      (Informer L W → Indexer MetricSink S)
      → SinkInformer
      → State L W
      → Lister MetricSink S × State L W
  unfolding metric_sink_informer new_metric_sink_lister
  metric_sink_lister indexer_of f st =
      let (i, st') = metric_sink_informer f st in (new_metric_sink_lister (indexer_of i), st')

  unfoldable pub cluster_metric_sink_lister :
      (Informer L W → Indexer ClusterMetricSink S)
      → SinkInformer
      → State L W
      → Lister ClusterMetricSink S × State L W
  unfolding cluster_metric_sink_informer new_cluster_metric_sink_lister
  cluster_metric_sink_lister indexer_of f st =
      let (i, st') = cluster_metric_sink_informer f st in
      (new_cluster_metric_sink_lister (indexer_of i), st')
