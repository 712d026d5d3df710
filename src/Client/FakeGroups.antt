-- ===== src/Client/FakeGroups.antt =====
-- pkg/client/clientset/versioned/typed/sink/v1alpha1/fake/fake_sink_client.go: the fakes of the four
-- types.
use observability.Base.{Text}
use observability.Api.{LogSink, ClusterLogSink, MetricSink, ClusterMetricSink}
use observability.Client.Fake.{Tracker, FakeInterface}
use observability.Client.FakeSinks.{
  FakeStatusInterface, new_fake_log_sinks, new_fake_cluster_log_sinks, new_fake_metric_sinks,
  new_fake_cluster_metric_sinks,
}

-- The fake of client-go, as it is used for each type.
pub record FakeGroup (W : Type 0) : Type 0 where
  pub for_log_sinks : Tracker LogSink W
  pub for_cluster_log_sinks : Tracker ClusterLogSink W
  pub for_metric_sinks : Tracker MetricSink W
  pub for_cluster_metric_sinks : Tracker ClusterMetricSink W

module _ {W : Type 0} where
  unfoldable pub fake_log_sinks : FakeGroup W → Text → FakeInterface LogSink W
  unfolding new_fake_log_sinks
  fake_log_sinks c ns = new_fake_log_sinks c.for_log_sinks ns

  unfoldable pub fake_cluster_log_sinks : FakeGroup W → Text → FakeInterface ClusterLogSink W
  unfolding new_fake_cluster_log_sinks
  fake_cluster_log_sinks c ns = new_fake_cluster_log_sinks c.for_cluster_log_sinks ns

  unfoldable pub fake_metric_sinks : FakeGroup W → Text → FakeStatusInterface MetricSink W
  unfolding new_fake_metric_sinks
  fake_metric_sinks c ns = new_fake_metric_sinks c.for_metric_sinks ns

  unfoldable pub fake_cluster_metric_sinks :
      FakeGroup W → Text → FakeStatusInterface ClusterMetricSink W
  unfolding new_fake_cluster_metric_sinks
  fake_cluster_metric_sinks c ns = new_fake_cluster_metric_sinks c.for_cluster_metric_sinks ns
