-- ===== src/Client/FakeSinks.antt =====
-- pkg/client/clientset/versioned/typed/sink/v1alpha1/fake: the fake of each type, with its methods.
use observability.Base.{Option, Text, codes}
use observability.Api.{LogSink, ClusterLogSink, MetricSink, ClusterMetricSink}
use observability.Client.Request.{Error}
use observability.Client.Fake.{
  Outcome, Tracker, FakeSinks, FakeInterface, fake_methods, fake_update_status_of, resource_named,
  kind_named,
}

-- The methods of the fakes of metric sinks.
pub record FakeStatusInterface (T W : Type 0) : Type 0 where
  pub sinks : FakeInterface T W
  pub update_status : T → Outcome (Option T × Option Error)

module _ {W : Type 0} where
  unfoldable pub new_fake_log_sinks : Tracker LogSink W → Text → FakeInterface LogSink W
  unfolding fake_methods
  new_fake_log_sinks fake ns =
      fake_methods (resource_named (codes "logsinks")) (kind_named (codes "LogSink"))
        (record { fake = fake; ns = ns })

  unfoldable pub new_fake_cluster_log_sinks :
      Tracker ClusterLogSink W → Text → FakeInterface ClusterLogSink W
  unfolding fake_methods
  new_fake_cluster_log_sinks fake ns =
      fake_methods (resource_named (codes "clusterlogsinks")) (kind_named (codes "ClusterLogSink"))
        (record { fake = fake; ns = ns })

  unfoldable pub new_fake_metric_sinks :
      Tracker MetricSink W → Text → FakeStatusInterface MetricSink W
  unfolding fake_methods fake_update_status_of
  new_fake_metric_sinks fake ns =
      let c : FakeSinks MetricSink W = record { fake = fake; ns = ns } in
      record {
        sinks =
            fake_methods (resource_named (codes "metricsinks")) (kind_named (codes "MetricSink")) c;
        update_status = fake_update_status_of (resource_named (codes "metricsinks")) c;
      }

  unfoldable pub new_fake_cluster_metric_sinks :
      Tracker ClusterMetricSink W → Text → FakeStatusInterface ClusterMetricSink W
  unfolding fake_methods fake_update_status_of
  new_fake_cluster_metric_sinks fake ns =
      let c : FakeSinks ClusterMetricSink W = record { fake = fake; ns = ns } in
      record {
        sinks =
            fake_methods (resource_named (codes "clustermetricsinks"))
              (kind_named (codes "ClusterMetricSink")) c;
        update_status = fake_update_status_of (resource_named (codes "clustermetricsinks")) c;
      }
