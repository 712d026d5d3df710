-- ===== src/Client/Sinks.antt =====
-- pkg/client/clientset/versioned/typed/sink/v1alpha1: the client of each type, as `newLogSinks` and the
-- others make it, with its methods.
use observability.Base.{Text, codes}
use observability.Api.{LogSink, ClusterLogSink, MetricSink, ClusterMetricSink}
use observability.Client.Request.{Rest}
use observability.Client.Typed.{Client, Interface, StatusInterface, methods, update_status}

module _ {L W : Type 0} where
  unfoldable pub new_log_sinks : Rest LogSink L W → Text → Interface LogSink L W
  unfolding methods
  new_log_sinks client ns =
      methods (codes "logsinks") (λ s. s.meta.name) (record { client = client; ns = ns })

  unfoldable pub new_cluster_log_sinks :
      Rest ClusterLogSink L W → Text → Interface ClusterLogSink L W
  unfolding methods
  new_cluster_log_sinks client ns =
      methods (codes "clusterlogsinks") (λ s. s.meta.name) (record { client = client; ns = ns })

  unfoldable pub new_metric_sinks : Rest MetricSink L W → Text → StatusInterface MetricSink L W
  unfolding methods update_status
  new_metric_sinks client ns =
      let c : Client MetricSink L W = record { client = client; ns = ns } in
      record {
        sinks = methods (codes "metricsinks") (λ s. s.meta.name) c;
        update_status = update_status (codes "metricsinks") (λ s. s.meta.name) c;
      }

  unfoldable pub new_cluster_metric_sinks :
      Rest ClusterMetricSink L W → Text → StatusInterface ClusterMetricSink L W
  unfolding methods update_status
  new_cluster_metric_sinks client ns =
      let c : Client ClusterMetricSink L W = record { client = client; ns = ns } in
      record {
        sinks = methods (codes "clustermetricsinks") (λ s. s.meta.name) c;
        update_status = update_status (codes "clustermetricsinks") (λ s. s.meta.name) c;
      }
