-- ===== src/Metric.antt =====
-- pkg/metric: the configuration of telegraf that the metric sinks make, and the controllers.
pub mod ClusterConfig
pub mod ClusterController
pub mod Objects
pub mod Controller
