-- ===== src/Api/Cells.antt =====
-- pkg/apis/sink/v1alpha1/types.go: the resources as they lie in memory. A slice is the pointer to its
-- elements, or `nil`, and a map the pointer to its entries. The metadata, whose copies are made by
-- Kubernetes, and the strings are values.
use observability.Base.{ℕ, List, Option, none, some, Text}
use observability.Api.{
  TypeMeta, ObjectMeta, SyslogSpec, WebhookSpec, SinkSpec, LogSink, ClusterLogSink, MetricSinkMap,
}
use observability.Api.Store.{Ptr, Stored}

-- `metav1.MicroTime`, to the microsecond, as it is written.
pub record MicroTime : Type 0 where
  pub micros : ℕ

-- `metav1.ListMeta`.
pub record ListMeta : Type 0 where
  pub resource_version : Text

-- `SinkStatus`.
pub record StoredStatus : Type 0 where
  pub state : Text
  pub last_successful_send : MicroTime
  pub last_error : Ptr
  pub last_error_time : Ptr

-- `MetricSinkSpec`.
pub record StoredSpec : Type 0 where
  pub inputs : Ptr
  pub outputs : Ptr

pub record StoredMetricSink : Type 0 where
  pub type_meta : TypeMeta
  pub meta : ObjectMeta
  pub spec : StoredSpec
  pub status : StoredStatus

pub record StoredClusterMetricSink : Type 0 where
  pub type_meta : TypeMeta
  pub meta : ObjectMeta
  pub spec : StoredSpec
  pub status : StoredStatus

-- The four types of lists of resources.
pub record StoredList : Type 0 where
  pub type_meta : TypeMeta
  pub list_meta : ListMeta
  pub items : Ptr

pub data Cell : Type 0 where
  map_cell : MetricSinkMap → Cell
  maps_cell : (List Ptr) → Cell
  text_cell : Text → Cell
  time_cell : MicroTime → Cell
  syslog_spec_cell : SyslogSpec → Cell
  webhook_spec_cell : WebhookSpec → Cell
  sink_spec_cell : SinkSpec → Cell
  metric_sink_spec_cell : StoredSpec → Cell
  sink_status_cell : StoredStatus → Cell
  log_sink_cell : LogSink → Cell
  cluster_log_sink_cell : ClusterLogSink → Cell
  metric_sink_cell : StoredMetricSink → Cell
  cluster_metric_sink_cell : StoredClusterMetricSink → Cell
  log_sinks_cell : (List LogSink) → Cell
  cluster_log_sinks_cell : (List ClusterLogSink) → Cell
  metric_sinks_cell : (List StoredMetricSink) → Cell
  cluster_metric_sinks_cell : (List StoredClusterMetricSink) → Cell
  log_sink_list_cell : StoredList → Cell
  cluster_log_sink_list_cell : StoredList → Cell
  metric_sink_list_cell : StoredList → Cell
  cluster_metric_sink_list_cell : StoredList → Cell

unwrap_map : Cell → Option MetricSinkMap
unwrap_map (map_cell a) = some a
unwrap_map _ = none

unfoldable pub stored_map : Stored Cell MetricSinkMap
unfolding unwrap_map
stored_map = record { wrap = map_cell; unwrap = unwrap_map }

unwrap_maps : Cell → Option (List Ptr)
unwrap_maps (maps_cell a) = some a
unwrap_maps _ = none

unfoldable pub stored_maps : Stored Cell (List Ptr)
unfolding unwrap_maps
stored_maps = record { wrap = maps_cell; unwrap = unwrap_maps }

unwrap_text : Cell → Option Text
unwrap_text (text_cell a) = some a
unwrap_text _ = none

unfoldable pub stored_text : Stored Cell Text
unfolding unwrap_text
stored_text = record { wrap = text_cell; unwrap = unwrap_text }

unwrap_time : Cell → Option MicroTime
unwrap_time (time_cell a) = some a
unwrap_time _ = none

unfoldable pub stored_time : Stored Cell MicroTime
unfolding unwrap_time
stored_time = record { wrap = time_cell; unwrap = unwrap_time }

unwrap_syslog_spec : Cell → Option SyslogSpec
unwrap_syslog_spec (syslog_spec_cell a) = some a
unwrap_syslog_spec _ = none

unfoldable pub stored_syslog_spec : Stored Cell SyslogSpec
unfolding unwrap_syslog_spec
stored_syslog_spec = record { wrap = syslog_spec_cell; unwrap = unwrap_syslog_spec }

unwrap_webhook_spec : Cell → Option WebhookSpec
unwrap_webhook_spec (webhook_spec_cell a) = some a
unwrap_webhook_spec _ = none

unfoldable pub stored_webhook_spec : Stored Cell WebhookSpec
unfolding unwrap_webhook_spec
stored_webhook_spec = record { wrap = webhook_spec_cell; unwrap = unwrap_webhook_spec }

unwrap_sink_spec : Cell → Option SinkSpec
unwrap_sink_spec (sink_spec_cell a) = some a
unwrap_sink_spec _ = none

unfoldable pub stored_sink_spec : Stored Cell SinkSpec
unfolding unwrap_sink_spec
stored_sink_spec = record { wrap = sink_spec_cell; unwrap = unwrap_sink_spec }

unwrap_metric_sink_spec : Cell → Option StoredSpec
unwrap_metric_sink_spec (metric_sink_spec_cell a) = some a
unwrap_metric_sink_spec _ = none

unfoldable pub stored_metric_sink_spec : Stored Cell StoredSpec
unfolding unwrap_metric_sink_spec
stored_metric_sink_spec = record { wrap = metric_sink_spec_cell; unwrap = unwrap_metric_sink_spec }

unwrap_sink_status : Cell → Option StoredStatus
unwrap_sink_status (sink_status_cell a) = some a
unwrap_sink_status _ = none

unfoldable pub stored_sink_status : Stored Cell StoredStatus
unfolding unwrap_sink_status
stored_sink_status = record { wrap = sink_status_cell; unwrap = unwrap_sink_status }

unwrap_log_sink : Cell → Option LogSink
unwrap_log_sink (log_sink_cell a) = some a
unwrap_log_sink _ = none

unfoldable pub stored_log_sink : Stored Cell LogSink
unfolding unwrap_log_sink
stored_log_sink = record { wrap = log_sink_cell; unwrap = unwrap_log_sink }

unwrap_cluster_log_sink : Cell → Option ClusterLogSink
unwrap_cluster_log_sink (cluster_log_sink_cell a) = some a
unwrap_cluster_log_sink _ = none

unfoldable pub stored_cluster_log_sink : Stored Cell ClusterLogSink
unfolding unwrap_cluster_log_sink
stored_cluster_log_sink = record { wrap = cluster_log_sink_cell; unwrap = unwrap_cluster_log_sink }

unwrap_metric_sink : Cell → Option StoredMetricSink
unwrap_metric_sink (metric_sink_cell a) = some a
unwrap_metric_sink _ = none

unfoldable pub stored_metric_sink : Stored Cell StoredMetricSink
unfolding unwrap_metric_sink
stored_metric_sink = record { wrap = metric_sink_cell; unwrap = unwrap_metric_sink }

unwrap_cluster_metric_sink : Cell → Option StoredClusterMetricSink
unwrap_cluster_metric_sink (cluster_metric_sink_cell a) = some a
unwrap_cluster_metric_sink _ = none

unfoldable pub stored_cluster_metric_sink : Stored Cell StoredClusterMetricSink
unfolding unwrap_cluster_metric_sink
stored_cluster_metric_sink = record {
  wrap = cluster_metric_sink_cell;
  unwrap = unwrap_cluster_metric_sink;
}

unwrap_log_sinks : Cell → Option (List LogSink)
unwrap_log_sinks (log_sinks_cell a) = some a
unwrap_log_sinks _ = none

unfoldable pub stored_log_sinks : Stored Cell (List LogSink)
unfolding unwrap_log_sinks
stored_log_sinks = record { wrap = log_sinks_cell; unwrap = unwrap_log_sinks }

unwrap_cluster_log_sinks : Cell → Option (List ClusterLogSink)
unwrap_cluster_log_sinks (cluster_log_sinks_cell a) = some a
unwrap_cluster_log_sinks _ = none

unfoldable pub stored_cluster_log_sinks : Stored Cell (List ClusterLogSink)
unfolding unwrap_cluster_log_sinks
stored_cluster_log_sinks = record {
  wrap = cluster_log_sinks_cell;
  unwrap = unwrap_cluster_log_sinks;
}

unwrap_metric_sinks : Cell → Option (List StoredMetricSink)
unwrap_metric_sinks (metric_sinks_cell a) = some a
unwrap_metric_sinks _ = none

unfoldable pub stored_metric_sinks : Stored Cell (List StoredMetricSink)
unfolding unwrap_metric_sinks
stored_metric_sinks = record { wrap = metric_sinks_cell; unwrap = unwrap_metric_sinks }

unwrap_cluster_metric_sinks : Cell → Option (List StoredClusterMetricSink)
unwrap_cluster_metric_sinks (cluster_metric_sinks_cell a) = some a
unwrap_cluster_metric_sinks _ = none

unfoldable pub stored_cluster_metric_sinks : Stored Cell (List StoredClusterMetricSink)
unfolding unwrap_cluster_metric_sinks
stored_cluster_metric_sinks = record {
  wrap = cluster_metric_sinks_cell;
  unwrap = unwrap_cluster_metric_sinks;
}

unwrap_log_sink_list : Cell → Option StoredList
unwrap_log_sink_list (log_sink_list_cell a) = some a
unwrap_log_sink_list _ = none

unfoldable pub stored_log_sink_list : Stored Cell StoredList
unfolding unwrap_log_sink_list
stored_log_sink_list = record { wrap = log_sink_list_cell; unwrap = unwrap_log_sink_list }

unwrap_cluster_log_sink_list : Cell → Option StoredList
unwrap_cluster_log_sink_list (cluster_log_sink_list_cell a) = some a
unwrap_cluster_log_sink_list _ = none

unfoldable pub stored_cluster_log_sink_list : Stored Cell StoredList
unfolding unwrap_cluster_log_sink_list
stored_cluster_log_sink_list = record {
  wrap = cluster_log_sink_list_cell;
  unwrap = unwrap_cluster_log_sink_list;
}

unwrap_metric_sink_list : Cell → Option StoredList
unwrap_metric_sink_list (metric_sink_list_cell a) = some a
unwrap_metric_sink_list _ = none

unfoldable pub stored_metric_sink_list : Stored Cell StoredList
unfolding unwrap_metric_sink_list
stored_metric_sink_list = record { wrap = metric_sink_list_cell; unwrap = unwrap_metric_sink_list }

unwrap_cluster_metric_sink_list : Cell → Option StoredList
unwrap_cluster_metric_sink_list (cluster_metric_sink_list_cell a) = some a
unwrap_cluster_metric_sink_list _ = none

unfoldable pub stored_cluster_metric_sink_list : Stored Cell StoredList
unfolding unwrap_cluster_metric_sink_list
stored_cluster_metric_sink_list = record {
  wrap = cluster_metric_sink_list_cell;
  unwrap = unwrap_cluster_metric_sink_list;
}
