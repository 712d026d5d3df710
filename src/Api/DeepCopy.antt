-- ===== src/Api/DeepCopy.antt =====
-- pkg/apis/sink/v1alpha1/zz_generated.deepcopy.go: the copies, over the memory. `x.DeepCopyInto(out)`
-- gives the value that it writes to `out`, whose pointers are those of `x` but for the ones that it
-- sets. An array is written when its elements are copied, since nothing else has it before.
pub mod Views
pub mod Separate
use observability.Base.{ℕ, List, [], ◌∷◌, Option, none, some}
use observability.Api.{SyslogSpec, WebhookSpec, SinkSpec, LogSink, ClusterLogSink, deep_copy}
use observability.Api.Store.{Ptr, Cmd, pure, ◌>>=◌, alloc, load, each, copy_ptr}
use observability.Api.Cells.{
  Cell, StoredStatus, StoredSpec, StoredMetricSink, StoredClusterMetricSink, StoredList, stored_map,
  stored_maps, stored_text, stored_time, stored_syslog_spec, stored_webhook_spec, stored_sink_spec,
  stored_metric_sink_spec, stored_sink_status, stored_log_sink, stored_cluster_log_sink,
  stored_metric_sink, stored_cluster_metric_sink, stored_log_sinks, stored_cluster_log_sinks,
  stored_metric_sinks, stored_cluster_metric_sinks, stored_log_sink_list,
  stored_cluster_log_sink_list, stored_metric_sink_list, stored_cluster_metric_sink_list,
}

-- A `runtime.Object` that is not `nil`.
pub data Object : Type 0 where
  log_sink cluster_log_sink metric_sink cluster_metric_sink : ℕ → Object
  log_sink_list cluster_log_sink_list metric_sink_list cluster_metric_sink_list : ℕ → Object

-- The end of `DeepCopyObject`: a nil pointer gives the nil interface.
abbrev pub as_object : (ℕ → Object) → Ptr → Cmd Cell (Option Object)
as_object wrap none = pure none
as_object wrap (some p) = pure (some (wrap p))

-- `MetricSinkMap.DeepCopyInto`: a nil map is copied to an empty one.
unfoldable pub deep_copy_into_metric_sink_map : Ptr → Cmd Cell Ptr
unfolding load alloc
deep_copy_into_metric_sink_map none = do q ← alloc stored_map (deep_copy []); pure (some q)
deep_copy_into_metric_sink_map (some p) = do
  m ← load stored_map p
  q ← alloc stored_map (deep_copy m)
  pure (some q)

unfoldable pub deep_copy_into_metric_sink_spec : StoredSpec → Cmd Cell StoredSpec
deep_copy_into_metric_sink_spec s = do
  inputs ← copy_ptr stored_maps (each deep_copy_into_metric_sink_map) s.inputs
  outputs ← copy_ptr stored_maps (each deep_copy_into_metric_sink_map) s.outputs
  pure (record { inputs = inputs; outputs = outputs })

unfoldable pub deep_copy_into_sink_status : StoredStatus → Cmd Cell StoredStatus
deep_copy_into_sink_status s = do
  last_error ← copy_ptr stored_text pure s.last_error
  last_error_time ← copy_ptr stored_time pure s.last_error_time
  pure (record s { last_error = last_error; last_error_time = last_error_time })

unfoldable pub deep_copy_into_metric_sink : StoredMetricSink → Cmd Cell StoredMetricSink
deep_copy_into_metric_sink s = do
  spec ← deep_copy_into_metric_sink_spec s.spec
  status ← deep_copy_into_sink_status s.status
  pure (record s { spec = spec; status = status })

unfoldable pub deep_copy_into_cluster_metric_sink :
    StoredClusterMetricSink → Cmd Cell StoredClusterMetricSink
deep_copy_into_cluster_metric_sink s = do
  spec ← deep_copy_into_metric_sink_spec s.spec
  status ← deep_copy_into_sink_status s.status
  pure (record s { spec = spec; status = status })

unfoldable pub deep_copy_into_syslog_spec : SyslogSpec → Cmd Cell SyslogSpec
deep_copy_into_syslog_spec s = pure s

unfoldable pub deep_copy_into_webhook_spec : WebhookSpec → Cmd Cell WebhookSpec
deep_copy_into_webhook_spec s = pure s

unfoldable pub deep_copy_into_sink_spec : SinkSpec → Cmd Cell SinkSpec
deep_copy_into_sink_spec s = pure s

unfoldable pub deep_copy_into_log_sink : LogSink → Cmd Cell LogSink
deep_copy_into_log_sink s = pure s

unfoldable pub deep_copy_into_cluster_log_sink : ClusterLogSink → Cmd Cell ClusterLogSink
deep_copy_into_cluster_log_sink s = pure s

unfoldable pub deep_copy_into_log_sink_list : StoredList → Cmd Cell StoredList
deep_copy_into_log_sink_list l = do
  items ← copy_ptr stored_log_sinks (each deep_copy_into_log_sink) l.items
  pure (record l { items = items })

unfoldable pub deep_copy_into_cluster_log_sink_list : StoredList → Cmd Cell StoredList
deep_copy_into_cluster_log_sink_list l = do
  items ← copy_ptr stored_cluster_log_sinks (each deep_copy_into_cluster_log_sink) l.items
  pure (record l { items = items })

unfoldable pub deep_copy_into_metric_sink_list : StoredList → Cmd Cell StoredList
deep_copy_into_metric_sink_list l = do
  items ← copy_ptr stored_metric_sinks (each deep_copy_into_metric_sink) l.items
  pure (record l { items = items })

unfoldable pub deep_copy_into_cluster_metric_sink_list : StoredList → Cmd Cell StoredList
deep_copy_into_cluster_metric_sink_list l = do
  items ← copy_ptr stored_cluster_metric_sinks (each deep_copy_into_cluster_metric_sink) l.items
  pure (record l { items = items })

unfoldable pub deep_copy_syslog_spec : Ptr → Cmd Cell Ptr
deep_copy_syslog_spec p = copy_ptr stored_syslog_spec deep_copy_into_syslog_spec p

unfoldable pub deep_copy_webhook_spec : Ptr → Cmd Cell Ptr
deep_copy_webhook_spec p = copy_ptr stored_webhook_spec deep_copy_into_webhook_spec p

unfoldable pub deep_copy_sink_spec : Ptr → Cmd Cell Ptr
deep_copy_sink_spec p = copy_ptr stored_sink_spec deep_copy_into_sink_spec p

unfoldable pub deep_copy_metric_sink_spec : Ptr → Cmd Cell Ptr
deep_copy_metric_sink_spec p = copy_ptr stored_metric_sink_spec deep_copy_into_metric_sink_spec p

unfoldable pub deep_copy_sink_status : Ptr → Cmd Cell Ptr
deep_copy_sink_status p = copy_ptr stored_sink_status deep_copy_into_sink_status p

unfoldable pub deep_copy_log_sink : Ptr → Cmd Cell Ptr
deep_copy_log_sink p = copy_ptr stored_log_sink deep_copy_into_log_sink p

unfoldable pub deep_copy_cluster_log_sink : Ptr → Cmd Cell Ptr
deep_copy_cluster_log_sink p = copy_ptr stored_cluster_log_sink deep_copy_into_cluster_log_sink p

unfoldable pub deep_copy_metric_sink : Ptr → Cmd Cell Ptr
deep_copy_metric_sink p = copy_ptr stored_metric_sink deep_copy_into_metric_sink p

unfoldable pub deep_copy_cluster_metric_sink : Ptr → Cmd Cell Ptr
deep_copy_cluster_metric_sink p =
    copy_ptr stored_cluster_metric_sink deep_copy_into_cluster_metric_sink p

unfoldable pub deep_copy_log_sink_list : Ptr → Cmd Cell Ptr
deep_copy_log_sink_list p = copy_ptr stored_log_sink_list deep_copy_into_log_sink_list p

unfoldable pub deep_copy_cluster_log_sink_list : Ptr → Cmd Cell Ptr
deep_copy_cluster_log_sink_list p =
    copy_ptr stored_cluster_log_sink_list deep_copy_into_cluster_log_sink_list p

unfoldable pub deep_copy_metric_sink_list : Ptr → Cmd Cell Ptr
deep_copy_metric_sink_list p = copy_ptr stored_metric_sink_list deep_copy_into_metric_sink_list p

unfoldable pub deep_copy_cluster_metric_sink_list : Ptr → Cmd Cell Ptr
deep_copy_cluster_metric_sink_list p =
    copy_ptr stored_cluster_metric_sink_list deep_copy_into_cluster_metric_sink_list p

unfoldable pub deep_copy_object_log_sink : Ptr → Cmd Cell (Option Object)
deep_copy_object_log_sink p = do c ← deep_copy_log_sink p; as_object log_sink c

unfoldable pub deep_copy_object_cluster_log_sink : Ptr → Cmd Cell (Option Object)
deep_copy_object_cluster_log_sink p = do
  c ← deep_copy_cluster_log_sink p
  as_object cluster_log_sink c

unfoldable pub deep_copy_object_metric_sink : Ptr → Cmd Cell (Option Object)
deep_copy_object_metric_sink p = do c ← deep_copy_metric_sink p; as_object metric_sink c

unfoldable pub deep_copy_object_cluster_metric_sink : Ptr → Cmd Cell (Option Object)
deep_copy_object_cluster_metric_sink p = do
  c ← deep_copy_cluster_metric_sink p
  as_object cluster_metric_sink c

unfoldable pub deep_copy_object_log_sink_list : Ptr → Cmd Cell (Option Object)
deep_copy_object_log_sink_list p = do c ← deep_copy_log_sink_list p; as_object log_sink_list c

unfoldable pub deep_copy_object_cluster_log_sink_list : Ptr → Cmd Cell (Option Object)
deep_copy_object_cluster_log_sink_list p = do
  c ← deep_copy_cluster_log_sink_list p
  as_object cluster_log_sink_list c

unfoldable pub deep_copy_object_metric_sink_list : Ptr → Cmd Cell (Option Object)
deep_copy_object_metric_sink_list p = do
  c ← deep_copy_metric_sink_list p
  as_object metric_sink_list c

unfoldable pub deep_copy_object_cluster_metric_sink_list : Ptr → Cmd Cell (Option Object)
deep_copy_object_cluster_metric_sink_list p = do
  c ← deep_copy_cluster_metric_sink_list p
  as_object cluster_metric_sink_list c
