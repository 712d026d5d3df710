-- ===== src/Tests/DeepCopy.antt =====
-- The generated deep copies at a concrete memory.
use observability.Base.{
  zero, suc, true, ◌≡◌, refl, List, [], ◌∷◌, ◌++◌, none, some, codes, text_eq, arith,
}
use observability.GoMap.{insert}
use observability.Api.{str, bool, is_copied, deep_copy, deep_copy_onto}
use observability.Api.Store.{get, Ptr, alloc, load, each, copy_ptr, view_ptr, view_each}
use observability.Api.Cells.{
  Cell, StoredMetricSink, map_cell, maps_cell, text_cell, metric_sinks_cell, metric_sink_list_cell,
  stored_map, stored_maps, stored_text, stored_time, stored_metric_sinks, stored_metric_sink_list,
}
use observability.Api.Store.Copied.{SameOn}
use observability.Api.DeepCopy.{
  deep_copy_into_metric_sink_map, deep_copy_into_metric_sink_spec, deep_copy_into_sink_status,
  deep_copy_into_metric_sink, deep_copy_into_metric_sink_list, deep_copy_metric_sink_list,
}
use observability.Api.DeepCopy.Views.{
  copied_list, copied_metric_sink, MetricSinkView, ListView, view_metric_sink, view_spec,
  view_status, view_list,
}
use observability.Api.DeepCopy.Separate.{
  Made, view_metric_sink_list, deep_copy_metric_sink_list-Made, deep_copy_metric_sink_list_apart,
}

abbrev tail : List Cell → List Cell
tail [] = []
tail (c ∷ cs) = cs

abbrev sink_at : Ptr → Ptr → StoredMetricSink
sink_at inputs last_error = record {
  type_meta = record { kind = []; api_version = [] };
  meta = record {
    name = codes "cpu";
    namespace = codes "apps";
    cluster_name = [];
    uid = codes "u1";
  };
  spec = record { inputs = inputs; outputs = none };
  status = record {
    state = codes "Failing";
    last_successful_send = record { micros = 7 };
    last_error = last_error;
    last_error_time = none;
  };
}

abbrev list_at : Ptr → Cell
list_at items = metric_sink_list_cell (record {
  type_meta = record { kind = codes "MetricSinkList"; api_version = [] };
  list_meta = record { resource_version = codes "12" };
  items = items;
})

-- A list of one sink, with the settings of one input and a nil map for the other.
abbrev old_cells : List Cell
old_cells =
    map_cell ((codes "type", str (codes "cpu")) ∷ (codes "percpu", bool true) ∷ [])
    ∷ maps_cell (some 0 ∷ none ∷ [])
    ∷ text_cell (codes "refused")
    ∷ metric_sinks_cell (sink_at (some 1) (some 2) ∷ [])
    ∷ list_at (some 3)
    ∷ []

-- What its copy adds.
abbrev new_cells : List Cell
new_cells =
    map_cell ((codes "type", str (codes "cpu")) ∷ [])
    ∷ map_cell []
    ∷ maps_cell (some 5 ∷ some 6 ∷ [])
    ∷ text_cell (codes "refused")
    ∷ metric_sinks_cell (sink_at (some 7) (some 8) ∷ [])
    ∷ list_at (some 9)
    ∷ []

-- The settings of the old sink are overwritten, and so are those of the new one.
abbrev old_overwritten : List Cell
old_overwritten = map_cell [] ∷ (tail old_cells ++ new_cells)

abbrev new_overwritten : List Cell
new_overwritten = old_cells ++ (map_cell [] ∷ tail new_cells)

abbrev sink_view : MetricSinkView
sink_view = record {
  type_meta = record { kind = []; api_version = [] };
  meta = record {
    name = codes "cpu";
    namespace = codes "apps";
    cluster_name = [];
    uid = codes "u1";
  };
  spec = record {
    inputs =
        some
          (some ((codes "type", str (codes "cpu")) ∷ (codes "percpu", bool true) ∷ []) ∷ none ∷ []);
    outputs = none;
  };
  status = record {
    state = codes "Failing";
    last_successful_send = record { micros = 7 };
    last_error = some (codes "refused");
    last_error_time = none;
  };
}

abbrev sinks_view : ListView MetricSinkView
sinks_view = record {
  type_meta = record { kind = codes "MetricSinkList"; api_version = [] };
  list_meta = record { resource_version = codes "12" };
  items = some (sink_view ∷ []);
}

old_cells_read : view_metric_sink_list old_cells (some 4) ≡ some (some sinks_view)
unfolding view_ptr view_each get stored_map stored_maps stored_text stored_time stored_metric_sinks
    stored_metric_sink_list view_metric_sink view_spec view_status view_list
old_cells_read = refl

old_cells_copied :
    deep_copy_metric_sink_list (some 4) old_cells ≡ some (some 10, old_cells ++ new_cells)
unfolding deep_copy_metric_sink_list deep_copy_into_metric_sink_list deep_copy_into_metric_sink
    deep_copy_into_sink_status deep_copy_into_metric_sink_spec deep_copy_into_metric_sink_map
    copy_ptr each load alloc get stored_map stored_maps stored_text stored_time stored_metric_sinks
    stored_metric_sink_list deep_copy deep_copy_onto is_copied insert text_eq
old_cells_copied = refl

old_overwritten_new_kept : SameOn 5 11 (old_cells ++ new_cells) old_overwritten
unfolding get
old_overwritten_new_kept zero l m = elim l [ ]
old_overwritten_new_kept (suc a) l m = refl

new_overwritten_old_kept : SameOn 0 5 (old_cells ++ new_cells) new_overwritten
unfolding get
new_overwritten_old_kept zero l m = refl
new_overwritten_old_kept (suc zero) l m = refl
new_overwritten_old_kept (suc (suc zero)) l m = refl
new_overwritten_old_kept (suc (suc (suc zero))) l m = refl
new_overwritten_old_kept (suc (suc (suc (suc zero)))) l m = refl
new_overwritten_old_kept (suc (suc (suc (suc (suc a))))) l m =
    let no : ⊥ = omega (m, arith) in elim no [ ]

deep_copy_metric_sink_list-Made_example :
    Made view_metric_sink_list
      (some (copied_list copied_metric_sink sinks_view))
      old_cells
      (deep_copy_metric_sink_list (some 4) old_cells)
deep_copy_metric_sink_list-Made_example =
    deep_copy_metric_sink_list-Made old_cells (some 4) (some sinks_view) old_cells_read

deep_copy_metric_sink_list_apart_example :
    (view_metric_sink_list old_overwritten (some 10)
      ≡ some (some (copied_list copied_metric_sink sinks_view)))
    × (view_metric_sink_list new_overwritten (some 4) ≡ some (some sinks_view))
deep_copy_metric_sink_list_apart_example =
    deep_copy_metric_sink_list_apart old_cells (old_cells ++ new_cells) old_overwritten
      new_overwritten (some 4) (some 10) (some sinks_view) old_cells_read old_cells_copied
      (record { new_kept = old_overwritten_new_kept; old_kept = new_overwritten_old_kept })
