-- ===== src/Api/DeepCopy/Views.antt =====
-- The values that the resources in memory stand for, and that each copy stands for a copied value.
use mathlib.Core.Option
use observability.Base.{◌≡◌, refl, ap, subst, List, [], map, Option, none, some, Text}
use observability.Api.{TypeMeta, ObjectMeta, MetricSinkMap, deep_copy}
use observability.Api.Store.{Ptr, pure, and_then, Stored, each, copy_ptr, view_ptr, view_each}
use observability.Api.Store.Copied.{
  Copied, Copies, Stable, IsStored, pure-Copied, stored-Copied, view_ptr-some, view_each-Stable,
  each-Copies, view_ptr-Stable, copy_ptr-Copies,
}
use observability.Api.Store.Structs.{two-Stable, two-Copies}
use observability.Api.Cells.{
  MicroTime, ListMeta, Cell, StoredStatus, StoredSpec, StoredMetricSink, StoredClusterMetricSink,
  StoredList, stored_map, stored_maps, stored_text, stored_time,
}
use observability.Api.DeepCopy.{
  deep_copy_into_metric_sink_map, deep_copy_into_metric_sink_spec, deep_copy_into_sink_status,
  deep_copy_into_metric_sink, deep_copy_into_cluster_metric_sink,
}

-- A value with no pointer in it.
abbrev pub view_value : {A : Type 0} → List Cell → A → Option A
view_value h a = some a

abbrev pub unchanged : {A : Type 0} → A → A
unchanged a = a

abbrev pub view_map : List Cell → Ptr → Option (Option MetricSinkMap)
view_map = view_ptr stored_map view_value

-- A nil map is copied to an empty one.
abbrev pub copied_map : Option MetricSinkMap → Option MetricSinkMap
copied_map none = some (deep_copy [])
copied_map (some m) = some (deep_copy m)

abbrev pub view_maps : List Cell → Ptr → Option (Option (List (Option MetricSinkMap)))
view_maps = view_ptr stored_maps (view_each view_map)

abbrev pub copied_maps : Option (List (Option MetricSinkMap)) → Option (List (Option MetricSinkMap))
copied_maps = Option.map (map copied_map)

pub record SpecView : Type 0 where
  pub inputs : Option (List (Option MetricSinkMap))
  pub outputs : Option (List (Option MetricSinkMap))

unfoldable pub view_spec : List Cell → StoredSpec → Option SpecView
view_spec h s =
    and_then (view_maps h s.inputs)
      (λ i. and_then (view_maps h s.outputs) (λ o. some (record { inputs = i; outputs = o })))

abbrev pub copied_spec : SpecView → SpecView
copied_spec v = record { inputs = copied_maps v.inputs; outputs = copied_maps v.outputs }

pub record StatusView : Type 0 where
  pub state : Text
  pub last_successful_send : MicroTime
  pub last_error : Option Text
  pub last_error_time : Option MicroTime

unfoldable pub view_status : List Cell → StoredStatus → Option StatusView
view_status h s = and_then (view_ptr stored_text view_value h s.last_error) (λ e.
    and_then (view_ptr stored_time view_value h s.last_error_time) (λ t. some (record {
      state = s.state;
      last_successful_send = s.last_successful_send;
      last_error = e;
      last_error_time = t;
    })))

-- A metric sink, or a cluster metric sink.
pub record MetricSinkView : Type 0 where
  pub type_meta : TypeMeta
  pub meta : ObjectMeta
  pub spec : SpecView
  pub status : StatusView

abbrev pub copied_metric_sink : MetricSinkView → MetricSinkView
copied_metric_sink v = record v { spec = copied_spec v.spec }

abbrev view_parts :
    List Cell → TypeMeta → ObjectMeta → StoredSpec → StoredStatus → Option MetricSinkView
view_parts h t m spec status = and_then (view_spec h spec) (λ v.
    and_then (view_status h status)
      (λ w. some (record { type_meta = t; meta = m; spec = v; status = w })))

unfoldable pub view_metric_sink : List Cell → StoredMetricSink → Option MetricSinkView
view_metric_sink h s = view_parts h s.type_meta s.meta s.spec s.status

unfoldable pub view_cluster_metric_sink :
    List Cell → StoredClusterMetricSink → Option MetricSinkView
view_cluster_metric_sink h s = view_parts h s.type_meta s.meta s.spec s.status

pub record ListView (V : Type 0) : Type 0 where
  pub type_meta : TypeMeta
  pub list_meta : ListMeta
  pub items : Option (List V)

module _ {A V : Type 0} (s : Stored Cell (List A)) (view : List Cell → A → Option V) where
  unfoldable pub view_list : List Cell → StoredList → Option (ListView V)
  view_list h l =
      and_then (view_ptr s (view_each view) h l.items)
        (λ v. some (record { type_meta = l.type_meta; list_meta = l.list_meta; items = v }))

abbrev pub copied_list : {V : Type 0} → (V → V) → ListView V → ListView V
copied_list copied v = record v { items = Option.map (map copied) v.items }

-- The copies of the parts.
value-Copies : {A : Type 0} → Copies {C = Cell} {A = A} view_value unchanged pure
value-Copies h a v e = pure-Copied view_value a v h (λ g. e)

value-Stable : {A : Type 0} → Stable {C = Cell} {A = A} view_value
value-Stable h g a v e s = e

map-Copies : Copies view_map copied_map deep_copy_into_metric_sink_map
unfolding deep_copy_into_metric_sink_map copy_ptr view_ptr stored_map
map-Copies h none none e =
    stored-Copied {C = Cell} {V = MetricSinkMap} stored_map {view = view_value} (λ a. refl) h
      (pure (deep_copy [])) (pure-Copied view_value (deep_copy []) (deep_copy []) h (λ g. refl))
map-Copies h none (some v) e = cc
map-Copies h (some p) none e =
    let (c, a, w, at, is, sees, whole) =
      view_ptr-some {V = MetricSinkMap} stored_map view_value h p none e in
    cc
map-Copies h (some p) (some v) e =
    copy_ptr-Copies stored_map {view = view_value} {copied = deep_copy}
      {into = λ m. pure (deep_copy m)} (λ a. refl)
      (λ h m w e.
        pure-Copied view_value (deep_copy m) (deep_copy w) h (λ g. ap (Option.map deep_copy) e))
      h (some p) (some v) e

map-Stable : Stable view_map
map-Stable = view_ptr-Stable stored_map value-Stable

maps-Copies :
    Copies view_maps copied_maps (copy_ptr stored_maps (each deep_copy_into_metric_sink_map))
unfolding stored_maps
maps-Copies = copy_ptr-Copies stored_maps (λ a. refl) (each-Copies map-Stable map-Copies)

maps-Stable : Stable view_maps
maps-Stable = view_ptr-Stable stored_maps (view_each-Stable map-Stable)

spec-Copies : Copies view_spec copied_spec deep_copy_into_metric_sink_spec
unfolding view_spec deep_copy_into_metric_sink_spec
spec-Copies =
    two-Copies {S = StoredSpec} (λ s. s.inputs) (λ s. s.outputs)
      (λ s v w. record { inputs = v; outputs = w }) (λ s a b. record { inputs = a; outputs = b })
      copied_spec (λ s v w. refl) (λ s a b. (refl, refl, refl)) maps-Stable maps-Copies maps-Copies

spec-Stable : Stable view_spec
unfolding view_spec
spec-Stable =
    two-Stable {S = StoredSpec} (λ s. s.inputs) (λ s. s.outputs)
      (λ s v w. record { inputs = v; outputs = w }) maps-Stable maps-Stable

map-unchanged : {A : Type 0} (v : Option A) → Option.map unchanged v ≡ v
map-unchanged none = refl
map-unchanged (some a) = refl

-- A pointer to a value with no pointer in it.
module _ {A : Type 0} (s : Stored Cell A) (st : IsStored s) where
  leaf-Copies : Copies (view_ptr s view_value) unchanged (copy_ptr s pure)
  leaf-Copies h p v e =
      subst (λ w. Copied (view_ptr s view_value) w h (copy_ptr s pure p h)) (map-unchanged v)
        (copy_ptr-Copies s st value-Copies h p v e)

text-Copies : Copies (view_ptr stored_text view_value) unchanged (copy_ptr stored_text pure)
unfolding stored_text
text-Copies = leaf-Copies stored_text (λ a. refl)

time-Copies : Copies (view_ptr stored_time view_value) unchanged (copy_ptr stored_time pure)
unfolding stored_time
time-Copies = leaf-Copies stored_time (λ a. refl)

text-Stable : Stable (view_ptr stored_text view_value)
text-Stable = view_ptr-Stable stored_text value-Stable

time-Stable : Stable (view_ptr stored_time view_value)
time-Stable = view_ptr-Stable stored_time value-Stable

status-Copies : Copies view_status unchanged deep_copy_into_sink_status
unfolding view_status deep_copy_into_sink_status
status-Copies =
    two-Copies {S = StoredStatus} (λ s. s.last_error) (λ s. s.last_error_time)
      (λ s v w. record {
        state = s.state;
        last_successful_send = s.last_successful_send;
        last_error = v;
        last_error_time = w;
      })
      (λ s a b. record s { last_error = a; last_error_time = b }) unchanged (λ s v w. refl)
      (λ s a b. (refl, refl, refl)) time-Stable text-Copies time-Copies

status-Stable : Stable view_status
unfolding view_status
status-Stable =
    two-Stable {S = StoredStatus} (λ s. s.last_error) (λ s. s.last_error_time)
      (λ s v w. record {
        state = s.state;
        last_successful_send = s.last_successful_send;
        last_error = v;
        last_error_time = w;
      })
      text-Stable time-Stable

pub metric_sink-Copies : Copies view_metric_sink copied_metric_sink deep_copy_into_metric_sink
unfolding view_metric_sink deep_copy_into_metric_sink
metric_sink-Copies =
    two-Copies {S = StoredMetricSink} (λ s. s.spec) (λ s. s.status)
      (λ s v w. record { type_meta = s.type_meta; meta = s.meta; spec = v; status = w })
      (λ s a b. record s { spec = a; status = b }) copied_metric_sink (λ s v w. refl)
      (λ s a b. (refl, refl, refl)) status-Stable spec-Copies status-Copies

pub metric_sink-Stable : Stable view_metric_sink
unfolding view_metric_sink
metric_sink-Stable =
    two-Stable {S = StoredMetricSink} (λ s. s.spec) (λ s. s.status)
      (λ s v w. record { type_meta = s.type_meta; meta = s.meta; spec = v; status = w }) spec-Stable
      status-Stable

pub cluster_metric_sink-Copies :
    Copies view_cluster_metric_sink copied_metric_sink deep_copy_into_cluster_metric_sink
unfolding view_cluster_metric_sink deep_copy_into_cluster_metric_sink
cluster_metric_sink-Copies =
    two-Copies {S = StoredClusterMetricSink} (λ s. s.spec) (λ s. s.status)
      (λ s v w. record { type_meta = s.type_meta; meta = s.meta; spec = v; status = w })
      (λ s a b. record s { spec = a; status = b }) copied_metric_sink (λ s v w. refl)
      (λ s a b. (refl, refl, refl)) status-Stable spec-Copies status-Copies

pub cluster_metric_sink-Stable : Stable view_cluster_metric_sink
unfolding view_cluster_metric_sink
cluster_metric_sink-Stable =
    two-Stable {S = StoredClusterMetricSink} (λ s. s.spec) (λ s. s.status)
      (λ s v w. record { type_meta = s.type_meta; meta = s.meta; spec = v; status = w }) spec-Stable
      status-Stable
