-- ===== src/Api/DeepCopy/Separate.antt =====
-- A deep copy and its original are apart: what is done to the cells of one leaves the other as it is.
use mathlib.Core.Option
use observability.Base.{◌≡◌, refl, sym, ap, ◌<◌, ◌∙◌, subst, List, Option, some, length}
use observability.Api.{LogSink, ClusterLogSink}
use observability.Api.Store.{
  get, Ptr, Cmd, pure, ◌>>=◌, Stored, each, copy_ptr, view_ptr, view_each,
}
use observability.Api.Store.Copied.{
  SameOn, Copies, Stable, IsStored, and_then-some, pure-Copied, view_each-Stable, each-Copies,
  view_ptr-Stable, copy_ptr-Copies,
}
use observability.Api.Cells.{
  Cell, stored_log_sinks, stored_cluster_log_sinks, stored_metric_sinks,
  stored_cluster_metric_sinks, stored_log_sink_list, stored_cluster_log_sink_list,
  stored_metric_sink_list, stored_cluster_metric_sink_list,
}
use observability.Api.DeepCopy.{
  deep_copy_into_log_sink, deep_copy_into_log_sink_list, deep_copy_into_cluster_log_sink_list,
  deep_copy_into_metric_sink_list, deep_copy_into_cluster_metric_sink_list, deep_copy_log_sink_list,
  deep_copy_cluster_log_sink_list, deep_copy_metric_sink_list, deep_copy_cluster_metric_sink_list,
  deep_copy_into_cluster_log_sink,
}
use observability.Api.DeepCopy.Views.{
  view_value, unchanged, MetricSinkView, copied_metric_sink, view_metric_sink,
  view_cluster_metric_sink, ListView, view_list, copied_list, metric_sink-Copies,
  metric_sink-Stable, cluster_metric_sink-Copies, cluster_metric_sink-Stable,
}

-- A copy of a value that is there is made without a fault, and leaves every cell as it is.
pub record Made {V : Type 0} (view : List Cell → Ptr → Option V) (v : V) (h : List Cell)
    (r : Option (Ptr × List Cell)) : Type 0 where
  pub pointer : Ptr
  pub heap : List Cell
  pub returns : r ≡ some (pointer, heap)
  pub stands : view heap pointer ≡ some v
  pub keeps : SameOn 0 (length h) h heap

-- The two memories `g` and `g'`: in the first the cells that were there before the copy may have
-- changed, in the second those that the copy made.
pub record Changed (h h' g g' : List Cell) : Type 0 where
  pub new_kept : SameOn (length h) (length h') h' g
  pub old_kept : SameOn 0 (length h) h' g'

module _ {V : Type 0} {view : List Cell → Ptr → Option V} {copied : V → V}
    {deep_copy : Ptr → Cmd Cell Ptr} (k : Copies view copied deep_copy) where
  made :
      (h : List Cell) (p : Ptr) (v : V) → view h p ≡ some v → Made view (copied v) h (deep_copy p h)
  made h p v e =
      let c = k h p v e in
      record {
        pointer = c.out;
        heap = c.heap;
        returns = c.returns;
        stands = c.reads c.heap (λ a l m. refl);
        keeps = c.keeps;
      }

  apart :
      Stable view
      → {h h' g g' : List Cell} {p q : Ptr} {v : V} → view h p ≡ some v
      → deep_copy p h ≡ some (q, h')
      → Changed h h' g g'
      → (view g q ≡ some (copied v)) × (view g' p ≡ some v)
  apart st {h} {h'} {g} {g'} {p} {q} {v} e r ch =
      let c = k h p v e in
      let out : c.out ≡ q = cc (c.returns) in
      let heap : c.heap ≡ h' = cc (c.returns) in
      (
        subst (λ q. view g q ≡ some (copied v)) out
            (c.reads g (λ a l m.
              ch.new_kept a l (subst (λ x. a < length x) heap m) ∙ ap (λ x. get x a) (sym heap))),
        st h g' p v e (λ a l m. ch.old_kept a l m ∙ ap (λ x. get x a) (sym heap) ∙ c.keeps a l m),
      )

module _ {A V : Type 0} (s : Stored Cell (List A)) (is : IsStored s)
    {view : List Cell → A → Option V} (st : Stable view) where
  list-Stable : Stable (view_list s view)
  unfolding view_list
  list-Stable h g l v e same =
      let (items, there, e') = and_then-some (view_ptr s (view_each view) h l.items) _ e in
      rw (view_ptr-Stable s (view_each-Stable st) h g l.items items there same) e'

  list-Copies :
      {copied : V → V} {into : A → Cmd Cell A}
      → Copies view copied into
      → Copies
          (view_list s view)
          (copied_list copied)
          (λ l. copy_ptr s (each into) l.items >>= λ items. pure (record l { items = items }))
  unfolding view_list
  list-Copies k h l v e =
      let (items, there, e') = and_then-some (view_ptr s (view_each view) h l.items) _ e in
      let c = copy_ptr-Copies s is (each-Copies st k) h l.items items there in
      let whole : v ≡ record { type_meta = l.type_meta; list_meta = l.list_meta; items = items } =
        cc in
      rw whole (record {
        out = record l { items = c.out };
        heap = c.heap;
        returns = rw (c.returns, ◌>>=◌);
        grows = c.grows;
        keeps = c.keeps;
        reads = λ g same. rw (c.reads g same);
      })

plain-Copies : {A : Type 0} → Copies {C = Cell} {A = A} view_value unchanged pure
plain-Copies h a v e = pure-Copied view_value a v h (λ g. e)

abbrev pub view_log_sink_list : List Cell → Ptr → Option (Option (ListView LogSink))
view_log_sink_list = view_ptr stored_log_sink_list (view_list stored_log_sinks view_value)

log_sink_list-Stable : Stable view_log_sink_list
unfolding stored_log_sink_list stored_log_sinks
log_sink_list-Stable =
    view_ptr-Stable stored_log_sink_list
      (list-Stable stored_log_sinks (λ a. refl) (λ h g a v e same. e))

log_sink_list-Copies :
    Copies view_log_sink_list (Option.map (copied_list unchanged)) deep_copy_log_sink_list
unfolding deep_copy_log_sink_list deep_copy_into_log_sink_list stored_log_sink_list stored_log_sinks
    deep_copy_into_log_sink
log_sink_list-Copies =
    copy_ptr-Copies stored_log_sink_list (λ a. refl)
      (list-Copies stored_log_sinks (λ a. refl) (λ h g a v e same. e) plain-Copies)

abbrev pub view_cluster_log_sink_list : List Cell → Ptr → Option (Option (ListView ClusterLogSink))
view_cluster_log_sink_list =
    view_ptr stored_cluster_log_sink_list (view_list stored_cluster_log_sinks view_value)

cluster_log_sink_list-Stable : Stable view_cluster_log_sink_list
unfolding stored_cluster_log_sink_list stored_cluster_log_sinks
cluster_log_sink_list-Stable =
    view_ptr-Stable stored_cluster_log_sink_list
      (list-Stable stored_cluster_log_sinks (λ a. refl) (λ h g a v e same. e))

cluster_log_sink_list-Copies :
    Copies view_cluster_log_sink_list
      (Option.map (copied_list unchanged))
      deep_copy_cluster_log_sink_list
unfolding deep_copy_cluster_log_sink_list deep_copy_into_cluster_log_sink_list
    stored_cluster_log_sink_list stored_cluster_log_sinks deep_copy_into_cluster_log_sink
cluster_log_sink_list-Copies =
    copy_ptr-Copies stored_cluster_log_sink_list (λ a. refl)
      (list-Copies stored_cluster_log_sinks (λ a. refl) (λ h g a v e same. e) plain-Copies)

abbrev pub view_metric_sink_list : List Cell → Ptr → Option (Option (ListView MetricSinkView))
view_metric_sink_list =
    view_ptr stored_metric_sink_list (view_list stored_metric_sinks view_metric_sink)

metric_sink_list-Stable : Stable view_metric_sink_list
unfolding stored_metric_sink_list stored_metric_sinks
metric_sink_list-Stable =
    view_ptr-Stable stored_metric_sink_list
      (list-Stable stored_metric_sinks (λ a. refl) metric_sink-Stable)

metric_sink_list-Copies :
    Copies view_metric_sink_list
      (Option.map (copied_list copied_metric_sink))
      deep_copy_metric_sink_list
unfolding deep_copy_metric_sink_list deep_copy_into_metric_sink_list stored_metric_sink_list
    stored_metric_sinks
metric_sink_list-Copies =
    copy_ptr-Copies stored_metric_sink_list (λ a. refl)
      (list-Copies stored_metric_sinks (λ a. refl) metric_sink-Stable metric_sink-Copies)

abbrev pub view_cluster_metric_sink_list :
    List Cell → Ptr → Option (Option (ListView MetricSinkView))
view_cluster_metric_sink_list =
    view_ptr stored_cluster_metric_sink_list
      (view_list stored_cluster_metric_sinks view_cluster_metric_sink)

cluster_metric_sink_list-Stable : Stable view_cluster_metric_sink_list
unfolding stored_cluster_metric_sink_list stored_cluster_metric_sinks
cluster_metric_sink_list-Stable =
    view_ptr-Stable stored_cluster_metric_sink_list
      (list-Stable stored_cluster_metric_sinks (λ a. refl) cluster_metric_sink-Stable)

cluster_metric_sink_list-Copies :
    Copies view_cluster_metric_sink_list
      (Option.map (copied_list copied_metric_sink))
      deep_copy_cluster_metric_sink_list
unfolding deep_copy_cluster_metric_sink_list deep_copy_into_cluster_metric_sink_list
    stored_cluster_metric_sink_list stored_cluster_metric_sinks
cluster_metric_sink_list-Copies =
    copy_ptr-Copies stored_cluster_metric_sink_list (λ a. refl)
      (list-Copies stored_cluster_metric_sinks (λ a. refl) cluster_metric_sink-Stable
        cluster_metric_sink-Copies)

-- `DeepCopy` of a pointer to a list of metric sinks that can be read is made without a fault,
-- leaves every cell that was there as it is, and points to the copied list, in which each map of
-- settings is copied by `MetricSinkMap.DeepCopy`, a nil map to an empty one.
pub deep_copy_metric_sink_list-Made :
    (h : List Cell) (p : Ptr) (v : Option (ListView MetricSinkView))
    → view_metric_sink_list h p ≡ some v
    → Made view_metric_sink_list
        (Option.map (copied_list copied_metric_sink) v)
        h
        (deep_copy_metric_sink_list p h)
deep_copy_metric_sink_list-Made = made metric_sink_list-Copies

-- Behind `DeepCopy` of a list of metric sinks, whatever is written to the cells that were there
-- before, the copy stays as it was made, and whatever is written to the cells that the copy added,
-- the list stays as it was.
pub deep_copy_metric_sink_list_apart :
    (h h' g g' : List Cell) (p q : Ptr) (v : Option (ListView MetricSinkView))
    → view_metric_sink_list h p ≡ some v
    → deep_copy_metric_sink_list p h ≡ some (q, h')
    → Changed h h' g g'
    → (view_metric_sink_list g q ≡ some (Option.map (copied_list copied_metric_sink) v))
      × (view_metric_sink_list g' p ≡ some v)
deep_copy_metric_sink_list_apart h h' g g' p q v =
    apart metric_sink_list-Copies metric_sink_list-Stable
