-- ===== src/Informers/Ops.antt =====
-- Sequences of calls of a factory, and what a request comes to.
use observability.Base.{ℕ, ℤ, suc, ◌≡◌, refl, List, [], ◌∷◌, Option, none, some, Text, codes}
use observability.GoMap.{lookup, insert}
use observability.Client.Groups.{GroupClient}
use observability.Informers.Factory.{
  Tweak, Informer, NewInformerFunc, State, with_custom_resync_config, with_tweak_list_options,
  with_namespace, new_shared_informer_factory_with_options, start, informer_for, resync_period_of,
}
use observability.Informers.Kinds.{
  default_log_sink_informer, default_cluster_log_sink_informer, default_metric_sink_informer,
  default_cluster_metric_sink_informer, log_sink_informer, cluster_log_sink_informer,
  metric_sink_informer, cluster_metric_sink_informer, new_filtered_log_sink_informer,
  new_filtered_cluster_log_sink_informer, new_filtered_metric_sink_informer,
  new_filtered_cluster_metric_sink_informer,
}
use observability.Informers.Access.{
  Kind, log_sink, cluster_log_sink, metric_sink, cluster_metric_sink, informer_of_kind,
  observability_of, log_sinks, cluster_log_sinks, metric_sinks, cluster_metric_sinks, v1alpha1,
}

-- A call of the factory.
pub data Op : Type 0 where
  request : Kind → Op
  start_all : Op

abbrev pub type_of : Kind → Text
type_of log_sink = codes "LogSink"
type_of cluster_log_sink = codes "ClusterLogSink"
type_of metric_sink = codes "MetricSink"
type_of cluster_metric_sink = codes "ClusterMetricSink"

module _ {L W : Type 0} where
  unfoldable pub run_op : Op → State L W → State L W
  unfolding informer_of_kind start
  run_op (request kind) st = let (i, st') = informer_of_kind kind st in st'
  run_op start_all st = start st

  unfoldable pub run_ops : List Op → State L W → State L W
  unfolding run_op
  run_ops [] st = st
  run_ops (op ∷ ops) st = run_ops ops (run_op op st)

  -- A request is `InformerFor`, with a function that makes an informer at the address it gets.
  pub record Made (kind : Kind) (st : State L W) : Type 0 where
    pub new_func : NewInformerFunc L W
    pub asks : informer_of_kind kind st ≡ informer_for (type_of kind) new_func st
    pub address_is : (c : GroupClient L W) (d : ℤ) (n : ℕ) → (new_func c d n).address ≡ n

  pub made : (kind : Kind) (st : State L W) → Made kind st
  unfolding informer_of_kind log_sink_informer cluster_log_sink_informer metric_sink_informer
      cluster_metric_sink_informer default_log_sink_informer default_cluster_log_sink_informer
      default_metric_sink_informer default_cluster_metric_sink_informer
      new_filtered_log_sink_informer new_filtered_cluster_log_sink_informer
      new_filtered_metric_sink_informer new_filtered_cluster_metric_sink_informer
  made log_sink st = record {
    new_func = default_log_sink_informer (log_sinks (v1alpha1 (observability_of st.factory)));
    asks = refl;
    address_is = λ c d n. refl;
  }
  made cluster_log_sink st = record {
    new_func =
        default_cluster_log_sink_informer
          (cluster_log_sinks (v1alpha1 (observability_of st.factory)));
    asks = refl;
    address_is = λ c d n. refl;
  }
  made metric_sink st = record {
    new_func = default_metric_sink_informer (metric_sinks (v1alpha1 (observability_of st.factory)));
    asks = refl;
    address_is = λ c d n. refl;
  }
  made cluster_metric_sink st = record {
    new_func =
        default_cluster_metric_sink_informer
          (cluster_metric_sinks (v1alpha1 (observability_of st.factory)));
    asks = refl;
    address_is = λ c d n. refl;
  }

  -- The state with a new informer.
  abbrev pub added : Text → Informer L W → State L W → State L W
  added k i st = record st {
    factory = record (st.factory) { informers = insert k i st.factory.informers };
    free = suc st.free;
  }

  pub informer_for_there :
      (k : Text) (new_func : NewInformerFunc L W) (st : State L W) (i : Informer L W)
      → lookup k st.factory.informers ≡ some i
      → informer_for k new_func st ≡ (i, st)
  unfolding informer_for
  informer_for_there k new_func st i e = rw (informer_for, e)

  pub informer_for_new :
      (k : Text) (new_func : NewInformerFunc L W) (st : State L W)
      → lookup k st.factory.informers ≡ none
      → let i = new_func st.factory.client (resync_period_of k st.factory) st.free in
        informer_for k new_func st ≡ (i, added k i st)
  unfolding informer_for
  informer_for_new k new_func st e = rw (informer_for, e)

  -- A new factory with all three options, and the first free address.
  abbrev pub new_state : GroupClient L W → ℤ → Text → Option Tweak → List (Text × ℤ) → ℕ → State L W
  new_state client resync ns tweak config free = record {
    factory =
        new_shared_informer_factory_with_options client resync (
          with_namespace ns
          ∷ with_tweak_list_options tweak
          ∷ with_custom_resync_config config
          ∷ []);
    free = free;
    runs = [];
  }
