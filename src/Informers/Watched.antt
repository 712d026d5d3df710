-- ===== src/Informers/Watched.antt =====
-- What the informers of a factory list.
use observability.Base.{
  ℕ, ℤ, ◌≡◌, refl, sym, ap, ◌∙◌, subst, List, [], ◌∷◌, Option, none, some, true, false,
  Option-cases, Bool-cases, inl, inr, Text, codes, text_eq,
}
use observability.GoMap.{GoMap, lookup, insert}
use observability.GoMap.Laws.{lookup-insert}
use observability.Client.Request.{
  ListOptions, get, in_namespace, of_resource, list_params, with_timeout, timeout_of,
}
use observability.Client.Typed.{methods, list_request}
use observability.Client.Sinks.{new_log_sinks}
use observability.Client.Groups.{GroupClient, log_sinks}
use observability.Informers.Factory.{
  Tweak, Informer, NewInformerFunc, Factory, State, with_custom_resync_config,
  with_tweak_list_options, with_namespace, apply_options, new_shared_informer_factory_with_options,
  start, informer_for, resync_period_of,
}
use observability.Informers.Kinds.{
  tweaked, cluster_log_sink_informer, metric_sink_informer, cluster_metric_sink_informer,
  default_log_sink_informer, default_cluster_log_sink_informer, default_metric_sink_informer,
  default_cluster_metric_sink_informer, new_filtered_log_sink_informer, log_sink_informer,
}
use observability.Informers.Access
use observability.Informers.Access.{
  Kind, log_sink, cluster_log_sink, metric_sink, cluster_metric_sink, informer_of_kind,
  observability_of, v1alpha1,
}
use observability.Informers.Ops.{
  Op, request, start_all, run_op, run_ops, informer_for_there, informer_for_new, new_state,
}

some_is : {A : Type 0} (a b : A) → some a ≡ some b → a ≡ b
some_is a b e = cc

impossible : {A : Type 0} → false ≡ true → A
impossible e = cc

insert_hit :
    {A : Type 0} (k j : Text) (v : A) (m : GoMap A)
    → text_eq k j ≡ true
    → lookup j (insert k v m) ≡ some v
insert_hit k j v m t = rw (lookup-insert k j v m, t) refl

insert_miss :
    {A : Type 0} (k j : Text) (v : A) (m : GoMap A)
    → text_eq k j ≡ false
    → lookup j (insert k v m) ≡ lookup j m
insert_miss k j v m t = rw (lookup-insert k j v m, t) refl

module _ {L W : Type 0} (client : GroupClient L W) (ns : Text) (tweak : Option Tweak) where
  -- An informer lists what the client of log sinks lists in the namespace.
  abbrev ListsLogSinks : Informer L W → Type 0
  ListsLogSinks i = (o : ListOptions) → i.list_func o ≡ (log_sinks client ns).list (tweaked tweak o)

  -- The factory keeps what its informers are made of.
  record Inv (st : State L W) : Type 0 where
    same_client : st.factory.client ≡ client
    same_namespace : st.factory.namespace ≡ ns
    same_tweak : st.factory.tweak_list_options ≡ tweak
    lists :
        (i : Informer L W)
        → lookup (codes "LogSink") st.factory.informers ≡ some i
        → ListsLogSinks i

  -- A request with a function whose informers are of another type, or list log sinks.
  informer_for-Inv :
      (k : Text) (new_func : NewInformerFunc L W) (st : State L W)
      → (text_eq k (codes "LogSink") ≡ true
          → (c : GroupClient L W) (d : ℤ) (n : ℕ) → c ≡ client
          → ListsLogSinks (new_func c d n))
      → Inv st
      → Inv (informer_for k new_func st).1
  informer_for-Inv k new_func st new v = elim (Option-cases (lookup k st.factory.informers)) [
    | inr (i, e) ↦ rw (informer_for_there k new_func st i e) v
    | inl e ↦
        let i = new_func st.factory.client (resync_period_of k st.factory) st.free in
        rw (informer_for_new k new_func st e) (record {
          same_client = v.same_client;
          same_namespace = v.same_namespace;
          same_tweak = v.same_tweak;
          lists = λ j there. elim (Bool-cases (text_eq k (codes "LogSink"))) [
            | inl t ↦
                subst ListsLogSinks
                  (some_is i j
                    (sym (insert_hit k (codes "LogSink") i st.factory.informers t) ∙ there))
                  (new t st.factory.client (resync_period_of k st.factory) st.free v.same_client)
            | inr f ↦
                v.lists j (sym (insert_miss k (codes "LogSink") i st.factory.informers f) ∙ there)
          ];
        })
  ]

  run_op-Inv : (op : Op) (st : State L W) → Inv st → Inv (run_op op st)
  unfolding run_op start informer_of_kind log_sink_informer cluster_log_sink_informer
      metric_sink_informer cluster_metric_sink_informer default_log_sink_informer
      new_filtered_log_sink_informer observability_of text_eq
  run_op-Inv (request log_sink) st v =
      informer_for-Inv (codes "LogSink")
        (default_log_sink_informer (Access.log_sinks (v1alpha1 (observability_of st.factory)))) st
        (λ t c d n e o.
          ap
            (λ c. (log_sinks c st.factory.namespace).list (tweaked st.factory.tweak_list_options o))
            e
          ∙ ap (λ ns. (log_sinks client ns).list (tweaked st.factory.tweak_list_options o))
              v.same_namespace
          ∙ ap (λ tweak. (log_sinks client ns).list (tweaked tweak o)) v.same_tweak)
        v
  run_op-Inv (request cluster_log_sink) st v =
      informer_for-Inv (codes "ClusterLogSink")
        (default_cluster_log_sink_informer
          (Access.cluster_log_sinks (v1alpha1 (observability_of st.factory))))
        st (λ t. impossible t) v
  run_op-Inv (request metric_sink) st v =
      informer_for-Inv (codes "MetricSink")
        (default_metric_sink_informer
          (Access.metric_sinks (v1alpha1 (observability_of st.factory))))
        st (λ t. impossible t) v
  run_op-Inv (request cluster_metric_sink) st v =
      informer_for-Inv (codes "ClusterMetricSink")
        (default_cluster_metric_sink_informer
          (Access.cluster_metric_sinks (v1alpha1 (observability_of st.factory))))
        st (λ t. impossible t) v
  run_op-Inv start_all st v = record {
    same_client = v.same_client;
    same_namespace = v.same_namespace;
    same_tweak = v.same_tweak;
    lists = v.lists;
  }

  run_ops-Inv : (ops : List Op) (st : State L W) → Inv st → Inv (run_ops ops st)
  unfolding run_ops
  run_ops-Inv [] st v = v
  run_ops-Inv (op ∷ ops) st v = run_ops-Inv ops (run_op op st) (run_op-Inv op st v)

  -- The resync periods are all that `WithCustomResyncConfig` changes.
  resync_config-Inv :
      (config : List (Text × ℤ)) (f : Factory L W) (free : ℕ) (runs : List ℕ)
      → Inv (record { factory = f; free = free; runs = runs })
      → Inv (record { factory = with_custom_resync_config config f; free = free; runs = runs })
  unfolding with_custom_resync_config
  resync_config-Inv [] f free runs v = v
  resync_config-Inv ((k, d) ∷ config) f free runs v =
      resync_config-Inv config (record f { custom_resync = insert k d f.custom_resync }) free runs
        (record {
          same_client = v.same_client;
          same_namespace = v.same_namespace;
          same_tweak = v.same_tweak;
          lists = v.lists;
        })

-- What the client of log sinks asks of the REST client.
listed :
    {L W : Type 0} (client : GroupClient L W) (ns : Text) (tweak : Option Tweak) (o : ListOptions)
    → let o' : ListOptions = elim tweak [ none ↦ o | some t ↦ t o ] in
      let (l, err) = client.rest_client.for_log_sinks.into_list (record {
        verb = get;
        setters =
            in_namespace ns
            ∷ of_resource (codes "logsinks")
            ∷ list_params o'
            ∷ with_timeout (timeout_of o'.timeout_seconds)
            ∷ [];
      }) in
      (log_sinks client ns).list (tweaked tweak o) ≡ (some l, err)
unfolding log_sinks new_log_sinks methods list_request
listed client ns none o = refl
listed client ns (some t) o = refl

-- Over any requests and starts of a new factory, whatever its options, the informer of log sinks
-- that it has lists by one GET of the resource "logsinks" in the namespace of the factory, with the
-- options that its tweak makes of the given ones, if it has one, and with their timeout.
pub informers_list_namespace :
    {L W : Type 0} (client : GroupClient L W) (resync : ℤ) (ns : Text) (tweak : Option Tweak)
    (config : List (Text × ℤ)) (free : ℕ) (ops : List Op) (i : Informer L W) (o : ListOptions)
    → lookup
        (codes "LogSink")
        (run_ops ops (new_state client resync ns tweak config free)).factory.informers
      ≡ some i
    → let o' : ListOptions = elim tweak [ none ↦ o | some t ↦ t o ] in
      let (l, err) = client.rest_client.for_log_sinks.into_list (record {
        verb = get;
        setters =
            in_namespace ns
            ∷ of_resource (codes "logsinks")
            ∷ list_params o'
            ∷ with_timeout (timeout_of o'.timeout_seconds)
            ∷ [];
      }) in
      i.list_func o ≡ (some l, err)
unfolding new_shared_informer_factory_with_options apply_options with_namespace
    with_tweak_list_options lookup
informers_list_namespace client resync ns tweak config free ops i o there =
    (run_ops-Inv client ns tweak ops (new_state client resync ns tweak config free) (
        resync_config-Inv client ns tweak config
          (record {
            client = client;
            namespace = ns;
            tweak_list_options = tweak;
            default_resync = resync;
            custom_resync = [];
            informers = [];
            started_informers = [];
          })
          free []
          (record {
            same_client = refl;
            same_namespace = refl;
            same_tweak = refl;
            lists = λ i e. cc;
          }))).lists
      i there o
    ∙ listed client ns tweak o
