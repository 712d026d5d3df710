-- ===== src/Cmd/MetricController.antt =====
-- cmd/metric-controller/main.go. The patcher and the deleter of `NewClusterController`, and the clients
-- of `NewController`, are the calls of Metric/ClusterController and Metric/Controller.
use observability.Base.{ℕ, Bool, ◌≡◌, ◌≢◌, List, [], ◌∷◌, Option, some, Text, codes}
use observability.GoMap.{GoMap, lookup}
use observability.Client.Groups.{Made, GroupClient}
use observability.Informers.Factory.{State, Informer, new_shared_informer_factory}
use observability.Informers.Access.{metric_sink, cluster_metric_sink, informer_of_kind}
use observability.Metric.ClusterConfig.{ClusterConfig, kubernetes_default, new_config}
use observability.Metric.ClusterController.{World}
use observability.Metric.ClusterController.Sync.{idle}
use observability.Cmd.Exit.{Exit, up, ◌>>=◌, or_fatal, no_error, cluster_name_of}
use observability.Cmd.SinkController.{thirty_seconds}

-- `config`.
pub record Env : Type 0 where
  pub namespace : Text
  pub use_insecure_kubernetes_port : Bool

-- What the calls of `main` return; `M` is the type of the clients of Kubernetes.
pub record Outside (C K M L W : Type 0) : Type 0 where
  pub load : Made Env
  pub write_report : Option Text
  pub in_cluster_config : Made C
  pub versioned_client : C → Made (GroupClient L W)
  pub core_client : C → Made K
  pub kubernetes_client : C → Made M
  pub list_nodes : K → Made (List (GoMap Text))

-- The handler of an informer. That of metric sinks has the name of the cluster.
pub data Handler : Type 0 where
  cms_controller : Handler
  ms_controller : Text → Handler

-- What `main` leaves running; `world` is that of the cluster controller.
pub record Running (L W : Type 0) : Type 0 where
  pub namespace : Text
  pub insecure_port : Bool
  pub cluster_name : Text
  pub world : World
  pub informers : State L W
  pub handlers : List (ℕ × Handler)
  pub runs : List ℕ

module _ {L W : Type 0} where
  -- What stands behind the name of the cluster; the first free address is 0.
  unfoldable pub watch_sinks : Env → GroupClient L W → Text → Running L W
  unfolding new_shared_informer_factory informer_of_kind kubernetes_default new_config
  watch_sinks conf client cluster_name =
      let factory : State L W = record {
        factory = new_shared_informer_factory client thirty_seconds;
        free = 0;
        runs = [];
      } in
      let (cms_informer, state) = informer_of_kind cluster_metric_sink factory in
      let (ms_informer, state') = informer_of_kind metric_sink state in
      record {
        namespace = conf.namespace;
        insecure_port = conf.use_insecure_kubernetes_port;
        cluster_name = cluster_name;
        world = record {
          config =
              new_config cluster_name (kubernetes_default conf.use_insecure_kubernetes_port ∷ []);
          effects = [];
        };
        informers = state';
        handlers =
            (cms_informer.address, cms_controller)
            ∷ (ms_informer.address, ms_controller cluster_name)
            ∷ [];
        runs = ms_informer.address ∷ cms_informer.address ∷ [];
      }

module _ {C K M L W : Type 0} where
  unfoldable pub main : Outside C K M L W → Exit (Running L W)
  unfolding cluster_name_of watch_sinks
  main o = do
    conf ← or_fatal o.load
    _ ← no_error o.write_report
    cfg ← or_fatal o.in_cluster_config
    client ← or_fatal (o.versioned_client cfg)
    core ← or_fatal (o.core_client cfg)
    _ ← or_fatal (o.kubernetes_client cfg)
    nodes ← or_fatal (o.list_nodes core)
    cluster_name ← cluster_name_of nodes
    up (watch_sinks conf client cluster_name)

-- The configuration of a process as `main` makes it.
abbrev pub first_config : {L W : Type 0} → Running L W → ClusterConfig
first_config x = new_config x.cluster_name (kubernetes_default x.insecure_port ∷ [])

-- The informers of both types of sinks have one handler each, that of their type, and each runs once.
abbrev pub Watches : {L W : Type 0} → Running L W → Type 0
Watches {L} {W} x =
    (cluster_metrics : Informer L W) × (metrics : Informer L W) × (lookup
        (codes "ClusterMetricSink") x.informers.factory.informers
      ≡ some cluster_metrics)
    × (lookup (codes "MetricSink") x.informers.factory.informers ≡ some metrics)
    × (cluster_metrics.address ≢ metrics.address)
    × (x.handlers
        ≡ (cluster_metrics.address, cms_controller)
          ∷ (metrics.address, ms_controller x.cluster_name)
          ∷ [])
    × (x.runs ≡ metrics.address ∷ cluster_metrics.address ∷ [])

-- A new process holds no sink, has sent nothing, and watches the sinks of the cluster.
abbrev StartsIdle : {L W : Type 0} → Running L W → Type 0
StartsIdle x = (x.world ≡ idle (first_config x)) × Watches x
