-- ===== src/Cmd/SinkController.antt =====
-- cmd/sink-controller/main.go. The patchers and the deleters of `NewController` and the others are the
-- calls of Sink/Controller, for the objects of one namespace.
use observability.Base.{
  ℕ, ℤ, ◌≡◌, ◌≢◌, refl, pos, List, [], ◌∷◌, ◌++◌, Option, some, Text, codes, text_eq,
}
use observability.GoMap.{GoMap, lookup, insert}
use observability.Client.Groups.{Made, GroupClient}
use observability.Informers.Factory.{
  State, Informer, new_shared_informer_factory, new_shared_informer_factory_with_options,
  apply_options, informer_for, resync_period_of,
}
use observability.Informers.Kinds.{log_sink_informer, cluster_log_sink_informer}
use observability.Informers.Access.{log_sink, cluster_log_sink, informer_of_kind, observability_of}
use observability.Sink.Config.{Url, new_config}
use observability.Sink.Controller.{Replies, World, set_cluster_name_filter}
use observability.Sink.Controller.Events.{Thread, AllGenuine, current, no_sinks, published}
use observability.Sink.Controller.Threads.{System, start, Move, read, patch, run, reports}
use observability.Sink.Controller.Sync.{IsTextOf}
use observability.Sink.Controller.Interleaving.{published-current}
use observability.Cmd.Exit.{
  Exit, up, ◌>>=◌, or_fatal, no_error, WhenUp, step-WhenUp, up-WhenUp, cluster_name_of,
}

-- `config`.
pub record Env : Type 0 where
  pub namespace : Text

-- What the calls of `main` return; an API server's configuration is of the type `C`, and a client of
-- the core of Kubernetes of the type `K`.
pub record Outside (C K L W : Type 0) : Type 0 where
  pub load : Made Env
  pub write_report : Option Text
  pub in_cluster_config : Made C
  pub versioned_client : C → Made (GroupClient L W)
  pub core_client : C → Made K
  pub list_nodes : K → Made (List (GoMap Text))

-- The handler of an informer.
pub data Handler : Type 0 where
  controller cluster_controller : Handler

-- What `main` leaves running: both controllers share the configuration of `world`.
pub record Running (L W : Type 0) : Type 0 where
  pub namespace : Text
  pub world : World
  pub informers : State L W
  pub handlers : List (ℕ × Handler)
  pub runs : List ℕ

-- `time.Second*30`.
abbrev pub thirty_seconds : ℤ
thirty_seconds = pos 30000000000

module _ {L W : Type 0} where
  -- What stands behind the call of `SetClusterNameFilter`; the first free address is 0.
  unfoldable pub watch_sinks : Text → GroupClient L W → World → Running L W
  unfolding new_shared_informer_factory informer_of_kind
  watch_sinks ns client w =
      let factory : State L W = record {
        factory = new_shared_informer_factory client thirty_seconds;
        free = 0;
        runs = [];
      } in
      let (sink_informer, state) = informer_of_kind log_sink factory in
      let (cluster_sink_informer, state') = informer_of_kind cluster_log_sink state in
      record {
        namespace = ns;
        world = w;
        informers = state';
        handlers =
            (sink_informer.address, controller)
            ∷ (cluster_sink_informer.address, cluster_controller)
            ∷ [];
        runs = sink_informer.address ∷ cluster_sink_informer.address ∷ [];
      }

-- The informers of both types of sinks have one handler each, that of their type, and each runs once.
abbrev pub Watches : {L W : Type 0} → Running L W → Type 0
Watches {L} {W} x =
    (logs : Informer L W) × (cluster_logs : Informer L W) × (lookup (codes "LogSink")
        x.informers.factory.informers
      ≡ some logs)
    × (lookup (codes "ClusterLogSink") x.informers.factory.informers ≡ some cluster_logs)
    × (logs.address ≢ cluster_logs.address)
    × (x.handlers ≡ (logs.address, controller) ∷ (cluster_logs.address, cluster_controller) ∷ [])
    × (x.runs ≡ logs.address ∷ cluster_logs.address ∷ [])

watch_sinks-Watches :
    {L W : Type 0} (ns : Text) (client : GroupClient L W) (w : World)
    → Watches (watch_sinks ns client w)
unfolding watch_sinks new_shared_informer_factory new_shared_informer_factory_with_options
    apply_options informer_of_kind log_sink_informer cluster_log_sink_informer informer_for lookup
    insert text_eq observability_of resync_period_of
watch_sinks-Watches ns client w = (_, _, refl, refl, (λ e. cc), refl, refl)

-- The sinks of a new process are none, and it watches those of the cluster.
abbrev Starts : {L W : Type 0} → Running L W → Type 0
Starts x = (x.world.config ≡ new_config) × Watches x

-- The filter leaves the configuration as it is.
filter_keeps :
    (r : Replies) (name : Text) (w : World) → (set_cluster_name_filter r name w).config ≡ w.config
unfolding set_cluster_name_filter
filter_keeps r [] w = refl
filter_keeps r (c ∷ name) w = refl

module _ {C K L W : Type 0} where
  -- `main`; the replies are those to the calls of `SetClusterNameFilter`.
  unfoldable pub main : Outside C K L W → Replies → Exit (Running L W)
  unfolding cluster_name_of set_cluster_name_filter new_config watch_sinks
  main o r = do
    conf ← or_fatal o.load
    _ ← no_error o.write_report
    cfg ← or_fatal o.in_cluster_config
    client ← or_fatal (o.versioned_client cfg)
    core ← or_fatal (o.core_client cfg)
    nodes ← or_fatal (o.list_nodes core)
    host_override ← cluster_name_of nodes
    up (
        watch_sinks conf.namespace client
          (set_cluster_name_filter r host_override (record { config = new_config; effects = [] })))

  main-Starts : (o : Outside C K L W) (r : Replies) → WhenUp Starts (main o r)
  unfolding main watch_sinks
  main-Starts o r = step-WhenUp Starts (or_fatal o.load) _ (λ conf.
      step-WhenUp Starts (no_error o.write_report) _ (λ _.
        step-WhenUp Starts (or_fatal o.in_cluster_config) _ (λ cfg.
          step-WhenUp Starts (or_fatal (o.versioned_client cfg)) _ (λ client.
            step-WhenUp Starts (or_fatal (o.core_client cfg)) _ (λ core.
              step-WhenUp Starts (or_fatal (o.list_nodes core)) _ (λ nodes.
                step-WhenUp Starts (cluster_name_of nodes) _ (λ name.
                  up-WhenUp Starts
                    (watch_sinks conf.namespace client (
                      set_cluster_name_filter r name
                        (record { config = new_config; effects = [] })))
                    (
                      filter_keeps r name (record { config = new_config; effects = [] }),
                      watch_sinks-Watches conf.namespace client (
                          set_cluster_name_filter r name
                            (record { config = new_config; effects = [] })),
                    ))))))))

-- If `main` of the sink controller comes up, the informers of log sinks and of cluster log sinks
-- are two, each has the one handler of its type, and each runs once; and over any moves of the two
-- goroutines in which one of them reads the text of the sinks, nothing is reported behind that, and
-- it patches last, whatever the API server replies, the outputs that were patched in last are the
-- text of the sinks that are reported, each once, in some order, if each update is of a sink as it
-- was reported and keeps its names.
pub sink_controller_publishes :
    {C K L W : Type 0} (o : Outside C K L W) (r : Replies) (x : Running L W)
    (parse_url : Text → Option Url) (ms ms' : List Move) (t : Thread) (r' : Replies) (s : System)
    → main o r ≡ up x
    → AllGenuine (reports ms) no_sinks
    → reports ms' ≡ []
    → run parse_url (ms ++ read t ∷ (ms' ++ patch t r' ∷ [])) (start x.world) ≡ some s
    → Watches x
      × ((text : Text) × (published s.world.effects ≡ some text)
          × IsTextOf parse_url (current (reports ms) no_sinks) text)
sink_controller_publishes o r x parse_url ms ms' t r' s e g quiet ran =
    let (new, watches) = main-Starts o r x e in
    (watches, published-current parse_url x.world ms ms' t r' s new g quiet ran)
