-- ===== src/Cmd/EventController.antt =====
-- cmd/event-controller/main.go. The informer of events is that of Kubernetes, and the forwarder that of
-- fluentd; the two goroutines that end the process, for the metrics and for the closing of the
-- connection, are left out.
use observability.Base.{ℤ, pos, [], ◌++◌, Option, Bool, true, Text, codes}
use observability.Event.{World}
use observability.Client.Groups.{Made, made, failed}
use observability.Cmd.Exit.{Exit, up, fatal, ◌>>=◌, or_fatal, no_error}

-- `config`.
pub record Env : Type 0 where
  pub host : Text
  pub metrics_port : Text
  pub buffer_limit : ℤ

-- The configuration that `envstruct.Load` is given.
abbrev pub default_env : Env
default_env = record { host = []; metrics_port = codes "6060"; buffer_limit = pos 8192 }

-- `fluent.Config`, with the timeout in nanoseconds.
pub record FluentConfig : Type 0 where
  pub fluent_host : Text
  pub write_timeout : ℤ
  pub is_async : Bool
  pub buffer_limit : ℤ

-- What the calls of `main` return; `F` is the type of forwarders.
pub record Outside (C K F : Type 0) : Type 0 where
  pub load : Env → Made Env
  pub write_report : Option Text
  pub in_cluster_config : Made C
  pub kubernetes_client : C → Made K
  pub new_fluent : FluentConfig → Made F

-- What `main` leaves running.
pub record Running (K F : Type 0) : Type 0 where
  pub client : K
  pub forwarder : F
  pub metrics_port : Text
  pub world : World

abbrev or_fatal_fluent : {A : Type 0} → Made A → Exit A
or_fatal_fluent (made a) = up a
or_fatal_fluent (failed e) = fatal (codes "unable to create fluent logger client: " ++ e)

-- `event.NewController`; the counters of `expvar` start at 0.
abbrev new_world : World
new_world = record {
  counters = record {
    received = 0;
    updated = 0;
    deleted = 0;
    sent = 0;
    failed = 0;
    convert_failed = 0;
  };
  posted = [];
  printed = [];
}

module _ {C K F : Type 0} where
  unfoldable pub main : Outside C K F → Exit (Running K F)
  main o = do
    conf ← or_fatal (o.load default_env)
    _ ← no_error o.write_report
    cfg ← or_fatal o.in_cluster_config
    client ← or_fatal (o.kubernetes_client cfg)
    f ← or_fatal_fluent (
        o.new_fluent (record {
          fluent_host = conf.host;
          write_timeout = pos 500000000;
          is_async = true;
          buffer_limit = conf.buffer_limit;
        }))
    up (record {
      client = client;
      forwarder = f;
      metrics_port = conf.metrics_port;
      world = new_world;
    })
