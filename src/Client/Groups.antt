-- ===== src/Client/Groups.antt =====
-- pkg/client/clientset/versioned/typed/sink/v1alpha1/sink_client.go: the client of the group, and the
-- clients of the four types that it makes.
use observability.Base.{ℤ, Option, none, some, [], Text, codes, if◌then◌else◌, text_eq}
use observability.Api.{LogSink, ClusterLogSink, MetricSink, ClusterMetricSink}
use observability.Client.Request.{Rest, Error}
use observability.Client.Fake.{Outcome, returns, panics}
use observability.Client.Typed.{Interface, StatusInterface}
use observability.Client.Sinks.{
  new_log_sinks, new_cluster_log_sinks, new_metric_sinks, new_cluster_metric_sinks,
}

-- The one `rest.Interface` of a group, as it is used for each type, its lists and its watches.
pub record GroupRest (L W : Type 0) : Type 0 where
  pub for_log_sinks : Rest LogSink L W
  pub for_cluster_log_sinks : Rest ClusterLogSink L W
  pub for_metric_sinks : Rest MetricSink L W
  pub for_cluster_metric_sinks : Rest ClusterMetricSink L W

pub record GroupClient (L W : Type 0) : Type 0 where
  pub rest_client : GroupRest L W

module _ {L W : Type 0} where
  unfoldable pub log_sinks : GroupClient L W → Text → Interface LogSink L W
  unfolding new_log_sinks
  log_sinks c ns = new_log_sinks c.rest_client.for_log_sinks ns

  unfoldable pub cluster_log_sinks : GroupClient L W → Text → Interface ClusterLogSink L W
  unfolding new_cluster_log_sinks
  cluster_log_sinks c ns = new_cluster_log_sinks c.rest_client.for_cluster_log_sinks ns

  unfoldable pub metric_sinks : GroupClient L W → Text → StatusInterface MetricSink L W
  unfolding new_metric_sinks
  metric_sinks c ns = new_metric_sinks c.rest_client.for_metric_sinks ns

  unfoldable pub cluster_metric_sinks :
      GroupClient L W → Text → StatusInterface ClusterMetricSink L W
  unfolding new_cluster_metric_sinks
  cluster_metric_sinks c ns = new_cluster_metric_sinks c.rest_client.for_cluster_metric_sinks ns

-- The fields of `rest.Config` that the packages read or write, without the serializer, which is set to
-- that of the scheme. A rate limiter is of the type `R`, and a `float32` of the type `Q`.
pub record Config (R Q : Type 0) : Type 0 where
  pub group : Text
  pub version : Text
  pub api_path : Text
  pub user_agent : Text
  pub rate_limiter : Option R
  pub qps : Q
  pub burst : ℤ

-- What a library returns for a configuration.
pub data Made (A : Type 0) : Type 0 where
  made : A → Made A
  failed : Error → Made A

module _ {R Q : Type 0} where
  unfoldable pub set_config_defaults : Text → Config R Q → Config R Q
  set_config_defaults default_user_agent config = record config {
    group = codes "observability.knative.dev";
    version = codes "v1alpha1";
    api_path = codes "/apis";
    user_agent = if text_eq config.user_agent [] then default_user_agent else config.user_agent;
  }

module _ {R Q L W : Type 0} (rest_client_for : Config R Q → Made (GroupRest L W))
    (default_user_agent : Text) where
  -- `NewForConfig`, with `rest.RESTClientFor` as a parameter.
  unfoldable pub new_for_config : Config R Q → Made (GroupClient L W)
  unfolding set_config_defaults
  new_for_config c = elim (rest_client_for (set_config_defaults default_user_agent c)) [
    | made client ↦ made (record { rest_client = client })
    | failed err ↦ failed err
  ]

  -- `NewForConfigOrDie`.
  unfoldable pub new_for_config_or_die : Config R Q → Outcome (GroupClient L W)
  unfolding new_for_config
  new_for_config_or_die c = elim (new_for_config c) [
    | made client ↦ returns client
    | failed err ↦ panics
  ]

-- `New`.
unfoldable pub new : {L W : Type 0} → GroupRest L W → GroupClient L W
new c = record { rest_client = c }

-- `RESTClient`, of a pointer that may be nil.
unfoldable pub rest_client_of : {L W : Type 0} → Option (GroupClient L W) → Option (GroupRest L W)
rest_client_of none = none
rest_client_of (some c) = some c.rest_client
