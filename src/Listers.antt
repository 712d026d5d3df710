-- ===== src/Listers.antt =====
-- pkg/client/listers/sink/v1alpha1: logsink.go, clusterlogsink.go, metricsink.go and
-- clustermetricsink.go. The indexer is that of client-go: what it hands to the callback of `ListAll`
-- and `ListAllByNamespace`, in order, with their error, and the results of `GetByKey`.
pub mod Found
use observability.Base.{List, [], ◌∷◌, ◌++◌, Option, none, some, Bool, true, false, Text, codes}
use observability.Api.{LogSink, ClusterLogSink, MetricSink, ClusterMetricSink}

-- A value of type `interface{}`, as far as the assertion of the type `*T` tells.
pub data Item (T : Type 0) : Type 0 where
  sink : T → Item T
  another : Item T

-- An error of the indexer, or that of `errors.NewNotFound`.
pub data ListerError : Type 0 where
  indexer_error : Text → ListerError
  not_found : Text → Text → Text → ListerError

-- `cache.Indexer`, with the selectors of type `S`.
pub record Indexer (T S : Type 0) : Type 0 where
  pub list_all : S → List (Item T) × Option Text
  pub list_all_by_namespace : Text → S → List (Item T) × Option Text
  pub get_by_key : Text → Item T × Bool × Option Text

-- The result of a method, or the panic of a type assertion.
pub data Outcome (A : Type 0) : Type 0 where
  returns : A → Outcome A
  panics : Outcome A

pub record NamespaceLister (T S : Type 0) : Type 0 where
  pub list : S → Outcome (List T × Option Text)
  pub get : Text → Outcome (Option T × Option ListerError)

pub record Lister (T S : Type 0) : Type 0 where
  pub list : S → Outcome (List T × Option Text)
  pub in_namespace : Text → NamespaceLister T S

module _ {T : Type 0} where
  -- `ret = append(ret, m.(*T))`, for each item.
  unfoldable pub append_items : List T → List (Item T) → Outcome (List T)
  append_items ret [] = returns ret
  append_items ret (sink t ∷ items) = append_items (ret ++ t ∷ []) items
  append_items ret (another ∷ items) = panics

  unfoldable pub listed : List (Item T) × Option Text → Outcome (List T × Option Text)
  unfolding append_items
  listed (items, err) = elim (append_items [] items) [
    | returns ret ↦ returns (ret, err)
    | panics ↦ panics
  ]

  -- The end of `Get`, for the resource `resource` and the name `name`.
  unfoldable pub got :
      Text → Text → Item T × Bool × Option Text → Outcome (Option T × Option ListerError)
  got resource name (obj, exists, some err) = returns (none, some (indexer_error err))
  got resource name (obj, false, none) =
      returns (none, some (not_found (codes "observability.knative.dev") resource name))
  got resource name (sink t, true, none) = returns (some t, none)
  got resource name (another, true, none) = panics

module _ {T S : Type 0} where
  unfoldable pub new_namespace_lister : Text → Indexer T S → Text → NamespaceLister T S
  unfolding listed got
  new_namespace_lister resource indexer ns = record {
    list = λ selector. listed (indexer.list_all_by_namespace ns selector);
    get = λ name. got resource name (indexer.get_by_key (ns ++ (codes "/" ++ name)));
  }

  unfoldable pub new_lister : Text → Indexer T S → Lister T S
  unfolding listed new_namespace_lister
  new_lister resource indexer = record {
    list = λ selector. listed (indexer.list_all selector);
    in_namespace = new_namespace_lister resource indexer;
  }

module _ {S : Type 0} where
  unfoldable pub new_log_sink_lister : Indexer LogSink S → Lister LogSink S
  unfolding new_lister
  new_log_sink_lister indexer = new_lister (codes "logsink") indexer

  unfoldable pub new_cluster_log_sink_lister : Indexer ClusterLogSink S → Lister ClusterLogSink S
  unfolding new_lister
  new_cluster_log_sink_lister indexer = new_lister (codes "clusterlogsink") indexer

  unfoldable pub new_metric_sink_lister : Indexer MetricSink S → Lister MetricSink S
  unfolding new_lister
  new_metric_sink_lister indexer = new_lister (codes "metricsink") indexer

  unfoldable pub new_cluster_metric_sink_lister :
      Indexer ClusterMetricSink S → Lister ClusterMetricSink S
  unfolding new_lister
  new_cluster_metric_sink_lister indexer = new_lister (codes "clustermetricsink") indexer
