-- ===== src/Client/Typed.antt =====
-- pkg/client/clientset/versioned/typed/sink/v1alpha1/metricsink.go, logsink.go, clusterlogsink.go and
-- clustermetricsink.go: the requests of the methods, and the clients.
use observability.Base.{ℕ, true, List, [], ◌∷◌, Option, some, Text, codes}
use observability.Client.Request.{
  GetOptions, ListOptions, DeleteOptions, get, post, put, delete, patch, in_namespace, of_resource,
  of_name, sub_resource, get_params, list_params, with_timeout, object_body, options_body,
  bytes_body, Request, Error, Rest, timeout_of,
}

-- The requests of a client of `resource` for the namespace `ns`.
module _ {T : Type 0} (resource ns : Text) where
  unfoldable pub get_request : Text → GetOptions → Request T
  get_request name options = record {
    verb = get;
    setters = in_namespace ns ∷ of_resource resource ∷ of_name name ∷ get_params options ∷ [];
  }

  unfoldable pub list_request : ListOptions → Request T
  list_request opts = record {
    verb = get;
    setters =
        in_namespace ns
        ∷ of_resource resource
        ∷ list_params opts
        ∷ with_timeout (timeout_of opts.timeout_seconds)
        ∷ [];
  }

  -- The timeout is read before `opts.Watch` is set.
  unfoldable pub watch_request : ListOptions → Request T
  watch_request opts =
      let timeout = timeout_of opts.timeout_seconds in
      record {
        verb = get;
        setters =
            in_namespace ns
            ∷ of_resource resource
            ∷ list_params (record opts { watch = true })
            ∷ with_timeout timeout
            ∷ [];
      }

  unfoldable pub create_request : T → Request T
  create_request sink = record {
    verb = post;
    setters = in_namespace ns ∷ of_resource resource ∷ object_body sink ∷ [];
  }

  unfoldable pub delete_request : Text → Option DeleteOptions → Request T
  delete_request name options = record {
    verb = delete;
    setters = in_namespace ns ∷ of_resource resource ∷ of_name name ∷ options_body options ∷ [];
  }

  unfoldable pub delete_collection_request : Option DeleteOptions → ListOptions → Request T
  delete_collection_request options list_options = record {
    verb = delete;
    setters =
        in_namespace ns
        ∷ of_resource resource
        ∷ list_params list_options
        ∷ with_timeout (timeout_of list_options.timeout_seconds)
        ∷ options_body options
        ∷ [];
  }

  unfoldable pub patch_request : Text → Text → List ℕ → List Text → Request T
  patch_request name pt bytes subresources = record {
    verb = patch pt;
    setters =
        in_namespace ns
        ∷ of_resource resource
        ∷ sub_resource subresources
        ∷ of_name name
        ∷ bytes_body bytes
        ∷ [];
  }

module _ {T : Type 0} (resource ns : Text) (name_of : T → Text) where
  unfoldable pub update_request : T → Request T
  update_request sink = record {
    verb = put;
    setters =
        in_namespace ns ∷ of_resource resource ∷ of_name (name_of sink) ∷ object_body sink ∷ [];
  }

  unfoldable pub update_status_request : T → Request T
  update_status_request sink = record {
    verb = put;
    setters =
        in_namespace ns
        ∷ of_resource resource
        ∷ of_name (name_of sink)
        ∷ sub_resource (codes "status" ∷ [])
        ∷ object_body sink
        ∷ [];
  }

-- The interface that the clients of log sinks and the fakes have. A pointer to an object may be nil.
pub record Interface (T L W : Type 0) : Type 0 where
  pub create : T → Option T × Option Error
  pub update : T → Option T × Option Error
  pub delete : Text → Option DeleteOptions → Option Error
  pub delete_collection : Option DeleteOptions → ListOptions → Option Error
  pub get : Text → GetOptions → Option T × Option Error
  pub list : ListOptions → Option L × Option Error
  pub watch : ListOptions → Option W × Option Error
  pub patch : Text → Text → List ℕ → List Text → Option T × Option Error

-- That of metric sinks.
pub record StatusInterface (T L W : Type 0) : Type 0 where
  pub sinks : Interface T L W
  pub update_status : T → Option T × Option Error

-- `metricSinks` and the other three.
pub record Client (T L W : Type 0) : Type 0 where
  pub client : Rest T L W
  pub ns : Text

-- The object behind `result` is a new one in every method, so the pointer is not nil.
abbrev pub not_nil : {A : Type 0} → A × Option Error → Option A × Option Error
not_nil (a, err) = (some a, err)

-- The methods that all four clients have.
unfoldable pub methods : {T L W : Type 0} → Text → (T → Text) → Client T L W → Interface T L W
unfolding get_request list_request watch_request create_request update_request delete_request
    delete_collection_request patch_request
methods {T} {L} {W} resource name_of c = record {
  create = λ sink. not_nil (c.client.into_object (create_request resource c.ns sink));
  update = λ sink. not_nil (c.client.into_object (update_request resource c.ns name_of sink));
  delete = λ name options. c.client.error (delete_request resource c.ns name options);
  delete_collection =
      λ options opts. c.client.error (delete_collection_request resource c.ns options opts);
  get = λ name options. not_nil (c.client.into_object (get_request resource c.ns name options));
  list = λ opts. not_nil (c.client.into_list (list_request resource c.ns opts));
  watch = λ opts. c.client.watch (watch_request resource c.ns opts);
  patch = λ name pt bytes subresources.
      not_nil (c.client.into_object (patch_request resource c.ns name pt bytes subresources));
}

-- `UpdateStatus`.
unfoldable pub update_status :
    {T L W : Type 0} → Text → (T → Text) → Client T L W → T → Option T × Option Error
update_status resource name_of c sink =
    not_nil (c.client.into_object (update_status_request resource c.ns name_of sink))
