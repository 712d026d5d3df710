-- ===== src/Client/Fake.antt =====
-- pkg/client/clientset/versioned/typed/sink/v1alpha1/fake: the fakes, which hand each call to the
-- fake of client-go as an action. `Invokes`, `InvokesWatch`, the reading of a label selector and its
-- match are those of client-go.
use observability.Base.{
  ℕ, List, [], ◌∷◌, Option, none, some, Bool, true, Text, codes, if◌then◌else◌,
}
use observability.Client.Request.{GetOptions, ListOptions, DeleteOptions, Error}

-- `schema.GroupVersionResource`.
pub record GroupVersionResource : Type 0 where
  pub group : Text
  pub version : Text
  pub resource : Text

-- `schema.GroupVersionKind`.
pub record GroupVersionKind : Type 0 where
  pub group : Text
  pub version : Text
  pub kind : Text

-- The arguments of `NewGetAction` and the others.
pub data Action (T : Type 0) : Type 0 where
  get_action : GroupVersionResource → Text → Text → Action T
  list_action : GroupVersionResource → GroupVersionKind → Text → ListOptions → Action T
  watch_action : GroupVersionResource → Text → ListOptions → Action T
  create_action : GroupVersionResource → Text → T → Action T
  update_action : GroupVersionResource → Text → T → Action T
  update_subresource_action : GroupVersionResource → Text → Text → T → Action T
  delete_action : GroupVersionResource → Text → Text → Action T
  delete_collection_action : GroupVersionResource → Text → ListOptions → Action T
  patch_subresource_action :
      GroupVersionResource → Text → Text → Text → List ℕ → List Text → Action T

-- A list of resources.
pub record SinkList (T : Type 0) : Type 0 where
  pub resource_version : Text
  pub items : List T

-- A `runtime.Object` that is not nil, as far as the type assertions tell.
pub data Returned (T : Type 0) : Type 0 where
  an_object : T → Returned T
  a_list : SinkList T → Returned T
  another : Returned T

-- The result of a method, or the panic of a type assertion.
pub data Outcome (A : Type 0) : Type 0 where
  returns : A → Outcome A
  panics : Outcome A

-- The fake of client-go.
pub record Tracker (T W : Type 0) : Type 0 where
  pub invokes : Action T → Option (Returned T) × Option Error
  pub invokes_watch : Action T → Option W × Option Error
  pub label_of : ListOptions → Option (T → Bool)

-- The actions of the fake for `gvr`, in the namespace `ns`.
module _ {T : Type 0} (gvr : GroupVersionResource) (ns : Text) where
  unfoldable pub fake_get : Text → GetOptions → Action T
  fake_get name options = get_action gvr ns name

  unfoldable pub fake_list : GroupVersionKind → ListOptions → Action T
  fake_list gvk opts = list_action gvr gvk ns opts

  unfoldable pub fake_watch : ListOptions → Action T
  fake_watch opts = watch_action gvr ns opts

  unfoldable pub fake_create : T → Action T
  fake_create sink = create_action gvr ns sink

  unfoldable pub fake_update : T → Action T
  fake_update sink = update_action gvr ns sink

  unfoldable pub fake_update_status : T → Action T
  fake_update_status sink = update_subresource_action gvr (codes "status") ns sink

  unfoldable pub fake_delete : Text → Option DeleteOptions → Action T
  fake_delete name options = delete_action gvr ns name

  unfoldable pub fake_delete_collection : Option DeleteOptions → ListOptions → Action T
  fake_delete_collection options list_options = delete_collection_action gvr ns list_options

  unfoldable pub fake_patch : Text → Text → List ℕ → List Text → Action T
  fake_patch name pt bytes subresources = patch_subresource_action gvr ns name pt bytes subresources

module _ {T : Type 0} where
  -- `if obj == nil`, and the assertion of the type of an object.
  unfoldable pub asserted : Option (Returned T) × Option Error → Outcome (Option T × Option Error)
  asserted (none, err) = returns (none, err)
  asserted (some (an_object t), err) = returns (some t, err)
  asserted (some _, err) = panics

  -- The loop of `List` over the items.
  unfoldable pub matching : (T → Bool) → List T → List T
  matching label [] = []
  matching label (item ∷ items) =
      let rest = matching label items in if label item then item ∷ rest else rest

  -- `labels.Everything` where there is no selector.
  unfoldable pub label_or_everything : Option (T → Bool) → T → Bool
  label_or_everything none t = true
  label_or_everything (some label) t = label t

  -- The end of `List`.
  unfoldable pub filtered :
      Option (T → Bool)
      → Option (Returned T) × Option Error
      → Outcome (Option (SinkList T) × Option Error)
  unfolding matching label_or_everything
  filtered label (none, err) = returns (none, err)
  filtered label (some (a_list l), err) = returns (
    some (record {
      resource_version = l.resource_version;
      items = matching (label_or_everything label) l.items;
    }),
    err,
  )
  filtered label (some _, err) = panics

  -- The error of an action, where its object is not looked at.
  unfoldable pub error_of : Option (Returned T) × Option Error → Option Error
  error_of (obj, err) = err

-- `FakeMetricSinks` and the other three.
pub record FakeSinks (T W : Type 0) : Type 0 where
  pub fake : Tracker T W
  pub ns : Text

-- The methods of a fake.
pub record FakeInterface (T W : Type 0) : Type 0 where
  pub create : T → Outcome (Option T × Option Error)
  pub update : T → Outcome (Option T × Option Error)
  pub delete : Text → Option DeleteOptions → Option Error
  pub delete_collection : Option DeleteOptions → ListOptions → Option Error
  pub get : Text → GetOptions → Outcome (Option T × Option Error)
  pub list : ListOptions → Outcome (Option (SinkList T) × Option Error)
  pub watch : ListOptions → Option W × Option Error
  pub patch : Text → Text → List ℕ → List Text → Outcome (Option T × Option Error)

unfoldable pub fake_methods :
    {T W : Type 0} → GroupVersionResource → GroupVersionKind → FakeSinks T W → FakeInterface T W
unfolding fake_get fake_list fake_watch fake_create fake_update fake_delete fake_delete_collection
    fake_patch asserted filtered error_of
fake_methods {T} {W} gvr gvk c = record {
  create = λ sink. asserted (c.fake.invokes (fake_create gvr c.ns sink));
  update = λ sink. asserted (c.fake.invokes (fake_update gvr c.ns sink));
  delete = λ name options. error_of (c.fake.invokes (fake_delete gvr c.ns name options));
  delete_collection =
      λ options opts. error_of (c.fake.invokes (fake_delete_collection gvr c.ns options opts));
  get = λ name options. asserted (c.fake.invokes (fake_get gvr c.ns name options));
  list = λ opts. filtered (c.fake.label_of opts) (c.fake.invokes (fake_list gvr c.ns gvk opts));
  watch = λ opts. c.fake.invokes_watch (fake_watch gvr c.ns opts);
  patch = λ name pt bytes subresources.
      asserted (c.fake.invokes (fake_patch gvr c.ns name pt bytes subresources));
}

unfoldable pub fake_update_status_of :
    {T W : Type 0} → GroupVersionResource → FakeSinks T W → T → Outcome (Option T × Option Error)
unfolding fake_update_status asserted
fake_update_status_of gvr c sink = asserted (c.fake.invokes (fake_update_status gvr c.ns sink))

abbrev pub resource_named : Text → GroupVersionResource
resource_named r = record {
  group = codes "observability.knative.dev";
  version = codes "v1alpha1";
  resource = r;
}

abbrev pub kind_named : Text → GroupVersionKind
kind_named k = record {
  group = codes "observability.knative.dev";
  version = codes "v1alpha1";
  kind = k;
}
