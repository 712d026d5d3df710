-- ===== src/Metric/Controller/Calls.antt =====
-- What the controller of the metric sinks asks of the API server.
use observability.Base.{
  ℕ, suc, Bool, true, false, not, ◌≡◌, ◌≢◌, refl, ◌⊎◌, inl, inr, List, [], ◌∷◌, map, Option, none,
  some, arith, if◌then◌else◌, Text, codes, text_eq, text_eq_iff, All, take, Bool-cases,
}
use observability.Api.{MetricSink}
use observability.Metric.ClusterConfig.{TelegrafConfig}
use observability.Metric.Objects.{
  OwnerReference, get_app_name, get_telegraf_role, get_telegraf_role_binding,
  get_telegraf_deployment, get_telegraf_config_map, set_default_type_meta,
}
use observability.Metric.Controller.{
  Call, create_role, create_role_binding, create_config_map, create_deployment, update_config_map,
  delete_pods, delete_config_map, delete_deployment, delete_role_binding, delete_role, until_error,
  metric_sink, AddReplies, on_add, DeleteReplies, on_delete,
}

pub data Kind : Type 0 where
  role role_binding config_map deployment : Kind

-- The object that a call creates or deletes: its kind, its namespace and its name.
abbrev pub target : Call → Option (Kind × Text × Text)
target (create_role ns o) = some (role, ns, o.meta.name)
target (create_role_binding ns o) = some (role_binding, ns, o.meta.name)
target (create_config_map ns o) = some (config_map, ns, o.meta.name)
target (create_deployment ns o) = some (deployment, ns, o.meta.name)
target (update_config_map ns o) = none
target (delete_pods ns selector) = none
target (delete_config_map ns name) = some (config_map, ns, name)
target (delete_deployment ns name) = some (deployment, ns, name)
target (delete_role_binding ns name) = some (role_binding, ns, name)
target (delete_role ns name) = some (role, ns, name)

abbrev pub In : {A : Type 0} → A → List A → Type 0
In a [] = ⊥
In a (x ∷ xs) = (a ≡ x) ⊎ In a xs

abbrev pub add_succeeds : AddReplies
add_succeeds = record { role = true; role_binding = true; config_map = true; deployment = true }

abbrev pub delete_succeeds : DeleteReplies
delete_succeeds = record { config_map = true; deployment = true; role_binding = true; role = true }

-- How many of the calls of `OnAdd` succeed in front of the first that fails.
abbrev pub succeeding : AddReplies → ℕ
succeeding r =
    if not r.role
    then 0
    else if not r.role_binding
    then 1
    else if not r.config_map
    then 2
    else if not r.deployment
    then 3
    else 4

-- Whom the metadata of an object that the controller writes names as its owner.
abbrev pub owners : Call → List OwnerReference
owners (create_role ns o) = o.meta.owner_references
owners (create_role_binding ns o) = o.meta.owner_references
owners (create_config_map ns o) = o.meta.owner_references
owners (create_deployment ns o) = o.meta.owner_references
owners (update_config_map ns o) = o.meta.owner_references
owners _ = []

or_default : (t d : Text) → d ≢ [] → (if text_eq t [] then d else t) ≢ []
or_default t d h = elim (Bool-cases (text_eq t [])) [
  | inl e ↦ rw e h
  | inr e ↦ rw e (λ p. cc ((text_eq_iff t []).1 p))
]

set_default_type_meta_typed :
    (ms : MetricSink)
    → ((set_default_type_meta ms).type_meta.kind ≢ [])
      × ((set_default_type_meta ms).type_meta.api_version ≢ [])
unfolding set_default_type_meta
set_default_type_meta_typed ms = (
  or_default ms.type_meta.kind (codes "MetricSink") (λ e. cc e),
  or_default ms.type_meta.api_version (codes "observability.knative.dev/v1alpha1") (λ e. cc e),
)

until_error-All :
    (P : Call → Type 0) (cs : List (Call × Bool)) → All (λ x. P x.0) cs → All P (until_error cs)
unfolding until_error
until_error-All P [] h = tt
until_error-All P ((c, true) ∷ cs) h = (h.0, until_error-All P cs h.1)
until_error-All P ((c, false) ∷ cs) h = (h.0, tt)

two_calls :
    (c d : Call) (a b : Bool) → until_error ((c, a) ∷ (d, b) ∷ []) ≡ c ∷ (if a then d ∷ [] else [])
unfolding until_error
two_calls c d true true = refl
two_calls c d true false = refl
two_calls c d false b = refl

-- An owner with a kind and an API version, and the name and the UID of the sink.
abbrev pub Owned : MetricSink → Call → Type 0
Owned ms c =
    (o : OwnerReference) × (owners c ≡ o ∷ [])
    × (o.kind ≢ [])
    × (o.api_version ≢ [])
    × (o.name ≡ ms.meta.name)
    × (o.uid ≡ ms.meta.uid)

module _ (encode : TelegrafConfig → Option Text) (version cluster_name : Text) where
  -- `OnAdd` makes its calls up to the first that fails, that one included, and no other.
  pub on_add_until_error :
      (r : AddReplies) (ms : MetricSink)
      → (on_add encode version cluster_name r (metric_sink ms)).1
        ≡ take
            (suc (succeeding r))
            (on_add encode version cluster_name add_succeeds (metric_sink ms)).1
  unfolding on_add
  on_add_until_error r ms = ground arith

  -- Every object that `OnAdd` creates, whatever succeeds, is among those that `OnDelete` deletes
  -- where its calls succeed: the same kind, the same namespace and the same name.
  pub on_add-on_delete :
      (r : AddReplies) (ms : MetricSink)
      → All
          (λ c. In (target c) (map target (on_delete delete_succeeds (metric_sink ms))))
          (on_add encode version cluster_name r (metric_sink ms)).1
  unfolding on_add on_delete get_telegraf_role get_telegraf_role_binding get_telegraf_deployment
      get_telegraf_config_map get_app_name
  on_add-on_delete r ms =
      let ms' = set_default_type_meta ms in
      let ns = ms.meta.namespace in
      until_error-All _
        ((create_role ns (get_telegraf_role ms'), r.role)
          ∷ (create_role_binding ns (get_telegraf_role_binding ms'), r.role_binding)
          ∷ (create_config_map ns (get_telegraf_config_map encode cluster_name ms'), r.config_map)
          ∷ (create_deployment ns (get_telegraf_deployment version ms'), r.deployment)
          ∷ [])
        (inr (inr (inr (inl refl))), (inr (inr (inl refl)), (inl refl, (inr (inl refl), tt))))

  -- Every object that `OnAdd` creates has the sink as its one owner, by a kind and an API version
  -- that are not empty.
  pub on_add-Owned :
      (r : AddReplies) (ms : MetricSink)
      → All (Owned ms) (on_add encode version cluster_name r (metric_sink ms)).1
  unfolding on_add get_telegraf_role get_telegraf_role_binding get_telegraf_deployment
      get_telegraf_config_map
  on_add-Owned r ms =
      let ms' = set_default_type_meta ms in
      let ns = ms.meta.namespace in
      let owner : OwnerReference = record {
        api_version = ms'.type_meta.api_version;
        kind = ms'.type_meta.kind;
        name = ms.meta.name;
        uid = ms.meta.uid;
      } in
      let typed = set_default_type_meta_typed ms in
      until_error-All _
        ((create_role ns (get_telegraf_role ms'), r.role)
          ∷ (create_role_binding ns (get_telegraf_role_binding ms'), r.role_binding)
          ∷ (create_config_map ns (get_telegraf_config_map encode cluster_name ms'), r.config_map)
          ∷ (create_deployment ns (get_telegraf_deployment version ms'), r.deployment)
          ∷ [])
        (
          (owner, refl, typed.0, typed.1, refl, refl),
          (
            (owner, refl, typed.0, typed.1, refl, refl),
            (
              (owner, refl, typed.0, typed.1, refl, refl),
              ((owner, refl, typed.0, typed.1, refl, refl), tt),
            ),
          ),
        )
