-- ===== src/Metric/Controller.antt =====
-- pkg/metric/controller.go: the handlers of the events on metric sinks, each of which has a telegraf
-- of its own in its namespace. A handler is given what the API server returns to each of its calls,
-- and yields the calls that it makes.
pub mod Calls
use observability.Base.{
  ℕ, Bool, true, false, not, List, [], ◌∷◌, ◌++◌, Option, none, some, Text, codes, text_eq,
  if◌then◌else◌,
}
use observability.GoMap.{GoMap}
use observability.Api.{str, bool, TypeMeta, ObjectMeta, MetricSink, MetricSinkSpec}
use observability.Metric.ClusterConfig.{
  TelegrafConfig, telegraf_config_string, append_inputs_and_outputs, global_tags_of,
}
use observability.Metric.Objects.{
  OwnerReference, Meta, ConfigMap, Deployment, RoleBinding, Role, get_app_name, get_telegraf_role,
  get_telegraf_role_binding, get_telegraf_deployment, set_default_type_meta,
  get_telegraf_config_map,
}

-- The calls of the API server. A namespace stands first; a deletion names its object.
pub data Call : Type 0 where
  create_role : Text → Role → Call
  create_role_binding : Text → RoleBinding → Call
  create_config_map : Text → ConfigMap → Call
  create_deployment : Text → Deployment → Call
  update_config_map : Text → ConfigMap → Call
  delete_pods : Text → Text → Call
  delete_config_map : Text → Text → Call
  delete_deployment : Text → Text → Call
  delete_role_binding : Text → Text → Call
  delete_role : Text → Text → Call

-- A call that fails ends the handler: the flags say of the calls, in their order, which succeed.
unfoldable pub until_error : List (Call × Bool) → List Call
until_error [] = []
until_error ((c, succeeds) ∷ cs) =
    let rest = until_error cs in if succeeds then c ∷ rest else c ∷ []

-- What an informer hands to a handler.
pub data Object : Type 0 where
  metric_sink : MetricSink → Object
  other : Object

-- Whether the four calls of `OnAdd` succeed.
pub record AddReplies : Type 0 where
  pub role : Bool
  pub role_binding : Bool
  pub config_map : Bool
  pub deployment : Bool

module _ (encode : TelegrafConfig → Option Text) (telegraf_image_version cluster_name : Text) where
  unfoldable pub add_calls : AddReplies → MetricSink → List Call
  unfolding until_error
  add_calls r ms =
      let ns = ms.meta.namespace in
      until_error (
        (create_role ns (get_telegraf_role ms), r.role)
        ∷ (create_role_binding ns (get_telegraf_role_binding ms), r.role_binding)
        ∷ (create_config_map ns (get_telegraf_config_map encode cluster_name ms), r.config_map)
        ∷ (create_deployment ns (get_telegraf_deployment telegraf_image_version ms), r.deployment)
        ∷ [])

  -- `OnAdd`: the object, which the informer's store holds too, with its type set, and the calls.
  unfoldable pub on_add : AddReplies → Object → Object × List Call
  unfolding add_calls set_default_type_meta
  on_add r (metric_sink ms) =
      let ms' = set_default_type_meta ms in (metric_sink ms', add_calls r ms')
  on_add r other = (other, [])

  -- `OnUpdate`; the flags are of its two calls. `DeepEqual` on two specs is a parameter, since the
  -- maps in them have no order.
  unfoldable pub on_update :
      (MetricSinkSpec → MetricSinkSpec → Bool) → Bool → Bool → Object → Object → List Call
  unfolding until_error
  on_update deep_equal updated deleted (metric_sink o) (metric_sink n) =
      if deep_equal o.spec n.spec
      then []
      else until_error (
          (
            update_config_map n.meta.namespace (get_telegraf_config_map encode cluster_name n),
            updated,
          )
          ∷ (delete_pods n.meta.namespace (codes "app=" ++ get_app_name n), deleted)
          ∷ [])
  on_update deep_equal updated deleted _ _ = []

-- Whether the four calls of `OnDelete` succeed.
pub record DeleteReplies : Type 0 where
  pub config_map : Bool
  pub deployment : Bool
  pub role_binding : Bool
  pub role : Bool

-- `OnDelete`.
unfoldable pub on_delete : DeleteReplies → Object → List Call
unfolding until_error
on_delete r (metric_sink ms) =
    let ns = ms.meta.namespace in
    let name = get_app_name ms in
    until_error (
      (delete_config_map ns name, r.config_map)
      ∷ (delete_deployment ns name, r.deployment)
      ∷ (delete_role_binding ns name, r.role_binding)
      ∷ (delete_role ns name, r.role)
      ∷ [])
on_delete r other = []
