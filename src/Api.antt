-- ===== src/Api.antt =====
-- pkg/apis/sink/v1alpha1/types.go: the resources. Of the `TypeMeta` and `ObjectMeta` of Kubernetes
-- the fields that the program reads or writes are kept.
pub mod Copy
pub mod Store
pub mod Cells
pub mod DeepCopy
use observability.Base.{
  ℤ, Bool, true, false, List, [], ◌∷◌, Option, none, some, Text, if◌then◌else◌,
}
use observability.GoMap.{GoMap, insert}

pub record TypeMeta : Type 0 where
  pub kind : Text
  pub api_version : Text

pub record ObjectMeta : Type 0 where
  pub name : Text
  pub namespace : Text
  pub cluster_name : Text
  pub uid : Text

pub record SyslogSpec : Type 0 where
  pub host : Text
  pub port : ℤ
  pub enable_tls : Bool

pub record WebhookSpec : Type 0 where
  pub url : Text

pub record SinkSpec : Type 0 where
  pub type : Text
  pub syslog : SyslogSpec
  pub webhook : WebhookSpec
  pub insecure_skip_verify : Bool

pub record LogSink : Type 0 where
  pub type_meta : TypeMeta
  pub meta : ObjectMeta
  pub spec : SinkSpec

pub record ClusterLogSink : Type 0 where
  pub type_meta : TypeMeta
  pub meta : ObjectMeta
  pub spec : SinkSpec

-- A value of type `interface{}`, as decoded from JSON or built by the program. A `float64` has its
-- literal.
mutual
  pub data Value : Type 0 where
    str : Text → Value
    int : ℤ → Value
    float : Text → Value
    bool : Bool → Value
    null : Value
    array : Items → Value
    object : Fields → Value

  pub data Items : Type 0 where
    nil : Items
    cons : Value → Items → Items

  pub data Fields : Type 0 where
    end : Fields
    field : Text → Value → Fields → Fields

abbrev pub MetricSinkMap : Type 0
MetricSinkMap = GoMap Value

-- The two types whose values `DeepCopy` copies. A number that was decoded from JSON is a `float64`.
unfoldable pub is_copied : Value → Bool
is_copied (str s) = true
is_copied (int z) = true
is_copied _ = false

unfoldable pub deep_copy_onto : MetricSinkMap → MetricSinkMap → MetricSinkMap
deep_copy_onto copy [] = copy
deep_copy_onto copy ((k, v) ∷ m) = deep_copy_onto (if is_copied v then insert k v copy else copy) m

-- `MetricSinkMap.DeepCopy`.
unfoldable pub deep_copy : MetricSinkMap → MetricSinkMap
unfolding deep_copy_onto is_copied
deep_copy m = deep_copy_onto [] m

pub record MetricSinkSpec : Type 0 where
  pub inputs : List MetricSinkMap
  pub outputs : List MetricSinkMap

pub record MetricSink : Type 0 where
  pub type_meta : TypeMeta
  pub meta : ObjectMeta
  pub spec : MetricSinkSpec

pub record ClusterMetricSink : Type 0 where
  pub type_meta : TypeMeta
  pub meta : ObjectMeta
  pub spec : MetricSinkSpec

-- `v.(string)`.
abbrev pub as_string : Value → Option Text
as_string (str s) = some s
as_string _ = none
