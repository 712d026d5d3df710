-- ===== src/Client/Request.antt =====
-- What the typed clients tell the REST client of client-go: a request is its verb and the calls of
-- its builder, in their order. What comes back is up to the REST client.
use Prim.Native.Nat.{◌^◌}
use observability.Base.{ℕ, ◌*◌, ◌%◌, Bool, List, Option, none, some, Text}

-- `metav1.GetOptions`.
pub record GetOptions : Type 0 where
  pub resource_version : Text

-- `metav1.ListOptions`. The 64 bits of `*TimeoutSeconds` are those of its two's complement.
pub record ListOptions : Type 0 where
  pub label_selector : Text
  pub field_selector : Text
  pub watch : Bool
  pub resource_version : Text
  pub timeout_seconds : Option ℕ

-- `metav1.DeleteOptions`.
pub record DeleteOptions : Type 0 where
  pub grace_period_seconds : Option ℕ

pub data Verb : Type 0 where
  get post put delete : Verb
  patch : Text → Verb

-- A call of the builder, for objects of type `T`.
pub data Setter (T : Type 0) : Type 0 where
  in_namespace : Text → Setter T
  of_resource : Text → Setter T
  of_name : Text → Setter T
  sub_resource : List Text → Setter T
  get_params : GetOptions → Setter T
  list_params : ListOptions → Setter T
  with_timeout : ℕ → Setter T
  object_body : T → Setter T
  options_body : Option DeleteOptions → Setter T
  bytes_body : List ℕ → Setter T

pub record Request (T : Type 0) : Type 0 where
  pub verb : Verb
  pub setters : List (Setter T)

abbrev pub Error : Type 0
Error = Text

-- `rest.Interface`, by what it does with a request: `Do().Into` an object or a list, `Do().Error`
-- and `Watch`.
pub record Rest (T L W : Type 0) : Type 0 where
  pub into_object : Request T → T × Option Error
  pub into_list : Request T → L × Option Error
  pub error : Request T → Option Error
  pub watch : Request T → Option W × Option Error

-- The 64 bits of `time.Duration(seconds) * time.Second`.
unfoldable pub seconds_duration : ℕ → ℕ
seconds_duration s = s * 1000000000 % 2 ^ 64

-- `var timeout`, and its assignment.
unfoldable pub timeout_of : Option ℕ → ℕ
timeout_of none = 0
timeout_of (some s) = seconds_duration s
