-- ===== src/Client/Clientset.antt =====
-- pkg/client/clientset/versioned/clientset.go. The discovery client is of the type `D`, and what
-- client-go makes is a parameter.
use observability.Base.{ℕ, suc, ℤ, Option, none, some, Bool, true, false, Text, ◌&&◌, if◌then◌else◌}
use observability.Client.Fake.{Outcome, returns, panics}
use observability.Client.Groups
use observability.Client.Groups.{GroupRest, GroupClient, Config, Made, made, failed}

pub record Clientset (D L W : Type 0) : Type 0 where
  pub discovery_client : D
  pub observability_v1alpha1 : GroupClient L W

-- What client-go makes: REST clients and discovery clients for a configuration, a discovery client for a
-- REST client, and rate limiters, each at the next free address; and whether a `float32` is above 0.
pub record Library (R Q D L W : Type 0) : Type 0 where
  pub rest_client_for : Config R Q → Made (GroupRest L W)
  pub default_user_agent : Text
  pub discovery_for : Config R Q → Made D
  pub discovery_of_rest : GroupRest L W → D
  pub token_bucket : Q → ℤ → ℕ → R
  pub is_positive : Q → Bool

abbrev is_none : {A : Type 0} → Option A → Bool
is_none none = true
is_none (some a) = false

module _ {R Q D L W : Type 0} (lib : Library R Q D L W) where
  -- `configShallowCopy`, with its rate limiter, which takes the free address if it is a new one.
  unfoldable pub limited : Config R Q → ℕ → Config R Q × ℕ
  limited c free =
      if is_none c.rate_limiter && lib.is_positive c.qps
      then (record c { rate_limiter = some (lib.token_bucket c.qps c.burst free) }, suc free)
      else (c, free)

  -- What stands behind the copy.
  unfoldable pub new_for_copy : Config R Q → Made (Clientset D L W)
  unfolding Groups.new_for_config
  new_for_copy copy = elim (Groups.new_for_config lib.rest_client_for lib.default_user_agent copy) [
    | failed err ↦ failed err
    | made group ↦ elim (lib.discovery_for copy) [
      | failed err ↦ failed err
      | made discovery ↦
          made (record { discovery_client = discovery; observability_v1alpha1 = group })
    ]
  ]

  -- `NewForConfig`, with the free address before and behind it.
  unfoldable pub new_for_config : Config R Q → ℕ → Made (Clientset D L W) × ℕ
  unfolding limited new_for_copy
  new_for_config c free = let (copy, free') = limited c free in (new_for_copy copy, free')

  abbrev or_die : {A : Type 0} → Made A → Outcome A
  or_die (made a) = returns a
  or_die (failed err) = panics

  -- `NewForConfigOrDie`, which makes no rate limiter.
  unfoldable pub new_for_config_or_die : Config R Q → Outcome (Clientset D L W)
  unfolding Groups.new_for_config_or_die
  new_for_config_or_die c =
      elim (Groups.new_for_config_or_die lib.rest_client_for lib.default_user_agent c) [
        | panics ↦ panics
        | returns group ↦ elim (or_die (lib.discovery_for c)) [
          | panics ↦ panics
          | returns discovery ↦
              returns (record { discovery_client = discovery; observability_v1alpha1 = group })
        ]
      ]

  -- `New`.
  unfoldable pub new : GroupRest L W → Clientset D L W
  unfolding Groups.new
  new c = record {
    discovery_client = lib.discovery_of_rest c;
    observability_v1alpha1 = Groups.new c;
  }

-- `Discovery`, of a pointer that may be nil.
unfoldable pub discovery_of : {D L W : Type 0} → Option (Clientset D L W) → Option D
discovery_of none = none
discovery_of (some c) = some c.discovery_client

-- The limiter that both clients are to share, and the address that is free then: the given one, a new
-- one where queries are limited, or none.
abbrev pub expected_limiter :
    {R Q D L W : Type 0} → Library R Q D L W → Config R Q → ℕ → Option R × ℕ
expected_limiter lib c free = elim c.rate_limiter [
  | some r ↦ (some r, free)
  | none ↦
      if lib.is_positive c.qps
      then (some (lib.token_bucket c.qps c.burst free), suc free)
      else (none, free)
]
