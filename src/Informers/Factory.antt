-- ===== src/Informers/Factory.antt =====
-- pkg/client/informers/externalversions/factory.go. The mutex is held from the first to the last
-- statement of `Start` and `InformerFor`, so each is one step.
use observability.Base.{
  ℕ, suc, ℤ, List, [], ◌∷◌, ◌++◌, Option, none, some, Bool, true, false, Text, if◌then◌else◌,
}
use observability.GoMap.{GoMap, lookup, insert}
use observability.Client.Request.{ListOptions, Error}
use observability.Client.Groups.{GroupClient}

-- `internalinterfaces.TweakListOptionsFunc`, by what it makes of the options.
abbrev pub Tweak : Type 0
Tweak = ListOptions → ListOptions

-- A `cache.SharedIndexInformer`: its address, and the arguments of `NewSharedIndexInformer`.
pub record Informer (L W : Type 0) : Type 0 where
  pub address : ℕ
  pub list_func : ListOptions → Option L × Option Error
  pub watch_func : ListOptions → Option W × Option Error
  pub example : Text
  pub resync_period : ℤ
  pub indexers : List Text

pub record Factory (L W : Type 0) : Type 0 where
  pub client : GroupClient L W
  pub namespace : Text
  pub tweak_list_options : Option Tweak
  pub default_resync : ℤ
  pub custom_resync : GoMap ℤ
  pub informers : GoMap (Informer L W)
  pub started_informers : GoMap Bool

-- The factory, the next free address, and the informers that were run, by their addresses.
pub record State (L W : Type 0) : Type 0 where
  pub factory : Factory L W
  pub free : ℕ
  pub runs : List ℕ

-- `m[k]` of a map to Booleans.
unfoldable pub is_set : Text → GoMap Bool → Bool
unfolding lookup
is_set k m = elim (lookup k m) [ none ↦ false | some b ↦ b ]

-- `internalinterfaces.NewInformerFunc`, at the next free address.
abbrev pub NewInformerFunc : Type 0 → Type 0 → Type 0
NewInformerFunc L W = GroupClient L W → ℤ → ℕ → Informer L W

module _ {L W : Type 0} where
  -- The loop of `WithCustomResyncConfig`, over the types of the keys.
  unfoldable pub with_custom_resync_config : List (Text × ℤ) → Factory L W → Factory L W
  unfolding insert
  with_custom_resync_config [] f = f
  with_custom_resync_config ((k, v) ∷ config) f =
      with_custom_resync_config config (record f { custom_resync = insert k v f.custom_resync })

  unfoldable pub with_tweak_list_options : Option Tweak → Factory L W → Factory L W
  with_tweak_list_options tweak f = record f { tweak_list_options = tweak }

  unfoldable pub with_namespace : Text → Factory L W → Factory L W
  with_namespace ns f = record f { namespace = ns }

  -- The loop over the options.
  unfoldable pub apply_options : List (Factory L W → Factory L W) → Factory L W → Factory L W
  apply_options [] f = f
  apply_options (opt ∷ opts) f = apply_options opts (opt f)

  unfoldable pub new_shared_informer_factory_with_options :
      GroupClient L W → ℤ → List (Factory L W → Factory L W) → Factory L W
  unfolding apply_options
  new_shared_informer_factory_with_options client default_resync options =
      apply_options options (record {
        client = client;
        namespace = [];
        tweak_list_options = none;
        default_resync = default_resync;
        custom_resync = [];
        informers = [];
        started_informers = [];
      })

  unfoldable pub new_shared_informer_factory : GroupClient L W → ℤ → Factory L W
  unfolding new_shared_informer_factory_with_options
  new_shared_informer_factory client default_resync =
      new_shared_informer_factory_with_options client default_resync []

  unfoldable pub new_filtered_shared_informer_factory :
      GroupClient L W → ℤ → Text → Option Tweak → Factory L W
  unfolding new_shared_informer_factory_with_options with_namespace with_tweak_list_options
  new_filtered_shared_informer_factory client default_resync ns tweak =
      new_shared_informer_factory_with_options client default_resync
        (with_namespace ns ∷ with_tweak_list_options tweak ∷ [])

  -- A round of `Start`, for an entry of `f.informers`.
  unfoldable pub start_informer : Text → Informer L W → GoMap Bool × List ℕ → GoMap Bool × List ℕ
  unfolding is_set insert
  start_informer k i (started, runs) =
      if is_set k started then (started, runs) else (insert k true started, runs ++ i.address ∷ [])

  -- The loop of `Start`.
  unfoldable pub start_informers : GoMap (Informer L W) → GoMap Bool × List ℕ → GoMap Bool × List ℕ
  unfolding start_informer
  start_informers [] s = s
  start_informers ((k, i) ∷ is) s = start_informers is (start_informer k i s)

  -- `Start`. `go informer.Run` is the address in `runs`.
  unfoldable pub start : State L W → State L W
  unfolding start_informers
  start st =
      let (started, runs) =
        start_informers st.factory.informers (st.factory.started_informers, st.runs) in
      record st { factory = record (st.factory) { started_informers = started }; runs = runs }

  -- The informers that `WaitForCacheSync` takes out under the lock.
  unfoldable pub started_onto :
      GoMap (Informer L W) → GoMap Bool → GoMap (Informer L W) → GoMap (Informer L W)
  unfolding is_set insert
  started_onto informers started [] = informers
  started_onto informers started ((k, i) ∷ is) =
      started_onto (if is_set k started then insert k i informers else informers) started is

  -- Its loop behind the lock.
  unfoldable pub synced_onto :
      (Informer L W → Bool) → GoMap Bool → GoMap (Informer L W) → GoMap Bool
  unfolding insert
  synced_onto has_synced res [] = res
  synced_onto has_synced res ((k, i) ∷ is) = synced_onto has_synced (insert k (has_synced i) res) is

  -- `WaitForCacheSync`, where `has_synced` is `cache.WaitForCacheSync` on an informer.
  unfoldable pub wait_for_cache_sync : (Informer L W → Bool) → State L W → GoMap Bool
  unfolding started_onto synced_onto
  wait_for_cache_sync has_synced st =
      synced_onto has_synced [] (started_onto [] st.factory.started_informers st.factory.informers)

  -- The resync period of `InformerFor`.
  unfoldable pub resync_period_of : Text → Factory L W → ℤ
  unfolding lookup
  resync_period_of k f = elim (lookup k f.custom_resync) [ none ↦ f.default_resync | some d ↦ d ]

  -- `InformerFor`, for an object of the type `k`.
  unfoldable pub informer_for : Text → NewInformerFunc L W → State L W → Informer L W × State L W
  unfolding lookup insert resync_period_of
  informer_for k new_func st = elim (lookup k st.factory.informers) [
    | some i ↦ (i, st)
    | none ↦
        let i = new_func st.factory.client (resync_period_of k st.factory) st.free in
        (
          i,
          record st {
            factory = record (st.factory) { informers = insert k i st.factory.informers };
            free = suc st.free;
          },
        )
  ]
