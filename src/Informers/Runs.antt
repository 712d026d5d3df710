-- ===== src/Informers/Runs.antt =====
-- Which informers the calls of a factory run.
use observability.Base.{
  ℕ, ℤ, ◌≤◌, ◌≡◌, refl, sym, ◌∙◌, List, [], ◌∷◌, Option, some, true, false, Option-cases, inl, inr,
  arith, Text,
}
use observability.GoMap.{lookup, insert, has_key, distinct_keys}
use observability.GoMap.Laws.{has_key-insert, distinct_keys-insert}
use observability.Client.Groups.{GroupClient}
use observability.Informers.Factory.{
  Tweak, Informer, NewInformerFunc, Factory, State, is_set, with_custom_resync_config,
  with_tweak_list_options, with_namespace, apply_options, new_shared_informer_factory_with_options,
  start, start_informers, informer_for, resync_period_of,
}
use observability.Informers.Keys.{
  count, count_all, count_running, has_key-none, running_most, count_all-insert, running-insert,
  running_all, count_all_there,
}
use observability.Informers.Started.{is_set-start_informers, count-start_informers}
use observability.Informers.Ops.{
  Op, request, start_all, run_op, run_ops, type_of, made, informer_for_there, informer_for_new,
  new_state,
}

module _ {L W : Type 0} where
  -- Each informer has an address of its own, and those of the started types were run, once each.
  record Inv (st : State L W) : Type 0 where
    keys : distinct_keys st.factory.informers ≡ true
    known :
        (j : Text)
        → has_key j st.factory.informers ≡ false
        → is_set j st.factory.started_informers ≡ false
    fresh : (a : ℕ) → st.free ≤ a → count_all a st.factory.informers ≡ 0
    once : (a : ℕ) → count_all a st.factory.informers ≤ 1
    counted :
        (a : ℕ)
        → count a st.runs ≡ count_running a st.factory.started_informers st.factory.informers

  informer_for-Inv :
      (k : Text) (new_func : NewInformerFunc L W)
      → ((c : GroupClient L W) (d : ℤ) (n : ℕ) → (new_func c d n).address ≡ n)
      → (st : State L W) → Inv st
      → Inv (informer_for k new_func st).1
  informer_for-Inv k new_func at st v = elim (Option-cases (lookup k st.factory.informers)) [
    | inr (i, e) ↦ rw (informer_for_there k new_func st i e) v
    | inl e ↦
        let i = new_func st.factory.client (resync_period_of k st.factory) st.free in
        let addr : i.address ≡ st.free = at _ _ _ in
        let absent = has_key-none k st.factory.informers e in
        rw (informer_for_new k new_func st e) (record {
          keys = distinct_keys-insert k i st.factory.informers v.keys;
          known = λ j h. v.known j (ground (arith, has_key-insert k j i st.factory.informers));
          fresh =
              λ a l. ground (arith, count_all-insert a k i st.factory.informers absent, v.fresh a);
          once = λ a.
              ground
                (arith, count_all-insert a k i st.factory.informers absent, v.fresh a, v.once a);
          counted = λ a.
              v.counted a
              ∙ sym (
                  running-insert a st.factory.started_informers k i st.factory.informers absent
                    (v.known k absent));
        })
  ]

  start-Inv : (st : State L W) → Inv st → Inv (start st)
  unfolding start
  start-Inv st v =
      let is = st.factory.informers in
      let started = st.factory.started_informers in
      record {
        keys = v.keys;
        known = λ j h. rw (is_set-start_informers j is started st.runs, h) (v.known j h);
        fresh = v.fresh;
        once = v.once;
        counted = λ a. ground (
          arith,
          count-start_informers a is started st.runs v.keys,
          v.counted a,
          running_all a (start_informers is (started, st.runs)).0 is
              (λ j h. rw (is_set-start_informers j is started st.runs, h) refl),
        );
      }

  run_op-Inv : (op : Op) (st : State L W) → Inv st → Inv (run_op op st)
  unfolding run_op
  run_op-Inv (request kind) st v =
      let m = made kind st in
      rw (run_op, m.asks) (informer_for-Inv (type_of kind) m.new_func m.address_is st v)
  run_op-Inv start_all st v = start-Inv st v

  run_ops-Inv : (ops : List Op) (st : State L W) → Inv st → Inv (run_ops ops st)
  unfolding run_ops
  run_ops-Inv [] st v = v
  run_ops-Inv (op ∷ ops) st v = run_ops-Inv ops (run_op op st) (run_op-Inv op st v)

  -- The options leave the maps of informers alone.
  resync_config_keeps :
      (config : List (Text × ℤ)) (f : Factory L W)
      → ((with_custom_resync_config config f).informers ≡ f.informers)
        × ((with_custom_resync_config config f).started_informers ≡ f.started_informers)
  unfolding with_custom_resync_config
  resync_config_keeps [] f = (refl, refl)
  resync_config_keeps ((k, v) ∷ config) f =
      resync_config_keeps config (record f { custom_resync = insert k v f.custom_resync })

  new_state-Inv :
      (client : GroupClient L W) (resync : ℤ) (ns : Text) (tweak : Option Tweak)
      (config : List (Text × ℤ)) (free : ℕ)
      → Inv (new_state client resync ns tweak config free)
  unfolding new_shared_informer_factory_with_options apply_options with_namespace
      with_tweak_list_options distinct_keys count_all count_running count is_set lookup
  new_state-Inv client resync ns tweak config free =
      let bare : Factory L W = record {
        client = client;
        namespace = ns;
        tweak_list_options = tweak;
        default_resync = resync;
        custom_resync = [];
        informers = [];
        started_informers = [];
      } in
      let (e, e') = resync_config_keeps config bare in
      record {
        keys = rw e refl;
        known = λ j h. rw e' refl;
        fresh = λ a l. rw e refl;
        once = λ a. rw e (omega arith);
        counted = λ a. rw e refl;
      }

-- Over any requests and starts of a new factory, whatever its options, no informer is run twice.
pub run_at_most_once :
    {L W : Type 0} (client : GroupClient L W) (resync : ℤ) (ns : Text) (tweak : Option Tweak)
    (config : List (Text × ℤ)) (free : ℕ) (ops : List Op) (a : ℕ)
    → count a (run_ops ops (new_state client resync ns tweak config free)).runs ≤ 1
run_at_most_once client resync ns tweak config free ops a =
    let st = run_ops ops (new_state client resync ns tweak config free) in
    let v = run_ops-Inv ops _ (new_state-Inv client resync ns tweak config free) in
    omega (
      arith,
      v.once a,
      v.counted a,
      running_most a st.factory.started_informers st.factory.informers,
    )

-- After any requests and starts of a new factory, whatever its options, a further `Start` leaves
-- every informer that the factory has run, once in all.
pub start_runs_all :
    {L W : Type 0} (client : GroupClient L W) (resync : ℤ) (ns : Text) (tweak : Option Tweak)
    (config : List (Text × ℤ)) (free : ℕ) (ops : List Op) (k : Text) (i : Informer L W)
    → let st = run_ops ops (new_state client resync ns tweak config free) in
      lookup k st.factory.informers ≡ some i → count i.address (run_op start_all st).runs ≡ 1
unfolding run_op start
start_runs_all client resync ns tweak config free ops k i e =
    let st = run_ops ops (new_state client resync ns tweak config free) in
    let v = run_ops-Inv ops _ (new_state-Inv client resync ns tweak config free) in
    omega (
      arith,
      v.once i.address,
      v.counted i.address,
      count-start_informers i.address st.factory.informers st.factory.started_informers st.runs
          v.keys,
      count_all_there k i st.factory.informers e,
    )
