-- ===== src/Informers/Started.antt =====
-- What the loop of `Start` does.
use observability.Base.{
  ℕ, ◌+◌, ◌≡◌, refl, List, [], ◌∷◌, ◌++◌, Bool, true, false, Bool-cases, inl, inr, arith, Text,
  text_eq_iff, if◌then◌else◌,
}
use observability.GoMap.{GoMap, insert, has_key, distinct_keys}
use observability.Informers.Factory.{Informer, is_set, start_informer, start_informers}
use observability.Informers.Keys.{
  count, count-append, is_set-insert, count_all, count_running, running_set, count_one,
}

module _ {L W : Type 0} where
  start_set :
      (k : Text) (i : Informer L W) (is : GoMap (Informer L W)) (started : GoMap Bool)
      (runs : List ℕ)
      → is_set k started ≡ true
      → start_informers ((k, i) ∷ is) (started, runs) ≡ start_informers is (started, runs)
  unfolding start_informers start_informer
  start_set k i is started runs e = rw e

  start_new :
      (k : Text) (i : Informer L W) (is : GoMap (Informer L W)) (started : GoMap Bool)
      (runs : List ℕ)
      → is_set k started ≡ false
      → start_informers ((k, i) ∷ is) (started, runs)
        ≡ start_informers is (insert k true started, runs ++ i.address ∷ [])
  unfolding start_informers start_informer
  start_new k i is started runs e = rw e

  -- The types that are started behind the loop.
  pub is_set-start_informers :
      (j : Text) (is : GoMap (Informer L W)) (started : GoMap Bool) (runs : List ℕ)
      → is_set j (start_informers is (started, runs)).0
        ≡ (if has_key j is then true else is_set j started)
  unfolding start_informers has_key
  is_set-start_informers j [] started runs = refl
  is_set-start_informers j ((k, i) ∷ is) started runs = elim (Bool-cases (is_set k started)) [
    | inl e ↦
        rw (start_set k i is started runs e)
          (ground (arith, text_eq_iff k j, is_set-start_informers j is started runs))
    | inr e ↦ rw (start_new k i is started runs e) (
        ground (
          arith,
          is_set-start_informers j is (insert k true started) (runs ++ i.address ∷ []),
          is_set-insert k j started,
        ))
  ]

  -- Each type that was not started is run once.
  pub count-start_informers :
      (a : ℕ) (is : GoMap (Informer L W)) (started : GoMap Bool) (runs : List ℕ)
      → distinct_keys is ≡ true
      → count a (start_informers is (started, runs)).1 + count_running a started is
        ≡ count a runs + count_all a is
  unfolding start_informers distinct_keys count_running count_all
  count-start_informers a [] started runs d = refl
  count-start_informers a ((k, i) ∷ is) started runs d = elim (Bool-cases (is_set k started)) [
    | inl e ↦
        rw (start_set k i is started runs e, e)
          (ground (arith, count-start_informers a is started runs))
    | inr e ↦
        rw (start_new k i is started runs e, e)
          (ground (
            arith,
            count-start_informers a is (insert k true started) (runs ++ i.address ∷ []),
            running_set a started k is,
            count-append a runs (i.address ∷ []),
            count_one a i.address,
          ))
  ]
