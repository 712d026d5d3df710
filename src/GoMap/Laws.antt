-- ===== src/GoMap/Laws.antt =====
-- The laws of the map operations.
use observability.Base.{
  suc, true, false, ◌≡◌, refl, ap, map, length, Bool-cases, inl, inr, [], ◌∷◌, none, some, arith,
  if◌then◌else◌, Text, text_eq, text_eq_iff,
}
use observability.GoMap.{GoMap, lookup, insert, remove, values, has_key, distinct_keys}

module _ {ℓ} {V : Type ℓ} where
  pub lookup-insert :
      (k j : Text) (v : V) (m : GoMap V)
      → lookup j (insert k v m) ≡ (if text_eq k j then some v else lookup j m)
  unfolding lookup insert
  lookup-insert k j v [] = refl
  lookup-insert k j v ((i, w) ∷ m) =
      ground (arith, text_eq_iff k j, text_eq_iff i k, text_eq_iff i j, lookup-insert k j v m)

  pub has_key-lookup : (k : Text) (m : GoMap V) → has_key k m ≡ false → lookup k m ≡ none
  unfolding has_key lookup
  has_key-lookup k [] h = refl
  has_key-lookup k ((j, v) ∷ m) h = ground (arith, has_key-lookup k m)

  pub lookup-remove :
      (k j : Text) (m : GoMap V)
      → lookup j (remove k m) ≡ (if text_eq k j then none else lookup j m)
  unfolding lookup remove
  lookup-remove k j [] = ground arith
  lookup-remove k j ((i, w) ∷ m) =
      ground (arith, text_eq_iff k j, text_eq_iff i k, text_eq_iff i j, lookup-remove k j m)

  pub has_key-insert :
      (k j : Text) (v : V) (m : GoMap V)
      → has_key j (insert k v m) ≡ (if text_eq k j then true else has_key j m)
  unfolding has_key insert
  has_key-insert k j v [] = refl
  has_key-insert k j v ((i, w) ∷ m) =
      ground (arith, text_eq_iff k j, text_eq_iff i k, text_eq_iff i j, has_key-insert k j v m)

  pub has_key-remove :
      (k j : Text) (m : GoMap V)
      → has_key j (remove k m) ≡ (if text_eq k j then false else has_key j m)
  unfolding has_key remove
  has_key-remove k j [] = ground arith
  has_key-remove k j ((i, w) ∷ m) =
      ground (arith, text_eq_iff k j, text_eq_iff i k, text_eq_iff i j, has_key-remove k j m)

  pub distinct_keys-insert :
      (k : Text) (v : V) (m : GoMap V)
      → distinct_keys m ≡ true
      → distinct_keys (insert k v m) ≡ true
  unfolding distinct_keys insert has_key
  distinct_keys-insert k v [] h = refl
  distinct_keys-insert k v ((i, w) ∷ m) h =
      ground (
        arith,
        text_eq_iff i k,
        text_eq_iff k i,
        has_key-insert k i v m,
        distinct_keys-insert k v m,
      )

  pub distinct_keys-remove :
      (k : Text) (m : GoMap V) → distinct_keys m ≡ true → distinct_keys (remove k m) ≡ true
  unfolding distinct_keys remove
  distinct_keys-remove k [] h = refl
  distinct_keys-remove k ((i, w) ∷ m) h =
      ground (arith, has_key-remove k i m, distinct_keys-remove k m)

  -- A write of what is there changes nothing.
  pub insert_same : (k : Text) (v : V) (m : GoMap V) → lookup k m ≡ some v → insert k v m ≡ m
  unfolding lookup insert
  insert_same k v [] h = cc
  insert_same k v ((j, w) ∷ m) h = ground (arith, insert_same k v m)

module _ {ℓ κ} {V : Type ℓ} {W : Type κ} (f : V → W) where
  -- The map with each value changed.
  unfoldable pub map_values : GoMap V → GoMap W
  map_values [] = []
  map_values ((k, v) ∷ m) = (k, f v) ∷ map_values m

  pub map_values-insert :
      (k : Text) (v : V) (m : GoMap V) → map_values (insert k v m) ≡ insert k (f v) (map_values m)
  unfolding map_values insert
  map_values-insert k v [] = refl
  map_values-insert k v ((j, w) ∷ m) = elim (Bool-cases (text_eq j k)) [
    | inl e ↦ rw e
    | inr e ↦ rw e (ap (◌∷◌ (j, f w)) (map_values-insert k v m))
  ]

  pub map_values-remove :
      (k : Text) (m : GoMap V) → map_values (remove k m) ≡ remove k (map_values m)
  unfolding map_values remove
  map_values-remove k [] = refl
  map_values-remove k ((j, w) ∷ m) = elim (Bool-cases (text_eq j k)) [
    | inl e ↦ rw e (map_values-remove k m)
    | inr e ↦ rw e (ap (◌∷◌ (j, f w)) (map_values-remove k m))
  ]

  pub values-map_values : (m : GoMap V) → values (map_values m) ≡ map f (values m)
  unfolding map_values values
  values-map_values [] = refl
  values-map_values ((k, v) ∷ m) = ap (◌∷◌ (f v)) (values-map_values m)

  pub length-map_values : (m : GoMap V) → length (map_values m) ≡ length m
  unfolding map_values
  length-map_values [] = refl
  length-map_values ((k, v) ∷ m) = ap suc (length-map_values m)
