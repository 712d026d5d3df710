-- ===== src/GoMap/Alike.antt =====
-- Maps whose values look alike, and maps that hold the values of a function.
use observability.Base.{true, ◌≡◌, sym, ap, ◌∙◌, Option, none, some, Text, text_eq, if◌then◌else◌}
use observability.GoMap.{GoMap, lookup, insert, remove, distinct_keys}
use observability.GoMap.Laws.{
  insert_same, map_values, map_values-insert, map_values-remove, lookup-insert, lookup-remove,
  distinct_keys-insert, distinct_keys-remove,
}

module _ {ℓ κ} {V : Type ℓ} {W : Type κ} (f : V → W) where
  pub insert_alike :
      (k : Text) (v : V) (m m' : GoMap V)
      → map_values f m ≡ map_values f m'
      → map_values f (insert k v m) ≡ map_values f (insert k v m')
  insert_alike k v m m' h =
      map_values-insert f k v m ∙ ap (insert k (f v)) h ∙ sym (map_values-insert f k v m')

  pub remove_alike :
      (k : Text) (m m' : GoMap V)
      → map_values f m ≡ map_values f m'
      → map_values f (remove k m) ≡ map_values f (remove k m')
  remove_alike k m m' h = map_values-remove f k m ∙ ap (remove k) h ∙ sym (map_values-remove f k m')

  -- A write of a value that looks like the one there.
  pub insert_unchanged :
      (k : Text) (o n : V) (m m' : GoMap V)
      → map_values f m ≡ map_values f m'
      → lookup k m' ≡ some o
      → f o ≡ f n
      → map_values f m ≡ map_values f (insert k n m')
  insert_unchanged k o n m m' h there e =
      h
      ∙ sym (ap (map_values f) (insert_same k o m' there))
      ∙ map_values-insert f k o m'
      ∙ ap (λ v. insert k v (map_values f m')) e
      ∙ sym (map_values-insert f k n m')

module _ {ℓ} {V : Type ℓ} where
  -- A map holds a function.
  pub record IsMapOf (g : Text → Option V) (m : GoMap V) : Type ℓ where
    pub distinct : distinct_keys m ≡ true
    pub holds : (j : Text) → lookup j m ≡ g j

  pub insert-IsMapOf :
      (k : Text) (v : V) (g : Text → Option V) (m : GoMap V)
      → IsMapOf g m
      → IsMapOf (λ j. if text_eq k j then some v else g j) (insert k v m)
  insert-IsMapOf k v g m h = record {
    distinct = distinct_keys-insert k v m h.distinct;
    holds = λ j. lookup-insert k j v m ∙ ap (λ x. if text_eq k j then some v else x) (h.holds j);
  }

  pub remove-IsMapOf :
      (k : Text) (g : Text → Option V) (m : GoMap V)
      → IsMapOf g m
      → IsMapOf (λ j. if text_eq k j then none else g j) (remove k m)
  remove-IsMapOf k g m h = record {
    distinct = distinct_keys-remove k m h.distinct;
    holds = λ j. lookup-remove k j m ∙ ap (λ x. if text_eq k j then none else x) (h.holds j);
  }
