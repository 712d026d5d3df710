-- ===== src/Api/Copy.antt =====
-- What a copy of a map of settings keeps.
use observability.Base.{
  true, ◌≡◌, refl, [], ◌∷◌, Option, none, some, arith, Text, text_eq_iff, if◌then◌else◌,
}
use observability.GoMap.{lookup, insert, has_key, distinct_keys}
use observability.GoMap.Laws.{lookup-insert, has_key-lookup}
use observability.Api.{
  Value, str, int, float, bool, null, array, object, MetricSinkMap, is_copied, deep_copy_onto,
  deep_copy,
}

-- What is there of a value in a copy: a string and an int, and nothing of the rest.
abbrev pub kept : Option Value → Option Value
kept (some (str s)) = some (str s)
kept (some (int z)) = some (int z)
kept _ = none

kept_is : (v : Value) → kept (some v) ≡ (if is_copied v then some v else none)
unfolding is_copied
kept_is (str s) = refl
kept_is (int z) = refl
kept_is (float t) = refl
kept_is (bool b) = refl
kept_is null = refl
kept_is (array a) = refl
kept_is (object f) = refl

abbrev or_else : Option Value → Option Value → Option Value
or_else none o = o
or_else (some v) o = some v

lookup-deep_copy_onto :
    (k : Text) (copy m : MetricSinkMap)
    → distinct_keys m ≡ true
    → lookup k (deep_copy_onto copy m) ≡ or_else (kept (lookup k m)) (lookup k copy)
unfolding deep_copy_onto distinct_keys has_key lookup
lookup-deep_copy_onto k copy [] h = refl
lookup-deep_copy_onto k copy ((j, v) ∷ m) h = ground (
  arith,
  lookup-deep_copy_onto k (if is_copied v then insert j v copy else copy) m,
  lookup-insert j k v copy,
  has_key-lookup j m,
  text_eq_iff j k,
  kept_is v,
)

-- In a copy of a map whose keys are distinct, a key has the value that it has in the map if that is
-- a string or an `int`, and no value if it is a Boolean, a number from JSON, a list, a map or
-- `nil`.
pub lookup-deep_copy :
    (k : Text) (m : MetricSinkMap)
    → distinct_keys m ≡ true
    → lookup k (deep_copy m) ≡ kept (lookup k m)
unfolding deep_copy lookup
lookup-deep_copy k m h = ground (arith, lookup-deep_copy_onto k [] m h)
