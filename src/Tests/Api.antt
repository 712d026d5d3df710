-- ===== src/Tests/Api.antt =====
-- The copies of pkg/apis at concrete inputs.
use observability.Base.{◌≡◌, refl, true, text_eq, [], ◌∷◌, codes}
use observability.GoMap.{lookup, distinct_keys, has_key}
use observability.Api.{MetricSinkMap, str, bool, deep_copy}
use observability.Api.Copy.{kept, lookup-deep_copy}

abbrev settings : MetricSinkMap
settings = (codes "type", str (codes "cpu")) ∷ (codes "percpu", bool true) ∷ []

settings_distinct : distinct_keys settings ≡ true
unfolding distinct_keys has_key text_eq
settings_distinct = refl

lookup-deep_copy_example :
    lookup (codes "percpu") (deep_copy settings) ≡ kept (lookup (codes "percpu") settings)
lookup-deep_copy_example = lookup-deep_copy (codes "percpu") settings settings_distinct
