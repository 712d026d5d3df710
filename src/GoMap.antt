-- ===== src/GoMap.antt =====
-- Go maps with string keys, as association lists in the order in which the next `range` meets the
-- keys. Go leaves that order open: two lists with the same entries are the same map, so what the
-- program makes of a map has to be stated for every order of its entries.
pub mod Laws
pub mod Alike
use observability.Base.{
  Bool, true, false, List, [], ◌∷◌, Option, none, some, if◌then◌else◌, Text, text_eq,
}

abbrev pub GoMap {ℓ} : Type ℓ → Type ℓ
GoMap V = List (Text × V)

module _ {ℓ} {V : Type ℓ} where
  -- `v, ok := m[k]`.
  unfoldable pub lookup : Text → GoMap V → Option V
  lookup k [] = none
  lookup k ((j, v) ∷ m) = if text_eq j k then some v else lookup k m

  -- `m[k] = v`.
  unfoldable pub insert : Text → V → GoMap V → GoMap V
  insert k v [] = (k, v) ∷ []
  insert k v ((j, w) ∷ m) = if text_eq j k then (j, v) ∷ m else (j, w) ∷ insert k v m

  -- `delete(m, k)`.
  unfoldable pub remove : Text → GoMap V → GoMap V
  remove k [] = []
  remove k ((j, w) ∷ m) = let rest = remove k m in if text_eq j k then rest else (j, w) ∷ rest

  -- The values in the order of `range`.
  unfoldable pub values : GoMap V → List V
  values [] = []
  values ((k, v) ∷ m) = v ∷ values m

  unfoldable pub has_key : Text → GoMap V → Bool
  has_key k [] = false
  has_key k ((j, v) ∷ m) = if text_eq j k then true else has_key k m

  -- No key stands twice.
  unfoldable pub distinct_keys : GoMap V → Bool
  distinct_keys [] = true
  distinct_keys ((k, v) ∷ m) = if has_key k m then false else distinct_keys m
