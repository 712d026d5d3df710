-- ===== src/Informers/Keys.antt =====
-- Counts over the informers of a factory, and what a write of a key changes in them.
use observability.Base.{
  ℕ, ◌+◌, ◌≤◌, ◌==◌, ◌≡◌, refl, ap, List, [], ◌∷◌, ◌++◌, none, some, Bool, true, false, Bool-cases,
  inl, inr, arith, Text, text_eq, text_eq_iff, text_eq_refl, if◌then◌else◌,
}
use observability.GoMap.{GoMap, lookup, insert, has_key}
use observability.GoMap.Laws.{lookup-insert}
use observability.Informers.Factory.{Informer, is_set}

abbrev pub one_if : Bool → ℕ
one_if b = if b then 1 else 0

-- How often an address stands in a list.
unfoldable pub count : ℕ → List ℕ → ℕ
count a [] = 0
count a (x ∷ xs) = one_if (a == x) + count a xs

pub count-append : (a : ℕ) (xs ys : List ℕ) → count a (xs ++ ys) ≡ count a xs + count a ys
unfolding count
count-append a [] ys = omega arith
count-append a (x ∷ xs) ys = omega (arith, count-append a xs ys)

pub count_one : (a x : ℕ) → count a (x ∷ []) ≡ one_if (a == x)
unfolding count
count_one a x = omega arith

pub is_set-insert :
    (k j : Text) (m : GoMap Bool)
    → is_set j (insert k true m) ≡ (if text_eq k j then true else is_set j m)
unfolding is_set
is_set-insert k j m = ground (arith, lookup-insert k j true m)

module _ {L W : Type 0} where
  -- The informers at an address.
  unfoldable pub count_all : ℕ → GoMap (Informer L W) → ℕ
  count_all a [] = 0
  count_all a ((k, i) ∷ is) = one_if (a == i.address) + count_all a is

  -- Those of a started type.
  unfoldable pub count_running : ℕ → GoMap Bool → GoMap (Informer L W) → ℕ
  count_running a started [] = 0
  count_running a started ((k, i) ∷ is) =
      let rest = count_running a started is in
      if is_set k started then one_if (a == i.address) + rest else rest

  pub has_key-none :
      (k : Text) (is : GoMap (Informer L W)) → lookup k is ≡ none → has_key k is ≡ false
  unfolding lookup has_key
  has_key-none k [] e = refl
  has_key-none k ((j, i) ∷ is) e = ground (arith, has_key-none k is)

  pub running_most :
      (a : ℕ) (started : GoMap Bool) (is : GoMap (Informer L W))
      → count_running a started is ≤ count_all a is
  unfolding count_running count_all
  running_most a started [] = omega arith
  running_most a started ((k, i) ∷ is) = ground (arith, running_most a started is)

  pub count_all-insert :
      (a : ℕ) (k : Text) (i : Informer L W) (is : GoMap (Informer L W))
      → has_key k is ≡ false
      → count_all a (insert k i is) ≡ one_if (a == i.address) + count_all a is
  unfolding count_all insert has_key
  count_all-insert a k i [] e = refl
  count_all-insert a k i ((j, w) ∷ is) e = ground (arith, count_all-insert a k i is)

  pub running-insert :
      (a : ℕ) (started : GoMap Bool) (k : Text) (i : Informer L W) (is : GoMap (Informer L W))
      → has_key k is ≡ false
      → is_set k started ≡ false
      → count_running a started (insert k i is) ≡ count_running a started is
  unfolding count_running insert has_key
  running-insert a started k i [] e s = rw s
  running-insert a started k i ((j, w) ∷ is) e s = ground (arith, running-insert a started k i is)

  -- A key that is not there may be set.
  pub running_set :
      (a : ℕ) (started : GoMap Bool) (k : Text) (is : GoMap (Informer L W))
      → has_key k is ≡ false
      → count_running a (insert k true started) is ≡ count_running a started is
  unfolding count_running has_key
  running_set a started k [] e = refl
  running_set a started k ((j, w) ∷ is) e = ground (
    arith,
    is_set-insert k j started,
    text_eq_iff k j,
    text_eq_iff j k,
    running_set a started k is,
  )

  pub running_all :
      (a : ℕ) (started : GoMap Bool) (is : GoMap (Informer L W))
      → ((j : Text) → has_key j is ≡ true → is_set j started ≡ true)
      → count_running a started is ≡ count_all a is
  unfolding count_running count_all has_key
  running_all a started [] h = refl
  running_all a started ((k, i) ∷ is) h =
      ground (arith, h k, text_eq_refl k, running_all a started is (λ j e. h j (ground arith)))

  pub count_all_there :
      (k : Text) (i : Informer L W) (is : GoMap (Informer L W))
      → lookup k is ≡ some i
      → 1 ≤ count_all i.address is
  unfolding lookup count_all
  count_all_there k i [] e = cc
  count_all_there k i ((j, w) ∷ is) e = elim (Bool-cases (text_eq j k)) [
    | inl t ↦ ground (arith, ap Informer.address)
    | inr f ↦ ground (arith, count_all_there k i is)
  ]
