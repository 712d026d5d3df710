-- ===== src/Cmd/Exit.antt =====
-- The steps of a start-up, each of which may end the process, and the cluster's name.
use observability.Base.{◌≡◌, refl, subst, List, [], ◌∷◌, Option, none, some, Text, codes}
use observability.GoMap.{GoMap, lookup}
use observability.Client.Groups.{Made, made, failed}

-- A value, or the end of the process with a message.
pub data Exit (A : Type 0) : Type 0 where
  up : A → Exit A
  fatal : Text → Exit A

infixl 5 ◌>>=◌
abbrev pub ◌>>=◌ : {A B : Type 0} → Exit A → (A → Exit B) → Exit B
◌>>=◌ (up a) f = f a
◌>>=◌ (fatal m) f = fatal m

-- `if err != nil { log.Fatal(err.Error()) }`, for a call that returns a value and for one that does
-- not.
abbrev pub or_fatal : {A : Type 0} → Made A → Exit A
or_fatal (made a) = up a
or_fatal (failed e) = fatal e

abbrev pub no_error : Option Text → Exit Unit
no_error none = up tt
no_error (some e) = fatal e

-- `Labels["pks-system/cluster.name"]`.
unfoldable pub cluster_name_label : GoMap Text → Text
unfolding lookup
cluster_name_label labels = elim (lookup (codes "pks-system/cluster.name") labels) [
  | none ↦ []
  | some v ↦ v
]

-- The name of the cluster, by the labels of the nodes.
unfoldable pub cluster_name_of : List (GoMap Text) → Exit Text
unfolding cluster_name_label
cluster_name_of [] = fatal (codes "cannot find any nodes")
cluster_name_of (labels ∷ nodes) = up (cluster_name_label labels)

-- What holds of every process that comes up.
abbrev pub WhenUp : {A : Type 0} → (A → Type 0) → Exit A → Type 0
WhenUp {A} P m = (a : A) → m ≡ up a → P a

pub step_known-WhenUp :
    {A B : Type 0} (P : B → Type 0) (m : Exit A) (f : A → Exit B)
    → ((a : A) → m ≡ up a → WhenUp P (f a))
    → WhenUp P (m >>= f)
step_known-WhenUp P (up a) f h b e = h a refl b e
step_known-WhenUp P (fatal m) f h b e = cc

pub step-WhenUp :
    {A B : Type 0} (P : B → Type 0) (m : Exit A) (f : A → Exit B)
    → ((a : A) → WhenUp P (f a))
    → WhenUp P (m >>= f)
step-WhenUp P m f h = step_known-WhenUp P m f (λ a _. h a)

pub up-WhenUp : {A : Type 0} (P : A → Type 0) (a : A) → P a → WhenUp P (up a)
up-WhenUp P a p b e = subst P (up_injective e) p
  where
    up_injective : {C : Type 0} {c d : C} → up c ≡ up d → c ≡ d
    up_injective e = cc
