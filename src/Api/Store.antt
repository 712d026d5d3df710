-- ===== src/Api/Store.antt =====
-- The memory of a Go program, as far as copying needs it: cells at addresses, a pointer that is an
-- address or `nil`, and commands that read cells and allocate new ones.
pub mod Copied
pub mod Structs
use observability.Base.{ℕ, zero, suc, Option, none, some, List, [], ◌∷◌, ◌++◌, length}

-- The cell at an address.
unfoldable pub get {ℓ} : {C : Type ℓ} → List C → ℕ → Option C
get [] p = none
get (c ∷ h) zero = some c
get (c ∷ h) (suc p) = get h p

abbrev pub Ptr : Type 0
Ptr = Option ℕ

-- A command over cells of type `C`; `none` is a fault.
abbrev pub Cmd : Type 0 → Type 0 → Type 0
Cmd C A = List C → Option (A × List C)

abbrev pub pure : {C A : Type 0} → A → Cmd C A
pure a h = some (a, h)

infixl 5 ◌>>=◌
abbrev pub ◌>>=◌ : {C A B : Type 0} → Cmd C A → (A → Cmd C B) → Cmd C B
◌>>=◌ m f h = elim (m h) [ none ↦ none | some (a, h') ↦ f a h' ]

abbrev pub and_then {ℓ κ} : {A : Type ℓ} {B : Type κ} → Option A → (A → Option B) → Option B
and_then none f = none
and_then (some a) f = f a

-- A type of values that stand in cells of their own.
pub record Stored (C A : Type 0) : Type 0 where
  pub wrap : A → C
  pub unwrap : C → Option A

module _ {C : Type 0} where
  -- `new`, with the first value that is written.
  unfoldable pub alloc : {A : Type 0} → Stored C A → A → Cmd C ℕ
  alloc s a h = some (length h, h ++ s.wrap a ∷ [])

  -- `*p`.
  unfoldable pub load : {A : Type 0} → Stored C A → ℕ → Cmd C A
  load s p h = and_then (get h p) (λ c. and_then (s.unwrap c) (λ a. some (a, h)))

  -- The round for each element, in order.
  unfoldable pub each : {A : Type 0} → (A → Cmd C A) → List A → Cmd C (List A)
  each into [] = pure []
  each into (x ∷ xs) = do y ← into x; ys ← each into xs; pure (y ∷ ys)

  -- What is behind a pointer is copied into a new cell, and `nil` to `nil`.
  unfoldable pub copy_ptr : {A : Type 0} → Stored C A → (A → Cmd C A) → Ptr → Cmd C Ptr
  unfolding load alloc
  copy_ptr s into none = pure none
  copy_ptr s into (some p) = do a ← load s p; b ← into a; q ← alloc s b; pure (some q)

  -- The value that a pointer stands for, read along `view`.
  unfoldable pub view_ptr :
      {A V : Type 0} → Stored C A → (List C → A → Option V) → List C → Ptr → Option (Option V)
  view_ptr s view h none = some none
  view_ptr s view h (some p) =
      and_then (get h p)
        (λ c. and_then (s.unwrap c) (λ a. and_then (view h a) (λ v. some (some v))))

  unfoldable pub view_each :
      {A V : Type 0} → (List C → A → Option V) → List C → List A → Option (List V)
  view_each view h [] = some []
  view_each view h (x ∷ xs) =
      and_then (view h x) (λ v. and_then (view_each view h xs) (λ vs. some (v ∷ vs)))
