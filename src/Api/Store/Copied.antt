-- ===== src/Api/Store/Copied.antt =====
-- What a copy has to do, and the rules for the commands that copies are made of: it reads no cell
-- that is not there, it only adds cells, and it stands for its value by the added cells alone.
use observability.Base.{
  map, ℕ, zero, suc, ◌≤◌, ◌<◌, ◌≡◌, refl, ◌∙◌, Option, none, some, List, [], ◌∷◌, ◌++◌, length,
  length-append, arith,
}
use mathlib.Core.Option
use observability.Api.Store.{
  get, Cmd, pure, ◌>>=◌, and_then, Stored, alloc, load, each, copy_ptr, view_ptr, view_each,
}

-- The two memories have the same cells from `lo` up to `hi`.
abbrev pub SameOn {ℓ} : {C : Type ℓ} → ℕ → ℕ → List C → List C → Type ℓ
SameOn lo hi h g = (p : ℕ) → lo ≤ p → p < hi → get g p ≡ get h p

pub get-append {ℓ} : {C : Type ℓ} (h k : List C) (p : ℕ) → p < length h → get (h ++ k) p ≡ get h p
unfolding get
get-append [] k p l = elim l [ ]
get-append (c ∷ h) k zero l = refl
get-append (c ∷ h) k (suc p) l = get-append h k p (omega arith)

pub get-last {ℓ} : {C : Type ℓ} (h : List C) (c : C) → get (h ++ c ∷ []) (length h) ≡ some c
unfolding get
get-last [] c = refl
get-last (d ∷ h) c = get-last h c

pub get_inside {ℓ} : {C : Type ℓ} (h : List C) (p : ℕ) {c : C} → get h p ≡ some c → p < length h
unfolding get
get_inside [] p e = cc
get_inside (d ∷ h) zero e = omega arith
get_inside (d ∷ h) (suc p) e = omega (arith, get_inside h p e)

pub and_then-some :
    {A B : Type 0} (o : Option A) (f : A → Option B) {b : B}
    → and_then o f ≡ some b
    → (a : A) × (o ≡ some a) × (f a ≡ some b)
and_then-some none f e = cc
and_then-some (some a) f e = (a, refl, e)

module _ {C : Type 0} where
  -- A run of a copy.
  pub record Copied {A V : Type 0} (view : List C → A → Option V) (v : V) (h : List C)
      (r : Option (A × List C)) : Type 0 where
    pub out : A
    pub heap : List C
    pub returns : r ≡ some (out, heap)
    pub grows : length h ≤ length heap
    pub keeps : SameOn 0 (length h) h heap
    pub reads : (g : List C) → SameOn (length h) (length heap) heap g → view g out ≡ some v

  -- A command copies what a value stands for, up to `copied`.
  abbrev pub Copies : {A V : Type 0} → (List C → A → Option V) → (V → V) → (A → Cmd C A) → Type 0
  Copies {A} {V} view copied into =
      (h : List C) (a : A) (v : V) → view h a ≡ some v → Copied view (copied v) h (into a h)

  -- A view depends on the cells that are there.
  abbrev pub Stable : {A V : Type 0} → (List C → A → Option V) → Type 0
  Stable {A} {V} view =
      (h g : List C) (a : A) (v : V)
      → view h a ≡ some v
      → SameOn 0 (length h) h g
      → view g a ≡ some v

  abbrev pub IsStored : {A : Type 0} → Stored C A → Type 0
  IsStored {A} s = (a : A) → s.unwrap (s.wrap a) ≡ some a

  -- A second copy, into the memory of the first, leaves the first as it is.
  module _ {A B V W : Type 0} {view : List C → A → Option V} {view' : List C → B → Option W} {v : V}
      {w : W} {h : List C} {r : Option (A × List C)} {r' : Option (B × List C)}
      (p : Copied view v h r) (q : Copied view' w p.heap r') where
    pub both_grow : length h ≤ length q.heap
    both_grow = omega (arith, p.grows, q.grows)

    pub both_keep : SameOn 0 (length h) h q.heap
    both_keep a l m = q.keeps a l (omega (arith, p.grows)) ∙ p.keeps a l m

    pub first_reads :
        (g : List C) → SameOn (length h) (length q.heap) q.heap g → view g p.out ≡ some v
    first_reads g s =
        p.reads g (λ a l m. s a l (omega (arith, q.grows)) ∙ q.keeps a (omega arith) m)

    pub second_reads :
        (g : List C) → SameOn (length h) (length q.heap) q.heap g → view' g q.out ≡ some w
    second_reads g s = q.reads g (λ a l m. s a (omega (arith, p.grows)) m)

  pub pure-Copied :
      {A V : Type 0} (view : List C → A → Option V) (a : A) (v : V) (h : List C)
      → ((g : List C) → view g a ≡ some v)
      → Copied view v h (pure a h)
  pure-Copied view a v h e = record {
    out = a;
    heap = h;
    returns = refl;
    grows = omega arith;
    keeps = λ a l m. refl;
    reads = λ g s. e g;
  }

  module _ {A V : Type 0} {view : List C → A → Option V} where
    pub view_each-Stable : Stable view → Stable (view_each view)
    unfolding view_each
    view_each-Stable st h g [] vs e s = e
    view_each-Stable st h g (x ∷ xs) vs e s =
        let (v, a, e') = and_then-some (view h x) _ e in
        let (us, b, e'') = and_then-some (view_each view h xs) _ e' in
        rw (st h g x v a s, view_each-Stable st h g xs us b s) e''

    pub each-Copies :
        {copied : V → V} {into : A → Cmd C A}
        → Stable view
        → Copies view copied into
        → Copies (view_each view) (map copied) (each into)
    unfolding each view_each
    each-Copies st k h [] [] e = pure-Copied (view_each view) [] [] h (λ g. refl)
    each-Copies st k h [] (v ∷ vs) e = cc
    each-Copies {copied} {into} st k h (x ∷ xs) vs e =
        let (v, a, e') = and_then-some (view h x) _ e in
        let (us, b, e'') = and_then-some (view_each view h xs) _ e' in
        let p = k h x v a in
        let q = each-Copies st k p.heap xs us (view_each-Stable st h p.heap xs us b p.keeps) in
        let whole : vs ≡ v ∷ us = cc in
        rw whole (record {
          out = p.out ∷ q.out;
          heap = q.heap;
          returns = rw (p.returns, q.returns, ◌>>=◌);
          grows = both_grow p q;
          keeps = both_keep p q;
          reads = λ g s. rw (first_reads p q g s, second_reads p q g s);
        })

  module _ {A V : Type 0} (s : Stored C A) where
    pub view_ptr-some :
        (view : List C → A → Option V) (h : List C) (p : ℕ) (v : Option V)
        → view_ptr s view h (some p) ≡ some v
        → (c : C) × (a : A) × (w : V) × (get h p ≡ some c)
          × (s.unwrap c ≡ some a)
          × (view h a ≡ some w)
          × (v ≡ some w)
    unfolding view_ptr
    view_ptr-some view h p v e =
        let (c, at, e1) = and_then-some (get h p) _ e in
        let (a, is, e2) = and_then-some (s.unwrap c) _ e1 in
        let (w, sees, e3) = and_then-some (view h a) _ e2 in (c, a, w, at, is, sees, cc)

    pub view_ptr-Stable : {view : List C → A → Option V} → Stable view → Stable (view_ptr s view)
    unfolding view_ptr
    view_ptr-Stable st h g none v e same = e
    view_ptr-Stable {view} st h g (some p) v e same =
        let (c, a, w, at, is, sees, whole) = view_ptr-some view h p v e in
        rw (same p (omega arith) (get_inside h p at) ∙ at, is, st h g a w sees same, whole)

    -- A copy that is put into a new cell.
    pub stored-Copied :
        {view : List C → A → Option V} {w : V}
        → IsStored s
        → (h : List C) (m : Cmd C A) → Copied view w h (m h)
        → Copied (view_ptr s view) (some w) h ((m >>= λ b. alloc s b >>= λ q. pure (some q)) h)
    unfolding view_ptr alloc
    stored-Copied {view} {w} st h m q =
        let longer = length-append q.heap (s.wrap q.out ∷ []) in
        record {
          out = some (length q.heap);
          heap = q.heap ++ s.wrap q.out ∷ [];
          returns = rw (q.returns, ◌>>=◌);
          grows = omega (arith, q.grows, longer);
          keeps = λ b l m.
              get-append q.heap (s.wrap q.out ∷ []) b (omega (arith, q.grows)) ∙ q.keeps b l m;
          reads = λ g same.
              let here = same (length q.heap) q.grows (omega (arith, longer)) ∙ get-last q.heap _ in
              let body = q.reads g (λ b l m.
                same b l (omega (arith, longer)) ∙ get-append q.heap (s.wrap q.out ∷ []) b m) in
              rw (here, st q.out, body);
        }

    pub copy_ptr-Copies :
        {view : List C → A → Option V} {copied : V → V} {into : A → Cmd C A}
        → IsStored s
        → Copies view copied into
        → Copies (view_ptr s view) (Option.map copied) (copy_ptr s into)
    unfolding copy_ptr view_ptr alloc load
    copy_ptr-Copies {view} st k h none none e =
        pure-Copied (view_ptr s view) none none h (λ g. refl)
    copy_ptr-Copies st k h none (some v) e = cc
    copy_ptr-Copies {view} {copied} {into} st k h (some p) v e =
        let (c, a, w, at, is, sees, whole) = view_ptr-some view h p v e in
        rw (whole, at, is, ◌>>=◌) (stored-Copied st h (into a) (k h a w sees))
