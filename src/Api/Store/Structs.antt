-- ===== src/Api/Store/Structs.antt =====
-- Copies of structures with two fields that are copied. `x` and `y` are the fields, `build` sets them.
use observability.Base.{◌≡◌, Option, some, List}
use observability.Api.Store.{Cmd, pure, ◌>>=◌, and_then}
use observability.Api.Store.Copied.{
  Copies, Stable, and_then-some, first_reads, second_reads, both_grow, both_keep,
}

-- Two parts of a value that is there are there.
parts :
    {V W U : Type 0} {o : Option V} {o' : Option W} {f : V → W → U} {u : U}
    → and_then o (λ v. and_then o' (λ w. some (f v w))) ≡ some u
    → (v : V) × (w : W) × (o ≡ some v) × (o' ≡ some w) × (u ≡ f v w)
parts {o} {o'} e =
    let (v, first, e') = and_then-some o _ e in
    let (w, second, e'') = and_then-some o' _ e' in (v, w, first, second, cc)

module _ {C A B S V W U : Type 0} (x : S → A) (y : S → B) (make : S → V → W → U) where
  pub two-Stable :
      {view : List C → A → Option V} {view' : List C → B → Option W}
      → Stable view
      → Stable view'
      → Stable
          (λ h s. and_then (view h (x s)) (λ v. and_then (view' h (y s)) (λ w. some (make s v w))))
  two-Stable st st' h g s u e same =
      let (v, w, first, second, whole) = parts e in
      rw (st h g (x s) v first same, st' h g (y s) w second same, whole)

  pub two-Copies :
      {view : List C → A → Option V} {view' : List C → B → Option W} {copied : V → V}
      {copied' : W → W} {into : A → Cmd C A} {into' : B → Cmd C B} (build : S → A → B → S)
      (copied'' : U → U)
      → ((s : S) (v : V) (w : W) → copied'' (make s v w) ≡ make s (copied v) (copied' w))
      → ((s : S) (a : A) (b : B)
          → (x (build s a b) ≡ a) × (y (build s a b) ≡ b) × (make (build s a b) ≡ make s))
      → Stable view'
      → Copies view copied into
      → Copies view' copied' into'
      → Copies
          (λ h s. and_then (view h (x s)) (λ v. and_then (view' h (y s)) (λ w. some (make s v w))))
          copied''
          (λ s. into (x s) >>= λ a. into' (y s) >>= λ b. pure (build s a b))
  two-Copies build copied'' commute fields st k k' h s u e =
      let (v, w, first, second, whole) = parts e in
      let p = k h (x s) v first in
      let q = k' p.heap (y s) w (st h p.heap (y s) w second p.keeps) in
      rw (whole, commute s v w)
        (record {
          out = build s p.out q.out;
          heap = q.heap;
          returns = rw (p.returns, q.returns, ◌>>=◌);
          grows = both_grow p q;
          keeps = both_keep p q;
          reads = λ g same.
              let (l, r, m) = fields s p.out q.out in
              rw (l, r, m, first_reads p q g same, second_reads p q g same);
        })
