-- ===== src/Sink/Config/Order.antt =====
-- The sorted part of the configuration does not depend on the order in which Go ranges over a map.
use mathlib.Core.List.{Perm, Permᴰ, foldr}
use mathlib.Core.Logic.{∥∥₁_elim}
use native.Mathlib.Nat.{ℕ_set}
use observability.Base.{
  ◌+◌, length, Bool, true, false, not, ◌&&◌, ◌≡◌, refl, sym, ap, ap₂, subst, ◌∙◌, List, [], ◌∷◌,
  ◌++◌, arith, ◌==◌, if◌then◌else◌, Text, text_eq, text_lt, text_eq_iff, All, Bool-cases, inl, inr,
}
use observability.Api.{LogSink, ClusterLogSink}
use observability.GoMap.{GoMap, values}
use observability.Sink.Config.{
  SyslogSink, sink_less, cluster_sink_less, sort_insert, sort_slice, syslog_sinks,
  syslog_cluster_sinks, is_syslog, syslog_sink, syslog_cluster_sink, syslog_config,
  sink_list_string, Config,
}

text_lt_trans : (a b c : Text) → text_lt a b ≡ true → text_lt b c ≡ true → text_lt a c ≡ true
unfolding text_lt
text_lt_trans a b [] h k = cc
text_lt_trans a [] (z ∷ c) h k = cc
text_lt_trans [] (y ∷ b) (z ∷ c) h k = refl
text_lt_trans (x ∷ a) (y ∷ b) (z ∷ c) h k = ground (arith, text_lt_trans a b c)

text_lt_irrefl : (a : Text) → text_lt a a ≡ false
unfolding text_lt
text_lt_irrefl [] = refl
text_lt_irrefl (x ∷ a) = ground (arith, text_lt_irrefl a)

-- Two texts that are not equal stand in one order and not in the other.
text_lt_total : (a b : Text) → text_eq a b ≡ false → text_lt b a ≡ not (text_lt a b)
unfolding text_lt text_eq
text_lt_total [] [] h = cc
text_lt_total [] (y ∷ b) h = refl
text_lt_total (x ∷ a) [] h = refl
text_lt_total (x ∷ a) (y ∷ b) h = ground (arith, text_lt_total a b)

-- An order by which the list below is sorted: transitive, and total on values that are no tie.
record IsOrder {ℓ} {A : Type ℓ} (less tie : A → A → Bool) : Type ℓ where
  transitive : (a b c : A) → less a b ≡ true → less b c ≡ true → less a c ≡ true
  total : (a b : A) → tie a b ≡ false → less b a ≡ not (less a b)

module _ {ℓ} {A : Type ℓ} {less tie : A → A → Bool} (o : IsOrder less tie) where
  sort_insert_comm :
      (x y : A) (l : List A)
      → tie x y ≡ false
      → sort_insert less x (sort_insert less y l) ≡ sort_insert less y (sort_insert less x l)
  unfolding sort_insert
  sort_insert_comm x y [] h = ground (arith, o.total x y h)
  sort_insert_comm x y (z ∷ l) h =
      ground
        (arith, o.total x y h, o.transitive x y z, o.transitive y x z, sort_insert_comm x y l h)

-- Every two values of a list are related.
abbrev pub Pairwise {ℓ κ} : {A : Type ℓ} → (A → A → Type κ) → List A → Type κ
Pairwise R [] = Unit
Pairwise R (x ∷ xs) = All (R x) xs × Pairwise R xs

module _ {ℓ κ} {A : Type ℓ} where
  All-perm : (P : A → Type κ) {xs ys : List A} → Permᴰ xs ys → All P xs → All P ys
  All-perm P Permᴰ.nil h = h
  All-perm P (Permᴰ.cons e p) h = (subst P e h.0, All-perm P p h.1)
  All-perm P (Permᴰ.swap e f) h = (subst P f h.1.0, (subst P e h.0, h.1.1))
  All-perm P (Permᴰ.trans p q) h = All-perm P q (All-perm P p h)

module _ {ℓ κ} {A : Type ℓ} (R : A → A → Type κ) (symmetric : (a b : A) → R a b → R b a) where
  Pairwise-perm : {xs ys : List A} → Permᴰ xs ys → Pairwise R xs → Pairwise R ys
  Pairwise-perm Permᴰ.nil h = h
  Pairwise-perm (Permᴰ.cons {l₂ = l} e p) h =
      (subst (λ a. All (R a) l) e (All-perm (R _) p h.0), Pairwise-perm p h.1)
  Pairwise-perm (Permᴰ.swap {a = x} {b = y} {a' = x'} {l = l} e f) h = (
    (
      subst (λ a. R x' a) e (subst (λ b. R b x) f (symmetric x y h.0.0)),
      subst (λ a. All (R a) l) f h.1.0,
    ),
    (subst (λ a. All (R a) l) e h.0.1, h.1.1),
  )
  Pairwise-perm (Permᴰ.trans p q) h = Pairwise-perm q (Pairwise-perm p h)

-- A fold whose steps commute on related values does not depend on the order of its list.
module _ {ℓ κ μ} {A : Type ℓ} {B : Type μ} (R : A → A → Type κ)
    (symmetric : (a b : A) → R a b → R b a) (add : A → B → B)
    (commute : (a b : A) (t : B) → R a b → add a (add b t) ≡ add b (add a t)) (z : B) where
  fold-perm : {xs ys : List A} → Permᴰ xs ys → Pairwise R xs → foldr add z xs ≡ foldr add z ys
  fold-perm Permᴰ.nil h = refl
  fold-perm (Permᴰ.cons {l₂ = l} e p) h =
      ap (add _) (fold-perm p h.1) ∙ ap (λ a. add a (foldr add z l)) e
  fold-perm (Permᴰ.swap {l = l} e f) h =
      commute _ _ (foldr add z l) h.0.0 ∙ ap₂ (λ a b. add a (add b (foldr add z l))) f e
  fold-perm (Permᴰ.trans p q) h = fold-perm p h ∙ fold-perm q (Pairwise-perm R symmetric p h)

abbrev add_sink : Text × LogSink → List SyslogSink → List SyslogSink
add_sink (k, s) t = if is_syslog s.spec then sort_insert sink_less (syslog_sink s) t else t

abbrev add_cluster_sink : Text × ClusterLogSink → List SyslogSink → List SyslogSink
add_cluster_sink (k, s) t =
    if is_syslog s.spec then sort_insert cluster_sink_less (syslog_cluster_sink s) t else t

sorted-fold :
    (m : GoMap LogSink) → sort_slice sink_less (syslog_sinks (values m)) ≡ foldr add_sink [] m
unfolding sort_slice syslog_sinks values
sorted-fold [] = refl
sorted-fold ((k, s) ∷ m) = elim (Bool-cases (is_syslog s.spec)) [
  | inl e ↦ rw e (ap (sort_insert sink_less (syslog_sink s)) (sorted-fold m))
  | inr e ↦ rw e (sorted-fold m)
]

cluster_sorted-fold :
    (m : GoMap ClusterLogSink)
    → sort_slice cluster_sink_less (syslog_cluster_sinks (values m)) ≡ foldr add_cluster_sink [] m
unfolding sort_slice syslog_cluster_sinks values
cluster_sorted-fold [] = refl
cluster_sorted-fold ((k, s) ∷ m) = elim (Bool-cases (is_syslog s.spec)) [
  | inl e ↦
      rw e (ap (sort_insert cluster_sink_less (syslog_cluster_sink s)) (cluster_sorted-fold m))
  | inr e ↦ rw e (cluster_sorted-fold m)
]

abbrev tie : SyslogSink → SyslogSink → Bool
tie a b = text_eq a.namespace b.namespace && text_eq a.name b.name

abbrev cluster_tie : SyslogSink → SyslogSink → Bool
cluster_tie a b = text_eq a.name b.name

sink_less_trans :
    (a b c : SyslogSink) → sink_less a b ≡ true → sink_less b c ≡ true → sink_less a c ≡ true
unfolding sink_less
sink_less_trans a b c h k = ground (
  arith,
  text_eq_iff a.namespace b.namespace,
  text_eq_iff b.namespace c.namespace,
  text_eq_iff a.namespace c.namespace,
  text_lt_trans a.namespace b.namespace c.namespace,
  text_lt_trans a.name b.name c.name,
  text_lt_irrefl a.namespace,
)

sink_less_total : (a b : SyslogSink) → tie a b ≡ false → sink_less b a ≡ not (sink_less a b)
unfolding sink_less
sink_less_total a b h = ground (
  arith,
  text_eq_iff a.namespace b.namespace,
  text_eq_iff b.namespace a.namespace,
  text_lt_total a.namespace b.namespace,
  text_lt_total a.name b.name,
)

sink-IsOrder : IsOrder sink_less tie
sink-IsOrder = record { transitive = sink_less_trans; total = sink_less_total }

cluster_sink-IsOrder : IsOrder cluster_sink_less cluster_tie
unfolding cluster_sink_less
cluster_sink-IsOrder = record {
  transitive = λ a b c. text_lt_trans a.name b.name c.name;
  total = λ a b. text_lt_total a.name b.name;
}

-- Two sinks that the sorted text can tell apart, whatever the order of the map.
abbrev pub Apart : Text × LogSink → Text × LogSink → Type 0
Apart (k, s) (j, t) = tie (syslog_sink s) (syslog_sink t) ≡ false

abbrev pub ClusterApart : Text × ClusterLogSink → Text × ClusterLogSink → Type 0
ClusterApart (k, s) (j, t) = text_eq s.meta.name t.meta.name ≡ false

text_eq_comm : (a b : Text) → text_eq a b ≡ text_eq b a
text_eq_comm a b = ground (arith, text_eq_iff a b, text_eq_iff b a)

Apart-symm : (a b : Text × LogSink) → Apart a b → Apart b a
Apart-symm (k, s) (j, t) h =
    let a = syslog_sink s in
    let b = syslog_sink t in
    ground (arith, text_eq_comm a.namespace b.namespace, text_eq_comm a.name b.name)

ClusterApart-symm : (a b : Text × ClusterLogSink) → ClusterApart a b → ClusterApart b a
ClusterApart-symm (k, s) (j, t) h = text_eq_comm t.meta.name s.meta.name ∙ h

add_sink_comm :
    (a b : Text × LogSink) (t : List SyslogSink)
    → Apart a b
    → add_sink a (add_sink b t) ≡ add_sink b (add_sink a t)
add_sink_comm (k, r) (j, s) t h =
    ground (arith, sort_insert_comm sink-IsOrder (syslog_sink r) (syslog_sink s) t h)

add_cluster_sink_comm :
    (a b : Text × ClusterLogSink) (t : List SyslogSink)
    → ClusterApart a b
    → add_cluster_sink a (add_cluster_sink b t) ≡ add_cluster_sink b (add_cluster_sink a t)
unfolding syslog_cluster_sink
add_cluster_sink_comm (k, r) (j, s) t h = ground (
  arith,
  sort_insert_comm cluster_sink-IsOrder (syslog_cluster_sink r) (syslog_cluster_sink s) t h,
)

Text-set : IsSet Text
Text-set = hlevel ℕ_set

-- The syslog part of the text is the same for every order of the two maps, if no two sinks have
-- both the same namespace, with "" read as "default", and the same name, and no two cluster sinks
-- have the same name.
pub syslog_config-perm :
    (c d : Config)
    → Perm c.sinks d.sinks
    → Perm c.cluster_sinks d.cluster_sinks
    → Pairwise Apart c.sinks
    → Pairwise ClusterApart c.cluster_sinks
    → syslog_config c ≡ syslog_config d
unfolding syslog_config
syslog_config-perm c d p q h k = ∥∥₁_elim p (Text-set _ _) (λ p'. ∥∥₁_elim q (Text-set _ _) (λ q'.
    let sinks =
      sorted-fold c.sinks
      ∙ fold-perm Apart Apart-symm add_sink add_sink_comm [] p' h
      ∙ sym (sorted-fold d.sinks) in
    let cluster_sinks =
      cluster_sorted-fold c.cluster_sinks
      ∙ fold-perm ClusterApart ClusterApart-symm add_cluster_sink add_cluster_sink_comm [] q' k
      ∙ sym (cluster_sorted-fold d.cluster_sinks) in
    ap₂
      (λ (a b : List SyslogSink).
        if length a + length b == 0 then [] else sink_list_string a ++ sink_list_string b)
      sinks cluster_sinks))
