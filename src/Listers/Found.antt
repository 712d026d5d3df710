-- ===== src/Listers/Found.antt =====
-- What `Get` finds, for an indexer by the keys of `MetaNamespaceKeyFunc`.
use observability.Base.{
  ◌≡◌, ◌≢◌, refl, ap, ◌∙◌, ◌&&◌, List, [], ◌∷◌, ◌++◌, All, Option, none, some, Bool, true, false,
  Text, codes, arith, text_eq, if◌then◌else◌, ◌==◌,
}
use observability.Api.{ObjectMeta, LogSink, ClusterLogSink}
use observability.Listers.{
  Item, sink, ListerError, not_found, Indexer, Outcome, returns, got, new_namespace_lister,
  new_lister, new_log_sink_lister, new_cluster_log_sink_lister,
}

abbrev pub has_slash : Text → Bool
has_slash [] = false
has_slash (c ∷ cs) = if c == b'/' then true else has_slash cs

-- The first object that passes a test.
abbrev pub find : {T : Type 0} → (T → Bool) → List T → Option T
find p [] = none
find p (t ∷ ts) = let rest = find p ts in if p t then some t else rest

abbrev pub as_item : {T : Type 0} → Item T → Option T → Item T × Bool × Option Text
as_item else_item none = (else_item, false, none)
as_item else_item (some t) = (sink t, true, none)

-- An indexer that has the objects `store` by their keys: the name, behind the namespace and a slash
-- where there is a namespace.
pub record Holds {T S : Type 0} (meta_of : T → ObjectMeta) (indexer : Indexer T S) (store : List T)
    : Type 0 where
  pub key_of : T → Text
  pub key_plain : (t : T) → (meta_of t).namespace ≡ [] → key_of t ≡ (meta_of t).name
  pub key_in :
      (t : T)
      → (meta_of t).namespace ≢ []
      → key_of t ≡ (meta_of t).namespace ++ (codes "/" ++ (meta_of t).name)
  pub missing : Item T
  pub by_key :
      (k : Text) → indexer.get_by_key k ≡ as_item missing (find (λ t. text_eq (key_of t) k) store)

slash_splits :
    (a b m n : Text)
    → has_slash a ≡ false
    → has_slash b ≡ false
    → text_eq (a ++ (codes "/" ++ m)) (b ++ (codes "/" ++ n)) ≡ (text_eq a b && text_eq m n)
unfolding text_eq
slash_splits [] [] m n e f = refl
slash_splits [] (y ∷ b) m n e f = ground arith
slash_splits (x ∷ a) [] m n e f = ground arith
slash_splits (x ∷ a) (y ∷ b) m n e f = ground (arith, slash_splits a b m n)

no_slash : (a m n : Text) → has_slash m ≡ false → text_eq m (a ++ (codes "/" ++ n)) ≡ false
unfolding text_eq
no_slash [] [] n e = refl
no_slash [] (y ∷ m) n e = ground arith
no_slash (x ∷ a) [] n e = refl
no_slash (x ∷ a) (y ∷ m) n e = ground (arith, no_slash a m n)

find_agrees :
    {T : Type 0} (p q : T → Bool) (ts : List T) → All (λ t. p t ≡ q t) ts → find p ts ≡ find q ts
find_agrees p q [] a = refl
find_agrees p q (t ∷ ts) (e, a) = rw (e, find_agrees p q ts a)

-- An object of the store whose key has no slash where it has no namespace, and whose namespace has none.
abbrev pub ProperKey : ObjectMeta → Type 0
ProperKey m = (m.namespace ≢ []) × (has_slash m.namespace ≡ false)

abbrev pub is_named : Text → Text → ObjectMeta → Bool
is_named ns name m = text_eq m.namespace ns && text_eq m.name name

-- What `Get` gives for what is found.
abbrev pub found_or_not :
    {T : Type 0} → Text → Text → Option T → Outcome (Option T × Option ListerError)
found_or_not resource name none =
    returns (none, some (not_found (codes "observability.knative.dev") resource name))
found_or_not resource name (some t) = returns (some t, none)

module _ {T S : Type 0} (meta_of : T → ObjectMeta) (resource : Text) (indexer : Indexer T S)
    (store : List T) (holds : Holds meta_of indexer store) where
  got_found :
      (ns name : Text)
      → (new_namespace_lister resource indexer ns).get name
        ≡ found_or_not resource name
            (find (λ t. text_eq (holds.key_of t) (ns ++ (codes "/" ++ name))) store)
  unfolding new_namespace_lister got
  got_found ns name =
      rw (holds.by_key (ns ++ (codes "/" ++ name)))
        (shown (find (λ t. text_eq (holds.key_of t) (ns ++ (codes "/" ++ name))) store))
    where
      shown :
          (o : Option T)
          → got resource name (as_item holds.missing o) ≡ found_or_not resource name o
      shown none = refl
      shown (some t) = refl

keys_named :
    {T S : Type 0} (meta_of : T → ObjectMeta) (indexer : Indexer T S) (all : List T)
    (holds : Holds meta_of indexer all) (ns name : Text) (ts : List T)
    → All (λ t. ProperKey (meta_of t)) ts
    → has_slash ns ≡ false
    → All
        (λ t. text_eq (holds.key_of t) (ns ++ (codes "/" ++ name)) ≡ is_named ns name (meta_of t))
        ts
keys_named meta_of indexer all holds ns name [] a e = tt
keys_named meta_of indexer all holds ns name (t ∷ ts) ((n, s), a) e = (
  ap (λ k. text_eq k (ns ++ (codes "/" ++ name))) (holds.key_in t n)
      ∙ slash_splits (meta_of t).namespace ns (meta_of t).name name s e,
  keys_named meta_of indexer all holds ns name ts a e,
)

find-none : {T : Type 0} (p : T → Bool) (ts : List T) → All (λ t. p t ≡ false) ts → find p ts ≡ none
find-none p [] a = refl
find-none p (t ∷ ts) (e, a) = rw (e, find-none p ts a)

keys_bare :
    {T S : Type 0} (meta_of : T → ObjectMeta) (indexer : Indexer T S) (all : List T)
    (holds : Holds meta_of indexer all) (ns name : Text) (ts : List T)
    → All (λ t. ((meta_of t).namespace ≡ []) × (has_slash (meta_of t).name ≡ false)) ts
    → All (λ t. text_eq (holds.key_of t) (ns ++ (codes "/" ++ name)) ≡ false) ts
keys_bare meta_of indexer all holds ns name [] a = tt
keys_bare meta_of indexer all holds ns name (t ∷ ts) ((n, s), a) = (
  ap (λ k. text_eq k (ns ++ (codes "/" ++ name))) (holds.key_plain t n)
      ∙ no_slash ns (meta_of t).name name s,
  keys_bare meta_of indexer all holds ns name ts a,
)

-- Where the indexer has the log sinks by their keys, each with a namespace that is not empty and
-- has no slash, `Get` of the lister for a namespace without a slash returns the first sink with
-- that namespace and that name, and the error that it is not found if there is none.
pub lister_get_exact :
    {S : Type 0} (indexer : Indexer LogSink S) (store : List LogSink) (ns name : Text)
    → Holds (λ t. t.meta) indexer store
    → All (λ t. ProperKey t.meta) store
    → has_slash ns ≡ false
    → ((new_log_sink_lister indexer).in_namespace ns).get name
      ≡ found_or_not (codes "logsink") name (find (λ t. is_named ns name t.meta) store)
unfolding new_log_sink_lister new_lister
lister_get_exact indexer store ns name holds proper e =
    got_found (λ t. t.meta) (codes "logsink") indexer store holds ns name
    ∙ ap (found_or_not (codes "logsink") name) (
        find_agrees _ _ store (keys_named (λ t. t.meta) indexer store holds ns name store proper e))

-- Where the indexer has the cluster log sinks by their keys, each without a namespace and with a
-- name without a slash, `Get` of the lister finds none, whatever the namespace and the name.
pub cluster_lister_get_none :
    {S : Type 0} (indexer : Indexer ClusterLogSink S) (store : List ClusterLogSink) (ns name : Text)
    → Holds (λ t. t.meta) indexer store
    → All (λ t. (t.meta.namespace ≡ []) × (has_slash t.meta.name ≡ false)) store
    → ((new_cluster_log_sink_lister indexer).in_namespace ns).get name
      ≡ returns
          (none, some (not_found (codes "observability.knative.dev") (codes "clusterlogsink") name))
unfolding new_cluster_log_sink_lister new_lister
cluster_lister_get_none indexer store ns name holds bare =
    got_found (λ t. t.meta) (codes "clusterlogsink") indexer store holds ns name
    ∙ ap (found_or_not (codes "clusterlogsink") name)
        (find-none _ store (keys_bare (λ t. t.meta) indexer store holds ns name store bare))
