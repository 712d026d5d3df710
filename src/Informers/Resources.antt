-- ===== src/Informers/Resources.antt =====
-- Which resources `ForResource` knows.
use observability.Base.{
  ◌≡◌, ◌≢◌, ◌⊎◌, refl, ap, none, some, true, false, Bool-cases, inl, inr, arith, Text, codes,
  text_eq_iff,
}
use observability.Client.Fake.{GroupVersionResource, resource_named}
use observability.Informers.Factory.{Informer, State}
use observability.Informers.Access.{
  Kind, log_sink, cluster_log_sink, metric_sink, cluster_metric_sink, GenericInformer,
  informer_of_kind, is_resource, kind_of_resource, for_resource,
}

-- The resource of a type of sinks.
abbrev pub resource_of : Kind → GroupVersionResource
resource_of log_sink = resource_named (codes "logsinks")
resource_of cluster_log_sink = resource_named (codes "clusterlogsinks")
resource_of metric_sink = resource_named (codes "metricsinks")
resource_of cluster_metric_sink = resource_named (codes "clustermetricsinks")

is_resource_yes :
    (gvr : GroupVersionResource) (name : Text)
    → is_resource gvr name ≡ true
    → gvr ≡ resource_named name
is_resource_yes gvr name e = ground (
  arith,
  text_eq_iff gvr.group (codes "observability.knative.dev"),
  text_eq_iff gvr.version (codes "v1alpha1"),
  text_eq_iff gvr.resource name,
)

is_resource_no :
    (gvr : GroupVersionResource) (name : Text)
    → is_resource gvr name ≡ false
    → gvr ≢ resource_named name
is_resource_no gvr name e h = ground (
  arith,
  ap GroupVersionResource.group h,
  ap GroupVersionResource.version h,
  ap GroupVersionResource.resource h,
  text_eq_iff gvr.group (codes "observability.knative.dev"),
  text_eq_iff gvr.version (codes "v1alpha1"),
  text_eq_iff gvr.resource name,
)

-- The switch takes the case of the resource, or none.
data Switched (gvr : GroupVersionResource) : Type 0 where
  known : (kind : Kind) → gvr ≡ resource_of kind → kind_of_resource gvr ≡ some kind → Switched gvr
  unknown : ((kind : Kind) → gvr ≢ resource_of kind) → kind_of_resource gvr ≡ none → Switched gvr

no_kind :
    (gvr : GroupVersionResource)
    → is_resource gvr (codes "clusterlogsinks") ≡ false
    → is_resource gvr (codes "clustermetricsinks") ≡ false
    → is_resource gvr (codes "logsinks") ≡ false
    → is_resource gvr (codes "metricsinks") ≡ false
    → (kind : Kind) → gvr ≢ resource_of kind
no_kind gvr a b c d log_sink = is_resource_no gvr _ c
no_kind gvr a b c d cluster_log_sink = is_resource_no gvr _ a
no_kind gvr a b c d metric_sink = is_resource_no gvr _ d
no_kind gvr a b c d cluster_metric_sink = is_resource_no gvr _ b

switched : (gvr : GroupVersionResource) → Switched gvr
unfolding kind_of_resource
switched gvr = elim (Bool-cases (is_resource gvr (codes "clusterlogsinks"))) [
  | inl a ↦ known cluster_log_sink (is_resource_yes gvr _ a) (rw (kind_of_resource, a) refl)
  | inr a ↦ elim (Bool-cases (is_resource gvr (codes "clustermetricsinks"))) [
    | inl b ↦ known cluster_metric_sink (is_resource_yes gvr _ b) (rw (kind_of_resource, a, b) refl)
    | inr b ↦ elim (Bool-cases (is_resource gvr (codes "logsinks"))) [
      | inl c ↦ known log_sink (is_resource_yes gvr _ c) (rw (kind_of_resource, a, b, c) refl)
      | inr c ↦ elim (Bool-cases (is_resource gvr (codes "metricsinks"))) [
        | inl d ↦
            known metric_sink (is_resource_yes gvr _ d) (rw (kind_of_resource, a, b, c, d) refl)
        | inr d ↦ unknown (no_kind gvr a b c d) (rw (kind_of_resource, a, b, c, d) refl)
      ]
    ]
  ]
]

-- The generic informer of a resource.
abbrev pub generic : {L W : Type 0} → GroupVersionResource → Informer L W → GenericInformer L W
generic gvr i = record { informer = i; group = gvr.group; resource = gvr.resource }

-- `ForResource` gives the informer of a type of sinks, as the factory gives it, for the resource of
-- that type in the group and version of the sinks, and for every other resource it fails and leaves
-- the factory as it is.
pub for_resource_exact :
    {L W : Type 0} (gvr : GroupVersionResource) (st : State L W)
    → ((kind : Kind) × (gvr ≡ resource_of kind)
        × (let (i, st') = informer_of_kind kind st in
            for_resource gvr st ≡ (some (generic gvr i), st')))
      ⊎ (((kind : Kind) → gvr ≢ resource_of kind) × (for_resource gvr st ≡ (none, st)))
unfolding for_resource
for_resource_exact gvr st = elim (switched gvr) [
  | known kind e k ↦ inl (kind, e, rw (for_resource, k) refl)
  | unknown n k ↦ inr (n, rw (for_resource, k) refl)
]
