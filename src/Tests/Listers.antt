-- ===== src/Tests/Listers.antt =====
-- The listers at concrete stores.
use observability.Base.{
  ◌≡◌, ◌≢◌, refl, pos, List, [], ◌∷◌, ◌++◌, none, some, true, false, Text, codes, text_eq,
}
use observability.Api.{LogSink, ClusterLogSink, ObjectMeta, SinkSpec}
use observability.Listers.{
  another, Indexer, returns, not_found, new_log_sink_lister, new_cluster_log_sink_lister,
}
use observability.Listers.Found.{
  find, as_item, Holds, is_named, found_or_not, lister_get_exact, cluster_lister_get_none,
}

abbrev spec : SinkSpec
spec = record {
  type = codes "syslog";
  syslog = record { host = codes "logs"; port = pos 514; enable_tls = true };
  webhook = record { url = [] };
  insecure_skip_verify = false;
}

abbrev meta : Text → Text → ObjectMeta
meta ns name = record { name = name; namespace = ns; cluster_name = []; uid = [] }

-- `MetaNamespaceKeyFunc`.
abbrev key : Text → Text → Text
key [] name = name
key (c ∷ cs) name = (c ∷ cs) ++ (codes "/" ++ name)

key_plain : (ns name : Text) → ns ≡ [] → key ns name ≡ name
key_plain [] name e = refl
key_plain (c ∷ cs) name e = cc

key_in : (ns name : Text) → ns ≢ [] → key ns name ≡ ns ++ (codes "/" ++ name)
key_in [] name n = elim (n refl) [ ]
key_in (c ∷ cs) name n = refl

-- An indexer of some sinks.
abbrev indexer_of : {T : Type 0} → (T → ObjectMeta) → List T → Indexer T Text
indexer_of meta_of store = record {
  list_all = λ selector. ([], none);
  list_all_by_namespace = λ ns selector. ([], none);
  get_by_key = λ k.
      as_item another (find (λ t. text_eq (key (meta_of t).namespace (meta_of t).name) k) store);
}

indexer-Holds :
    {T : Type 0} (meta_of : T → ObjectMeta) (store : List T)
    → Holds meta_of (indexer_of meta_of store) store
indexer-Holds meta_of store = record {
  key_of = λ t. key (meta_of t).namespace (meta_of t).name;
  key_plain = λ t. key_plain (meta_of t).namespace (meta_of t).name;
  key_in = λ t. key_in (meta_of t).namespace (meta_of t).name;
  missing = another;
  by_key = λ k. refl;
}

abbrev log_sinks : List LogSink
log_sinks =
    record {
      type_meta = record { kind = []; api_version = [] };
      meta = meta (codes "apps") (codes "a");
      spec = spec;
    }
    ∷ record {
      type_meta = record { kind = []; api_version = [] };
      meta = meta (codes "web") (codes "a");
      spec = spec;
    }
    ∷ []

abbrev cluster_log_sinks : List ClusterLogSink
cluster_log_sinks =
    record {
      type_meta = record { kind = []; api_version = [] };
      meta = meta [] (codes "a");
      spec = spec;
    }
    ∷ []

lister_get_exact_example :
    ((new_log_sink_lister (indexer_of (λ t. t.meta) log_sinks)).in_namespace (codes "web")).get
      (codes "a")
    ≡ found_or_not
        (codes "logsink")
        (codes "a")
        (find (λ t. is_named (codes "web") (codes "a") t.meta) log_sinks)
lister_get_exact_example =
    lister_get_exact (indexer_of (λ t. t.meta) log_sinks) log_sinks (codes "web") (codes "a")
      (indexer-Holds (λ t. t.meta) log_sinks) ((λ e. cc, refl), ((λ e. cc, refl), tt)) refl

cluster_lister_get_none_example :
    ((new_cluster_log_sink_lister (indexer_of (λ t. t.meta) cluster_log_sinks)).in_namespace
        (codes "web")).get
      (codes "a")
    ≡ returns (
      none,
      some (not_found (codes "observability.knative.dev") (codes "clusterlogsink") (codes "a")),
    )
cluster_lister_get_none_example =
    cluster_lister_get_none (indexer_of (λ t. t.meta) cluster_log_sinks) cluster_log_sinks
      (codes "web") (codes "a") (indexer-Holds (λ t. t.meta) cluster_log_sinks) ((refl, refl), tt)
