-- ===== src/Sink/Controller/Sync.antt =====
-- The controllers keep the published configuration in step with the sinks of the cluster.
use observability.Base.{
  Bool, true, false, ◌≡◌, refl, sym, ap, ap₂, ◌∙◌, ◌∷◌, ◌++◌, Option, none, some, arith, Text,
  text_eq_iff, eq_ℤ_iff, eq_Bool, Bool-cases, inl, inr,
}
use observability.GoMap.{lookup, distinct_keys}
use observability.GoMap.Laws.{map_values}
use observability.GoMap.Alike.{
  insert_alike, remove_alike, insert_unchanged, IsMapOf, insert-IsMapOf, remove-IsMapOf,
}
use observability.Api.{SinkSpec, LogSink, ClusterLogSink}
use observability.Sink.Config.{
  Url, Config, new_config, key, cluster_key, upsert_sink, upsert_cluster_sink, delete_sink,
  delete_cluster_sink, config_string,
}
use observability.Sink.Config.Shown.{shown, cluster_shown, shown_config, config_string-shown}
use observability.Sink.Controller.{
  spec_eq, add_sink, remove_sink, update_sink, add_cluster_sink, remove_cluster_sink,
  update_cluster_sink,
}
use observability.Sink.Controller.Events.{
  Event, added, deleted, updated, cluster_added, cluster_deleted, cluster_updated, tombstone,
  of_log_sinks, of_cluster_log_sinks, Cluster, no_sinks, after, Genuine,
}
use observability.Sink.Controller.Threads.{change}

eq_Bool-eq : (a b : Bool) → eq_Bool a b ≡ true → a ≡ b
eq_Bool-eq true b h = sym h
eq_Bool-eq false true h = cc
eq_Bool-eq false false h = refl

spec_eq-eq : (a b : SinkSpec) → spec_eq a b ≡ true → a ≡ b
unfolding spec_eq
spec_eq-eq a b h = ground (
  arith,
  text_eq_iff a.type b.type,
  text_eq_iff a.syslog.host b.syslog.host,
  eq_ℤ_iff a.syslog.port b.syslog.port,
  eq_Bool-eq a.syslog.enable_tls b.syslog.enable_tls,
  text_eq_iff a.webhook.url b.webhook.url,
  eq_Bool-eq a.insecure_skip_verify b.insecure_skip_verify,
)

-- The sinks of a configuration show what those of the cluster do: `like` are the latter, in the order
-- of the former.
pub record Synced (k : Cluster) (config : Config) : Type 0 where
  pub like : Config
  pub sinks : map_values shown config.sinks ≡ map_values shown like.sinks
  pub cluster_sinks :
      map_values cluster_shown config.cluster_sinks ≡ map_values cluster_shown like.cluster_sinks
  pub held : IsMapOf k.sinks like.sinks
  pub cluster_held : IsMapOf k.cluster_sinks like.cluster_sinks

upsert-Synced :
    (s : LogSink) (k : Cluster) (c : Config)
    → Synced k c
    → Synced (after (added s) k) (upsert_sink s c)
unfolding upsert_sink after key
upsert-Synced s k c h = record {
  like = upsert_sink s h.like;
  sinks = insert_alike shown (key s) s c.sinks h.like.sinks h.sinks;
  cluster_sinks = h.cluster_sinks;
  held = insert-IsMapOf (key s) s k.sinks h.like.sinks h.held;
  cluster_held = h.cluster_held;
}

cluster_upsert-Synced :
    (s : ClusterLogSink) (k : Cluster) (c : Config)
    → Synced k c
    → Synced (after (cluster_added s) k) (upsert_cluster_sink s c)
unfolding upsert_cluster_sink after cluster_key
cluster_upsert-Synced s k c h = record {
  like = upsert_cluster_sink s h.like;
  sinks = h.sinks;
  cluster_sinks =
      insert_alike cluster_shown (cluster_key s) s c.cluster_sinks h.like.cluster_sinks
        h.cluster_sinks;
  held = h.held;
  cluster_held =
      insert-IsMapOf (cluster_key s) s k.cluster_sinks h.like.cluster_sinks h.cluster_held;
}

delete-Synced :
    (s : LogSink) (k : Cluster) (c : Config)
    → Synced k c
    → Synced (after (deleted s) k) (delete_sink s c)
unfolding delete_sink after key
delete-Synced s k c h = record {
  like = delete_sink s h.like;
  sinks = remove_alike shown (key s) c.sinks h.like.sinks h.sinks;
  cluster_sinks = h.cluster_sinks;
  held = remove-IsMapOf (key s) k.sinks h.like.sinks h.held;
  cluster_held = h.cluster_held;
}

cluster_delete-Synced :
    (s : ClusterLogSink) (k : Cluster) (c : Config)
    → Synced k c
    → Synced (after (cluster_deleted s) k) (delete_cluster_sink s c)
unfolding delete_cluster_sink after cluster_key
cluster_delete-Synced s k c h = record {
  like = delete_cluster_sink s h.like;
  sinks = h.sinks;
  cluster_sinks =
      remove_alike cluster_shown (cluster_key s) c.cluster_sinks h.like.cluster_sinks
        h.cluster_sinks;
  held = h.held;
  cluster_held = remove-IsMapOf (cluster_key s) k.cluster_sinks h.like.cluster_sinks h.cluster_held;
}

-- An update that leaves the spec alone shows nothing new.
same_shown :
    (o n : LogSink)
    → o.meta.name ≡ n.meta.name
    → o.meta.namespace ≡ n.meta.namespace
    → o.spec ≡ n.spec
    → shown o ≡ shown n
unfolding shown
same_shown o n p q e = ground arith

cluster_same_shown :
    (o n : ClusterLogSink)
    → o.meta.name ≡ n.meta.name
    → o.spec ≡ n.spec
    → cluster_shown o ≡ cluster_shown n
unfolding cluster_shown
cluster_same_shown o n p e = ground arith

key_same :
    (o n : LogSink)
    → o.meta.name ≡ n.meta.name
    → o.meta.namespace ≡ n.meta.namespace
    → key o ≡ key n
unfolding key
key_same o n p q = ap₂ (λ a b. a ++ (b'|' ∷ b)) q p

cluster_key_same :
    (o n : ClusterLogSink)
    → o.meta.name ≡ n.meta.name
    → o.meta.cluster_name ≡ n.meta.cluster_name
    → cluster_key o ≡ cluster_key n
unfolding cluster_key
cluster_key_same o n p q = ap₂ (λ a b. a ++ (b'|' ∷ b)) q p

-- An update that is not handled.
kept-Synced :
    (o n : LogSink) (k : Cluster) (c : Config)
    → Genuine (updated o n) k
    → o.spec ≡ n.spec
    → Synced k c
    → Synced (after (updated o n) k) c
unfolding upsert_sink after key
kept-Synced o n k c g e h = record {
  like = upsert_sink n h.like;
  sinks =
      insert_unchanged shown (key n) o n c.sinks h.like.sinks h.sinks
        (ap (λ j. lookup j h.like.sinks) (sym (key_same o n g.1 g.2)) ∙ h.held.holds (key o) ∙ g.0)
        (same_shown o n g.1 g.2 e);
  cluster_sinks = h.cluster_sinks;
  held = insert-IsMapOf (key n) n k.sinks h.like.sinks h.held;
  cluster_held = h.cluster_held;
}

cluster_kept-Synced :
    (o n : ClusterLogSink) (k : Cluster) (c : Config)
    → Genuine (cluster_updated o n) k
    → o.spec ≡ n.spec
    → Synced k c
    → Synced (after (cluster_updated o n) k) c
unfolding upsert_cluster_sink after cluster_key
cluster_kept-Synced o n k c g e h = record {
  like = upsert_cluster_sink n h.like;
  sinks = h.sinks;
  cluster_sinks =
      insert_unchanged cluster_shown (cluster_key n) o n c.cluster_sinks h.like.cluster_sinks
        h.cluster_sinks
        (ap (λ j. lookup j h.like.cluster_sinks) (sym (cluster_key_same o n g.1 g.2))
          ∙ h.cluster_held.holds (cluster_key o)
          ∙ g.0)
        (cluster_same_shown o n g.1 e);
  held = h.held;
  cluster_held =
      insert-IsMapOf (cluster_key n) n k.cluster_sinks h.like.cluster_sinks h.cluster_held;
}

-- The configuration behind a change.
abbrev pub changed_to : Option Config → Config → Config
changed_to none c = c
changed_to (some c') c = c'

-- Whatever is reported, the configuration stays in step.
pub change-Synced :
    (e : Event) (k : Cluster) (c : Config)
    → Genuine e k
    → Synced k c
    → Synced (after e k) (changed_to (change e c) c)
unfolding change after add_sink remove_sink update_sink add_cluster_sink remove_cluster_sink
    update_cluster_sink
change-Synced (added s) k c g h = upsert-Synced s k c h
change-Synced (deleted s) k c g h = delete-Synced s k c h
change-Synced (updated o n) k c g h = elim (Bool-cases (spec_eq o.spec n.spec)) [
  | inl e ↦ rw e (kept-Synced o n k c g (spec_eq-eq o.spec n.spec e) h)
  | inr e ↦ rw e (upsert-Synced n k c h)
]
change-Synced (cluster_added s) k c g h = cluster_upsert-Synced s k c h
change-Synced (cluster_deleted s) k c g h = cluster_delete-Synced s k c h
change-Synced (cluster_updated o n) k c g h = elim (Bool-cases (spec_eq o.spec n.spec)) [
  | inl e ↦ rw e (cluster_kept-Synced o n k c g (spec_eq-eq o.spec n.spec e) h)
  | inr e ↦ rw e (cluster_upsert-Synced n k c h)
]
change-Synced (tombstone of_log_sinks) k c g h = h
change-Synced (tombstone of_cluster_log_sinks) k c g h = h

-- A text is that of the sinks of the cluster, each once, in some order.
abbrev pub IsTextOf : (Text → Option Url) → Cluster → Text → Type 0
IsTextOf parse_url k text =
    (c : Config) × ((distinct_keys c.sinks ≡ true) × (distinct_keys c.cluster_sinks ≡ true))
    × (((j : Text) → lookup j c.sinks ≡ k.sinks j)
        × ((j : Text) → lookup j c.cluster_sinks ≡ k.cluster_sinks j))
    × (text ≡ config_string parse_url c)

pub Synced-IsTextOf :
    (parse_url : Text → Option Url) (k : Cluster) (c : Config)
    → Synced k c
    → IsTextOf parse_url k (config_string parse_url c)
Synced-IsTextOf parse_url k c h =
    let same : shown_config c ≡ shown_config h.like =
      (unfold shown_config in
        λ i. record { sinks = h.sinks i; cluster_sinks = h.cluster_sinks i }) in
    (
      h.like,
      (h.held.distinct, h.cluster_held.distinct),
      (h.held.holds, h.cluster_held.holds),
      sym (config_string-shown parse_url c)
          ∙ ap (config_string parse_url) same
          ∙ config_string-shown parse_url h.like,
    )

-- A new configuration holds no sink.
pub first-Synced : Synced no_sinks new_config
unfolding new_config distinct_keys lookup
first-Synced = record {
  like = new_config;
  sinks = refl;
  cluster_sinks = refl;
  held = record { distinct = refl; holds = λ j. refl };
  cluster_held = record { distinct = refl; holds = λ j. refl };
}
