-- ===== src/Metric/ClusterController/Sync.antt =====
-- The controller keeps the published configuration of telegraf in step with the cluster metric sinks.
use observability.Base.{
  Bool, true, false, ◌≡◌, refl, sym, ap, ◌∙◌, List, [], ◌∷◌, ◌++◌, Option, none, some,
  if◌then◌else◌, Text, codes, text_eq, text_eq_iff, Bool-cases, inl, inr,
}
use observability.GoMap.{GoMap, lookup, insert, remove, distinct_keys}
use observability.GoMap.Laws.{
  lookup-insert, lookup-remove, distinct_keys-insert, distinct_keys-remove,
}
use observability.Api.{ClusterMetricSink}
use observability.Metric.ClusterConfig.{
  TelegrafConfig, ClusterConfig, cluster_config_string, upsert_sink, delete_sink,
}
use observability.Metric.ClusterController.{
  config_map_name, pod_selector, print_error, delete_pods, Patch, Effect, patch_config_map, Replies,
  World, Object, cluster_metric_sink, other, publish, on_add, on_delete, on_update,
}

-- What the informer reports of the sinks in the cluster, with the replies to the calls that follow
-- and, for an update, what `reflect.DeepEqual` says of the two objects. A deletion that the
-- informer missed reaches the handler as a tombstone, which is no sink.
pub data Event : Type 0 where
  added deleted : Replies → ClusterMetricSink → Event
  updated : Replies → Bool → ClusterMetricSink → ClusterMetricSink → Event
  tombstone : Replies → Event

-- The sink of each name.
abbrev pub Sinks : Type 0
Sinks = Text → Option ClusterMetricSink

abbrev pub set_sink : Text → Option ClusterMetricSink → Sinks → Sinks
set_sink name v f j = if text_eq name j then v else f j

-- The sinks that are reported, behind an event: a tombstone reports none.
pub after : Event → Sinks → Sinks
after (added r s) f = set_sink s.meta.name (some s) f
after (deleted r s) f = set_sink s.meta.name none f
after (updated r same o n) f = set_sink n.meta.name (some n) f
after (tombstone r) f = f

pub current : List Event → Sinks → Sinks
current [] f = f
current (e ∷ es) f = current es (after e f)

-- An update of equal objects is of a sink as it was reported.
abbrev pub Genuine : Event → Sinks → Type 0
Genuine (updated r same o n) f = same ≡ true → (o ≡ n) × (f n.meta.name ≡ some n)
Genuine _ f = Unit

abbrev pub AllGenuine : List Event → Sinks → Type 0
AllGenuine [] f = Unit
AllGenuine (e ∷ es) f = Genuine e f × AllGenuine es (after e f)

abbrev sinks_path : Text
sinks_path = codes "/data/cluster-metric-sinks.conf"

patched_value : List Patch → Option Text
patched_value [] = none
patched_value (p ∷ ps) = if text_eq p.path sinks_path then some p.value else patched_value ps

patched_by : Effect → Option Text
patched_by (patch_config_map name ps) = patched_value ps
patched_by _ = none

abbrev later : Option Text → Option Text → Option Text
later none o = o
later (some v) o = some v

-- The configuration that the last of the patches among some calls sends.
pub published_conf : List Effect → Option Text
published_conf [] = none
published_conf (e ∷ es) = later (published_conf es) (patched_by e)

published_conf-append :
    (es fs : List Effect) {v : Text}
    → published_conf fs ≡ some v
    → published_conf (es ++ fs) ≡ some v
unfolding published_conf
published_conf-append [] fs h = h
published_conf-append (e ∷ es) fs h = rw (published_conf-append es fs h)

module _ (encode : TelegrafConfig → Option Text) where
  pub handle : Event → World → World
  handle (added r s) w = on_add encode (λ _ _. false) r (cluster_metric_sink s) w
  handle (deleted r s) w = on_delete encode (λ _ _. false) r (cluster_metric_sink s) w
  handle (tombstone r) w = on_delete encode (λ _ _. false) r other w
  handle (updated r same o n) w =
      on_update encode (λ _ _. same) r (cluster_metric_sink o) (cluster_metric_sink n) w

  pub handle_all : List Event → World → World
  handle_all [] w = w
  handle_all (e ∷ es) w = handle_all es (handle e w)

  calls-published_conf :
      (p d : Option Text) (v : Text)
      → published_conf (
          patch_config_map config_map_name
            ((record { op = codes "replace"; path = sinks_path; value = v }) ∷ [])
          ∷ (print_error p ++ (delete_pods pod_selector ∷ print_error d)))
        ≡ some v
  unfolding published_conf patched_by patched_value text_eq
  calls-published_conf none none v = refl
  calls-published_conf none (some e) v = refl
  calls-published_conf (some e) none v = refl
  calls-published_conf (some e) (some e') v = refl

  published_conf-publish :
      (deep_equal : Object → Object → Bool) (r : Replies) (w : World)
      → published_conf (publish encode deep_equal r w).effects
        ≡ some (cluster_config_string encode w.config)
  unfolding publish
  published_conf-publish deep_equal r w =
      published_conf-append w.effects _
        (calls-published_conf r.patched r.deleted (cluster_config_string encode w.config))

  -- The controller holds the sinks `f`, beside what else was in the configuration `c` at first.
  record Holds (c : ClusterConfig) (f : Sinks) (config : ClusterConfig) : Type 0 where
    rest : config ≡ record c { cluster_sinks = config.cluster_sinks }
    distinct : distinct_keys config.cluster_sinks ≡ true
    sinks : (name : Text) → lookup name config.cluster_sinks ≡ f name

  record Synced (c : ClusterConfig) (f : Sinks) (w : World) : Type 0 where
    holds : Holds c f w.config
    text : published_conf w.effects ≡ some (cluster_config_string encode w.config)

  publish-Synced :
      (deep_equal : Object → Object → Bool) (r : Replies) (w : World) (c : ClusterConfig)
      (f : Sinks)
      → Holds c f w.config
      → Synced c f (publish encode deep_equal r w)
  unfolding publish
  publish-Synced deep_equal r w c f h = record {
    holds = h;
    text = published_conf-publish deep_equal r w;
  }

  upsert-Holds :
      (s : ClusterMetricSink) (c : ClusterConfig) (f : Sinks) (config : ClusterConfig)
      → Holds c f config
      → Holds c (set_sink s.meta.name (some s) f) (upsert_sink s config)
  unfolding upsert_sink
  upsert-Holds s c f config h = record {
    rest =
        let put : ClusterConfig → ClusterConfig =
          λ x. record x { cluster_sinks = insert s.meta.name s config.cluster_sinks } in
        ap put h.rest;
    distinct = distinct_keys-insert s.meta.name s config.cluster_sinks h.distinct;
    sinks = λ j.
        lookup-insert s.meta.name j s config.cluster_sinks
        ∙ ap (λ x. if text_eq s.meta.name j then some s else x) (h.sinks j);
  }

  delete-Holds :
      (s : ClusterMetricSink) (c : ClusterConfig) (f : Sinks) (config : ClusterConfig)
      → Holds c f config
      → Holds c (set_sink s.meta.name none f) (delete_sink s config)
  unfolding delete_sink
  delete-Holds s c f config h = record {
    rest =
        let put : ClusterConfig → ClusterConfig =
          λ x. record x { cluster_sinks = remove s.meta.name config.cluster_sinks } in
        ap put h.rest;
    distinct = distinct_keys-remove s.meta.name config.cluster_sinks h.distinct;
    sinks = λ j.
        lookup-remove s.meta.name j config.cluster_sinks
        ∙ ap (λ x. if text_eq s.meta.name j then none else x) (h.sinks j);
  }

  -- A sink that is set to what it is.
  set_same :
      (n : ClusterMetricSink) (f : Sinks) (j : Text)
      → f n.meta.name ≡ some n
      → f j ≡ set_sink n.meta.name (some n) f j
  set_same n f j e = elim (Bool-cases (text_eq n.meta.name j)) [
    | inl same ↦ rw same (ap f (sym ((text_eq_iff n.meta.name j).0 same)) ∙ e)
    | inr other_name ↦ rw other_name
  ]

  -- A later event finds a configuration that was published, and leaves one.
  handle-Synced :
      (e : Event) (c : ClusterConfig) (f : Sinks) (w : World)
      → Genuine e f
      → Synced c f w
      → Synced c (after e f) (handle e w)
  unfolding handle after on_add on_delete on_update
  handle-Synced (added r s) c f w g h =
      publish-Synced (λ _ _. false) r _ c _ (upsert-Holds s c f w.config h.holds)
  handle-Synced (deleted r s) c f w g h =
      publish-Synced (λ _ _. false) r _ c _ (delete-Holds s c f w.config h.holds)
  handle-Synced (tombstone r) c f w g h = h
  handle-Synced (updated r true o n) c f w g h = record {
    holds = record {
      rest = h.holds.rest;
      distinct = h.holds.distinct;
      sinks = λ j. h.holds.sinks j ∙ set_same n f j (g refl).1;
    };
    text = h.text;
  }
  handle-Synced (updated r false o n) c f w g h =
      publish-Synced (λ _ _. false) r _ c _ (upsert-Holds n c f w.config h.holds)

  handle_all-Synced :
      (es : List Event) (c : ClusterConfig) (f : Sinks) (w : World)
      → AllGenuine es f
      → Synced c f w
      → Synced c (current es f) (handle_all es w)
  unfolding handle_all current
  handle_all-Synced [] c f w g h = h
  handle_all-Synced (e ∷ es) c f w g h =
      handle_all-Synced es c (after e f) (handle e w) g.1 (handle-Synced e c f w g.0 h)

  -- The effects publish the text of the configuration `c` with the sinks `f`, in some order.
  abbrev pub PatchedIn : ClusterConfig → Sinks → List Effect → Type 0
  PatchedIn c f es =
      (m : GoMap ClusterMetricSink) × (distinct_keys m ≡ true)
      × ((name : Text) → lookup name m ≡ f name)
      × (published_conf es ≡ some (cluster_config_string encode (record c { cluster_sinks = m })))

  Synced-PatchedIn :
      (c : ClusterConfig) (f : Sinks) (w : World) → Synced c f w → PatchedIn c f w.effects
  Synced-PatchedIn c f w h = (
    w.config.cluster_sinks,
    h.holds.distinct,
    h.holds.sinks,
    h.text ∙ ap (λ x. some (cluster_config_string encode x)) h.holds.rest,
  )

abbrev pub idle : ClusterConfig → World
idle c = record { config = c; effects = [] }

-- The sinks that a configuration starts with.
abbrev pub sinks_of : ClusterConfig → Sinks
sinks_of c name = lookup name c.cluster_sinks

-- From any configuration in which no name of a sink stands twice, after any events on cluster
-- metric sinks that begin with a first sink, whatever the API server replies, the configuration of
-- telegraf that was patched in last is the text of the sinks that are reported, each once, in some
-- order, if each update for which `reflect.DeepEqual` holds is of one sink as it was reported; a
-- sink whose deletion is reported by a tombstone counts as still there.
pub published_conf-current :
    (encode : TelegrafConfig → Option Text) (c : ClusterConfig) (r : Replies)
    (s : ClusterMetricSink) (es : List Event)
    → distinct_keys c.cluster_sinks ≡ true
    → AllGenuine es (set_sink s.meta.name (some s) (sinks_of c))
    → PatchedIn encode c
        (current (added r s ∷ es) (sinks_of c))
        (handle_all encode (added r s ∷ es) (idle c)).effects
unfolding handle_all current handle after on_add
published_conf-current encode c r s es h g =
    let start : Holds encode c (sinks_of c) c = record {
      rest = refl;
      distinct = h;
      sinks = λ _. refl;
    } in
    Synced-PatchedIn encode c _ _ (
      handle_all-Synced encode es c _ _ g (
        publish-Synced encode (λ _ _. false) r (record (idle c) { config = upsert_sink s c }) c _
          (upsert-Holds encode s c (sinks_of c) c start)))
