-- ===== src/Metric/ClusterConfig/Grouping.antt =====
-- The telegraf configuration groups the plugins of the sinks by their types.
use observability.Base.{
  true, false, ◌≡◌, refl, sym, ap, ap₂, ◌∙◌, Bool, All, List, [], ◌∷◌, ◌++◌, Option, none, some,
  arith, if◌then◌else◌, Text, codes, text_eq, text_eq_iff, append_assoc, append-nil, Bool-cases,
  inl, inr,
}
use observability.GoMap.{GoMap, lookup, insert, values, has_key, distinct_keys}
use observability.GoMap.Laws.{has_key-lookup, lookup-insert, has_key-insert}
use observability.Api.{Value, str, as_string, MetricSinkMap, ClusterMetricSink}
use observability.Metric.ClusterConfig.{
  Plugins, TelegrafConfig, ClusterConfig, copy_inputs, copy_onto, type_key, settings, settings_onto,
  plugin_type, plugins_at, append_settings, append_plugin, append_plugins,
  append_inputs_and_outputs, append_sinks, global_tags_of, telegraf_config,
}

-- The type that a plugin names is `t`.
has_type : Text → Option Value → Bool
has_type t (some (str k)) = text_eq k t
has_type t _ = false

-- The entries of a plugin but for its type, in their order.
pub without_type : MetricSinkMap → GoMap Value
without_type [] = []
without_type ((k, v) ∷ m) =
    let rest = without_type m in if text_eq k (codes "type") then rest else (k, v) ∷ rest

-- The settings of the plugins of type `t`, in their order.
pub of_type : Text → List MetricSinkMap → List (GoMap Value)
of_type t [] = []
of_type t (m ∷ ms) =
    let rest = of_type t ms in
    if has_type t (lookup (codes "type") m) then without_type m ∷ rest else rest

-- A plugin is a Go map, where no key stands twice.
abbrev pub Proper : List MetricSinkMap → Type 0
Proper ms = All (λ m. distinct_keys m ≡ true) ms

-- What the loops pick.
abbrev pick : Text → Option Text → GoMap Value → List (GoMap Value) → List (GoMap Value)
pick t none s rest = rest
pick t (some k) s rest = if text_eq k t then s ∷ rest else rest

pick-has_type :
    (t : Text) (o : Option Value) (s : GoMap Value) (rest : List (GoMap Value))
    → pick t (elim o [ none ↦ none | some v ↦ as_string v ]) s rest
      ≡ (if has_type t o then s ∷ rest else rest)
unfolding has_type
pick-has_type t none s rest = refl
pick-has_type t (some v) s rest = ground (arith, v)

picked : Text → List MetricSinkMap → List (GoMap Value)
picked t [] = []
picked t (m ∷ ms) = pick t (plugin_type m) (settings m) (picked t ms)

insert_missing :
    (k : Text) (v : Value) (m : GoMap Value) → has_key k m ≡ false → insert k v m ≡ m ++ (k, v) ∷ []
unfolding insert has_key
insert_missing k v [] h = refl
insert_missing k v ((j, w) ∷ m) h = ground (arith, insert_missing k v m)

settings_onto-append :
    (acc : GoMap Value) (m : MetricSinkMap)
    → distinct_keys m ≡ true
    → ((j : Text) → has_key j m ≡ true → has_key j acc ≡ false)
    → settings_onto acc m ≡ acc ++ without_type m
unfolding settings_onto without_type distinct_keys has_key
settings_onto-append acc [] h apart = sym (append-nil acc)
settings_onto-append acc ((k, v) ∷ m) h apart = elim (Bool-cases (text_eq k type_key)) [
  | inl e ↦ rw e (settings_onto-append acc m (ground arith) (λ j there. apart j (ground arith)))
  | inr e ↦
      let new : has_key k acc ≡ false = apart k (ground (arith, text_eq_iff k k)) in
      let apart' : (j : Text) → has_key j m ≡ true → has_key j (insert k v acc) ≡ false =
        λ j there. ground (arith, has_key-insert k j v acc, text_eq_iff k j, apart j) in
      rw e (
        settings_onto-append (insert k v acc) m (ground arith) apart'
        ∙ ap (λ l. l ++ without_type m) (insert_missing k v acc new)
        ∙ append_assoc acc ((k, v) ∷ []) (without_type m))
]

settings-without_type : (m : MetricSinkMap) → distinct_keys m ≡ true → settings m ≡ without_type m
unfolding settings has_key
settings-without_type m h = settings_onto-append [] m h (λ j there. refl)

picked-of_type : (t : Text) (ms : List MetricSinkMap) → Proper ms → picked t ms ≡ of_type t ms
unfolding picked of_type plugin_type
picked-of_type t [] h = refl
picked-of_type t (m ∷ ms) h =
    ap₂ (λ s rest. pick t (plugin_type m) s rest) (settings-without_type m h.0)
      (picked-of_type t ms h.1)
    ∙ pick-has_type t (lookup type_key m) (without_type m) (of_type t ms)

plugins_at-insert :
    (k t : Text) (v : List (GoMap Value)) (ps : Plugins)
    → plugins_at t (insert k v ps) ≡ (if text_eq k t then v else plugins_at t ps)
unfolding plugins_at
plugins_at-insert k t v ps = ground (arith, lookup-insert k t v ps)

append_some :
    (t : Text) (ps : Plugins) (o : Option Text) (s : GoMap Value) (rest : List (GoMap Value))
    → plugins_at t (append_settings ps o s) ++ rest ≡ plugins_at t ps ++ pick t o s rest
unfolding append_settings
append_some t ps none s rest = refl
append_some t ps (some k) s rest = elim (Bool-cases (text_eq k t)) [
  | inl e ↦
      let same : k ≡ t = (text_eq_iff k t).0 e in
      ap (λ l. l ++ rest) (plugins_at-insert k t (plugins_at k ps ++ s ∷ []) ps)
      ∙ rw e (
          append_assoc (plugins_at k ps) (s ∷ []) rest ∙ ap (λ j. plugins_at j ps ++ s ∷ rest) same)
  | inr e ↦ ap (λ l. l ++ rest) (plugins_at-insert k t (plugins_at k ps ++ s ∷ []) ps) ∙ rw e
]

append_one :
    (t : Text) (ps : Plugins) (m : MetricSinkMap) (rest : List (GoMap Value))
    → plugins_at t (append_plugin ps m) ++ rest
      ≡ plugins_at t ps ++ pick t (plugin_type m) (settings m) rest
unfolding append_plugin
append_one t ps m rest = append_some t ps (plugin_type m) (settings m) rest

-- Appending plugins appends, for each type, the settings of those of that type.
plugins_at-append_plugins :
    (t : Text) (ms : List MetricSinkMap) (ps : Plugins)
    → plugins_at t (append_plugins ps ms) ≡ plugins_at t ps ++ picked t ms
unfolding append_plugins picked
plugins_at-append_plugins t [] ps = sym (append-nil _)
plugins_at-append_plugins t (m ∷ ms) ps =
    plugins_at-append_plugins t ms (append_plugin ps m) ∙ append_one t ps m (picked t ms)

unfoldable pub all_inputs : List ClusterMetricSink → List MetricSinkMap
all_inputs [] = []
all_inputs (s ∷ ss) = s.spec.inputs ++ all_inputs ss

unfoldable pub all_outputs : List ClusterMetricSink → List MetricSinkMap
all_outputs [] = []
all_outputs (s ∷ ss) = s.spec.outputs ++ all_outputs ss

picked-append :
    (t : Text) (ms ns : List MetricSinkMap) → picked t (ms ++ ns) ≡ picked t ms ++ picked t ns
unfolding picked
picked-append t [] ns = refl
picked-append t (m ∷ ms) ns = ground (arith, picked-append t ms ns)

sinks_inputs :
    (t : Text) (ss : List ClusterMetricSink) (c : TelegrafConfig)
    → plugins_at t (append_sinks c ss).inputs ≡ plugins_at t c.inputs ++ picked t (all_inputs ss)
unfolding append_sinks append_inputs_and_outputs all_inputs picked
sinks_inputs t [] c = sym (append-nil _)
sinks_inputs t (s ∷ ss) c =
    sinks_inputs t ss (append_inputs_and_outputs c s.spec.inputs s.spec.outputs)
    ∙ ap (λ l. l ++ picked t (all_inputs ss)) (plugins_at-append_plugins t s.spec.inputs c.inputs)
    ∙ append_assoc (plugins_at t c.inputs) _ _
    ∙ ap (◌++◌ (plugins_at t c.inputs)) (sym (picked-append t s.spec.inputs (all_inputs ss)))

sinks_outputs :
    (t : Text) (ss : List ClusterMetricSink) (c : TelegrafConfig)
    → plugins_at t (append_sinks c ss).outputs ≡ plugins_at t c.outputs ++ picked t (all_outputs ss)
unfolding append_sinks append_inputs_and_outputs all_outputs picked
sinks_outputs t [] c = sym (append-nil _)
sinks_outputs t (s ∷ ss) c =
    sinks_outputs t ss (append_inputs_and_outputs c s.spec.inputs s.spec.outputs)
    ∙ ap (λ l. l ++ picked t (all_outputs ss))
        (plugins_at-append_plugins t s.spec.outputs c.outputs)
    ∙ append_assoc (plugins_at t c.outputs) _ _
    ∙ ap (◌++◌ (plugins_at t c.outputs)) (sym (picked-append t s.spec.outputs (all_outputs ss)))

plugins_at-cons :
    (t k : Text) (v : List (GoMap Value)) (m : Plugins)
    → plugins_at t ((k, v) ∷ m) ≡ (if text_eq k t then v else plugins_at t m)
unfolding plugins_at lookup
plugins_at-cons t k v m = ground arith

plugins_at-copy_onto :
    (t : Text) (acc m : Plugins)
    → distinct_keys m ≡ true
    → plugins_at t (copy_onto acc m) ≡ (if has_key t m then plugins_at t m else plugins_at t acc)
unfolding copy_onto has_key distinct_keys
plugins_at-copy_onto t acc [] h = refl
plugins_at-copy_onto t acc ((k, v) ∷ m) h = ground (
  arith,
  plugins_at-copy_onto t (insert k v acc) m,
  plugins_at-insert k t v acc,
  plugins_at-cons t k v m,
  text_eq_iff k t,
)

lookup-settings_onto :
    (k : Text) (acc : GoMap Value) (m : MetricSinkMap)
    → distinct_keys m ≡ true
    → lookup k (settings_onto acc m) ≡ (
        if text_eq k type_key
        then lookup k acc
        else if has_key k m
        then lookup k m
        else lookup k acc)
unfolding settings_onto has_key distinct_keys lookup
lookup-settings_onto k acc [] h = ground arith
lookup-settings_onto k acc ((j, v) ∷ m) h = ground (
  arith,
  lookup-settings_onto k (if text_eq j type_key then acc else insert j v acc) m,
  lookup-insert j k v acc,
  text_eq_iff j k,
  text_eq_iff j type_key,
  text_eq_iff k type_key,
)

-- The settings of a plugin are the entries of its map, but for its type.
pub lookup-settings :
    (k : Text) (m : MetricSinkMap)
    → distinct_keys m ≡ true
    → lookup k (settings m) ≡ (if text_eq k type_key then none else lookup k m)
unfolding settings lookup
lookup-settings k m h = ground (arith, lookup-settings_onto k [] m h, has_key-lookup k m)

plugins_at-missing : (t : Text) (m : Plugins) → has_key t m ≡ false → plugins_at t m ≡ []
unfolding plugins_at
plugins_at-missing t m h = rw (has_key-lookup t m h, plugins_at)

plugins_at-copy_inputs :
    (t : Text) (m : Plugins)
    → distinct_keys m ≡ true
    → plugins_at t (copy_inputs m) ≡ plugins_at t m
unfolding copy_inputs
plugins_at-copy_inputs t m h = elim (Bool-cases (has_key t m)) [
  | inl e ↦ plugins_at-copy_onto t [] m h ∙ rw e
  | inr e ↦
      plugins_at-copy_onto t [] m h
      ∙ rw e (unfold plugins_at lookup in refl)
      ∙ sym (plugins_at-missing t m e)
]

-- In the configuration of the cluster, if no key of the default inputs and none of any plugin of
-- the sinks stands twice, the inputs of each type are the default ones of that type, then those of
-- all sinks whose entry "type" is that string, and the outputs are those of all sinks: in the order
-- of the map of sinks and, within a sink, in its own order, each with all entries but "type".
pub telegraf_config_plugins :
    (t : Text) (c : ClusterConfig)
    → distinct_keys c.default_inputs ≡ true
    → Proper (all_inputs (values c.cluster_sinks))
    → Proper (all_outputs (values c.cluster_sinks))
    → (plugins_at t (telegraf_config c).inputs
        ≡ plugins_at t c.default_inputs ++ of_type t (all_inputs (values c.cluster_sinks)))
      × (plugins_at t (telegraf_config c).outputs
          ≡ of_type t (all_outputs (values c.cluster_sinks)))
unfolding telegraf_config plugins_at lookup
telegraf_config_plugins t c h ins outs =
    let sinks = values c.cluster_sinks in
    let initial : TelegrafConfig = record {
      global_tags = global_tags_of c.cluster_name;
      inputs = copy_inputs c.default_inputs;
      outputs = [];
    } in
    (
      sinks_inputs t sinks initial
          ∙ ap₂ (λ l r. l ++ r) (plugins_at-copy_inputs t c.default_inputs h)
              (picked-of_type t (all_inputs sinks) ins),
      sinks_outputs t sinks initial ∙ picked-of_type t (all_outputs sinks) outs,
    )
