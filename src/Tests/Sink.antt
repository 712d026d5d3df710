-- ===== src/Tests/Sink.antt =====
-- The configuration and the controllers of pkg/sink at concrete inputs.
use mathlib.Core.List.{Permᴰ, Perm}
use observability.Base.{◌≡◌, refl, [], ◌∷◌, ◌++◌, List, none, some, map, Text, codes, All, text_eq}
use observability.GoMap.{values}
use observability.Flb.Parse.{ok, parse, no_section}
use observability.Flb.Document.{sections_from}
use observability.Flb.Document.Checks.{lines_check, literal_value}
use observability.Sink.Config.{
  Config, new_config, upsert_sink, config_string, syslog_config, syslog_sink, canonical_namespace,
}
use observability.Sink.Config.Outputs.{outputs, output_section}
use observability.Sink.Config.CleanSinks.{CleanSink, CleanClusterSink}
use observability.Sink.Config.Reading.{parse-config_string}
use observability.Sink.Config.Order.{Pairwise, Apart, ClusterApart, syslog_config-perm}
use observability.Sink.Config.Injection.{injecting_sink, lines_behind, cut_section, injection}
use observability.Sink.Controller.{
  World, add_sink, update_sink, remove_sink, add_cluster_sink, spec_eq,
}
use observability.Sink.Controller.Events.{
  added, updated, cluster_added, tombstone, of_log_sinks, of_cluster_log_sinks, after, AllGenuine,
  current, no_sinks, published,
}
use observability.Sink.Controller.Threads
use observability.Sink.Controller.Threads.{
  System, start, change, Move, report, read, patch, step, run, reports,
}
use observability.Sink.Controller.Sync.{IsTextOf}
use observability.Sink.Controller.Interleaving.{published-current}
use observability.Webhook.Server.{refuse_spec}
use observability.Tests.Data.{
  ascii, document, parse_example, first_sink, second_sink, moved_sink, cluster_sink, some_config,
  same_config, no_replies,
}

sinks-CleanSink : All (CleanSink parse_example) (values some_config.sinks)
unfolding text_eq values
sinks-CleanSink = (
  (
    literal_value (codes "one") refl,
    literal_value (codes "a") refl,
    (literal_value (codes "logs") refl, tt),
  ),
  (
    (
      literal_value (codes "two") refl,
      literal_value (codes "a") refl,
      (literal_value (codes "logs") refl, tt),
    ),
    tt,
  ),
)

cluster_sinks-CleanClusterSink :
    All (CleanClusterSink parse_example) (values some_config.cluster_sinks)
unfolding text_eq values
cluster_sinks-CleanClusterSink = (
  (
    literal_value (codes "c") refl,
    (
      literal_value [] refl,
      (literal_value (codes "h.io") refl, literal_value [] refl, literal_value (codes "/in") refl),
    ),
  ),
  tt,
)

parse-config_string_example :
    parse ascii (codes "f") (config_string parse_example some_config)
    ≡ ok (record {
      name = codes "f";
      sections = no_section ∷ map output_section (outputs parse_example some_config);
    })
parse-config_string_example =
    parse-config_string ascii parse_example (codes "f") some_config sinks-CleanSink
      cluster_sinks-CleanClusterSink

swapped : Perm some_config.sinks same_config.sinks
swapped = ∣ Permᴰ.swap refl refl ∣₁

unmoved : Perm some_config.cluster_sinks same_config.cluster_sinks
unmoved = ∣ Permᴰ.cons refl Permᴰ.nil ∣₁

apart : Pairwise Apart some_config.sinks
unfolding syslog_sink text_eq canonical_namespace
apart = ((refl, tt), (tt, tt))

cluster_apart : Pairwise ClusterApart some_config.cluster_sinks
cluster_apart = (tt, tt)

syslog_config-perm_example : syslog_config some_config ≡ syslog_config same_config
syslog_config-perm_example =
    syslog_config-perm some_config same_config swapped unmoved apart cluster_apart

-- Both goroutines change the configuration before one of them reads it and patches; the other goroutine
-- reads last of all.
abbrev moves : List Move
moves =
    report (added first_sink)
    ∷ report (cluster_added cluster_sink)
    ∷ read of_log_sinks
    ∷ patch of_log_sinks no_replies
    ∷ report (updated first_sink moved_sink)
    ∷ read of_log_sinks
    ∷ patch of_log_sinks no_replies
    ∷ report (tombstone of_log_sinks)
    ∷ report (added second_sink)
    ∷ []

abbrev later_moves : List Move
later_moves = read of_log_sinks ∷ patch of_log_sinks no_replies ∷ []

abbrev all_moves : List Move
all_moves =
    moves ++ read of_cluster_log_sinks ∷ (later_moves ++ patch of_cluster_log_sinks no_replies ∷ [])

abbrev no_calls : World
no_calls = record { config = new_config; effects = [] }

abbrev last_state : System
last_state = elim (run parse_example all_moves (start no_calls)) [
  | none ↦ start no_calls
  | some s ↦ s
]

run-moves : run parse_example all_moves (start no_calls) ≡ some last_state
unfolding run step change add_sink update_sink remove_sink add_cluster_sink spec_eq text_eq
run-moves = refl

moves-AllGenuine : AllGenuine (reports moves) no_sinks
unfolding reports after text_eq
moves-AllGenuine = (tt, (tt, ((refl, refl, refl), (tt, (tt, tt)))))

no_later_report : reports later_moves ≡ []
unfolding reports
no_later_report = refl

published-current_example :
    (text : Text) × (published last_state.world.effects ≡ some text)
    × IsTextOf parse_example (current (reports moves) no_sinks) text
published-current_example =
    published-current parse_example no_calls moves later_moves of_cluster_log_sinks no_replies
      last_state refl moves-AllGenuine no_later_report run-moves

injection_example :
    (refuse_spec (injecting_sink document).spec ≡ none)
    × (parse ascii
          (codes "f")
          (config_string parse_example (upsert_sink (injecting_sink document) new_config))
        ≡ ok (record {
          name = codes "f";
          sections = no_section ∷ sections_from cut_section (document ++ lines_behind);
        }))
injection_example = injection ascii parse_example (codes "f") document (lines_check document refl)
