-- ===== src/Sink/Controller/Threads.antt =====
-- The goroutines of the two controllers: each handles one report at a time in three steps, the change
-- of the shared configuration, the reading of its text, and the patch. The steps of
-- one goroutine may stand between those of the other.
use observability.Base.{List, [], ◌∷◌, Option, none, some, Text}
use observability.Sink.Config.{Url, Config, config_string}
use observability.Sink.Controller.{
  Replies, World, log_sink, cluster_log_sink, other, add_sink, remove_sink, update_sink,
  add_cluster_sink, remove_cluster_sink, update_cluster_sink, send,
}
use observability.Sink.Controller.Events.{
  Thread, of_log_sinks, of_cluster_log_sinks, Event, added, deleted, updated, cluster_added,
  cluster_deleted, cluster_updated, tombstone,
}

-- Where a goroutine stands: between two handlers, behind the change, or with the text.
pub data Phase : Type 0 where
  idle changed : Phase
  has_read : Text → Phase

pub record System : Type 0 where
  pub world : World
  pub log_phase : Phase
  pub cluster_phase : Phase

abbrev pub start : World → System
start w = record { world = w; log_phase = idle; cluster_phase = idle }

abbrev pub phase_of : Thread → System → Phase
phase_of of_log_sinks s = s.log_phase
phase_of of_cluster_log_sinks s = s.cluster_phase

abbrev pub set_phase : Thread → Phase → System → System
set_phase of_log_sinks p s = record s { log_phase = p }
set_phase of_cluster_log_sinks p s = record s { cluster_phase = p }

abbrev pub thread_of : Event → Thread
thread_of (added s) = of_log_sinks
thread_of (deleted s) = of_log_sinks
thread_of (updated o n) = of_log_sinks
thread_of (cluster_added s) = of_cluster_log_sinks
thread_of (cluster_deleted s) = of_cluster_log_sinks
thread_of (cluster_updated o n) = of_cluster_log_sinks
thread_of (tombstone t) = t

-- The handler that a report calls, up to the change.
unfoldable pub change : Event → Config → Option Config
unfolding add_sink remove_sink update_sink add_cluster_sink remove_cluster_sink update_cluster_sink
change (added s) = add_sink (log_sink s)
change (deleted s) = remove_sink (log_sink s)
change (updated o n) = update_sink (log_sink o) (log_sink n)
change (cluster_added s) = add_cluster_sink (cluster_log_sink s)
change (cluster_deleted s) = remove_cluster_sink (cluster_log_sink s)
change (cluster_updated o n) = update_cluster_sink (cluster_log_sink o) (cluster_log_sink n)
change (tombstone of_log_sinks) = remove_sink other
change (tombstone of_cluster_log_sinks) = remove_cluster_sink other

pub data Move : Type 0 where
  report : Event → Move
  read : Thread → Move
  patch : Thread → Replies → Move

-- Behind the change that a report makes.
abbrev pub set_config : Thread → Option Config → System → System
set_config t none s = s
set_config t (some c) s = set_phase t changed (record s { world = record s.world { config = c } })

abbrev pub report_at : Phase → Event → System → Option System
report_at idle e s = some (set_config (thread_of e) (change e s.world.config) s)
report_at _ e s = none

module _ (parse_url : Text → Option Url) where
  abbrev pub read_at : Phase → Thread → System → Option System
  read_at changed t s = some (set_phase t (has_read (config_string parse_url s.world.config)) s)
  read_at _ t s = none

  abbrev pub patch_at : Phase → Thread → Replies → System → Option System
  patch_at (has_read text) t r s =
      some (set_phase t idle (record s { world = send r text s.world }))
  patch_at _ t r s = none

  -- A goroutine makes its moves in their order: `none` is a move out of turn.
  unfoldable pub step : Move → System → Option System
  step (report e) s = report_at (phase_of (thread_of e) s) e s
  step (read t) s = read_at (phase_of t s) t s
  step (patch t r) s = patch_at (phase_of t s) t r s

  unfoldable pub run : List Move → System → Option System
  unfolding step
  run [] s = some s
  run (m ∷ ms) s = elim (step m s) [ none ↦ none | some s' ↦ run ms s' ]

-- The reports among some moves.
unfoldable pub reports : List Move → List Event
reports [] = []
reports (report e ∷ ms) = e ∷ reports ms
reports (read t ∷ ms) = reports ms
reports (patch t r ∷ ms) = reports ms
