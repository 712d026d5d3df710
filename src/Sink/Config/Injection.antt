-- ===== src/Sink/Config/Injection.antt =====
-- A host with a newline in it: the text of a syslog sink is then read as further lines, and the
-- admission webhook lets such a host through.
use observability.Base.{
  pos, true, false, ◌≡◌, refl, ap, ◌∙◌, List, [], ◌∷◌, ◌++◌, Option, none, Text, codes, text_eq,
  itoa_ℤ, All, All-append, append_assoc, append-nil,
}
use observability.GoMap.{insert, values}
use observability.Api.{LogSink}
use observability.Flb.Utf8.{Unicode}
use observability.Flb.Parse.{Section, no_section, ok, parse}
use observability.Flb.Document.{Line, blank, header, entry, render, sections_from, WellFormed}
use observability.Flb.Document.Checks.{lines_check}
use observability.Flb.Document.Reading.{parse-render}
use observability.Webhook.Server.{refuse_spec}
use observability.Sink.Config.{
  Url, new_config, upsert_sink, syslog_sink, syslog_sinks, canonical_namespace, sink_string,
  sink_list_string, sort_slice, syslog_config, webhook_config, webhook_sinks, webhook_cluster_sinks,
  syslog_cluster_sinks, config_string,
}
use observability.Sink.Config.Outputs.{setting}

-- A sink whose host is `x`, a newline, the lines of a document, and the beginning of one more entry.
abbrev pub injecting_sink : List Line → LogSink
injecting_sink ls = record {
  type_meta = record { kind = []; api_version = [] };
  meta = record { name = codes "n"; namespace = codes "a"; cluster_name = []; uid = [] };
  spec = record {
    type = codes "syslog";
    syslog = record {
      host = b'x' ∷ b'\n' ∷ (render ls ++ codes "Comment x");
      port = pos 514;
      enable_tls = true;
    };
    webhook = record { url = [] };
    insecure_skip_verify = false;
  };
}

abbrev four : Text
four = codes "    "

abbrev one : Text
one = codes " "

abbrev lines_before : List Line
lines_before =
    blank []
    ∷ header [] (codes "OUTPUT")
    ∷ entry four (codes "Name") one (codes "syslog")
    ∷ entry four (codes "Match") one (codes "*")
    ∷ entry four (codes "InstanceName") one (codes "n")
    ∷ entry four (codes "Addr") one (codes "x")
    ∷ []

abbrev pub lines_behind : List Line
lines_behind =
    entry [] (codes "Comment") one (codes "x:514")
    ∷ entry four (codes "Namespace") one (codes "a")
    ∷ entry four (codes "TLSConfig") one (codes "{}")
    ∷ []

abbrev pub cut_section : Section
cut_section = record {
  name = codes "OUTPUT";
  key_values =
      setting (codes "Name") (codes "syslog")
      ∷ setting (codes "Match") (codes "*")
      ∷ setting (codes "InstanceName") (codes "n")
      ∷ setting (codes "Addr") (codes "x")
      ∷ [];
}

render-append : (ls ms : List Line) → render (ls ++ ms) ≡ render ls ++ render ms
unfolding render
render-append [] ms = refl
render-append (blank i ∷ ls) ms = simp (render-append ls ms, append_assoc)
render-append (header i n ∷ ls) ms = simp (render-append ls ms, append_assoc)
render-append (entry i k g v ∷ ls) ms = simp (render-append ls ms, append_assoc)

injected_text :
    (parse_url : Text → Option Url) (ls : List Line)
    → config_string parse_url (upsert_sink (injecting_sink ls) new_config)
      ≡ render (lines_before ++ (ls ++ lines_behind))
unfolding config_string syslog_config webhook_config webhook_sinks webhook_cluster_sinks sort_slice
    syslog_sinks syslog_cluster_sinks sink_list_string sink_string syslog_sink canonical_namespace
    upsert_sink new_config insert values text_eq itoa_ℤ render
injected_text parse_url ls = simp (append-nil, append_assoc, render-append)

injected-WellFormed :
    (ls : List Line) → All WellFormed ls → All WellFormed (lines_before ++ (ls ++ lines_behind))
injected-WellFormed ls h =
    All-append WellFormed lines_before (ls ++ lines_behind) (lines_check lines_before refl)
      (All-append WellFormed ls lines_behind h (lines_check lines_behind refl))

-- The webhook lets a sink through whose host has a newline and the lines of a well-formed document,
-- and the parser reads these lines within the text of that one sink: the output of the sink is cut
-- off behind its address, and the sections of the document follow as sections of the configuration.
pub injection :
    (u : Unicode) (parse_url : Text → Option Url) (name : Text) (ls : List Line)
    → All WellFormed ls
    → (refuse_spec (injecting_sink ls).spec ≡ none)
      × (parse u name (config_string parse_url (upsert_sink (injecting_sink ls) new_config))
          ≡ ok (record {
            name = name;
            sections = no_section ∷ sections_from cut_section (ls ++ lines_behind);
          }))
unfolding refuse_spec text_eq sections_from
injection u parse_url name ls h = (
  refl,
  ap (parse u name) (injected_text parse_url ls)
      ∙ parse-render u name (lines_before ++ (ls ++ lines_behind)) (injected-WellFormed ls h),
)
