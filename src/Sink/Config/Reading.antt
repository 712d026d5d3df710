-- ===== src/Sink/Config/Reading.antt =====
-- The configuration that the sinks make is in the format of fluent-bit: the parser of
-- pkg/sink/flbconfig reads back each output with its settings.
use observability.Base.{
  Bool, true, false, ◌&&◌, ◌≡◌, refl, ap, ◌∙◌, List, [], ◌∷◌, map, Option, none, some, ◌==◌,
  if◌then◌else◌, Text, codes, text_eq, All, All-append, Bool-cases, if_intro, inl, inr, length, ◌+◌,
}
use observability.GoMap.{values}
use observability.Api.{SinkSpec, LogSink, ClusterLogSink}
use observability.Flb.Utf8.{Unicode}
use observability.Flb.Parse.{no_section, ok, parse}
use observability.Flb.Document.{OneLine}
use observability.Flb.Document.Checks.{Clean, literal-Key, literal_value}
use observability.Flb.Document.Reading.{parse-render}
use observability.Sink.Config.{
  Url, Config, syslog_sinks, syslog_cluster_sinks, sink_less, cluster_sink_less, is_webhook,
  http_match, http_port, http_path, config_string,
}
use observability.Sink.Config.Outputs.{
  Output, setting, blocks, output_section, https_settings, http_output, null_output,
  http_outputs_of, http_outputs, http_cluster_outputs, sorted_sinks, sorted_cluster_sinks, outputs,
  config_text,
}
use observability.Sink.Config.Blocks.{sections-blocks, CleanSetting, CleanOutput, blocks-WellFormed}
use observability.Sink.Config.CleanSinks.{
  CleanUrl, CleanSink, CleanClusterSink, CleanSyslog, syslog_sinks-Clean,
  syslog_cluster_sinks-Clean, sort_slice-All, syslog_outputs-Clean,
}

http_match-Clean : (ns : Text) (b : Bool) → OneLine ns → Clean (http_match ns b)
unfolding http_match
http_match-Clean ns true h = literal_value (codes "*") refl
http_match-Clean ns false h = (
  (refl, (refl, All-append (λ c. c == b'\n' ≡ false) ns (codes "_*") h (refl, (refl, tt)))),
  refl,
)

http_port-Clean : (url : Url) → Clean url.port → Clean (http_port url)
unfolding http_port text_eq
http_port-Clean url h =
    let secure = literal_value (codes "443") refl in
    let plain = literal_value (codes "80") refl in
    elim (Bool-cases (text_eq url.port [] && text_eq url.scheme (codes "https"))) [
      | inl e ↦ rw e secure
      | inr e ↦
          rw e (if_intro Clean (text_eq url.port [] && text_eq url.scheme (codes "http")) plain h)
    ]

http_path-Clean : (url : Url) → Clean url.path → Clean (http_path url)
unfolding http_path
http_path-Clean url h = if_intro Clean (text_eq url.path []) (literal_value (codes "/") refl) h

https-Clean : (url : Url) (spec : SinkSpec) → All CleanSetting (https_settings url spec)
https-Clean url spec = go (text_eq url.scheme (codes "https")) spec.insecure_skip_verify
  where
    go :
        (secure insecure : Bool)
        → All CleanSetting (
            if secure
            then setting (codes "tls") (codes "On")
              ∷ (if insecure then setting (codes "tls.verify") (codes "Off") ∷ [] else [])
            else [])
    go true true = (
      (literal-Key b't' (codes "ls") refl, literal_value (codes "On") refl),
      ((literal-Key b't' (codes "ls.verify") refl, literal_value (codes "Off") refl), tt),
    )
    go true false = ((literal-Key b't' (codes "ls") refl, literal_value (codes "On") refl), tt)
    go false insecure = tt

http_outputs_of-Clean :
    (ns : Text) (spec : SinkSpec) (b : Bool) (o : Option Url) (os : List Output)
    → OneLine ns
    → CleanUrl o
    → All CleanOutput os
    → All CleanOutput (http_outputs_of ns spec b o os)
unfolding http_output
http_outputs_of-Clean ns spec b none os n h k = k
http_outputs_of-Clean ns spec b (some url) os n h k = (
  (
    (literal-Key b'N' (codes "ame") refl, literal_value (codes "http") refl),
    (
      (literal-Key b'M' (codes "atch") refl, http_match-Clean ns b n),
      (
        (literal-Key b'F' (codes "ormat") refl, literal_value (codes "json") refl),
        (
          (literal-Key b'H' (codes "ost") refl, h.0),
          (
            (literal-Key b'P' (codes "ort") refl, http_port-Clean url h.1),
            ((literal-Key b'U' (codes "RI") refl, http_path-Clean url h.2), https-Clean url spec),
          ),
        ),
      ),
    ),
  ),
  k,
)

module _ (parse_url : Text → Option Url) where
  http_outputs-Clean :
      (ss : List LogSink)
      → All (CleanSink parse_url) ss
      → All CleanOutput (http_outputs parse_url ss)
  unfolding http_outputs
  http_outputs-Clean [] h = tt
  http_outputs-Clean (s ∷ ss) h = elim (Bool-cases (is_webhook s.spec)) [
    | inl e ↦ rw e (
        http_outputs_of-Clean s.meta.namespace s.spec false (parse_url s.spec.webhook.url) _ h.0.1.0
          h.0.2.1 (http_outputs-Clean ss h.1))
    | inr e ↦ rw e (http_outputs-Clean ss h.1)
  ]

  http_cluster_outputs-Clean :
      (ss : List ClusterLogSink)
      → All (CleanClusterSink parse_url) ss
      → All CleanOutput (http_cluster_outputs parse_url ss)
  unfolding http_cluster_outputs
  http_cluster_outputs-Clean [] h = tt
  http_cluster_outputs-Clean (s ∷ ss) h = elim (Bool-cases (is_webhook s.spec)) [
    | inl e ↦ rw e (
        http_outputs_of-Clean [] s.spec true (parse_url s.spec.webhook.url) _ tt h.0.1.1
          (http_cluster_outputs-Clean ss h.1))
    | inr e ↦ rw e (http_cluster_outputs-Clean ss h.1)
  ]

  outputs-Clean :
      (c : Config)
      → All (CleanSink parse_url) (values c.sinks)
      → All (CleanClusterSink parse_url) (values c.cluster_sinks)
      → All CleanOutput (outputs parse_url c)
  unfolding outputs
  outputs-Clean c h k =
      let sinks = syslog_outputs-Clean (sorted_sinks c) (
        sort_slice-All CleanSyslog sink_less (syslog_sinks (values c.sinks))
          (syslog_sinks-Clean parse_url (values c.sinks) h)) in
      let cluster_sinks = syslog_outputs-Clean (sorted_cluster_sinks c) (
        sort_slice-All CleanSyslog cluster_sink_less (syslog_cluster_sinks (values c.cluster_sinks))
          (syslog_cluster_sinks-Clean parse_url (values c.cluster_sinks) k)) in
      let nothing : CleanOutput null_output = (
        (literal-Key b'N' (codes "ame") refl, literal_value (codes "null") refl),
        ((literal-Key b'M' (codes "atch") refl, literal_value (codes "*") refl), tt),
      ) in
      if_intro (All CleanOutput) (length c.sinks + length c.cluster_sinks == 0) (nothing, tt)
        (All-append CleanOutput _ _ sinks (
          All-append CleanOutput _ _ cluster_sinks (
            All-append CleanOutput _ _ (http_outputs-Clean (values c.sinks) h)
              (http_cluster_outputs-Clean (values c.cluster_sinks) k))))

-- The parser reads the text of a configuration back, section by section: behind the section with no
-- name there is one section OUTPUT for each output, with its settings in their order, if the texts
-- of the sinks and of their URLs have no newline and do not begin with white space.
pub parse-config_string :
    (u : Unicode) (parse_url : Text → Option Url) (name : Text) (c : Config)
    → All (CleanSink parse_url) (values c.sinks)
    → All (CleanClusterSink parse_url) (values c.cluster_sinks)
    → parse u name (config_string parse_url c)
      ≡ ok
          (record { name = name; sections = no_section ∷ map output_section (outputs parse_url c) })
parse-config_string u parse_url name c h k =
    let lines = blocks (outputs parse_url c) [] in
    ap (parse u name) (config_text parse_url c)
    ∙ parse-render u name lines (blocks-WellFormed _ (outputs-Clean parse_url c h k))
    ∙ ap (λ ss. ok (record { name = name; sections = ss }))
        (sections-blocks no_section (outputs parse_url c))
