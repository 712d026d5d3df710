-- ===== src/Sink/Config/Outputs.antt =====
-- The outputs of a configuration, as settings: an independent description of the text that
-- pkg/sink/config.go builds, with a document of fluent-bit's format for each output.
use observability.Base.{
  Bool, true, false, ◌≡◌, refl, sym, ap, ◌∙◌, List, [], ◌∷◌, ◌++◌, map, Option, none, some, arith,
  if◌then◌else◌, Text, codes, text_eq, append_assoc, append-nil, Bool-cases, inl, inr, ◌+◌, ◌==◌,
  length,
}
use observability.GoMap.{values}
use observability.Api.{SinkSpec, LogSink, ClusterLogSink}
use observability.Flb.Parse.{KeyValue, Section}
use observability.Flb.Document.{Line, blank, header, entry, render}
use observability.Sink.Config.{
  Url, http_output_config, SyslogSink, sink_string, sink_list_string, http_port, http_extras,
  http_match, http_path, http_config_of, build_http_config, is_webhook, webhook_sinks,
  webhook_cluster_sinks, Config, sort_slice, sink_less, cluster_sink_less, syslog_sinks,
  syslog_cluster_sinks, syslog_config, webhook_config, config_string,
}

-- One output: its settings, and whether an empty line closes it.
pub record Output : Type 0 where
  pub settings : List KeyValue
  pub spaced : Bool

abbrev pub setting : Text → Text → KeyValue
setting k v = record { key = k; value = v }

abbrev indentation : Text
indentation = codes "    "

abbrev pub entries : List KeyValue → List Line → List Line
entries [] ls = ls
entries (kv ∷ kvs) ls = entry indentation kv.key (codes " ") kv.value ∷ entries kvs ls

abbrev pub block : Output → List Line → List Line
block o ls =
    blank []
    ∷ header [] (codes "OUTPUT")
    ∷ entries o.settings (if o.spaced then blank [] ∷ ls else ls)

-- The lines of some outputs, in front of others.
unfoldable pub blocks : List Output → List Line → List Line
blocks [] ls = ls
blocks (o ∷ os) ls = block o (blocks os ls)

unfoldable pub output_section : Output → Section
output_section o = record { name = codes "OUTPUT"; key_values = o.settings }

abbrev pub tls_settings : Option Bool → List KeyValue
tls_settings none = []
tls_settings (some true) =
    setting (codes "TLSConfig") (codes "{\"insecure_skip_verify\":true}") ∷ []
tls_settings (some false) = setting (codes "TLSConfig") (codes "{}") ∷ []

abbrev pub scope_setting : Text → KeyValue
scope_setting [] = setting (codes "Cluster") (codes "true")
scope_setting (c ∷ ns) = setting (codes "Namespace") (c ∷ ns)

unfoldable pub syslog_output : SyslogSink → Output
syslog_output s = record {
  settings =
      setting (codes "Name") (codes "syslog")
      ∷ setting (codes "Match") (codes "*")
      ∷ setting (codes "InstanceName") s.name
      ∷ setting (codes "Addr") s.addr
      ∷ scope_setting s.namespace
      ∷ tls_settings s.tls;
  spaced = false;
}

abbrev pub https_settings : Url → SinkSpec → List KeyValue
https_settings url spec =
    if text_eq url.scheme (codes "https")
    then setting (codes "tls") (codes "On")
      ∷ (if spec.insecure_skip_verify then setting (codes "tls.verify") (codes "Off") ∷ [] else [])
    else []

unfoldable pub http_output : Text → SinkSpec → Bool → Url → Output
http_output namespace spec is_cluster url = record {
  settings =
      setting (codes "Name") (codes "http")
      ∷ setting (codes "Match") (http_match namespace is_cluster)
      ∷ setting (codes "Format") (codes "json")
      ∷ setting (codes "Host") url.hostname
      ∷ setting (codes "Port") (http_port url)
      ∷ setting (codes "URI") (http_path url)
      ∷ https_settings url spec;
  spaced = true;
}

abbrev pub null_output : Output
null_output = record {
  settings = setting (codes "Name") (codes "null") ∷ setting (codes "Match") (codes "*") ∷ [];
  spaced = false;
}

-- A sink whose URL is refused has no output.
abbrev pub http_outputs_of : Text → SinkSpec → Bool → Option Url → List Output → List Output
http_outputs_of namespace spec is_cluster none rest = rest
http_outputs_of namespace spec is_cluster (some url) rest =
    http_output namespace spec is_cluster url ∷ rest

module _ (parse_url : Text → Option Url) where
  unfoldable pub http_outputs : List LogSink → List Output
  http_outputs [] = []
  http_outputs (s ∷ ss) =
      let rest = http_outputs ss in
      if is_webhook s.spec
      then http_outputs_of s.meta.namespace s.spec false (parse_url s.spec.webhook.url) rest
      else rest

  unfoldable pub http_cluster_outputs : List ClusterLogSink → List Output
  http_cluster_outputs [] = []
  http_cluster_outputs (s ∷ ss) =
      let rest = http_cluster_outputs ss in
      if is_webhook s.spec
      then http_outputs_of [] s.spec true (parse_url s.spec.webhook.url) rest
      else rest

syslog_text :
    (addr ns name : Text) (tls : Option Bool) (ls : List Line)
    → sink_string (record { addr = addr; namespace = ns; tls = tls; name = name }) ++ render ls
      ≡ render (
          block (syslog_output (record { addr = addr; namespace = ns; tls = tls; name = name })) ls)
unfolding sink_string syslog_output render
syslog_text addr [] name none ls = simp append_assoc
syslog_text addr [] name (some true) ls = simp append_assoc
syslog_text addr [] name (some false) ls = simp append_assoc
syslog_text addr (c ∷ ns) name none ls = simp append_assoc
syslog_text addr (c ∷ ns) name (some true) ls = simp append_assoc
syslog_text addr (c ∷ ns) name (some false) ls = simp append_assoc

http_text :
    (match host port path extras : Text) (is_https insecure : Bool) (ls : List Line)
    → extras ≡ (
        if is_https
        then codes "    tls On\n" ++ (if insecure then codes "    tls.verify Off\n" else [])
        else [])
    → http_output_config match host port path extras ++ render ls
      ≡ render (
          block
            (record {
              settings =
                  setting (codes "Name") (codes "http")
                  ∷ setting (codes "Match") match
                  ∷ setting (codes "Format") (codes "json")
                  ∷ setting (codes "Host") host
                  ∷ setting (codes "Port") port
                  ∷ setting (codes "URI") path
                  ∷ (if is_https
                      then setting (codes "tls") (codes "On")
                        ∷ (if insecure then setting (codes "tls.verify") (codes "Off") ∷ [] else [])
                      else []);
              spaced = true;
            })
            ls)
unfolding http_output_config render
http_text match host port path extras true true ls e = rw e (simp append_assoc)
http_text match host port path extras true false ls e = rw e (simp append_assoc)
http_text match host port path extras false insecure ls e = rw e (simp append_assoc)

sink_list_text :
    (ss : List SyslogSink) (ls : List Line)
    → sink_list_string ss ++ render ls ≡ render (blocks (map syslog_output ss) ls)
unfolding sink_list_string blocks
sink_list_text [] ls = refl
sink_list_text (s ∷ ss) ls =
    append_assoc (sink_string s) (sink_list_string ss) (render ls)
    ∙ ap (◌++◌ (sink_string s)) (sink_list_text ss ls)
    ∙ syslog_text s.addr s.namespace s.name s.tls (blocks (map syslog_output ss) ls)

http_one :
    (namespace : Text) (spec : SinkSpec) (is_cluster : Bool) (o : Option Url) (os : List Output)
    (t : Text) (ls : List Line)
    → t ++ render ls ≡ render (blocks os ls)
    → (http_config_of namespace spec is_cluster o ++ t) ++ render ls
      ≡ render (blocks (http_outputs_of namespace spec is_cluster o os) ls)
unfolding http_config_of http_output http_extras blocks
http_one namespace spec is_cluster none os t ls e = e
http_one namespace spec is_cluster (some url) os t ls e =
    append_assoc (http_output_config _ _ _ _ _) t (render ls)
    ∙ ap (◌++◌ (http_output_config _ _ _ _ _)) e
    ∙ http_text (http_match namespace is_cluster) url.hostname (http_port url) (http_path url)
        (http_extras url spec) (text_eq url.scheme (codes "https")) spec.insecure_skip_verify
        (blocks os ls) refl

module _ (parse_url : Text → Option Url) where
  http_list_text :
      (ss : List LogSink) (ls : List Line)
      → webhook_sinks parse_url ss ++ render ls ≡ render (blocks (http_outputs parse_url ss) ls)
  unfolding webhook_sinks build_http_config http_outputs blocks
  http_list_text [] ls = refl
  http_list_text (s ∷ ss) ls = elim (Bool-cases (is_webhook s.spec)) [
    | inl e ↦ rw e (
        http_one s.meta.namespace s.spec false (parse_url s.spec.webhook.url)
          (http_outputs parse_url ss) (webhook_sinks parse_url ss) ls (http_list_text ss ls))
    | inr e ↦ rw e (http_list_text ss ls)
  ]

  http_cluster_list_text :
      (ss : List ClusterLogSink) (ls : List Line)
      → webhook_cluster_sinks parse_url ss ++ render ls
        ≡ render (blocks (http_cluster_outputs parse_url ss) ls)
  unfolding webhook_cluster_sinks build_http_config http_cluster_outputs blocks
  http_cluster_list_text [] ls = refl
  http_cluster_list_text (s ∷ ss) ls = elim (Bool-cases (is_webhook s.spec)) [
    | inl e ↦ rw e (
        http_one [] s.spec true (parse_url s.spec.webhook.url) (http_cluster_outputs parse_url ss)
          (webhook_cluster_sinks parse_url ss) ls (http_cluster_list_text ss ls))
    | inr e ↦ rw e (http_cluster_list_text ss ls)
  ]

blocks_add :
    (os ps : List Output) (ls : List Line) → blocks (os ++ ps) ls ≡ blocks os (blocks ps ls)
unfolding blocks
blocks_add [] ps ls = refl
blocks_add (o ∷ os) ps ls = ap (block o) (blocks_add os ps ls)

-- The sinks in the order of the text.
abbrev pub sorted_sinks : Config → List SyslogSink
sorted_sinks c = sort_slice sink_less (syslog_sinks (values c.sinks))

abbrev pub sorted_cluster_sinks : Config → List SyslogSink
sorted_cluster_sinks c =
    sort_slice cluster_sink_less (syslog_cluster_sinks (values c.cluster_sinks))

-- The outputs of a configuration: syslog in front of http, and the sinks of namespaces in front of
-- those of the cluster. With no sink at all there is the output that drops everything.
unfoldable pub outputs : (Text → Option Url) → Config → List Output
outputs parse_url c =
    if length c.sinks + length c.cluster_sinks == 0
    then null_output ∷ []
    else map syslog_output (sorted_sinks c)
      ++ (map syslog_output (sorted_cluster_sinks c)
          ++ (http_outputs parse_url (values c.sinks)
              ++ http_cluster_outputs parse_url (values c.cluster_sinks)))

joined :
    (xs ys : List SyslogSink)
    → (if length xs + length ys == 0 then [] else sink_list_string xs ++ sink_list_string ys)
      ≡ sink_list_string xs ++ sink_list_string ys
unfolding sink_list_string
joined [] [] = refl
joined [] (y ∷ ys) = ground arith
joined (x ∷ xs) ys = ground arith

syslog_config_text :
    (c : Config) (ls : List Line)
    → syslog_config c ++ render ls
      ≡ render (
          blocks
            (map syslog_output (sorted_sinks c))
            (blocks (map syslog_output (sorted_cluster_sinks c)) ls))
unfolding syslog_config
syslog_config_text c ls =
    let xs = sink_list_string (sorted_sinks c) in
    let ys = sink_list_string (sorted_cluster_sinks c) in
    ap (λ t. t ++ render ls) (joined (sorted_sinks c) (sorted_cluster_sinks c))
    ∙ append_assoc xs ys (render ls)
    ∙ ap (◌++◌ xs) (sink_list_text (sorted_cluster_sinks c) ls)
    ∙ sink_list_text (sorted_sinks c) (blocks (map syslog_output (sorted_cluster_sinks c)) ls)

webhook_config_text :
    (parse_url : Text → Option Url) (c : Config)
    → webhook_config parse_url c
      ≡ render (
          blocks
            (http_outputs parse_url (values c.sinks))
            (blocks (http_cluster_outputs parse_url (values c.cluster_sinks)) []))
unfolding webhook_config render
webhook_config_text parse_url c =
    let xs = webhook_sinks parse_url (values c.sinks) in
    ap (◌++◌ xs) (sym (append-nil _) ∙ http_cluster_list_text parse_url (values c.cluster_sinks) [])
    ∙ http_list_text parse_url (values c.sinks)
        (blocks (http_cluster_outputs parse_url (values c.cluster_sinks)) [])

-- The text of a configuration is the document of its outputs.
pub config_text :
    (parse_url : Text → Option Url) (c : Config)
    → config_string parse_url c ≡ render (blocks (outputs parse_url c) [])
unfolding config_string outputs
config_text parse_url c = elim (Bool-cases (length c.sinks + length c.cluster_sinks == 0)) [
  | inl e ↦ rw e (unfold render blocks in refl)
  | inr e ↦ rw e (
      ap (◌++◌ (syslog_config c)) (webhook_config_text parse_url c)
      ∙ syslog_config_text c _
      ∙ ap (λ ls. render (blocks (map syslog_output (sorted_sinks c)) ls))
          (ap (blocks (map syslog_output (sorted_cluster_sinks c))) (sym (blocks_add _ _ []))
            ∙ sym (blocks_add _ _ []))
      ∙ ap render (sym (blocks_add _ _ [])))
]
