-- ===== src/Tests/Data.antt =====
-- The inputs of the tests.
use observability.Base.{
  pos, refl, true, false, ◌&&◌, ◌||◌, leb, List, [], ◌∷◌, Option, none, some, Text, codes, text_eq,
  if◌then◌else◌, String,
}
use observability.Api.{ObjectMeta, SinkSpec, LogSink, ClusterLogSink}
use observability.Flb.Utf8.{Unicode}
use observability.Flb.Document.{Line, blank, header, entry}
use observability.Sink.Config.{Url, Config}
use observability.Sink.Controller.{Replies}

-- The part of the tables that every release of Go has.
abbrev pub ascii : Unicode
ascii = record {
  is_letter = λ c. leb b'A' c && leb c b'Z' || leb b'a' c && leb c b'z';
  is_number = λ c. leb b'0' c && leb c b'9';
  ascii_letter = λ c h. refl;
  ascii_number = λ c h. refl;
  error_letter = refl;
  error_number = refl;
}

abbrev pub document : List Line
document =
    entry [] (codes "k") (codes " ") (codes "1")
    ∷ header (codes " ") (codes "INPUT")
    ∷ blank (codes "\t")
    ∷ entry (codes "  ") (codes "Name") (codes "  ") (codes "a [b] c")
    ∷ []

abbrev pub example_url : Url
example_url = record {
  scheme = codes "https";
  hostname = codes "h.io";
  port = [];
  path = codes "/in";
}

-- Stands for `url.Parse` on one URL.
abbrev pub parse_example : Text → Option Url
parse_example s = if text_eq s (codes "https://h.io/in") then some example_url else none

abbrev pub named : String → String → ObjectMeta
named name namespace = record {
  name = codes name;
  namespace = codes namespace;
  cluster_name = [];
  uid = codes "7";
}

abbrev pub syslog_spec : SinkSpec
syslog_spec = record {
  type = codes "syslog";
  syslog = record { host = codes "logs"; port = pos 514; enable_tls = true };
  webhook = record { url = [] };
  insecure_skip_verify = true;
}

abbrev pub webhook_spec : SinkSpec
webhook_spec = record {
  type = codes "webhook";
  syslog = record { host = []; port = pos 0; enable_tls = false };
  webhook = record { url = codes "https://h.io/in" };
  insecure_skip_verify = false;
}

abbrev pub first_sink : LogSink
first_sink = record {
  type_meta = record { kind = []; api_version = [] };
  meta = named "one" "a";
  spec = syslog_spec;
}

abbrev pub second_sink : LogSink
second_sink = record {
  type_meta = record { kind = []; api_version = [] };
  meta = named "two" "a";
  spec = syslog_spec;
}

abbrev pub moved_sink : LogSink
moved_sink = record first_sink { spec = webhook_spec }

abbrev pub cluster_sink : ClusterLogSink
cluster_sink = record {
  type_meta = record { kind = []; api_version = [] };
  meta = named "c" "";
  spec = webhook_spec;
}

abbrev pub some_config : Config
some_config = record {
  sinks = (codes "a|one", first_sink) ∷ (codes "a|two", second_sink) ∷ [];
  cluster_sinks = (codes "|c", cluster_sink) ∷ [];
}

abbrev pub same_config : Config
same_config = record {
  sinks = (codes "a|two", second_sink) ∷ (codes "a|one", first_sink) ∷ [];
  cluster_sinks = (codes "|c", cluster_sink) ∷ [];
}

abbrev pub no_replies : Replies
no_replies = record { patched = none; deleted = none }
