-- ===== src/Lib.antt =====
-- The observability components of Knative, in a shallow embedding: what the controllers of the sinks
-- write, what the admission webhook lets through, and the reader of the fluent-bit configuration.
--
-- The parts and how they interact
--
-- Users declare sinks as resources of Kubernetes (pkg/apis/sink/v1alpha1/types.go). The admission
-- webhook (pkg/webhook) is asked before a sink is stored. The informers of Kubernetes then report
-- each sink to a controller. The two log sink controllers (pkg/sink/controller.go and
-- cluster_controller.go) share one configuration (pkg/sink/config.go): they put the sink into its
-- maps, patch the text of all outputs into the config map of fluent-bit, and delete the pods, which
-- start again with the new text. The cluster metric sink controller (pkg/metric/cluster_controller.go)
-- does the same with the TOML of telegraf (pkg/metric/cluster_config.go), and the metric sink
-- controller (pkg/metric/controller.go) makes a role, a role binding, a config map and a deployment
-- for each sink. The event controller (pkg/event/controller.go) forwards events to fluentd and counts
-- them. pkg/sink/flbconfig is a lexer and a parser of the configuration of fluent-bit. The programs
-- under cmd set these parts up: they read their environment, make clients, take the name of the
-- cluster from its first node, and hand the controllers to informers. The clients, the informers and
-- the listers of the sinks are those of pkg/client, and the copies that they need are in
-- pkg/apis/sink/v1alpha1/zz_generated.deepcopy.go.
--
-- The files
--
--   Base, Base/Tests, Base/Lists, Base/Texts, Base/Int: shared names; Boolean tests, lists over the
--     native numbers, Go strings as lists of bytes with `text_eq`, `text_lt` and `itoa`, and ints.
--   GoMap, GoMap/Laws, GoMap/Alike: Go maps as association lists in the order of the next iteration.
--   Api, Api/Copy: pkg/apis/sink/v1alpha1/types.go; the resources, and `deep_copy` for
--     `MetricSinkMap.DeepCopy`.
--   Api/Store, with Copied and Structs below it: a memory of cells with addresses, and what a copy in
--     it has to do. Api/Cells has the resources as they lie in memory.
--   Api/DeepCopy: pkg/apis/sink/v1alpha1/zz_generated.deepcopy.go; `x.DeepCopyInto` of a type `X` is
--     `deep_copy_into_x`, `DeepCopy` is `deep_copy_x` and `DeepCopyObject` is `deep_copy_object_x`.
--     Below it Views has the values that the cells stand for, and Separate is about what a copy and
--     its original share.
--   Client, for pkg/client/clientset/versioned/typed/sink/v1alpha1: Request has the requests as the
--     calls of their builder, Typed the methods, Sinks the clients of the four types (logsink.go and
--     the others), Groups that of the group (sink_client.go), Clientset the whole
--     (pkg/client/clientset/versioned/clientset.go), Fake, FakeSinks and FakeGroups the
--     fakes. Asked puts requests and actions into one vocabulary, Agreement has the calls of a client
--     in front of a server, Confined about the namespace, Timeouts about the timeouts.
--   Informers, for pkg/client/informers/externalversions: Factory (factory.go), Kinds and ListerAccess
--     (the four informers), Access (generic.go and the two interface.go). Keys and Started are about
--     the loop of `Start`, Ops and Runs about sequences of calls, Sharing, Resources and
--     Watched about requests.
--   Listers, with Found below it: pkg/client/listers/sink/v1alpha1.
--   Cmd, for cmd: Exit has the steps that may end a process, and SinkController, MetricController,
--     EventController and Validator each have the `main` of one program.
--   Flb/Utf8: what the lexer uses of Go's `unicode/utf8` and `unicode`.
--   Flb/Lex: pkg/sink/flbconfig/lex.go. `Lexer` has the fields of the struct; each `LexX` is
--     `x_step`, `step` picks it by the name of the state, and `run` is `Lexer.Run`.
--     Flb/Lex/Bounds is about the offsets and the end of the run, and Flb/Lex/Cursor about the same
--     machine over the text that is left to read.
--   Flb/Parse: pkg/sink/flbconfig/parse.go. `ParseState` has the variables of `Parse`, `parse_round`
--     is a round of its loop. Flb/Parse/Errors is about the tokens as the lexer makes them.
--   Flb/Document, with Checks, Lexing and Reading below it: a description of the format that does
--     not mention the lexer or the parser.
--   Sink/Config: pkg/sink/config.go. `Config` has the two maps; `config_string` is `Config.String`.
--     Below it Outputs, Blocks, CleanSinks and Reading give the text as a document, Order is about
--     the order of the maps, Shown about what of a sink the text shows, Injection about a host with
--     a newline.
--   Sink/Controller: pkg/sink/common.go, controller.go, cluster_controller.go and cluster_config.go.
--     `World` has the configuration and the calls made; a handler is cut into the change of the
--     configuration, the reading of its text, and the patch with the replies to its calls. Below it
--     Events has the reports of the informers, Threads the two goroutines with their steps, Sync is
--     about the changes, Interleaving about the steps, and Handled about one handler alone.
--   Metric/ClusterConfig, with Grouping below it: pkg/metric/cluster_config.go.
--   Metric/ClusterController, with Sync below it: pkg/metric/cluster_controller.go.
--   Metric/Objects, and Metric/Controller with Calls below it: pkg/metric/controller.go; the objects
--     that are made for a sink, and the handlers, which give their calls.
--   Webhook/Lifecycle, with Reach below it: the life of the server of pkg/webhook/server.go.
--   Webhook/Server, with Verdict, MetricVerdict and Replies below it: pkg/webhook/server.go and error.go.
--   Event, with Counting below it: pkg/event/controller.go.
--   Tests, with a module for each part below it: runs at concrete inputs.
--
-- Bounds and fuel
--
-- `Lexer.Run` and the loops inside of the state functions have no bound in the source. A round of
-- such a loop is a step here, and `lex_fuel` is five steps for each byte of the input and five more:
-- a state consumes a byte or is followed by one that does, along at most five steps, which is the
-- measure in Flb/Lex/Bounds. The digits of a number are bounded by the number itself. All else is by
-- structural recursion. A timeout has the 64 bits of a `time.Duration`, with the multiplication that
-- wraps around. Go's `int` is an unbounded integer: a port is compared and printed alone.
--
-- Parameters
--
-- `Unicode` is the tables of `unicode.IsLetter` and `unicode.IsNumber`, with their ASCII part as laws;
-- `parse_url` is `url.Parse`; `encode` is the encoder of TOML; `Decoder` and `decode` are the decoders
-- of JSON; `Machine` is the file /tmp/telegraf.conf, which other requests write too, and telegraf;
-- `deep_equal` is `reflect.DeepEqual` on the metric sinks; `Replies`, `AddReplies` and `DeleteReplies` are what the API server returns.
-- `Rest` is the REST client of client-go, `Tracker` its fake, `Indexer` its indexer, `Library`
-- what it makes for a clientset, and each `Outside` has what the libraries return to a `main`.
--
-- Not modelled
--
-- The network, the signals and the flags of the programs, the metrics endpoint of the event controller
-- and the closing of its forwarder, the registration of the types with the schemes of Kubernetes
-- (pkg/apis/sink/v1alpha1/register.go and pkg/client/clientset/versioned/scheme) and the fake clientset,
-- which only hand values to libraries, and the log lines of the metric controllers are left out.
-- Informers run in client-go: a run is the address of the informer. The methods of the
-- configurations and of the factory of informers hold their mutex from the first to the last statement
-- that reads or writes the maps, so each is one step. The patch of a handler and the deletion of the
-- pods behind it are one step too, as the deletion does not change the outputs. The events of the
-- cluster metric sinks are handled one at a time, as one goroutine alone has their configuration. The
-- JSON of a patch stands for its fields.
pub mod Base
pub mod Flb
pub mod GoMap
pub mod Api
pub mod Sink
pub mod Metric
pub mod Webhook
pub mod Event
pub mod Client
pub mod Informers
pub mod Listers
pub mod Cmd
pub mod Tests
