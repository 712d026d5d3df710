-- ===== src/Webhook/Server/MetricVerdict.antt =====
-- What the admission webhook lets through of the metric sinks.
use observability.Base.{◌≡◌, ◌≢◌, Option, some, Text, codes, All, true}
use observability.GoMap.{lookup}
use observability.Api.{Value, str, MetricSinkMap, ClusterMetricSink}
use observability.Metric.ClusterConfig.{TelegrafConfig}
use observability.Webhook.Server.{Machine, tested_config}

abbrev type_of : MetricSinkMap → Option Value
type_of m = lookup (codes "type") m

-- An output names its type, by a string.
abbrev pub TypedOutput : MetricSinkMap → Type 0
TypedOutput m = (t : Text) × (lookup (codes "type") m ≡ some (str t))

-- So does an input, and it is not the one that is always there.
abbrev pub TypedInput : MetricSinkMap → Type 0
TypedInput m = (t : Text) × (lookup (codes "type") m ≡ some (str t)) × (t ≢ codes "kubernetes")

module _ (encode : TelegrafConfig → Option Text) (machine : Machine) where
  -- What an allowing response rests on.
  pub record Accepted (cms : ClusterMetricSink) : Type 0 where
    pub inputs : All TypedInput cms.spec.inputs
    pub outputs : All TypedOutput cms.spec.outputs
    pub written : machine.writes (tested_config encode cms) ≡ true
    pub tested : machine.accepts (machine.found (tested_config encode cms)) ≡ true
