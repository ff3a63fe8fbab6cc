-- ===== src/Proto.antt =====
-- internal/proto: the messages of the gRPC service, as the generated code reads and builds them.
-- A field of a message that was not set has its zero value.
use metrify.Base.{ℕ, String, Option, none, some, List, []}

-- Metric_MType, an int32: its two named values, and any other that a peer may send.
pub data MetricType : Type 0 where
  gauge_type counter_type : MetricType
  other_type : ℕ → MetricType

pub record Metric (F : Type 0) : Type 0 where
  pub id : String
  pub type : MetricType
  pub delta : ℕ
  pub value : F

-- A repeated field of message pointers, which may be nil.
pub record UpdateMetricsRequest (F : Type 0) : Type 0 where
  pub metrics : List (Option (Metric F))

-- The getter of the repeated field, which can be called on nil.
unfoldable pub get_metrics :
    {F : Type 0} → Option (UpdateMetricsRequest F) → List (Option (Metric F))
get_metrics none = []
get_metrics (some req) = req.metrics
