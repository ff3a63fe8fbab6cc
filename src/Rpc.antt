-- ===== src/Rpc.antt =====
-- internal/rpc/server.go: the gRPC service that updates the storage.
pub mod Service
pub mod Subnet
pub mod Listening
use metrify.Base.{
  ℕ, String, Bytes, Option, none, some, List, [], ◌∷◌, ◌++◌, ◌⊎◌, inl, inr, codes, ◌==◌,
  if◌then◌else◌, Prog, panic, pure, ◌>>=◌,
}
use metrify.Int64.{format_int}
use metrify.Failure.{Failure, message}
use metrify.Model.{Metrics, gauge, counter}
use metrify.External.{External}
use metrify.Storage.{Machine, update_gauge, update_counter}
use metrify.Proto.{
  Metric, gauge_type, counter_type, other_type, MetricType, UpdateMetricsRequest, get_metrics,
}

-- The codes of google.golang.org/grpc/codes that the program returns.
pub data Code : Type 0 where
  invalid_argument internal permission_denied : Code

-- status.Error(code, text)
pub record Status : Type 0 where
  pub code : Code
  pub failure : Failure

abbrev pub status : Code → Failure → Status
status code failure = record { code = code; failure = failure }

-- The text of a Metric_MType under %v: a value with no name prints as its number.
abbrev type_text : MetricType → Bytes
type_text gauge_type = codes "GAUGE"
type_text counter_type = codes "COUNTER"
type_text (other_type n) = format_int n

module _ {F : Type 0} where
  abbrev from_type : MetricType → Metric F → Failure ⊎ Metrics F
  from_type gauge_type m =
      inr (record { id = m.id; mtype = gauge; delta = none; value = some m.value; hash = "" })
  from_type counter_type m =
      inr (record { id = m.id; mtype = counter; delta = some m.delta; value = none; hash = "" })
  from_type (other_type n) m =
      inl (message (codes "unknown metric type " ++ type_text (other_type n)))

  unfoldable pub metric_from_proto : Option (Metric F) → Failure ⊎ Metrics F
  metric_from_proto none = inl (message (codes "metric is nil"))
  metric_from_proto (some m) =
      if m.id == "" then inl (message (codes "metric id is empty")) else from_type m.type m

module _ {F W : Type 0} (x : External F W) where
  abbrev failed_inside : Option Failure → Option Status
  failed_inside none = none
  failed_inside (some e) = some (status internal e)

  -- *metric.Value and *metric.Delta, which panic at nil
  abbrev store_gauge : String → Option F → Prog (Machine F W) (Option Status)
  store_gauge id none = panic
  store_gauge id (some value) = do e ← update_gauge x id value; pure (failed_inside e)

  abbrev store_counter : String → Option ℕ → Prog (Machine F W) (Option Status)
  store_counter id none = panic
  store_counter id (some delta) = do e ← update_counter x id delta; pure (failed_inside e)

  -- the switch on metric.MType
  unfoldable pub store_metric : Metrics F → Prog (Machine F W) (Option Status)
  store_metric metric =
      if metric.mtype == gauge
      then store_gauge metric.id metric.value
      else if metric.mtype == counter
      then store_counter metric.id metric.delta
      else pure (
          some (
            status invalid_argument
              (message (codes "unknown metric type " ++ x.quote metric.mtype))))

  -- The loop goes on after a metric that was stored, and returns at the first error.
  abbrev then_on :
      Option Status → Prog (Machine F W) (Option Status) → Prog (Machine F W) (Option Status)
  then_on none rest = rest
  then_on (some s) rest = pure (some s)

  unfoldable pub store_metrics : List (Option (Metric F)) → Prog (Machine F W) (Option Status)
  unfolding store_metric metric_from_proto
  store_metrics [] = pure none
  store_metrics (m ∷ ms) =
      let rest = store_metrics ms in
      elim (metric_from_proto m) [
        | inl e ↦ pure (some (status invalid_argument e))
        | inr metric ↦ do s ← store_metric metric; then_on s rest
      ]

  -- MetricsService.UpdateMetrics: no status is the empty response.
  unfoldable pub update_metrics :
      Option (UpdateMetricsRequest F) → Prog (Machine F W) (Option Status)
  unfolding store_metrics get_metrics
  update_metrics none = pure (some (status invalid_argument (message (codes "request is nil"))))
  update_metrics (some req) = store_metrics (get_metrics (some req))
