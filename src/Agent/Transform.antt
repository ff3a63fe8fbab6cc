-- ===== src/Agent/Transform.antt =====
-- transformMetricToProto of internal/agent/grpc_client.go.
use metrify.Base.{ℕ, String, Option, none, some, ◌++◌, ◌⊎◌, inl, inr, codes, ◌==◌, if◌then◌else◌}
use metrify.Failure.{Failure, message}
use metrify.Model.{Metrics, gauge, counter}
use metrify.External.{Formats}
use metrify.Proto.{Metric, gauge_type, counter_type}

module _ {F : Type 0} (formats : Formats F) where
  abbrev gauge_to_proto : String → Option F → Failure ⊎ Metric F
  gauge_to_proto id none =
      inl (message (codes "gauge metric " ++ (formats.quote id ++ codes " has nil value")))
  gauge_to_proto id (some value) =
      inr (record { id = id; type = gauge_type; delta = 0; value = value })

  abbrev counter_to_proto : String → Option ℕ → Failure ⊎ Metric F
  counter_to_proto id none =
      inl (message (codes "counter metric " ++ (formats.quote id ++ codes " has nil delta")))
  counter_to_proto id (some delta) =
      inr (record { id = id; type = counter_type; delta = delta; value = formats.zero_float })

  unfoldable pub transform_metric_to_proto : Metrics F → Failure ⊎ Metric F
  transform_metric_to_proto metric =
      if metric.mtype == gauge
      then gauge_to_proto metric.id metric.value
      else if metric.mtype == counter
      then counter_to_proto metric.id metric.delta
      else inl (message (codes "unknown metric type " ++ formats.quote metric.mtype))
