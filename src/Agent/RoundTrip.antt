-- ===== src/Agent/RoundTrip.antt =====
-- From the agent's metric to the server's, through the gRPC message.
use metrify.Base.{
  none, some, ◌⊎◌, inl, inr, ◌≡◌, ◌≢◌, ◌↔◌, arith, ◌==◌, eq_iff, if◌then◌else◌, Option-cases,
}
use metrify.External.{Formats}
use metrify.Model.{Metrics, gauge, counter}
use metrify.Proto.{Metric, gauge_type, counter_type}
use metrify.Rpc.{metric_from_proto}
use metrify.Agent.Transform.{transform_metric_to_proto}

-- What arrives of a metric: the pointer that its type asks for, and no hash.
abbrev pub arriving : {F : Type 0} → Metrics F → Metrics F
arriving m = record m {
  delta = if m.mtype == gauge then none else m.delta;
  value = if m.mtype == gauge then m.value else none;
  hash = "";
}

-- A gauge with a value, or a counter with a delta.
abbrev pub IsSendable : {F : Type 0} → Metrics F → Type 0
IsSendable m = ((m.mtype ≡ gauge) × (m.value ≢ none)) ⊎ ((m.mtype ≡ counter) × (m.delta ≢ none))

module _ {F : Type 0} (formats : Formats F) where
  IsSendable-of_transform :
      (m : Metrics F) (p : Metric F) → transform_metric_to_proto formats m ≡ inr p → IsSendable m
  unfolding transform_metric_to_proto
  IsSendable-of_transform m p h = ground (arith, eq_iff m.mtype "gauge", eq_iff m.mtype "counter")

  transform_of_IsSendable :
      (m : Metrics F)
      → IsSendable m
      → (p : Metric F) × (transform_metric_to_proto formats m ≡ inr p)
  unfolding transform_metric_to_proto
  transform_of_IsSendable m (inl (e, v)) = elim (Option-cases m.value) [
    | inl missing ↦ absurd (v missing)
    | inr (value, found) ↦ (
      record { id = m.id; type = gauge_type; delta = 0; value = value },
      ground (arith, eq_iff m.mtype "gauge"),
    )
  ]
  transform_of_IsSendable m (inr (e, v)) = elim (Option-cases m.delta) [
    | inl missing ↦ absurd (v missing)
    | inr (delta, found) ↦ (
      record { id = m.id; type = counter_type; delta = delta; value = formats.zero_float },
      ground (arith, eq_iff m.mtype "gauge", eq_iff m.mtype "counter", eq_iff counter gauge),
    )
  ]

  metric_from_proto-transform :
      (m : Metrics F) (p : Metric F)
      → transform_metric_to_proto formats m ≡ inr p
      → m.id ≢ ""
      → metric_from_proto (some p) ≡ inr (arriving m)
  unfolding transform_metric_to_proto metric_from_proto
  metric_from_proto-transform m p h named =
      ground (arith, eq_iff m.mtype "gauge", eq_iff m.mtype "counter", eq_iff p.id "")

  -- The agent refuses exactly the metrics that are neither a gauge with a value nor a counter
  -- with a delta; every other one with an id is read back by the server as it was, without its
  -- hash and the pointer that its type does not use.
  pub transform-round_trip :
      (m : Metrics F)
      → (((p : Metric F) × (transform_metric_to_proto formats m ≡ inr p)) ↔ IsSendable m)
        × ((p : Metric F)
            → transform_metric_to_proto formats m ≡ inr p
            → m.id ≢ ""
            → metric_from_proto (some p) ≡ inr (arriving m))
  transform-round_trip m = (
    (λ sent. IsSendable-of_transform m sent.0 sent.1, transform_of_IsSendable m),
    metric_from_proto-transform m,
  )
