-- ===== src/Agent/GrpcClient.antt =====
-- The client of internal/agent/grpc_client.go: its requests, over the transport of gRPC.
pub mod Delivery
use metrify.Base.{
  String, Bytes, Option, none, some, List, [], ◌∷◌, ◌++◌, ◌⊎◌, inl, inr, codes, is_empty,
  if◌then◌else◌,
}
use metrify.Failure.{Failure, message}
use metrify.Model.{Metrics}
use metrify.External.{Formats}
use metrify.Proto.{Metric, UpdateMetricsRequest}
use metrify.Agent.Outbound.{Dialer, get_outbound_ip}
use metrify.Agent.Transform.{transform_metric_to_proto}

-- The dialling of getOutboundIP, and the call of the service with the metadata
-- x-real-ip, if it has one.
pub record Transport (F W : Type 0) : Type 0 where
  pub dialer : Dialer W
  pub call : UpdateMetricsRequest F → Option Bytes → W → Option Failure × W

-- withRealIP: an address that is not known, or empty, is not sent.
abbrev with_real_ip : Failure ⊎ Bytes → Option Bytes
with_real_ip (inl e) = none
with_real_ip (inr ip) = if is_empty ip then none else some ip

module _ {F W : Type 0} (formats : Formats F) (transport : Transport F W) where
  -- The loop over the metrics: it returns at the first that has no message.
  unfoldable pub transform_all :
      List (Option (Metric F)) → List (Metrics F) → Failure ⊎ List (Option (Metric F))
  unfolding transform_metric_to_proto
  transform_all done [] = inr done
  transform_all done (metric ∷ metrics) = elim (transform_metric_to_proto formats metric) [
    | inl e ↦ inl e
    | inr m ↦ transform_all (done ++ some m ∷ []) metrics
  ]

  abbrev call_failed : Option Failure → Option Failure
  call_failed none = none
  call_failed (some e) =
      some (message (codes "grpc update metrics failed: " ++ formats.error_text e))

  abbrev pub call_with : Failure ⊎ List (Option (Metric F)) → W → Option Failure × W
  call_with (inl e) w = (some e, w)
  call_with (inr ms) w =
      let (ip, w₁) = get_outbound_ip transport.dialer w in
      let (e, w₂) = transport.call (record { metrics = ms }) (with_real_ip ip) w₁ in
      (call_failed e, w₂)

  unfoldable pub update_metrics : List (Metrics F) → W → Option Failure × W
  unfolding transform_all
  update_metrics metrics w = call_with (transform_all [] metrics) w

  unfoldable pub update_metric : Metrics F → W → Option Failure × W
  unfolding update_metrics
  update_metric metric w = update_metrics (metric ∷ []) w
