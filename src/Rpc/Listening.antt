-- ===== src/Rpc/Listening.antt =====
-- RunGRPCServer of internal/rpc/server.go: the service on a listener, with no interceptor.
use metrify.Base.{Bytes, Option, some, ◌⊎◌, inl, inr, Prog, pure}
use metrify.Failure.{Failure}
use metrify.External.{External}
use metrify.Storage.{Machine}
use metrify.Proto.{UpdateMetricsRequest}
use metrify.Rpc.{Status, update_metrics}

abbrev pub Method : Type 0 → Type 0 → Type 0
Method F W = Option (UpdateMetricsRequest F) → Prog (Machine F W) (Option Status)

-- net.Listen("tcp", addr), and Serve of a server of package grpc without options, which answers
-- every call of UpdateMetrics by the method that was registered, until it ends.
pub record Listening (F W Lis : Type 0) : Type 0 where
  pub listen : Bytes → W → (Failure ⊎ Lis) × W
  pub serve : Method F W → Lis → Prog (Machine F W) (Option Failure)

module _ {F W Lis : Type 0} (x : External F W) (net : Listening F W Lis) where
  abbrev serve_on : Failure ⊎ Lis → Prog (Machine F W) (Option Failure)
  serve_on (inl e) = pure (some e)
  serve_on (inr lis) = net.serve (update_metrics x) lis

  unfoldable pub run_grpc_server : Bytes → Prog (Machine F W) (Option Failure)
  unfolding update_metrics
  run_grpc_server addr m =
      let (lis, w) = net.listen addr m.world in serve_on lis (record m { world = w })
