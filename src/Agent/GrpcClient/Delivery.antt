-- ===== src/Agent/GrpcClient/Delivery.antt =====
-- A batch of metrics from the gRPC client to the storage of the server.
use mathlib.Core.List.{append-nil, append_assoc}
use metrify.Base.{
  ℕ, true, false, Option, none, some, List, [], ◌∷◌, ◌++◌, inl, inr, ◌≡◌, ◌≢◌, refl, sym, ◌∙◌, ap,
  arith, eq_iff, All, returned, Option-cases, Sum-cases,
}
use metrify.Failure.{Failure}
use metrify.Model.{Metrics, gauge, counter}
use metrify.External.{External, Formats}
use metrify.Proto.{Metric}
use metrify.Storage.{Machine}
use metrify.Storage.Updates.{IsLive}
use metrify.Storage.History.{Update, run, set_gauge, add_counter}
use metrify.Rpc
use metrify.Rpc.Service
use metrify.Rpc.Service.{update_of}
use metrify.Handler.Store.{update_of_metric, served}
use metrify.Agent.Transform.{transform_metric_to_proto}
use metrify.Agent.RoundTrip.{IsSendable, transform-round_trip}
use metrify.Agent.GrpcClient.{Transport, transform_all, update_metrics, call_with}

abbrev pub IsNamed : {F : Type 0} → Metrics F → Type 0
IsNamed m = m.id ≢ ""

module _ {F V : Type 0} (formats : Formats F) (transport : Transport F V) where
  update_of-gauge :
      (m : Metrics F) (p : Metric F) (v : F)
      → m.mtype ≡ gauge
      → m.value ≡ some v
      → transform_metric_to_proto formats m ≡ inr p
      → IsNamed m
      → (update_of (some p) ≡ some (set_gauge m.id v))
        × (update_of_metric m ≡ some (set_gauge m.id v))
  unfolding transform_metric_to_proto
  update_of-gauge m p v e given made named =
      (ground (arith, eq_iff m.mtype gauge, eq_iff p.id ""), ground (arith, eq_iff m.mtype gauge))

  update_of-counter :
      (m : Metrics F) (p : Metric F) (d : ℕ)
      → m.mtype ≡ counter
      → m.delta ≡ some d
      → transform_metric_to_proto formats m ≡ inr p
      → IsNamed m
      → (update_of (some p) ≡ some (add_counter m.id d))
        × (update_of_metric m ≡ some (add_counter m.id d))
  unfolding transform_metric_to_proto
  update_of-counter m p d e given made named = (
    ground
        (arith, eq_iff m.mtype gauge, eq_iff m.mtype counter, eq_iff counter gauge, eq_iff p.id ""),
    ground (arith, eq_iff m.mtype gauge, eq_iff counter gauge),
  )

  -- A message asks for the update that its metric asks for over JSON.
  update_of-transform :
      (m : Metrics F) (p : Metric F)
      → transform_metric_to_proto formats m ≡ inr p
      → IsNamed m
      → (u : Update F) × (update_of (some p) ≡ some u) × (update_of_metric m ≡ some u)
  update_of-transform m p made named = elim ((transform-round_trip formats m).0.0 (p, made)) [
    | inl (e, given) ↦ elim (Option-cases m.value) [
      | inl missing ↦ absurd (given missing)
      | inr (v, found) ↦ let (one, two) = update_of-gauge m p v e found made named in (_, one, two)
    ]
    | inr (e, given) ↦ elim (Option-cases m.delta) [
      | inl missing ↦ absurd (given missing)
      | inr (d, found) ↦
          let (one, two) = update_of-counter m p d e found made named in (_, one, two)
    ]
  ]

  -- The messages of a batch: one for each metric, that asks for the same update.
  abbrev Matching : List (Option (Metric F)) → List (Metrics F) → Type 0
  Matching ps ms = (Service.served ps ≡ served ms) × (Service.all_good ps ≡ true)

  Matching-cons :
      (m : Metrics F) (p : Metric F) (u : Update F) (ps : List (Option (Metric F)))
      (ms : List (Metrics F))
      → update_of (some p) ≡ some u
      → update_of_metric m ≡ some u
      → Matching ps ms
      → Matching (some p ∷ ps) (m ∷ ms)
  Matching-cons m p u ps ms over_grpc over_json (same, good) =
      rw (over_grpc, over_json) (ap (λ us. u ∷ us) same, good)

  transform_all-Matching :
      (done : List (Option (Metric F))) (ms : List (Metrics F)) (ps : List (Option (Metric F)))
      → transform_all formats transport done ms ≡ inr ps
      → All IsNamed ms
      → (qs : List (Option (Metric F))) × (ps ≡ done ++ qs) × Matching qs ms
  unfolding transform_all
  transform_all-Matching done [] ps h named =
      let same : ps ≡ done = cc in ([], same ∙ sym (append-nil done), (refl, refl))
  transform_all-Matching done (m ∷ ms) ps h (n, named) =
      elim (Sum-cases (transform_metric_to_proto formats m)) [
        | inl (e, refused) ↦ absurd (cc (rw (refused, transform_all) at h))
        | inr (p, made) ↦
            let (u, over_grpc, over_json) = update_of-transform m p made n in
            let (qs, split, rest) =
              transform_all-Matching (done ++ some p ∷ []) ms ps (rw (made, transform_all) at h)
                named in
            (
              some p ∷ qs,
              split ∙ append_assoc done (some p ∷ []) qs,
              Matching-cons m p u qs ms over_grpc over_json rest,
            )
      ]

  transform_all-of_IsSendable :
      (done : List (Option (Metric F))) (ms : List (Metrics F))
      → All IsSendable ms
      → (ps : List (Option (Metric F))) × (transform_all formats transport done ms ≡ inr ps)
  unfolding transform_all
  transform_all-of_IsSendable done [] all = (done, refl)
  transform_all-of_IsSendable done (m ∷ ms) (one, all) =
      let (p, made) = (transform-round_trip formats m).0.1 one in
      rw (made, transform_all) (transform_all-of_IsSendable (done ++ some p ∷ []) ms all)

  IsSendable-of_transform_all :
      (done : List (Option (Metric F))) (ms : List (Metrics F)) (ps : List (Option (Metric F)))
      → transform_all formats transport done ms ≡ inr ps
      → All IsSendable ms
  unfolding transform_all
  IsSendable-of_transform_all done [] ps h = tt
  IsSendable-of_transform_all done (m ∷ ms) ps h =
      elim (Sum-cases (transform_metric_to_proto formats m)) [
        | inl (e, refused) ↦ absurd (cc (rw (refused, transform_all) at h))
        | inr (p, made) ↦ (
          (transform-round_trip formats m).0.0 (p, made),
          IsSendable-of_transform_all (done ++ some p ∷ []) ms ps (rw (made, transform_all) at h),
        )
      ]

  stores_of_Matching :
      {W : Type 0} (x : External F W) (m : Machine F W) (ps : List (Option (Metric F)))
      (ms : List (Metrics F))
      → IsLive m.ms
      → m.db ≡ false
      → Matching ps ms
      → Rpc.update_metrics x (some (record { metrics = ps })) m
        ≡ (returned none, (run x (served ms) m).1)
  stores_of_Matching x m ps ms live off (same, good) =
      let (state, all, bad) =
        Service.update_metrics-serves x (record { metrics = ps }) m live off in
      λ i. (all good i, (state ∙ ap (λ us. (run x us m).1) same) i)

  -- The client sends a batch of metrics with ids in one call if each is a gauge with a value or a
  -- counter with a delta; on a storage whose maps are not nil, with no database, the service then
  -- replies with no error and leaves behind what the handler of JSON batches would store of those
  -- metrics. If one is neither, no call is made, and the client reports an error.
  pub update_metrics-call_with :
      {W : Type 0} (x : External F W) (m : Machine F W) (ms : List (Metrics F)) (w : V)
      → IsLive m.ms
      → m.db ≡ false
      → All IsNamed ms
      → (All IsSendable ms
          → (ps : List (Option (Metric F))) × (update_metrics formats transport ms w
              ≡ call_with formats transport (inr ps) w)
            × (Rpc.update_metrics x (some (record { metrics = ps })) m
                ≡ (returned none, (run x (served ms) m).1)))
        × (¬ All IsSendable ms
            → (e : Failure) × (update_metrics formats transport ms w ≡ (some e, w)))
  unfolding update_metrics
  update_metrics-call_with x m ms w live off named = (
    (λ all.
        let (ps, made) = transform_all-of_IsSendable [] ms all in
        let (qs, split, same) = transform_all-Matching [] ms ps made named in
        (ps, rw made refl, rw split (stores_of_Matching x m qs ms live off same))),
    λ refused. elim (Sum-cases (transform_all formats transport [] ms)) [
      | inl (e, failed) ↦ (e, rw failed refl)
      | inr (ps, made) ↦ absurd (refused (IsSendable-of_transform_all [] ms ps made))
    ],
  )
