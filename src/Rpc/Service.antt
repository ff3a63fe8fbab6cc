-- ===== src/Rpc/Service.antt =====
-- What the service stores of a request, and what it replies.
use metrify.Base.{
  Bool, ◌&&◌, true, false, Option, none, some, List, [], ◌∷◌, inl, inr, ◌≡◌, refl, arith, ◌==◌,
  if◌then◌else◌, returned, Bool-cases, Option-cases,
}
use metrify.Failure.{Failure}
use metrify.External.{External}
use metrify.Model.{Metrics, gauge, counter}
use metrify.Proto.{Metric, MetricType, gauge_type, counter_type, other_type, UpdateMetricsRequest}
use metrify.Rpc.{
  status, invalid_argument, metric_from_proto, store_metric, store_metrics, update_metrics,
  from_type,
}
use metrify.Storage.{Machine}
use metrify.Storage.Updates.{IsLive}
use metrify.Storage.History.{
  before, is_good, Update, set_gauge, add_counter, perform, run, run-cons, perform-no_db,
  perform-IsLive,
}

module _ {F : Type 0} where
  -- The update that a message asks for, if it is one that can be served.
  abbrev pub update_of_type : MetricType → Metric F → Option (Update F)
  update_of_type gauge_type m = some (set_gauge m.id m.value)
  update_of_type counter_type m = some (add_counter m.id m.delta)
  update_of_type (other_type n) m = none

  abbrev pub update_of : Option (Metric F) → Option (Update F)
  update_of none = none
  update_of (some m) = if m.id == "" then none else update_of_type m.type m

  -- The updates of a request up to the first message that cannot be served, and whether there is
  -- one.
  abbrev pub served : List (Option (Metric F)) → List (Update F)
  served [] = []
  served (g ∷ gs) = before (update_of g) (served gs)

  abbrev pub all_good : List (Option (Metric F)) → Bool
  all_good [] = true
  all_good (g ∷ gs) = is_good (update_of g) && all_good gs

  abbrev decoded : Update F → Metrics F
  decoded (set_gauge name v) = record {
    id = name;
    mtype = gauge;
    delta = none;
    value = some v;
    hash = "";
  }
  decoded (add_counter name d) = record {
    id = name;
    mtype = counter;
    delta = some d;
    value = none;
    hash = "";
  }

  from_type-decoded :
      (t : MetricType) (m : Metric F) (u : Update F)
      → update_of_type t m ≡ some u
      → from_type t m ≡ inr (decoded u)
  from_type-decoded gauge_type m u h = ground arith
  from_type-decoded counter_type m u h = ground arith
  from_type-decoded (other_type n) m u h = cc

  from_type-refused :
      (t : MetricType) (m : Metric F)
      → update_of_type t m ≡ none
      → (e : Failure) × (from_type t m ≡ inl e)
  from_type-refused gauge_type m h = cc
  from_type-refused counter_type m h = cc
  from_type-refused (other_type n) m h = (_, refl)

  metric_from_proto-decoded :
      (g : Option (Metric F)) (u : Update F)
      → update_of g ≡ some u
      → metric_from_proto g ≡ inr (decoded u)
  unfolding metric_from_proto
  metric_from_proto-decoded none u h = cc
  metric_from_proto-decoded (some m) u h = elim (Bool-cases (m.id == "")) [
    | inl e ↦ cc (rw e at h)
    | inr e ↦ rw e (from_type-decoded m.type m u (rw e at h))
  ]

  metric_from_proto-refused :
      (g : Option (Metric F)) → update_of g ≡ none → (e : Failure) × (metric_from_proto g ≡ inl e)
  unfolding metric_from_proto
  metric_from_proto-refused none h = (_, refl)
  metric_from_proto-refused (some m) h = elim (Bool-cases (m.id == "")) [
    | inl e ↦ rw e (_, refl)
    | inr e ↦ rw e (from_type-refused m.type m (rw e at h))
  ]

module _ {F W : Type 0} (x : External F W) where
  store_metric-decoded :
      (u : Update F) (m : Machine F W)
      → (perform x u m).0 ≡ returned none
      → store_metric x (decoded u) m ≡ (returned none, (perform x u m).1)
  unfolding store_metric
  store_metric-decoded (set_gauge name v) m h = rw h
  store_metric-decoded (add_counter name d) m h = rw h

  store_metrics-good :
      (g : Option (Metric F)) (gs : List (Option (Metric F))) (u : Update F) (m : Machine F W)
      → update_of g ≡ some u
      → (perform x u m).0 ≡ returned none
      → store_metrics x (g ∷ gs) m ≡ store_metrics x gs (perform x u m).1
  unfolding store_metrics
  store_metrics-good g gs u m good fine =
      rw (metric_from_proto-decoded g u good, store_metrics) (rw (store_metric-decoded u m fine))

  store_metrics-bad :
      (g : Option (Metric F)) (gs : List (Option (Metric F))) (m : Machine F W)
      → update_of g ≡ none
      → (e : Failure) × (store_metrics x (g ∷ gs) m
          ≡ (returned (some (status invalid_argument e)), m))
  unfolding store_metrics
  store_metrics-bad g gs m bad =
      let (e, refused) = metric_from_proto-refused g bad in (e, rw (refused, store_metrics))

  -- What the loop replies, where no update can fail.
  abbrev Replies : List (Option (Metric F)) → Machine F W → Type 0
  Replies gs m =
      (all_good gs ≡ true → (store_metrics x gs m).0 ≡ returned none)
      × (all_good gs ≡ false
          → (e : Failure) × ((store_metrics x gs m).0
              ≡ returned (some (status invalid_argument e))))

  store_metrics-run :
      (gs : List (Option (Metric F))) (m : Machine F W)
      → IsLive m.ms
      → m.db ≡ false
      → ((store_metrics x gs m).1 ≡ (run x (served gs) m).1) × Replies gs m
  store_metrics-run [] m l off = unfold store_metrics run in (refl, ((λ _. refl), λ p. cc))
  store_metrics-run (g ∷ gs) m l off = elim (Option-cases (update_of g)) [
    | inl bad ↦
        let (e, stopped) = store_metrics-bad g gs m bad in
        rw (bad, stopped) (unfold run in (refl, ((λ p. cc), λ _. (e, refl))))
    | inr (u, good) ↦
        let (fine, still_off) = perform-no_db x u m l off in
        rw (good, store_metrics-good g gs u m good fine, run-cons x u (served gs) m l)
          (store_metrics-run gs (perform x u m).1 (perform-IsLive x u m l) still_off)
  ]

  -- On a storage whose maps are not nil, and without a database, the service stores the metrics
  -- of a request in order, up to the first one that is nil, has an empty id or a type other than
  -- GAUGE and COUNTER: what it leaves behind is the history of their updates. It replies with no
  -- error if there is no such metric, and by InvalidArgument if there is one; the metrics before
  -- that one stay stored. It never panics.
  pub update_metrics-serves :
      (req : UpdateMetricsRequest F) (m : Machine F W)
      → IsLive m.ms
      → m.db ≡ false
      → ((update_metrics x (some req) m).1 ≡ (run x (served req.metrics) m).1)
        × (all_good req.metrics ≡ true → (update_metrics x (some req) m).0 ≡ returned none)
        × (all_good req.metrics ≡ false
            → (e : Failure) × ((update_metrics x (some req) m).0
                ≡ returned (some (status invalid_argument e))))
  unfolding update_metrics
  update_metrics-serves req m l off =
      let (state, replies) = store_metrics-run req.metrics m l off in (state, replies.0, replies.1)
