-- ===== src/Router/Routes.antt =====
-- What the handlers behind the routes do to the storage, and which routes only read it.
use metrify.Base.{
  String, List, [], ◌∷◌, inl, inr, ◌≡◌, refl, arith, ◌∙◌, codes, Prog, Outcome, returned, panicked,
  continue, Bool-cases, Option-cases, ◌>>=◌, ◌>>◌, ◌&&◌, pure, ◌++◌,
}
use metrify.Failure.{Failure}
use metrify.External.{External}
use metrify.Model.{Metrics}
use metrify.Storage.{MemStorage, Machine, or_zero}
use metrify.Storage
use metrify.Storage.Kept.{
  Kept, Kept-refl, Kept-trans, Kept-of_same, update_gauge-Kept, update_counter-Kept, perform-Kept,
}
use metrify.Storage.Dump.{flush_to_file-keeps}
use metrify.Int64.{parse_int}
use metrify.Handler.Store.{update_of_metric, store-panicked, store-perform}
use metrify.Http.{Request, Layer, url_param, write_header}
use metrify.Handler.{
  get_gauge, get_counter, get_metrics, update_metrics, update_metrics_batch, update_gauge,
  update_counter, invalid_metric_handler, get_info, ping, audit_metrics, dump, store, store_all,
  finish_batch, with_failure,
}
use metrify.Router.Keeping.{Keeps, IsQuiet}
use metrify.Serving.{Handler, State, send_status_ok, is_nil, on_machine, on_conn}

module _ {F W : Type 0} (x : External F W) (handler : Handler) (ws : List Layer) (r : Request) where
  pub get_gauge-IsQuiet : IsQuiet (get_gauge x ws r)
  unfolding get_gauge
  get_gauge-IsQuiet s = ground arith

  pub get_counter-IsQuiet : IsQuiet (get_counter x ws r)
  unfolding get_counter
  get_counter-IsQuiet s = ground arith

  pub get_metrics-IsQuiet : IsQuiet (get_metrics x ws r)
  unfolding get_metrics
  get_metrics-IsQuiet s = ground arith

  pub get_info-IsQuiet : IsQuiet (get_info x ws r)
  unfolding get_info
  get_info-IsQuiet s = (refl, refl)

  pub invalid_metric_handler-IsQuiet : IsQuiet (invalid_metric_handler x ws r)
  unfolding invalid_metric_handler
  invalid_metric_handler-IsQuiet s = (refl, refl)

  pub ping-IsQuiet : IsQuiet (ping x handler ws r)
  unfolding ping
  ping-IsQuiet s = ground arith

  audit_metrics-IsQuiet : (names : List String) → IsQuiet (audit_metrics x handler r names)
  unfolding audit_metrics
  audit_metrics-IsQuiet names s = ground arith

  dump-IsQuiet : IsQuiet (dump x handler)
  dump-IsQuiet s = let (never, same) = flush_to_file-keeps x s.machine in ground (arith, same)

module _ {F W : Type 0} {A B : Type 0} where
  -- One program after another.
  bind-Keeps :
      (p : Prog (State F W) A) (f : A → Prog (State F W) B)
      → Keeps Kept p
      → ((a : A) → Keeps Kept (f a))
      → Keeps Kept (p >>= f)
  bind-Keeps p f k k' s = go (p s).0 (p s).1 (k s)
    where
      go :
          (o : Outcome A) (t : State F W)
          → Kept s.machine.ms t.machine.ms × (t.lines ≡ s.lines)
          → Kept s.machine.ms (continue o f t).1.machine.ms × ((continue o f t).1.lines ≡ s.lines)
      go panicked t h = h
      go (returned a) t (kept, same) =
          let (kept', same') = k' a t in (Kept-trans _ _ _ kept kept', same' ∙ same)

module _ {F W : Type 0} {A : Type 0} where
  pub Keeps-of_IsQuiet : (p : Prog (State F W) A) → IsQuiet p → Keeps Kept p
  Keeps-of_IsQuiet p q s = let (same, lines) = q s in (Kept-of_same _ _ same, lines)

module _ {F W : Type 0} (x : External F W) where
  store-Keeps : (metric : Metrics F) → Keeps Kept (store x metric)
  store-Keeps metric s = elim (Option-cases (update_of_metric metric)) [
    | inl bad ↦ rw (store-panicked x metric s bad) (Kept-refl _, refl)
    | inr (u, good) ↦ rw (store-perform x metric u s good) (perform-Kept x u s.machine, refl)
  ]

  store_all-Keeps :
      (metrics : List (Metrics F)) (names : List String) (errs : List Failure)
      → Keeps Kept (store_all x names errs metrics)
  unfolding store_all
  store_all-Keeps [] names errs s = (Kept-refl _, refl)
  store_all-Keeps (metric ∷ metrics) names errs s =
      bind-Keeps (store x metric)
        (λ e. store_all x (names ++ metric.id ∷ []) (with_failure x errs e) metrics)
        (store-Keeps metric)
        (λ e. store_all-Keeps metrics (names ++ metric.id ∷ []) (with_failure x errs e)) s

module _ {F W : Type 0} (x : External F W) (handler : Handler) (ws : List Layer) (r : Request) where
  finish_batch-IsQuiet :
      (names : List String) (errs : List Failure)
      → IsQuiet (finish_batch x handler ws r (names, errs))
  finish_batch-IsQuiet names [] s =
      let (same, lines) = audit_metrics-IsQuiet x handler ws r names s in
      ground (arith, same, lines)
  finish_batch-IsQuiet names (e ∷ errs) s = (refl, refl)

  pub update_metrics_batch-Keeps : Keeps Kept (update_metrics_batch x handler ws r)
  unfolding update_metrics_batch
  update_metrics_batch-Keeps =
      bind-Keeps (store_all x [] [] (x.decode_metrics r.body).0) (finish_batch x handler ws r)
        (store_all-Keeps x (x.decode_metrics r.body).0 [] [])
        (λ (names, errs).
          Keeps-of_IsQuiet (finish_batch x handler ws r (names, errs))
            (finish_batch-IsQuiet names errs))

  after_store-Keeps :
      (name : String)
      → Keeps Kept (do dump x handler; audit_metrics x handler r (name ∷ []); send_status_ok x ws)
  after_store-Keeps name =
      bind-Keeps (dump x handler)
        (λ _. audit_metrics x handler r (name ∷ []) >> send_status_ok x ws)
        (Keeps-of_IsQuiet (dump x handler) (dump-IsQuiet x handler ws r))
        (λ _.
          bind-Keeps (audit_metrics x handler r (name ∷ [])) (λ _. send_status_ok x ws)
            (Keeps-of_IsQuiet (audit_metrics x handler r (name ∷ []))
              (audit_metrics-IsQuiet x handler ws r (name ∷ [])))
            (λ _ s. (Kept-refl _, refl)))

  abbrev metric : Metrics F
  metric = (x.decode_metric r.body).0

  pub update_metrics-Keeps : Keeps Kept (update_metrics x handler ws r)
  unfolding update_metrics
  update_metrics-Keeps s = elim (Bool-cases (is_nil metric.value && is_nil metric.delta)) [
    | inl bad ↦ rw (bad, update_metrics) (Kept-refl _, refl)
    | inr good ↦
        rw (good, update_metrics)
          (bind-Keeps (store x metric)
            (λ _. do
              dump x handler
              audit_metrics x handler r (metric.id ∷ [])
              send_status_ok x ws)
            (store-Keeps x metric) (λ _. after_store-Keeps metric.id) s)
  ]

  pub update_gauge-Keeps : Keeps Kept (update_gauge x ws r)
  unfolding update_gauge
  update_gauge-Keeps s = elim (Option-cases (x.parse_float (codes (url_param r "value")))) [
    | inl bad ↦ rw (bad, update_gauge) (Kept-refl _, refl)
    | inr (v, good) ↦
        rw (good, update_gauge)
          (bind-Keeps (on_machine (Storage.update_gauge x (url_param r "name") v)) (λ _. pure tt)
            (λ s. (update_gauge-Kept x _ v s.machine, refl)) (λ _ s. (Kept-refl _, refl)) s)
  ]

  pub update_counter-Keeps : Keeps Kept (update_counter x ws r)
  unfolding update_counter
  update_counter-Keeps s = elim (Option-cases (parse_int (codes (url_param r "value")))) [
    | inl bad ↦ rw (bad, update_counter) (Kept-refl _, refl)
    | inr (d, good) ↦
        rw (good, update_counter)
          (bind-Keeps (on_machine (Storage.update_counter x (url_param r "name") d))
            (λ _. on_conn (write_header ws 200)) (λ s. (update_counter-Kept x _ d s.machine, refl))
            (λ _ s. (Kept-refl _, refl)) s)
  ]
