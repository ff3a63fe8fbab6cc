-- ===== src/Handler/Single.antt =====
-- The handler of one JSON update.
use metrify.Base.{
  false, ◌&&◌, Option, none, some, List, [], ◌∷◌, ◌≡◌, ◌≢◌, refl, ap, ◌∙◌, arith, codes, Prog,
  Outcome, returned, panicked, continue, Bool-cases, ◌⊎◌, inl, inr, ◌>>◌,
}
use metrify.Failure.{Failure}
use metrify.Model.{Metrics}
use metrify.External.{External}
use metrify.Storage.Dump.{flush_to_file-keeps}
use metrify.Storage.Updates.{IsLive}
use metrify.Storage.History.{Update, perform, perform-ne-panicked}
use metrify.Http.{Request, Layer}
use metrify.Handler.{dump, update_metrics, audit_metrics}
use metrify.Serving.{Handler, State, is_nil, send_error, send_status_ok}
use metrify.Handler.Store.{update_of_metric, store-panicked, store-perform}
use metrify.Handler.Updates.{IsServer, ok_conn, audit_metrics_lem}

module _ {F W : Type 0} (x : External F W) (handler : Handler) (ws : List Layer) (r : Request) where
  abbrev metric : Metrics F
  metric = (x.decode_metric r.body).0

  dump_lem :
      (s : State F W)
      → ((dump x handler s).0 ≡ returned tt)
        × ((dump x handler s).1.machine.ms ≡ s.machine.ms)
        × ((dump x handler s).1.conn ≡ s.conn)
  dump_lem s = elim (Bool-cases handler.dump_to_file) [
    | inl on ↦
        let (never, same) = flush_to_file-keeps x s.machine in
        rw on (ground (arith, never), ground (arith, never, same), ground (arith, never))
    | inr off ↦ rw off (refl, refl, refl)
  ]

  -- What follows the storing of a metric.
  abbrev after_store : Prog (State F W) (Unit {0})
  after_store = do dump x handler; audit_metrics x handler r (metric.id ∷ []); send_status_ok x ws

  after_store_lem :
      (s : State F W)
      → IsServer handler
      → ((after_store s).0 ≡ returned tt)
        × ((after_store s).1.machine.ms ≡ s.machine.ms)
        × ((after_store s).1.conn ≡ ok_conn x ws s.conn)
  after_store_lem s server =
      let (dumped, same, quiet) = dump_lem s in
      let (done, same', quiet') =
        audit_metrics_lem x handler r (metric.id ∷ []) (dump x handler s).1 server in
      rw dumped (rw done (refl, same' ∙ same, ap (ok_conn x ws) (quiet' ∙ quiet)))

  has_pointer :
      (m : Metrics F) (u : Update F)
      → update_of_metric m ≡ some u
      → (is_nil m.value && is_nil m.delta) ≡ false
  has_pointer m u h = ground arith

  has_other_pointer :
      (m : Metrics F)
      → (m.value ≢ none) ⊎ (m.delta ≢ none)
      → (is_nil m.value && is_nil m.delta) ≡ false
  has_other_pointer m (inl h) = ground arith
  has_other_pointer m (inr h) = ground arith

  update_metrics-stored :
      (u : Update F) (s : State F W)
      → update_of_metric metric ≡ some u
      → IsLive s.machine.ms
      → update_metrics x handler ws r s
        ≡ after_store (record s { machine = (perform x u s.machine).1 })
  unfolding update_metrics
  update_metrics-stored u s good l =
      let never = perform-ne-panicked x u s.machine l in
      rw (has_pointer metric u good, update_metrics)
        (rw (store-perform x metric u s good) (continue_on (perform x u s.machine).0 never))
    where
      continue_on :
          (o : Outcome (Option Failure))
          → o ≢ panicked
          → continue o (λ _. after_store) (record s { machine = (perform x u s.machine).1 })
            ≡ after_store (record s { machine = (perform x u s.machine).1 })
      continue_on (returned e) h = refl
      continue_on panicked h = absurd (h refl)

  -- On a storage whose maps are not nil, with the publisher that the server makes: a JSON metric
  -- with neither a value nor a delta is refused by 400, and nothing is stored. One with the
  -- pointer that its type asks for, a value for "gauge" and a delta for any other type, is
  -- stored, whatever the database and the file answer, and the reply is 200 with the status ok.
  -- One that has only the other pointer makes the handler panic, with nothing stored and no
  -- reply.
  pub update_metrics-cases :
      (s : State F W)
      → IsServer handler
      → IsLive s.machine.ms
      → ((metric.value ≡ none) × (metric.delta ≡ none)
          → update_metrics x handler ws r s ≡ send_error x ws (codes "Error JSON format") 400 s)
        × ((u : Update F)
            → update_of_metric metric ≡ some u
            → ((update_metrics x handler ws r s).0 ≡ returned tt)
              × ((update_metrics x handler ws r s).1.machine.ms ≡ (perform x u s.machine).1.ms)
              × ((update_metrics x handler ws r s).1.conn ≡ ok_conn x ws s.conn))
        × (update_of_metric metric ≡ none
            → (metric.value ≢ none) ⊎ (metric.delta ≢ none)
            → update_metrics x handler ws r s ≡ (panicked, s))
  unfolding update_metrics
  update_metrics-cases s server l = (
    (λ (no_value, no_delta). rw (no_value, no_delta, update_metrics)),
    (λ u good.
        let (done, same, sent) =
          after_store_lem (record s { machine = (perform x u s.machine).1 }) server in
        rw (update_metrics-stored u s good l) (done, same, sent)),
    λ bad other.
        rw (has_other_pointer metric other, update_metrics)
          (rw (store-panicked x metric s bad) refl),
  )
