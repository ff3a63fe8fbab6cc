-- ===== src/Handler/Updates.antt =====
-- The handlers of JSON updates: what they store, and when they panic.
use metrify.Base.{
  String, true, false, some, List, [], inl, inr, ◌≡◌, refl, arith, ap, codes, returned, panicked,
  Bool-cases,
}
use metrify.External.{External}
use metrify.Storage.Updates.{IsLive}
use metrify.Storage.History.{run}
use metrify.Audit.{init_audit_publisher, new_event}
use metrify.Audit.Panics.{publish-init_audit_publisher}
use metrify.Http.{Request, Layer, Conn, write, write_header, set_header}
use metrify.Address.{client_ip}
use metrify.Handler.Store.{served, all_good, names_of, store_all-Stored}
use metrify.Handler.{finish_batch, is_enabled, audit_metrics, update_metrics_batch, publish_names}
use metrify.Serving.{Handler, State}

-- The handler of a server: its publisher is the one of initAuditPublisher.
abbrev pub IsServer : Handler → Type 0
IsServer handler =
    (audit_file : String) × (audit_url : String) × (handler.audit
      ≡ some (init_audit_publisher audit_file audit_url))

module _ {F W : Type 0} (x : External F W) where
  publish_names_lem :
      (audit_file audit_url : String) (r : Request) (names : List String) (s : State F W)
      → ((publish_names x (some (init_audit_publisher audit_file audit_url)) r names s).0
          ≡ returned tt)
        × ((publish_names x
              (some (init_audit_publisher audit_file audit_url))
              r
              names
              s).1.machine.ms
            ≡ s.machine.ms)
        × ((publish_names x (some (init_audit_publisher audit_file audit_url)) r names s).1.conn
            ≡ s.conn)
  publish_names_lem audit_file audit_url r names s =
      let e = new_event x names (client_ip r) s.machine.world in
      let never = (publish-init_audit_publisher x audit_file audit_url e s.machine.world).1 in
      (ground (arith, never), ground (arith, never), ground (arith, never))

  -- Auditing changes neither the metrics nor the response, and never panics.
  pub audit_metrics_lem :
      (handler : Handler) (r : Request) (names : List String) (s : State F W)
      → IsServer handler
      → ((audit_metrics x handler r names s).0 ≡ returned tt)
        × ((audit_metrics x handler r names s).1.machine.ms ≡ s.machine.ms)
        × ((audit_metrics x handler r names s).1.conn ≡ s.conn)
  unfolding audit_metrics
  audit_metrics_lem handler r names s (audit_file, audit_url, e) =
      elim (Bool-cases (is_enabled x handler.audit names)) [
        | inl on ↦ rw (on, audit_metrics) (rw e (publish_names_lem audit_file audit_url r names s))
        | inr off ↦ rw off (refl, refl, refl)
      ]

  -- What a successful update sends.
  abbrev pub ok_conn : List Layer → Conn → Conn
  ok_conn ws c =
      (write x.codecs ws (codes "{\"status\": \"ok\"}")
        (write_header ws 200 (set_header "Content-Type" (codes "application/json") c))).0

  finish_batch-ok :
      (handler : Handler) (ws : List Layer) (r : Request) (names : List String) (s : State F W)
      → IsServer handler
      → ((finish_batch x handler ws r (names, []) s).0 ≡ returned tt)
        × ((finish_batch x handler ws r (names, []) s).1.machine.ms ≡ s.machine.ms)
        × ((finish_batch x handler ws r (names, []) s).1.conn ≡ ok_conn ws s.conn)
  finish_batch-ok handler ws r names s server =
      let (done, same, quiet) = audit_metrics_lem handler r names s server in
      rw done (refl, same, ap (ok_conn ws) quiet)

  -- The state after the updates of a batch.
  abbrev stored : Request → State F W → State F W
  stored r s = record s { machine = (run x (served (x.decode_metrics r.body).0) s.machine).1 }

  batch_good :
      (handler : Handler) (ws : List Layer) (r : Request) (s : State F W)
      → IsLive s.machine.ms
      → s.machine.db ≡ false
      → all_good (x.decode_metrics r.body).0 ≡ true
      → update_metrics_batch x handler ws r s
        ≡ finish_batch x handler ws r (names_of x (x.decode_metrics r.body).0, []) (stored r s)
  unfolding update_metrics_batch
  batch_good handler ws r s l off good =
      let (state, all, bad) = store_all-Stored x [] [] (x.decode_metrics r.body).0 s l off in
      rw (all good, update_metrics_batch) (rw state)

  batch_bad :
      (handler : Handler) (ws : List Layer) (r : Request) (s : State F W)
      → IsLive s.machine.ms
      → s.machine.db ≡ false
      → all_good (x.decode_metrics r.body).0 ≡ false
      → update_metrics_batch x handler ws r s ≡ (panicked, stored r s)
  unfolding update_metrics_batch
  batch_bad handler ws r s l off some_bad =
      let (state, all, bad) = store_all-Stored x [] [] (x.decode_metrics r.body).0 s l off in
      rw (bad some_bad, update_metrics_batch) (rw state)

  -- On a storage whose maps are not nil, without a database, and with the publisher that the
  -- server makes, a batch of JSON metrics is stored in order up to the first one that lacks the
  -- value or delta that its type asks for, where any type but "gauge" asks for a delta: what is
  -- left behind is the history of their updates. If there is none such, the reply is 200 with the
  -- status ok; if there is one, the handler panics there, and what came before it stays stored.
  pub update_metrics_batch-serves :
      (handler : Handler) (ws : List Layer) (r : Request) (s : State F W)
      → IsServer handler
      → IsLive s.machine.ms
      → s.machine.db ≡ false
      → ((update_metrics_batch x handler ws r s).1.machine.ms
          ≡ (run x (served (x.decode_metrics r.body).0) s.machine).1.ms)
        × (all_good (x.decode_metrics r.body).0 ≡ true
            → ((update_metrics_batch x handler ws r s).0 ≡ returned tt)
              × ((update_metrics_batch x handler ws r s).1.conn ≡ ok_conn ws s.conn))
        × (all_good (x.decode_metrics r.body).0 ≡ false
            → (update_metrics_batch x handler ws r s).0 ≡ panicked)
  update_metrics_batch-serves handler ws r s server l off =
      elim (Bool-cases (all_good (x.decode_metrics r.body).0)) [
        | inl good ↦
            let names = names_of x (x.decode_metrics r.body).0 in
            let (done, same, sent) = finish_batch-ok handler ws r names (stored r s) server in
            rw (batch_good handler ws r s l off good) (same, (λ _. (done, sent)), λ p. cc (p, good))
        | inr some_bad ↦
            rw (batch_bad handler ws r s l off some_bad) (refl, (λ p. cc (p, some_bad)), λ _. refl)
      ]
