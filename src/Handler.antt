-- ===== src/Handler.antt =====
-- internal/handler/handler.go: the HTTP handlers. A handler gets the wrappers of its writer and
-- the request, and changes the state; its log lines at other levels than those of WithLogging are
-- left out.
pub mod Values
pub mod Store
pub mod Updates
pub mod Single
use metrify.Base.{
  ℕ, String, Bytes, Bool, ◌&&◌, true, false, not, ◌||◌, Option, none, some, List, [], ◌∷◌, ◌++◌,
  ◌⊎◌, inl, inr, codes, ◌==◌, length, if◌then◌else◌, Prog, returned, panicked, panic, pure, reads,
  continue, ◌>>=◌, ◌>>◌,
}
use metrify.Failure.{Failure}
use metrify.Int64.{format_int, parse_int}
use metrify.Model.{Metrics, gauge}
use metrify.External.{External}
use metrify.Storage
use metrify.Storage.{Machine}
use metrify.Audit.{Publisher, enabled, new_event, publish}
use metrify.Http.{Request, Layer, Conn, url_param, set_header, write_header, write, http_error}
use metrify.Address.{client_ip}
use metrify.Serving.{
  Handler, new_handler, LogLine, State, Serve, on_machine, on_conn, is_nil, send_text, send_error,
  send_json, send_status_ok,
}

module _ {F W : Type 0} (x : External F W) where
  abbrev send_value : List Layer → Option Bytes → Prog (State F W) (Unit {0})
  send_value ws none = on_conn (write_header ws 404)
  send_value ws (some text) = do on_conn (write_header ws 200); send_text x ws text

  abbrev float_text : Option F → Option Bytes
  float_text none = none
  float_text (some v) = some (x.format_float v)

  abbrev int_text : Option ℕ → Option Bytes
  int_text none = none
  int_text (some n) = some (format_int n)

  unfoldable pub get_gauge : Serve F W
  unfolding write_header write url_param
  get_gauge ws r = do
    val ← reads (λ s. Storage.get_gauge x (url_param r "name") s.machine)
    send_value ws (float_text val)

  unfoldable pub get_counter : Serve F W
  unfolding write_header write url_param
  get_counter ws r = do
    val ← reads (λ s. Storage.get_counter x (url_param r "name") s.machine)
    send_value ws (int_text val)

  -- A float64 or an int64 behind a pointer that may be nil: *p panics then.
  abbrev deref : {A : Type 0} → Option A → Prog (State F W) A
  deref none = panic
  deref (some a) = pure a

  -- The encoder ends the text with a newline; on an error it writes nothing.
  abbrev send_encoded : List Layer → Failure ⊎ Bytes → Prog (State F W) (Unit {0})
  send_encoded ws (inl e) = pure tt
  send_encoded ws (inr text) = send_text x ws (text ++ b'\n' ∷ [])

  abbrev send_metric : List Layer → Metrics F → Prog (State F W) (Unit {0})
  send_metric ws metric = do
    on_conn (set_header "Content-Type" (codes "application/json"))
    on_conn (write_header ws 200)
    send_encoded ws (x.encode_metric metric)

  abbrev answer_gauge : List Layer → Metrics F → Option F → Prog (State F W) (Unit {0})
  answer_gauge ws metric none = on_conn (write_header ws 404)
  answer_gauge ws metric (some val) = send_metric ws (record metric { value = some val })

  abbrev answer_counter : List Layer → Metrics F → Option ℕ → Prog (State F W) (Unit {0})
  answer_counter ws metric none = on_conn (write_header ws 404)
  answer_counter ws metric (some val) = send_metric ws (record metric { delta = some val })

  -- A decoding error is only logged: the handler goes on with what was decoded.
  unfoldable pub get_metrics : Serve F W
  unfolding write_header write set_header
  get_metrics ws r =
      let metric = (x.decode_metric r.body).0 in
      if metric.mtype == gauge
      then (do
        val ← reads (λ s. Storage.get_gauge x metric.id s.machine)
        answer_gauge ws metric val)
      else do
        val ← reads (λ s. Storage.get_counter x metric.id s.machine)
        answer_counter ws metric val

  abbrev pub is_enabled : Option Publisher → List String → Bool
  is_enabled none names = false
  is_enabled (some p) [] = false
  is_enabled (some p) (n ∷ ns) = enabled p

  abbrev pub publish_names : Option Publisher → Request → List String → Prog (State F W) (Unit {0})
  publish_names none r names s = (returned tt, s)
  publish_names (some p) r names s =
      let (o, w) = publish x p (new_event x names (client_ip r) s.machine.world) s.machine.world in
      continue o (λ errs. pure tt) (record s { machine = record s.machine { world = w } })

  -- auditMetrics: the errors of the receivers are only logged.
  unfoldable pub audit_metrics : Handler → Request → List String → Prog (State F W) (Unit {0})
  unfolding enabled publish new_event client_ip
  audit_metrics handler r names =
      if is_enabled handler.audit names then publish_names handler.audit r names else pure tt

  -- The switch on the type of a metric, as both handlers of JSON updates make it.
  unfoldable pub store : Metrics F → Prog (State F W) (Option Failure)
  store metric =
      if metric.mtype == gauge
      then (do value ← deref metric.value; on_machine (Storage.update_gauge x metric.id value))
      else do delta ← deref metric.delta; on_machine (Storage.update_counter x metric.id delta)

  abbrev pub dump : Handler → Prog (State F W) (Unit {0})
  dump handler =
      if handler.dump_to_file
      then (do _ ← on_machine (Storage.flush_to_file x); pure tt)
      else pure tt

  unfoldable pub update_metrics : Handler → Serve F W
  unfolding store audit_metrics
  update_metrics handler ws r =
      let metric = (x.decode_metric r.body).0 in
      if is_nil metric.value && is_nil metric.delta
      then send_error x ws (codes "Error JSON format") 400
      else do
        _ ← store metric
        dump handler
        audit_metrics handler r (metric.id ∷ [])
        send_status_ok x ws

  abbrev pub with_failure : List Failure → Option Failure → List Failure
  with_failure errs none = errs
  with_failure errs (some e) = errs ++ e ∷ []

  -- The loop of UpdateMetricsBatch: the names and the errors so far.
  unfoldable pub store_all :
      List String → List Failure → List (Metrics F) → Prog (State F W) (List String × List Failure)
  unfolding store
  store_all names errs [] = pure (names, errs)
  store_all names errs (metric ∷ metrics) = do
    e ← store metric
    store_all (names ++ metric.id ∷ []) (with_failure errs e) metrics

  abbrev pub finish_batch :
      Handler → List Layer → Request → List String × List Failure → Prog (State F W) (Unit {0})
  finish_batch handler ws r (names, []) = do audit_metrics handler r names; send_status_ok x ws
  finish_batch handler ws r (names, e ∷ errs) = do
    on_conn (set_header "Content-Type" (codes "application/json"))
    on_conn (write_header ws 400)
    send_text x ws (x.encode_failures (e ∷ errs) ++ b'\n' ∷ [])

  unfoldable pub update_metrics_batch : Handler → Serve F W
  unfolding store_all audit_metrics
  update_metrics_batch handler ws r = do
    done ← store_all [] [] (x.decode_metrics r.body).0
    finish_batch handler ws r done

  abbrev set_parsed : List Layer → String → Option F → Prog (State F W) (Unit {0})
  set_parsed ws name none = send_error x ws (codes "Invalid metric value") 400
  set_parsed ws name (some value) = do _ ← on_machine (Storage.update_gauge x name value); pure tt

  -- The head of the response is left to net/http.
  unfoldable pub update_gauge : Serve F W
  unfolding url_param
  update_gauge ws r =
      set_parsed ws (url_param r "name") (x.parse_float (codes (url_param r "value")))

  abbrev add_parsed : List Layer → String → Option ℕ → Prog (State F W) (Unit {0})
  add_parsed ws name none = send_error x ws (codes "Invalid metric value") 400
  add_parsed ws name (some delta) = do
    _ ← on_machine (Storage.update_counter x name delta)
    on_conn (write_header ws 200)

  unfoldable pub update_counter : Serve F W
  unfolding url_param
  update_counter ws r = add_parsed ws (url_param r "name") (parse_int (codes (url_param r "value")))

  unfoldable pub invalid_metric_handler : Serve F W
  invalid_metric_handler ws r =
      send_error x ws (codes "invalid metric type (expect counter|gauge)") 400

  unfoldable pub get_info : Serve F W
  get_info ws r = do
    on_conn (set_header "Content-Type" (codes "text/html; charset=utf-8"))
    on_conn (write_header ws 200)
    send_text x ws (codes "OK")

  abbrev ping_world : Prog (State F W) (Option Failure)
  ping_world s =
      let (e, w) = x.ping s.machine.world in
      (returned e, record s { machine = record s.machine { world = w } })

  abbrev send_ping : List Layer → Option Failure → Prog (State F W) (Unit {0})
  send_ping ws none = send_status_ok x ws
  send_ping ws (some e) = send_error x ws (x.error_text e) 500

  unfoldable pub ping : Handler → Serve F W
  ping handler ws r =
      if handler.db
      then (do e ← ping_world; send_ping ws e)
      else send_error x ws (codes "database is not initialized") 500
