-- ===== src/Tests/Serving.antt =====
-- The handlers and the gRPC service at concrete inputs.
use metrify.Base.{
  ℕ, ◌+◌, Bytes, true, false, none, some, [], ◌∷◌, ◌⊎◌, inr, ◌≡◌, ◌≢◌, ◌↔◌, refl, codes, returned,
  panicked, arith,
}
use metrify.Base.GoMap.{lookup, get}
use metrify.Int64.{format_int, parse_int, add64}
use metrify.Failure.{Failure}
use metrify.Model.{Metrics, gauge, counter}
use metrify.Storage
use metrify.Storage.{or_zero}
use metrify.Storage.Updates.{IsLive}
use metrify.Storage.History.{Update, set_gauge, add_counter, perform, run, fresh}
use metrify.Proto.{Metric, gauge_type, counter_type, other_type, UpdateMetricsRequest}
use metrify.Rpc
use metrify.Rpc.{Status, status, invalid_argument, metric_from_proto}
use metrify.Rpc.Service
use metrify.Agent.Transform.{transform_metric_to_proto}
use metrify.Agent.RoundTrip.{IsSendable, transform-round_trip}
use metrify.Audit.{init_audit_publisher}
use metrify.Http.{Request, logging, new_conn, write, write_header, url_param}
use metrify.Handler.{get_counter, update_counter, update_metrics, update_metrics_batch}
use metrify.Serving.{Handler, new_handler, State, send_error}
use metrify.Handler.Store.{update_of_metric}
use metrify.Handler.Updates.{IsServer, ok_conn, update_metrics_batch-serves}
use metrify.Handler.Single.{update_metrics-cases}
use metrify.Handler.Values.{get_counter-update_counter_lem}
use metrify.Tests.Example.{Files, example, codecs}

abbrev pub started : Storage.Machine ℕ Files
started = fresh example "dump" false []

pub started-IsLive : IsLive started.ms
unfolding Storage.new_mem_storage
started-IsLive = record {
  gauge_map = [];
  counter_map = [];
  gauges_made = refl;
  counters_made = refl;
}

pub started_without_db : started.db ≡ false
unfolding Storage.new_mem_storage
started_without_db = refl

abbrev sent : UpdateMetricsRequest ℕ
sent = record {
  metrics =
      some (record { id = "hits"; type = counter_type; delta = 3; value = 0 })
      ∷ some (record { id = "load"; type = gauge_type; delta = 0; value = 8 })
      ∷ some (record { id = "odd"; type = other_type 7; delta = 0; value = 0 })
      ∷ some (record { id = "hits"; type = counter_type; delta = 4; value = 0 })
      ∷ [];
}

update_metrics-serves_example :
    ((Rpc.update_metrics example (some sent) started).1
      ≡ (run example (add_counter "hits" 3 ∷ set_gauge "load" 8 ∷ []) started).1)
    × (false ≡ true → (Rpc.update_metrics example (some sent) started).0 ≡ returned none)
    × (false ≡ false
        → (e : Failure) × ((Rpc.update_metrics example (some sent) started).0
            ≡ returned (some (status invalid_argument e))))
update_metrics-serves_example =
    Rpc.Service.update_metrics-serves example sent started started-IsLive started_without_db

abbrev hits : Metrics ℕ
hits = record { id = "hits"; mtype = counter; delta = some 3; value = some 1; hash = "abc" }

transform-round_trip_example :
    (((p : Metric ℕ) × (transform_metric_to_proto example.formats hits ≡ inr p)) ↔ IsSendable hits)
    × ((p : Metric ℕ)
        → transform_metric_to_proto example.formats hits ≡ inr p
        → hits.id ≢ ""
        → metric_from_proto (some p)
          ≡ inr (record { id = "hits"; mtype = counter; delta = some 3; value = none; hash = "" }))
transform-round_trip_example = transform-round_trip example.formats hits

abbrev pub server : Handler
server = new_handler false (some (init_audit_publisher "audit" "")) true [] none []

abbrev pub body : Bytes → Request
body text = record {
  method = "POST";
  uri = codes "/updates/";
  params = ("name", "hits") ∷ ("value", "12") ∷ [];
  header = [];
  body = record { content = text; failure = none };
  remote_addr = codes "127.0.0.1:80";
}

abbrev pub state : State ℕ Files
state = record { machine = started; conn = new_conn; lines = [] }

server-IsServer : IsServer server
unfolding new_handler
server-IsServer = ("audit", "", refl)

update_metrics_batch-serves_example :
    ((update_metrics_batch example server [] (body (5 ∷ 6 ∷ [])) state).1.machine.ms
      ≡ (run example (add_counter "c" 5 ∷ add_counter "c" 6 ∷ []) started).1.ms)
    × (true ≡ true
        → ((update_metrics_batch example server [] (body (5 ∷ 6 ∷ [])) state).0 ≡ returned tt)
          × ((update_metrics_batch example server [] (body (5 ∷ 6 ∷ [])) state).1.conn
              ≡ ok_conn example [] new_conn))
    × (true ≡ false
        → (update_metrics_batch example server [] (body (5 ∷ 6 ∷ [])) state).0 ≡ panicked)
update_metrics_batch-serves_example =
    update_metrics_batch-serves example server [] (body (5 ∷ 6 ∷ [])) state server-IsServer
      started-IsLive started_without_db

abbrev decoded : ℕ → ℕ → Metrics ℕ
decoded v w = record { id = "g"; mtype = gauge; delta = none; value = some (v + w); hash = "" }

update_metrics-cases_example :
    (((decoded 4 5).value ≡ none) × ((decoded 4 5).delta ≡ none)
      → update_metrics example server [] (body (4 ∷ 5 ∷ [])) state
        ≡ send_error example [] (codes "Error JSON format") 400 state)
    × ((u : Update ℕ)
        → update_of_metric (decoded 4 5) ≡ some u
        → ((update_metrics example server [] (body (4 ∷ 5 ∷ [])) state).0 ≡ returned tt)
          × ((update_metrics example server [] (body (4 ∷ 5 ∷ [])) state).1.machine.ms
              ≡ (perform example u started).1.ms)
          × ((update_metrics example server [] (body (4 ∷ 5 ∷ [])) state).1.conn
              ≡ ok_conn example [] new_conn))
    × (update_of_metric (decoded 4 5) ≡ none
        → ((decoded 4 5).value ≢ none) ⊎ ((decoded 4 5).delta ≢ none)
        → update_metrics example server [] (body (4 ∷ 5 ∷ [])) state ≡ (panicked, state))
update_metrics-cases_example =
    update_metrics-cases example server [] (body (4 ∷ 5 ∷ [])) state server-IsServer started-IsLive

given : codes (url_param (body []) "value") ≡ format_int 12
unfolding url_param lookup format_int
given = refl

get_counter-update_counter_lem_example :
    ((update_counter example [] (body []) state).0 ≡ returned tt)
    × ((update_counter example [] (body []) state).1.conn ≡ write_header [] 200 new_conn)
    × ((get_counter example
          (logging ∷ [])
          (body [])
          (record (update_counter example [] (body []) state).1 { conn = new_conn })).1.conn
        ≡ (write codecs
            (logging ∷ [])
            (format_int (
              add64
                (or_zero (Storage.get_counter example (url_param (body []) "name") started))
                12))
            (write_header (logging ∷ []) 200 new_conn)).0)
get_counter-update_counter_lem_example =
    get_counter-update_counter_lem example 12 [] (logging ∷ []) (body []) (body []) state new_conn
      (omega arith) given refl started-IsLive

-- The reply to the read is the text of the sum.
get_counter_replies :
    (get_counter example
      (logging ∷ [])
      (body [])
      (record (update_counter example [] (body []) state).1 { conn = new_conn })).1.conn.body
    ≡ codes "12"
unfolding get_counter update_counter Storage.get_counter get parse_int Storage.update_counter
    Storage.new_mem_storage Storage.save_db format_int
get_counter_replies = refl
