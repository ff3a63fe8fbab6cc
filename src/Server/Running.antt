-- ===== src/Server/Running.antt =====
-- A server that main has started over HTTP.
use metrify.Base.{
  ℕ, Bytes, Bool, true, false, ◌&&◌, Option, none, some, List, [], inl, inr, ◌≡◌, ◌≢◌, ◌↔◌, refl,
  sym, ap, ◌∙◌, arith, codes, is_empty-cases, bytes_eq, bytes_eq_iff, nat_eq, Bool-cases,
}
use metrify.Int64.{is_positive}
use metrify.External.{External}
use metrify.Storage.{new_mem_storage, read_from_file, unmarshal_json}
use metrify.Storage.Updates.{IsLive}
use metrify.Storage.History.{fresh-IsLive}
use metrify.Audit.{init_audit_publisher}
use metrify.Address.{normalize_addr}
use metrify.Http.{Request, new_conn}
use metrify.Serving.{Handler, new_handler}
use metrify.Handler.Updates.{IsServer}
use metrify.Rpc.Subnet.{Networks}
use metrify.Router.{Chi, serve_all}
use metrify.Router.Serving.{MuxLaws}
use metrify.Router.Requests.{serve_all-keeps}
use metrify.Config.Exits.{and_then-inr}
use metrify.Config.Server
use metrify.Server.{is_valid_postgres_dsn}
use metrify.Server.Start.{
  Resources, Service, http_service, Started, init_db, private_key, run_http_server, service_of,
  storage_of, open_database, load_key, main, no_grpc,
}

module _ {F W Net Ip : Type 0} (x : External F W) (res : Resources) (nets : Networks Net Ip)
    (f : Server.Flags) (w : W) (s : Started F W) (addr : Bytes) (handler : Handler) where
  -- What the handler was made of.
  abbrev Made : Option Bytes → Bool → Type 0
  Made key db =
      handler
      ≡ new_handler db (some (init_audit_publisher (res.text f.audit_file) (res.text f.audit_url)))
          (nat_eq f.store_interval 0) f.key key f.trusted_subnet

  abbrev Served : Bool → Type 0
  Served db =
      (key : Option Bytes) × (private_key res f.crypto_key ≡ inr key)
      × (f.protocol ≡ codes "http")
      × (addr ≡ normalize_addr f.run_addr)
      × Made key db

  run_http_server-Served :
      (db : Bool)
      → f.protocol ≡ codes "http"
      → run_http_server res f db ≡ inr (http_service addr handler)
      → Served db
  unfolding run_http_server
  run_http_server-Served db http h =
      let (key, loaded, made) = and_then-inr _ _ (http_service addr handler) h in
      (key, loaded, http, ground arith, ground arith)

  service_of-Served :
      (db : Bool) → service_of x res nets f db ≡ inr (http_service addr handler) → Served db
  unfolding service_of no_grpc
  service_of-Served db h = elim (Bool-cases (bytes_eq f.protocol (codes "http"))) [
    | inl http ↦
        run_http_server-Served db ((bytes_eq_iff f.protocol (codes "http")).0 http)
          (rw (http, service_of) at h)
    | inr grpc ↦ absurd (cc (rw (grpc, service_of) at h))
  ]

  main-Served :
      main x res nets f w ≡ inr s
      → s.service ≡ http_service addr handler
      → (db : Bool) × (init_db res f.dsn ≡ inr db)
        × (s.machine ≡ storage_of x res nets f db w)
        × (s.dumps ≡ is_positive f.store_interval)
        × Served db
  unfolding main
  main-Served h served =
      let (db, opened, rest) = and_then-inr _ _ s h in
      let (service, made, started) = and_then-inr _ _ s rest in
      let started' : record {
        machine = storage_of x res nets f db w;
        service = service;
        dumps = is_positive f.store_interval;
      }
          ≡ s =
        ground arith in
      let same : service ≡ http_service addr handler =
        ap (λ (t : Started F W). t.service) started' ∙ served in
      (
        db,
        opened,
        ap (λ (t : Started F W). t.machine) (sym started'),
        ap (λ (t : Started F W). t.dumps) (sym started'),
        service_of-Served db (made ∙ ap (λ (v : Service). inr v) same),
      )

  open_database-inr : (db : Bool) → open_database res f.dsn ≡ inr db → db ≡ true
  open_database-inr db h = ground arith

  init_db-valid :
      (db : Bool) → init_db res f.dsn ≡ inr db → db ≡ is_valid_postgres_dsn res.parse_url f.dsn
  unfolding init_db
  init_db-valid db h = elim (Bool-cases (is_valid_postgres_dsn res.parse_url f.dsn)) [
    | inl valid ↦ rw valid (open_database-inr db (rw (valid, init_db) at h))
    | inr other ↦
        let h' : inr false ≡ init_db res f.dsn = rw (other, init_db) refl in
        rw other (ground (arith, h', h))
  ]

  load_key-inr : (key : Option Bytes) → load_key res f.crypto_key ≡ inr key → key ≢ none
  load_key-inr key h = ground arith

  private_key-none_iff :
      (key : Option Bytes)
      → private_key res f.crypto_key ≡ inr key
      → (key ≡ none) ↔ (f.crypto_key ≡ [])
  unfolding private_key
  private_key-none_iff key h = elim (is_empty-cases f.crypto_key) [
    | inl missing ↦
        let h' : inr none ≡ private_key res f.crypto_key = rw (missing, private_key) refl in
        let same : key ≡ none = ground (arith, h', h) in ((λ _. missing), λ _. same)
    | inr (given, some_path) ↦
        let never = load_key-inr key (rw (some_path, private_key) at h) in
        ((λ e. absurd (never e)), λ e. absurd (given e))
  ]

  db-storage_of : (db : Bool) → (storage_of x res nets f db w).ms.db ≡ db
  unfolding storage_of read_from_file unmarshal_json new_mem_storage
  db-storage_of db = ground arith

  never_both : (n : ℕ) → (nat_eq n 0 && is_positive n) ≡ false
  never_both n = ground arith

  IsLive-storage_of : (db : Bool) → f.restore ≡ false → IsLive (storage_of x res nets f db w).ms
  unfolding storage_of new_mem_storage
  IsLive-storage_of db plain =
      rw (plain, storage_of) (fresh-IsLive x (res.text f.file_store_path) db w)

  -- A server that main has started over HTTP listens at the normalized address, and has a
  -- database exactly if its connection text is a valid one, of which its storage knows too. Its
  -- handler publishes to the publisher of initAuditPublisher, has a private key exactly if the
  -- flags name one, and dumps after a JSON update exactly if the interval is 0, in which case the
  -- dumper does not run. If it was not to restore its file, then after any requests no map of its
  -- storage is nil.
  pub main-serves :
      (chi : Chi) (rs : List Request)
      → MuxLaws chi
      → main x res nets f w ≡ inr s
      → s.service ≡ http_service addr handler
      → IsServer handler
        × (addr ≡ normalize_addr f.run_addr)
        × (handler.db ≡ is_valid_postgres_dsn res.parse_url f.dsn)
        × (s.machine.db ≡ handler.db)
        × ((handler.priv_key ≡ none) ↔ (f.crypto_key ≡ []))
        × (handler.dump_to_file ≡ nat_eq f.store_interval 0)
        × ((handler.dump_to_file && s.dumps) ≡ false)
        × (f.restore ≡ false
            → IsLive
                (serve_all x chi handler rs
                  (record { machine = s.machine; conn = new_conn; lines = [] })).machine.ms)
  unfolding new_handler
  main-serves chi rs laws h served =
      let (db, opened, at_start, dumping, (key, loaded, http, address, made)) =
        main-Served h served in
      let valid = init_db-valid db opened in
      (
        rw made (res.text f.audit_file, res.text f.audit_url, refl),
        address,
        rw made valid,
        rw (made, at_start) (db-storage_of db),
        rw made (private_key-none_iff key loaded),
        rw made refl,
        rw (made, dumping) (never_both f.store_interval),
        λ plain.
            (serve_all-keeps x chi handler rs
                (record { machine = s.machine; conn = new_conn; lines = [] }) laws).0.still_live
              (rw at_start (IsLive-storage_of db plain)),
      )
