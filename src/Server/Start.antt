-- ===== src/Server/Start.antt =====
-- The start of cmd/server/main.go: main, initDB with initMigrations, readPrivateKeyFromFile, and
-- runHTTPServer up to the server that it makes.
use metrify.Base.{
  String, Bytes, Bool, true, false, Option, none, some, ◌⊎◌, inl, inr, codes, is_empty, bytes_eq,
  nat_eq, if◌then◌else◌,
}
use metrify.Failure.{Failure, message}
use metrify.Int64.{is_positive}
use metrify.External.{External}
use metrify.Storage.{Machine, new_mem_storage, read_from_file}
use metrify.Audit.{init_audit_publisher}
use metrify.Address.{normalize_addr}
use metrify.Serving.{Handler, new_handler}
use metrify.Rpc.Subnet.{Networks, new_trusted_subnet_interceptor}
use metrify.Config.{Exit, fatal, or_fatal, and_then}
use metrify.Config.Server
use metrify.Server.{Url, is_valid_postgres_dsn}

-- url.Parse, sql.Open, the three steps of golang-migrate, os.ReadFile, pem.Decode and
-- x509.ParsePKCS1PrivateKey; `no_change` is migrate.ErrNoChange. `text` is a path as the modules
-- of storage and audit take it.
pub record Resources : Type 0 where
  pub parse_url : Bytes → Option Url
  pub open_db : Bytes → Option Failure
  pub with_instance : Bytes → Option Failure
  pub new_migrate : Bytes → Option Failure
  pub up : Bytes → Option Failure
  pub is_no_change : Failure → Bool
  pub read_file : Bytes → Failure ⊎ Bytes
  pub decode_pem : Bytes → Option Bytes
  pub parse_key : Bytes → Failure ⊎ Bytes
  pub text : Bytes → String

-- What a server serves: the http.Server with its address and its handler, or nothing but an
-- error or none, since main never calls Serve for gRPC.
pub data Service : Type 0 where
  http_service : Bytes → Handler → Service
  no_service : Option Failure → Service

-- The goroutines of main: the storage that they share, the service, and whether the dumper runs.
pub record Started (F W : Type 0) : Type 0 where
  pub machine : Machine F W
  pub service : Service
  pub dumps : Bool

module _ (res : Resources) where
  -- log.Fatal at an error
  abbrev must : Option Failure → Exit ⊎ Unit {0}
  must none = inr tt
  must (some e) = inl fatal

  abbrev must_unless_no_change : Option Failure → Exit ⊎ Unit {0}
  must_unless_no_change none = inr tt
  must_unless_no_change (some e) = if res.is_no_change e then inr tt else inl fatal

  abbrev init_migrations : Bytes → Exit ⊎ Unit {0}
  init_migrations dsn =
      and_then (must (res.with_instance dsn))
        (λ _. and_then (must (res.new_migrate dsn)) (λ _. must_unless_no_change (res.up dsn)))

  abbrev pub open_database : Bytes → Exit ⊎ Bool
  open_database dsn =
      and_then (must (res.open_db dsn)) (λ _. and_then (init_migrations dsn) (λ _. inr true))

  -- initDB: whether there is a database.
  unfoldable pub init_db : Bytes → Exit ⊎ Bool
  unfolding is_valid_postgres_dsn
  init_db dsn = if is_valid_postgres_dsn res.parse_url dsn then open_database dsn else inr false

  abbrev parse_block : Option Bytes → Failure ⊎ Bytes
  parse_block none = inl (message (codes "can`t decode PEM"))
  parse_block (some block) = res.parse_key block

  abbrev decode_key : Failure ⊎ Bytes → Failure ⊎ Bytes
  decode_key (inl e) = inl e
  decode_key (inr content) = parse_block (res.decode_pem content)

  unfoldable pub read_private_key_from_file : Bytes → Failure ⊎ Bytes
  read_private_key_from_file path = decode_key (res.read_file path)

  abbrev set_key : Bytes → Exit ⊎ Option Bytes
  set_key key = inr (some key)

  abbrev pub load_key : Bytes → Exit ⊎ Option Bytes
  load_key path = and_then (or_fatal (read_private_key_from_file path)) set_key

  unfoldable pub private_key : Bytes → Exit ⊎ Option Bytes
  unfolding read_private_key_from_file
  private_key path = if is_empty path then inr none else load_key path

  -- runHTTPServer up to srv
  unfoldable pub run_http_server : Server.Flags → Bool → Exit ⊎ Service
  unfolding normalize_addr init_audit_publisher new_handler private_key
  run_http_server f db = and_then (private_key f.crypto_key) (λ key. inr (
      http_service (normalize_addr f.run_addr) (
        new_handler db (some (init_audit_publisher (res.text f.audit_file) (res.text f.audit_url)))
          (nat_eq f.store_interval 0) f.key key f.trusted_subnet)))

module _ {F W Net Ip : Type 0} (x : External F W) (res : Resources) (nets : Networks Net Ip) where
  abbrev error_of : {A : Type 0} → Failure ⊎ A → Option Failure
  error_of (inl e) = some e
  error_of (inr a) = none

  unfoldable pub no_grpc : Bytes → Service
  unfolding new_trusted_subnet_interceptor
  no_grpc subnet =
      no_service (error_of (new_trusted_subnet_interceptor {S = W} {A = W} nets subnet))

  unfoldable pub service_of : Server.Flags → Bool → Exit ⊎ Service
  unfolding run_http_server no_grpc
  service_of f db =
      if bytes_eq f.protocol (codes "http")
      then run_http_server res f db
      else inr (no_grpc f.trusted_subnet)

  -- The storage, restored from its file if the flags ask for it; an error is only logged.
  unfoldable pub storage_of : Server.Flags → Bool → W → Machine F W
  unfolding new_mem_storage read_from_file
  storage_of f db w =
      let m : Machine F W = record {
        ms = new_mem_storage (res.text f.file_store_path) db;
        world = w;
      } in
      if f.restore then (read_from_file x (res.text f.file_store_path) m).1 else m

  -- main
  unfoldable pub main : Server.Flags → W → Exit ⊎ Started F W
  unfolding init_db storage_of service_of
  main f w = and_then (init_db res f.dsn) (λ db. and_then (service_of f db) (λ service.
      inr (record {
        machine = storage_of f db w;
        service = service;
        dumps = is_positive f.store_interval;
      })))
