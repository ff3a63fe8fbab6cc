-- ===== src/Tests/Starting.antt =====
-- The start of a server from concrete flags.
use metrify.Base.{ℕ, Bytes, false, ◌&&◌, none, some, [], inr, ◌≡◌, ◌↔◌, refl, codes, nat_eq}
use metrify.Address.{normalize_host, normalize_addr, split_host_port, trim_space}
use metrify.Address.Normal.{normalize_addr-normalize_host}
use metrify.Http.{new_conn}
use metrify.Serving.{Handler}
use metrify.Storage.Updates.{IsLive}
use metrify.Handler.Updates.{IsServer}
use metrify.Router.{serve_all}
use metrify.Config.Server
use metrify.Server.{is_valid_postgres_dsn}
use metrify.Server.Start.{
  Resources, http_service, Started, init_db, private_key, read_private_key_from_file,
  run_http_server, service_of, main,
}
use metrify.Server.Running.{main-serves}
use metrify.Tests.Example.{Files, example}
use metrify.Tests.Guarding.{networks}
use metrify.Tests.Routing.{mux, mux_laws, requests}

abbrev resources : Resources
resources = record {
  parse_url = λ dsn. none;
  open_db = λ dsn. none;
  with_instance = λ dsn. none;
  new_migrate = λ dsn. none;
  up = λ dsn. none;
  is_no_change = λ e. false;
  read_file = λ path. inr path;
  decode_pem = λ content. some content;
  parse_key = λ block. inr block;
  text = λ path. "dump";
}

abbrev flags : Server.Flags
flags = record Server.zero_flags {
  run_addr = codes "localhost:8080";
  crypto_key = codes "key.pem";
  protocol = codes "http";
}

abbrev files : Files
files = []

running :
    (s : Started ℕ Files) × (addr : Bytes) × (handler : Handler) × (main example resources networks
        flags files
      ≡ inr s)
    × (s.service ≡ http_service addr handler)
unfolding main init_db service_of run_http_server private_key read_private_key_from_file
    is_valid_postgres_dsn trim_space
running = (_, _, _, refl, refl)

abbrev handler : Handler
handler = running.2

main-serves_example :
    IsServer handler
    × (running.1 ≡ normalize_addr flags.run_addr)
    × (handler.db ≡ is_valid_postgres_dsn resources.parse_url flags.dsn)
    × (running.0.machine.db ≡ handler.db)
    × ((handler.priv_key ≡ none) ↔ (flags.crypto_key ≡ []))
    × (handler.dump_to_file ≡ nat_eq flags.store_interval 0)
    × ((handler.dump_to_file && running.0.dumps) ≡ false)
    × (flags.restore ≡ false
        → IsLive
            (serve_all example mux handler requests
              (record { machine = running.0.machine; conn = new_conn; lines = [] })).machine.ms)
main-serves_example =
    main-serves example resources networks flags files running.0 running.1 handler mux requests
      mux_laws running.3 running.4

-- The default of the agent.
normalize_addr-normalize_host_example :
    (normalize_addr (normalize_host (codes ":8080")) ≡ normalize_addr (codes ":8080"))
    × (normalize_host (normalize_host (codes ":8080")) ≡ normalize_host (codes ":8080"))
    × (normalize_addr (normalize_addr (codes ":8080")) ≡ normalize_addr (codes ":8080"))
normalize_addr-normalize_host_example = normalize_addr-normalize_host (codes ":8080")

sent_to : normalize_host (codes ":8080") ≡ codes "localhost:8080"
unfolding normalize_host split_host_port
sent_to = refl

-- A host in brackets loses them at the server only.
bracketed : normalize_addr (codes "[localhost]:80") ≡ codes ":80"
unfolding normalize_addr split_host_port
bracketed = refl
