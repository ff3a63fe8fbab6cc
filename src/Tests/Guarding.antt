-- ===== src/Tests/Guarding.antt =====
-- The middleware and the gRPC interceptor at concrete inputs.
use metrify.Base.{
  ℕ, Bytes, Bool, true, false, Option, none, some, [], ◌∷◌, ◌++◌, ◌⊎◌, inl, inr, ◌≡◌, ◌≢◌, refl,
  codes, returned, arith, nat_eq,
}
use metrify.Base.GoMap.{lookup, get, insert}
use metrify.Failure.{Failure, message}
use metrify.Storage
use metrify.Storage.History.{add_counter, run}
use metrify.Rpc.{status, permission_denied}
use metrify.Rpc.Subnet.{
  Networks, Metadata, Interceptor, UnaryHandler, new_trusted_subnet_interceptor, IsTrusted,
  new_trusted_subnet_interceptor-serves,
}
use metrify.Http.{Request, logging, Conn, new_conn, header_get, url_param, write}
use metrify.Handler.{get_info}
use metrify.Serving.{Handler, new_handler, State, Serve, send_error}
use metrify.Middleware.{contains, with_hashed_request, with_trusted_subnet, with_response_compress}
use metrify.Middleware.Signature.{HashGate, with_hashed_request-HashGate}
use metrify.Middleware.Compression.{stream, with_response_compress-send_error}
use metrify.Tests.Example.{Files, example}
use metrify.Tests.Serving.{state, body, started}

abbrev asking : Request
asking = record (body (1 ∷ [])) {
  header =
      ("HashSHA256", 9 ∷ 1 ∷ [])
      ∷ ("Accept-Encoding", codes "deflate, gzip")
      ∷ ("X-Forwarded-For", codes "10.0.0.1")
      ∷ [];
}

abbrev keyed : Handler
keyed = new_handler false none false (9 ∷ []) none (codes "10.0.0.0/8")

abbrev open_to_all : Handler
open_to_all = new_handler false none false (9 ∷ []) none []

with_hashed_request-HashGate_example :
    HashGate example keyed
      (get_info example)
      []
      asking
      (with_hashed_request example keyed (get_info example) [] asking)
with_hashed_request-HashGate_example =
    with_hashed_request-HashGate example keyed (get_info example) [] asking

served-info : (t : State ℕ Files) × (get_info example [] asking state ≡ (returned tt, t))
unfolding get_info
served-info = (_, refl)

-- The router does not use WithTrustedSubnet. With no subnet, a request with an X-Forwarded-For
-- header is served and then refused; with one, nothing is served even to that address.
refused_once_served :
    with_trusted_subnet example open_to_all (get_info example) [] asking state
    ≡ send_error example [] (codes "Not authorized") 403 served-info.0
unfolding with_trusted_subnet get_info header_get lookup new_handler served-info write
refused_once_served = refl

unserved :
    with_trusted_subnet example
      (record open_to_all { trusted_subnet = header_get asking.header "X-Forwarded-For" })
      (get_info example)
      []
      asking
      state
    ≡ (returned tt, state)
unfolding with_trusted_subnet get_info header_get lookup new_handler
unserved = refl

abbrev counted : State ℕ Files
counted = record state { machine = (run example (add_counter "hits" 12 ∷ []) started).1 }

abbrev compressed : Serve ℕ Files → Conn
compressed h =
    (with_response_compress example h (logging ∷ []) asking
      (record counted { conn = new_conn })).1.conn

takes_gzip : contains (codes "gzip") (header_get asking.header "Accept-Encoding") ≡ true
unfolding header_get lookup
takes_gzip = refl

counted_hits : Storage.get_counter example (url_param asking "name") counted.machine ≡ some 12
unfolding Storage.get_counter get run Storage.update_counter Storage.new_mem_storage Storage.save_db
    lookup insert url_param
counted_hits = refl

with_response_compress-send_error_example :
    ((compressed (λ ws r. send_error example ws (codes "no") 400)).sent
      ≡ some (
        400,
        ("Content-Type", codes "text/plain; charset=utf-8")
            ∷ ("X-Content-Type-Options", codes "nosniff")
            ∷ [],
      ))
    × ((compressed (λ ws r. send_error example ws (codes "no") 400)).body
        ≡ stream example (codes "no" ++ b'\n' ∷ []))
with_response_compress-send_error_example =
    with_response_compress-send_error example asking counted 400 (codes "no") takes_gzip
      (omega arith)

abbrev parse_first : Bytes → Failure ⊎ ℕ
parse_first [] = inl (message (codes "invalid CIDR address"))
parse_first (n ∷ rest) = inr n

abbrev first_of : Bytes → Option ℕ
first_of [] = none
first_of (n ∷ rest) = some n

-- A network and an address are their first byte.
abbrev pub networks : Networks ℕ ℕ
networks = record {
  parse_cidr = parse_first;
  parse_ip = first_of;
  contains = nat_eq;
  wrap_cidr = λ text e. e;
}

abbrev caller : Option Metadata
caller = some (("x-real-ip", (10 ∷ 1 ∷ []) ∷ []) ∷ [])

abbrev counting : UnaryHandler ℕ Bool
counting n = (returned (inr true), n)

abbrev subnet : Bytes
subnet = 10 ∷ 8 ∷ []

new_trusted_subnet_interceptor-serves_example :
    (subnet ≡ []
      → (i : Interceptor ℕ Bool) × (new_trusted_subnet_interceptor networks subnet ≡ inr i)
        × (i caller counting 5 ≡ counting 5))
    × ((e : Failure)
        → subnet ≢ []
        → parse_first subnet ≡ inl e
        → new_trusted_subnet_interceptor {S = ℕ} {A = Bool} networks subnet
          ≡ inl (networks.wrap_cidr subnet e))
    × ((net : ℕ)
        → subnet ≢ []
        → parse_first subnet ≡ inr net
        → (i : Interceptor ℕ Bool) × (new_trusted_subnet_interceptor networks subnet ≡ inr i)
          × (IsTrusted networks net caller → i caller counting 5 ≡ counting 5)
          × (¬ IsTrusted networks net caller
              → (e : Failure) × (i caller counting 5
                  ≡ (returned (inl (status permission_denied e)), 5))))
new_trusted_subnet_interceptor-serves_example =
    new_trusted_subnet_interceptor-serves networks subnet caller counting 5
