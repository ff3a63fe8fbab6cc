-- ===== src/Serving.antt =====
-- What the handlers and the middleware of internal/handler share: the struct Handler, the state
-- while a request is served, and the ways of replying.
use metrify.Base.{
  ℕ, String, Bytes, Bool, true, false, Option, none, some, List, codes, Prog, returned, ◌>>◌,
}
use metrify.External.{External}
use metrify.Storage.{Machine}
use metrify.Audit.{Publisher}
use metrify.Http.{Request, Layer, Conn, set_header, write_header, write, http_error}

-- The fields of Handler but the storage and the logger: whether there is a database, the
-- publisher, and the configuration.
pub record Handler : Type 0 where
  pub db : Bool
  pub audit : Option Publisher
  pub dump_to_file : Bool
  pub allowed_content_type : Bytes
  pub key : Bytes
  pub priv_key : Option Bytes
  pub trusted_subnet : Bytes

unfoldable pub new_handler : Bool → Option Publisher → Bool → Bytes → Option Bytes → Bytes → Handler
new_handler db audit dump key priv_key trusted_subnet = record {
  db = db;
  audit = audit;
  dump_to_file = dump;
  allowed_content_type = codes "text/plain";
  key = key;
  priv_key = priv_key;
  trusted_subnet = trusted_subnet;
}

-- What WithLogging logs, but for the duration.
pub record LogLine : Type 0 where
  pub uri : Bytes
  pub method : String
  pub size : ℕ
  pub status : ℕ

-- The state while a request is served.
pub record State (F W : Type 0) : Type 0 where
  pub machine : Machine F W
  pub conn : Conn
  pub lines : List LogLine

-- http.Handler
abbrev pub Serve : Type 0 → Type 0 → Type 0
Serve F W = List Layer → Request → Prog (State F W) (Unit {0})

module _ {F W : Type 0} where
  abbrev pub on_machine : {A : Type 0} → Prog (Machine F W) A → Prog (State F W) A
  on_machine p s = let (r, m) = p s.machine in (r, record s { machine = m })

  abbrev pub on_conn : (Conn → Conn) → Prog (State F W) (Unit {0})
  on_conn f s = (returned tt, record s { conn = f s.conn })

abbrev pub is_nil : {A : Type 0} → Option A → Bool
is_nil none = true
is_nil (some a) = false

-- What the writers send: x.codecs is what a CompressWriter takes.
module _ {F W : Type 0} (x : External F W) where
  abbrev pub send_text : List Layer → Bytes → Prog (State F W) (Unit {0})
  send_text ws b = on_conn (λ c. (write x.codecs ws b c).0)

  abbrev pub send_error : List Layer → Bytes → ℕ → Prog (State F W) (Unit {0})
  send_error ws text code = on_conn (http_error x.codecs ws text code)

  abbrev pub send_json : List Layer → Bytes → Prog (State F W) (Unit {0})
  send_json ws b = do
    on_conn (set_header "Content-Type" (codes "application/json"))
    on_conn (write_header ws 200)
    send_text ws b

  abbrev pub send_status_ok : List Layer → Prog (State F W) (Unit {0})
  send_status_ok ws = send_json ws (codes "{\"status\": \"ok\"}")
