-- ===== src/External.antt =====
-- What the program calls and does not implement, as parameters of the model: float64 with its
-- decimal forms, encoding/json, the database driver, files, time and contexts.
-- `F` stands for float64, `W` for all that these calls read and change. `none` is a nil error.
pub mod Laws
use metrify.Base.{ℕ, String, Bytes, Option, List, ◌⊎◌}
use metrify.Base.GoMap.{GoMap}
use metrify.Failure.{Failure}
use metrify.Model.{Metrics}

-- The zero value, strconv.FormatFloat(v, 'f', -1, 64) and strconv.ParseFloat(s, 64)
pub record Formats (F : Type 0) : Type 0 where
  pub zero_float : F
  pub format_float : F → Bytes
  pub parse_float : Bytes → Option F
  -- a string under %q
  pub quote : String → Bytes
  -- err.Error()
  pub error_text : Failure → Bytes

-- The struct `dto` of MarshalJSON and UnmarshalJSON.
pub record Dto (F : Type 0) : Type 0 where
  pub gauges : GoMap F
  pub counters : GoMap ℕ

-- The body of a request: what io.ReadAll reads of it, and the error that reading ends with.
pub record Body : Type 0 where
  pub content : Bytes
  pub failure : Option Failure

-- encoding/json at the types of the program. A decoder returns what it has filled in, also beside
-- an error.
pub record Json (F : Type 0) : Type 0 where
  pub marshal_dto : Dto F → Failure ⊎ Bytes
  pub unmarshal_dto : Bytes → Dto F × Option Failure
  -- the check of the whole text that json.Unmarshal makes before it calls an Unmarshaler
  pub check_valid : Bytes → Option Failure
  -- the reformatting of json.MarshalIndent(v, "", " ")
  pub indent : Bytes → Bytes
  pub decode_metric : Body → Metrics F × Option Failure
  pub decode_metrics : Body → List (Metrics F) × Option Failure
  pub encode_metric : Metrics F → Failure ⊎ Bytes
  pub encode_failures : List Failure → Bytes
  pub marshal_metric : Metrics F → Failure ⊎ Bytes
  pub marshal_metrics : List (Metrics F) → Failure ⊎ Bytes
  pub marshal_event : ℕ → List String → Bytes → Failure ⊎ Bytes

-- *sql.DB: the one statement that the program executes, and Ping.
pub record Database (W : Type 0) : Type 0 where
  pub exec : String → Bytes → W → Option Failure × W
  pub ping : W → Option Failure × W

-- Files, the clock in seconds, time.Sleep in nanoseconds, and ctx.Err().
pub record System (W : Type 0) : Type 0 where
  pub read_file : String → W → Failure ⊎ Bytes
  pub write_file : String → Bytes → W → Option Failure × W
  pub open_append : String → W → Option Failure × W
  pub write_append : String → Bytes → W → Option Failure × W
  pub now : W → ℕ
  pub sleep : ℕ → W → W
  pub ctx_err : W → Option Failure × W

-- The two calls of the audit over HTTP: building the request, and sending it, which gives the
-- status code and its text.
pub record AuditClient (W : Type 0) : Type 0 where
  pub new_request : String → Option Failure
  pub post_event : String → Bytes → W → (Failure ⊎ (ℕ × Bytes)) × W

-- compress/gzip: a writer's stream is `head`, once, and `rest`, at Close, of all that was written
-- to it; a reader is opened on a body, and reads another body from it. crypto/hmac with SHA-256,
-- encoding/hex, encoding/base64, and PKCS #1 v1.5 with a private key.
pub record Codecs : Type 0 where
  pub gzip_head : Bytes
  pub gzip_rest : Bytes → Bytes
  pub open_gzip : Body → Failure ⊎ Body
  pub hmac_sha256 : Bytes → Bytes → Bytes
  pub encode_hex : Bytes → Bytes
  pub encode_base64 : Bytes → Bytes
  pub decode_base64 : Bytes → Failure ⊎ Bytes
  pub decrypt : Bytes → Bytes → Failure ⊎ Bytes

pub record External (F W : Type 0) : Type 0 where
  pub formats : Formats F
  pub open formats use *
  pub json : Json F
  pub open json use *
  pub database : Database W
  pub open database use *
  pub system : System W
  pub open system use *
  pub audit_client : AuditClient W
  pub open audit_client use *
  pub codecs : Codecs
  pub open codecs use *
