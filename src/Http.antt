-- ===== src/Http.antt =====
-- What the program uses of net/http: requests, and the response that a handler writes, through the
-- wrapping writers of internal/service: LoggingResponseWriter (logger.go) and CompressWriter
-- (compresser.go). A write to the connection is taken not to fail.
pub mod Reading
use metrify.Base.{
  ℕ, ◌+◌, String, Bytes, Bool, true, false, Option, none, some, List, [], ◌∷◌, ◌++◌, codes, ◌==◌,
  length, ltb, if◌then◌else◌,
}
use metrify.Base.GoMap.{lookup, insert}
use metrify.External.{Body, Codecs}

-- Header fields by their canonical names.
abbrev pub Headers : Type 0
Headers = List (String × Bytes)

abbrev or_empty : Option Bytes → Bytes
or_empty none = []
or_empty (some v) = v

-- Header.Get: a missing field reads as "".
unfoldable pub header_get : Headers → String → Bytes
unfolding lookup
header_get h k = or_empty (lookup k h)

-- Header.Del
unfoldable pub header_del : String → Headers → Headers
header_del k [] = []
header_del k ((j, v) ∷ h) = let rest = header_del k h in if j == k then rest else (j, v) ∷ rest

-- `params` are the values that chi took from the path.
pub record Request : Type 0 where
  pub method : String
  pub uri : Bytes
  pub params : List (String × String)
  pub header : Headers
  pub body : Body
  pub remote_addr : Bytes

abbrev or_blank : Option String → String
or_blank none = ""
or_blank (some v) = v

-- chi.URLParam(r, name)
unfoldable pub url_param : Request → String → String
unfolding lookup
url_param r name = or_blank (lookup name r.params)

-- The wrappers of a connection's writer, the outermost first.
pub data Layer : Type 0 where
  logging : Layer
  gzip : Layer

-- The connection with the state of its wrappers: what was sent at the head of the response, and
-- its body; the two fields of responseData; whether the gzip stream has begun, and what was
-- written to it.
pub record Conn : Type 0 where
  pub header : Headers
  pub sent : Option (ℕ × Headers)
  pub body : Bytes
  pub log_status : ℕ
  pub log_size : ℕ
  pub gz_started : Bool
  pub gz_written : Bytes

abbrev pub new_conn : Conn
new_conn = record {
  header = [];
  sent = none;
  body = [];
  log_status = 0;
  log_size = 0;
  gz_started = false;
  gz_written = [];
}

-- w.Header().Set(k, v): the wrappers share one header.
unfoldable pub set_header : String → Bytes → Conn → Conn
unfolding insert
set_header k v c = record c { header = insert k v c.header }

-- A second WriteHeader is superfluous: it is ignored.
abbrev send_head : ℕ → Conn → Option (ℕ × Headers) → Conn
send_head code c none = record c { sent = some (code, c.header) }
send_head code c (some head) = c

unfoldable pub write_header : List Layer → ℕ → Conn → Conn
unfolding set_header
write_header [] code c = send_head code c c.sent
write_header (logging ∷ ws) code c = write_header ws code (record c { log_status = code })
write_header (gzip ∷ ws) code c =
    write_header ws code
      (if ltb code 300 then set_header "Content-Encoding" (codes "gzip") c else c)

-- On the connection, a Write with no WriteHeader before it sends the head with 200.
abbrev send : Bytes → Conn → Conn
send b c = let c' = send_head 200 c c.sent in record c' { body = c'.body ++ b }

module _ (x : Codecs) where
  -- Write, with the number of bytes that it reports
  unfoldable pub write : List Layer → Bytes → Conn → Conn × ℕ
  unfolding set_header
  write [] b c = (send b c, length b)
  write (logging ∷ ws) b c =
      let (c', size) = write ws b c in (record c' { log_size = c'.log_size + size }, size)
  write (gzip ∷ ws) b c =
      let c₁ = set_header "Content-Encoding" (codes "gzip") c in
      let (c₂, _) = write ws x.gzip_head c₁ in
      let c₃ = if c₁.gz_started then c₁ else record c₂ { gz_started = true } in
      (record c₃ { gz_written = c₃.gz_written ++ b }, length b)

  -- CompressWriter.Close, over the writers `ws` below it
  unfoldable pub close_gzip : List Layer → Conn → Conn
  unfolding write
  close_gzip ws c =
      let (c₁, _) = write ws x.gzip_head c in
      let c₂ = if c.gz_started then c else record c₁ { gz_started = true } in
      let (c₃, _) = write ws (x.gzip_rest c₂.gz_written) c₂ in c₃

  -- http.Error
  unfoldable pub http_error : List Layer → Bytes → ℕ → Conn → Conn
  unfolding header_del set_header write_header write
  http_error ws text code c =
      let c₁ = record c { header = header_del "Content-Length" c.header } in
      let c₂ = set_header "Content-Type" (codes "text/plain; charset=utf-8") c₁ in
      let c₃ = set_header "X-Content-Type-Options" (codes "nosniff") c₂ in
      let c₄ = write_header ws code c₃ in let (c₅, _) = write ws (text ++ b'\n' ∷ []) c₄ in c₅
