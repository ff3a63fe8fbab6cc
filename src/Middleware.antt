-- ===== src/Middleware.antt =====
-- internal/handler/middleware.go: handlers around a handler, and the chain that the router makes of
-- them (internal/router/metric.go).
pub mod Signature
pub mod Compression
use mathlib.Core.List.{foldr}
use metrify.Base.{
  ℕ, String, Bytes, Bool, true, false, ◌&&◌, ◌||◌, Option, none, some, List, [], ◌∷◌, ◌++◌, ◌⊎◌,
  inl, inr, codes, nat_eq, bytes_eq, is_empty, if◌then◌else◌, Prog, returned, panicked, panic, pure,
  reads, ◌>>=◌, ◌>>◌, Outcome, length,
}
use metrify.Failure.{Failure}
use metrify.External.{External, Body}
use metrify.Http.{
  Request, Layer, logging, gzip, Conn, header_get, header_del, close_gzip, write_header, write,
}
use metrify.Serving.{Handler, LogLine, State, Serve, on_conn, send_error}

-- strings.HasPrefix and strings.Contains
abbrev pub has_prefix : Bytes → Bytes → Bool
has_prefix [] s = true
has_prefix (p ∷ ps) [] = false
has_prefix (p ∷ ps) (a ∷ s) = nat_eq a p && has_prefix ps s

abbrev pub contains : Bytes → Bytes → Bool
contains p [] = has_prefix p []
contains p (a ∷ s) = has_prefix p (a ∷ s) || contains p s

module _ {F W : Type 0} (x : External F W) where
  -- service.SignData (hasher.go)
  unfoldable pub sign_data : Bytes → Bytes → Bytes
  sign_data value key = x.encode_hex (x.hmac_sha256 key value)

  -- What `f` does to the state also where the handler panics, as a deferred call.
  abbrev deferred : (Conn → Conn) → Prog (State F W) (Unit {0}) → Prog (State F W) (Unit {0})
  deferred f p s = let (o, s') = p s in (o, record s' { conn = f s'.conn })

  abbrev pub log_request : Request → Prog (State F W) (Unit {0})
  log_request r s =
      let line : LogLine = record {
        uri = r.uri;
        method = r.method;
        size = s.conn.log_size;
        status = s.conn.log_status;
      } in
      (returned tt, record s { lines = s.lines ++ line ∷ [] })

  unfoldable pub with_logging : Serve F W → Serve F W
  with_logging h ws r = do h (logging ∷ ws) r; log_request r

  abbrev decompressed :
      Serve F W → List Layer → Request → Failure ⊎ Body → Prog (State F W) (Unit {0})
  decompressed h ws r (inl e) = send_error x ws (codes "invalid gzip") 400
  decompressed h ws r (inr body) = h ws (record r { body = body })

  unfoldable pub with_request_compress : Serve F W → Serve F W
  unfolding header_get
  with_request_compress h ws r =
      if contains (codes "gzip") (header_get r.header "Content-Encoding")
      then decompressed h ws r (x.open_gzip r.body)
      else h ws r

  unfoldable pub with_response_compress : Serve F W → Serve F W
  unfolding header_get close_gzip
  with_response_compress h ws r =
      if contains (codes "gzip") (header_get r.header "Accept-Encoding")
      then deferred (close_gzip x.codecs ws) (h (gzip ∷ ws) r)
      else h ws r

  abbrev read_again : Bytes → Body
  read_again text = record { content = text; failure = none }

  abbrev verified :
      Serve F W → List Layer → Request → Option Failure → Bool → Prog (State F W) (Unit {0})
  verified h ws r (some e) same = send_error x ws (codes "failed to read body") 400
  verified h ws r none true = h ws (record r { body = read_again r.body.content })
  verified h ws r none false = send_error x ws [] 401

  unfoldable pub with_hashed_request : Handler → Serve F W → Serve F W
  unfolding header_get sign_data
  with_hashed_request handler h ws r =
      let hash = header_get r.header "HashSHA256" in
      if is_empty hash
      then h ws r
      else verified h ws r r.body.failure (bytes_eq (sign_data r.body.content handler.key) hash)

  abbrev decrypted :
      Serve F W → List Layer → Request → Failure ⊎ Bytes → Prog (State F W) (Unit {0})
  decrypted h ws r (inl e) = send_error x ws (codes "Can't decrypt request") 400
  decrypted h ws r (inr text) =
      h ws (record r { body = read_again text; header = header_del "Content-Encryption" r.header })

  -- rsa.DecryptPKCS1v15 panics at a nil key.
  abbrev pub decrypt_with :
      Option Bytes → Bytes → Serve F W → List Layer → Request → Prog (State F W) (Unit {0})
  decrypt_with none text h ws r = panic
  decrypt_with (some key) text h ws r = decrypted h ws r (x.decrypt key text)

  abbrev decoded :
      Handler → Serve F W → List Layer → Request → Failure ⊎ Bytes → Prog (State F W) (Unit {0})
  decoded handler h ws r (inl e) = send_error x ws (codes "Can't base64 decode request") 400
  decoded handler h ws r (inr text) = decrypt_with handler.priv_key text h ws r

  abbrev pub read_encrypted :
      Handler → Serve F W → List Layer → Request → Option Failure → Prog (State F W) (Unit {0})
  read_encrypted handler h ws r (some e) = send_error x ws (codes "Can't read request") 500
  read_encrypted handler h ws r none = decoded handler h ws r (x.decode_base64 r.body.content)

  unfoldable pub with_decrypt : Handler → Serve F W → Serve F W
  unfolding header_get header_del
  with_decrypt handler h ws r =
      if bytes_eq (header_get r.header "Content-Encryption") (codes "RSA-PKCS1v15")
      then read_encrypted handler h ws r r.body.failure
      else h ws r

  -- The handler goes on after an unrestricted request was served.
  unfoldable pub with_trusted_subnet : Handler → Serve F W → Serve F W
  unfolding header_get
  with_trusted_subnet handler h ws r = do
    if is_empty handler.trusted_subnet then h ws r else pure tt
    if bytes_eq handler.trusted_subnet (header_get r.header "X-Forwarded-For")
        then pure tt
        else send_error x ws (codes "Not authorized") 403

  -- The chain of router.Metric: the first to be used is the outermost.
  unfoldable pub metric_chain : Handler → Serve F W → Serve F W
  unfolding with_logging with_request_compress with_response_compress with_hashed_request
      with_decrypt
  metric_chain handler h = with_logging (
      with_request_compress
        (with_response_compress (with_hashed_request handler (with_decrypt handler h))))
