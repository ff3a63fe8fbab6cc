-- ===== src/Middleware/Compression.antt =====
-- What a compressed response looks like to the client, and to the log.
use metrify.Base.{
  ap, Outcome, length-append, ℕ, ◌≤◌, List, Bytes, true, false, some, [], ◌∷◌, ◌++◌, ◌≡◌, refl,
  codes, length, returned, arith, ltb,
}
use metrify.Int64.{format_int}
use metrify.External.{External}
use metrify.Storage
use metrify.Http.{
  Request, Layer, logging, gzip, Conn, new_conn, header_get, url_param, write_header, write,
  http_error, close_gzip,
}
use metrify.Handler.{get_counter}
use metrify.Serving.{State, Serve, send_error}
use metrify.Middleware.{contains, with_response_compress}

abbrev TakesGzip : Request → Type 0
TakesGzip r = contains (codes "gzip") (header_get r.header "Accept-Encoding") ≡ true

-- The body of a gzip stream of one text.
abbrev pub stream : {F W : Type 0} → External F W → Bytes → Bytes
stream x text = x.gzip_head ++ x.gzip_rest text

-- A handler through the compressing middleware, for a request that takes gzip.
with_response_compress-takes :
    {F W : Type 0} (x : External F W) (h : Serve F W) (ws : List Layer) (r : Request)
    (s t : State F W) (o : Outcome (Unit {0}))
    → TakesGzip r
    → h (gzip ∷ ws) r s ≡ (o, t)
    → with_response_compress x h ws r s ≡ (o, record t { conn = close_gzip x.codecs ws t.conn })
unfolding with_response_compress
with_response_compress-takes x h ws r s t o takes served = rw takes (rw served)

module _ {F W : Type 0} (x : External F W) where
  -- A head with `code` and a text, written through both wrappers to a new connection.
  abbrev text_conn : ℕ → Bytes → Conn
  text_conn code text =
      close_gzip x.codecs (logging ∷ [])
        (write x.codecs (gzip ∷ logging ∷ []) text
          (write_header (gzip ∷ logging ∷ []) code new_conn)).0

  text_conn_lem :
      (text : Bytes)
      → ((text_conn 200 text).sent ≡ some (200, ("Content-Encoding", codes "gzip") ∷ []))
        × ((text_conn 200 text).body ≡ stream x text)
        × ((text_conn 200 text).log_status ≡ 200)
        × ((text_conn 200 text).log_size ≡ length (stream x text))
  unfolding close_gzip write_header
  text_conn_lem text =
      (refl, refl, refl, omega (arith, length-append x.gzip_head (x.gzip_rest text)))

  abbrev error_conn : ℕ → Bytes → Conn
  error_conn code text =
      close_gzip x.codecs (logging ∷ [])
        (http_error x.codecs (gzip ∷ logging ∷ []) text code new_conn)

  error_conn_lem :
      (code : ℕ) (text : Bytes)
      → 300 ≤ code
      → ((error_conn code text).sent
          ≡ some (
            code,
            ("Content-Type", codes "text/plain; charset=utf-8")
                ∷ ("X-Content-Type-Options", codes "nosniff")
                ∷ [],
          ))
        × ((error_conn code text).body ≡ stream x (text ++ b'\n' ∷ []))
  unfolding close_gzip http_error
  error_conn_lem code text h =
      let plain : ltb code 300 ≡ false = ground arith in rw plain (refl, refl)

module _ {F W : Type 0} (x : External F W) (r : Request) (s : State F W) where
  abbrev fresh : State F W
  fresh = record s { conn = new_conn }

  -- The connection after a handler was served with compression, below the logging writer.
  abbrev served : Serve F W → Conn
  served h = (with_response_compress x h (logging ∷ []) r fresh).1.conn

  served_lem :
      (h : Serve F W) (t : State F W) (o : Outcome (Unit {0}))
      → TakesGzip r
      → h (gzip ∷ logging ∷ []) r fresh ≡ (o, t)
      → served h ≡ close_gzip x.codecs (logging ∷ []) t.conn
  served_lem h t o takes e =
      ap (λ (p : Outcome (Unit {0}) × State F W). p.1.conn)
        (with_response_compress-takes x h (logging ∷ []) r fresh t o takes e)

  get_counter_found :
      (n : ℕ) (ws : List Layer) (t : State F W)
      → Storage.get_counter x (url_param r "name") t.machine ≡ some n
      → get_counter x ws r t ≡ (
        returned tt,
        record t { conn = (write x.codecs ws (format_int n) (write_header ws 200 t.conn)).0 },
      )
  unfolding get_counter
  get_counter_found n ws t found = rw found

  -- A counter that the storage has is sent, on a new connection, to a client that takes gzip with
  -- status 200 and under Content-Encoding: gzip, as the gzip stream of its decimal text; the log
  -- gets that status and the size of what was sent.
  with_response_compress-get_counter :
      (n : ℕ)
      → TakesGzip r
      → Storage.get_counter x (url_param r "name") s.machine ≡ some n
      → ((served (get_counter x)).sent ≡ some (200, ("Content-Encoding", codes "gzip") ∷ []))
        × ((served (get_counter x)).body ≡ stream x (format_int n))
        × ((served (get_counter x)).log_status ≡ 200)
        × ((served (get_counter x)).log_size ≡ length (stream x (format_int n)))
  with_response_compress-get_counter n takes found =
      rw
        (served_lem (get_counter x) _ _ takes
          (get_counter_found n (gzip ∷ logging ∷ []) fresh found))
        (text_conn_lem x (format_int n))

  -- An error reply by http.Error, with a status of 300 or more, to a client that takes gzip is
  -- sent with no Content-Encoding, and its body is the gzip stream of its text: the client reads
  -- that stream as text.
  pub with_response_compress-send_error :
      (code : ℕ) (text : Bytes)
      → TakesGzip r
      → 300 ≤ code
      → ((served (λ ws r. send_error x ws text code)).sent
          ≡ some (
            code,
            ("Content-Type", codes "text/plain; charset=utf-8")
                ∷ ("X-Content-Type-Options", codes "nosniff")
                ∷ [],
          ))
        × ((served (λ ws r. send_error x ws text code)).body ≡ stream x (text ++ b'\n' ∷ []))
  with_response_compress-send_error code text takes high =
      rw (served_lem (λ ws r. send_error x ws text code) _ _ takes refl)
        (error_conn_lem x code text high)
