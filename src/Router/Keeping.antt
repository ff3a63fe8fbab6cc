-- ===== src/Router/Keeping.antt =====
-- What the middleware of internal/handler does to the storage and to the log lines, apart from the
-- handler that it is put around.
use metrify.Base.{
  String, Bytes, Option, none, some, List, inl, inr, ◌≡◌, refl, codes, Prog, Bool-cases, Sum-cases,
  bytes_eq,
}
use metrify.External.{External}
use metrify.Storage.{MemStorage}
use metrify.Http.{Request, Layer, header_get}
use metrify.Serving.{Handler, State, Serve}
use metrify.Middleware.Signature.{unsigned, signed, unread, forged, with_hashed_request-HashGate}
use metrify.Failure.{Failure}
use metrify.Middleware.{
  with_request_compress, with_response_compress, with_hashed_request, with_decrypt, contains,
  decrypt_with, read_encrypted,
}

module _ {F W : Type 0} (R : MemStorage F → MemStorage F → Type 0) where
  -- A program that changes the storage by `R` at most, and logs nothing.
  abbrev pub Keeps : {A : Type 0} → Prog (State F W) A → Type 0
  Keeps p = (s : State F W) → R s.machine.ms (p s).1.machine.ms × ((p s).1.lines ≡ s.lines)

-- A program that leaves the storage as it is.
abbrev pub IsQuiet : {F W A : Type 0} → Prog (State F W) A → Type 0
IsQuiet p = Keeps (λ m m'. m' ≡ m) p

module _ {F W : Type 0} (x : External F W) (handler : Handler) where
  -- The chain of the router below the logging.
  abbrev pub inner_chain : Serve F W → Serve F W
  inner_chain h =
      with_request_compress x
        (with_response_compress x (with_hashed_request x handler (with_decrypt x handler h)))

module _ {F W : Type 0} (x : External F W) (handler : Handler)
    (R : MemStorage F → MemStorage F → Type 0) (keeps : (m : MemStorage F) → R m m)
    (method : String) (uri : Bytes) where
  -- A handler that keeps `R` for the requests of one method and URI, whatever the rest of them.
  abbrev pub Guards : Serve F W → Type 0
  Guards h = (ws : List Layer) (r : Request) → r.method ≡ method → r.uri ≡ uri → Keeps R (h ws r)

  pub with_request_compress-Guards : (h : Serve F W) → Guards h → Guards (with_request_compress x h)
  unfolding with_request_compress
  with_request_compress-Guards h g ws r m u s =
      elim (Bool-cases (contains (codes "gzip") (header_get r.header "Content-Encoding"))) [
        | inr plain ↦ rw (plain, with_request_compress) (g ws r m u s)
        | inl zipped ↦ elim (Sum-cases (x.open_gzip r.body)) [
          | inl (e, bad) ↦ rw (zipped, with_request_compress) (rw bad (keeps _, refl))
          | inr (body, opened) ↦
              rw (zipped, with_request_compress) (rw opened (g ws (record r { body = body }) m u s))
        ]
      ]

  pub with_response_compress-Guards :
      (h : Serve F W) → Guards h → Guards (with_response_compress x h)
  unfolding with_response_compress
  with_response_compress-Guards h g ws r m u s =
      elim (Bool-cases (contains (codes "gzip") (header_get r.header "Accept-Encoding"))) [
        | inr plain ↦ rw (plain, with_response_compress) (g ws r m u s)
        | inl zipped ↦ rw (zipped, with_response_compress) (g _ r m u s)
      ]

  pub with_hashed_request-Guards :
      (h : Serve F W) → Guards h → Guards (with_hashed_request x handler h)
  with_hashed_request-Guards h g ws r m u s = elim (with_hashed_request-HashGate x handler h ws r) [
    | unsigned missing same ↦ rw same (g ws r m u s)
    | signed given whole right same ↦ rw same (g ws r m u s)
    | unread given broken same ↦ rw same (keeps _, refl)
    | forged given whole wrong same ↦ rw same (keeps _, refl)
  ]

  decrypt_with-Keeps :
      (h : Serve F W) (key : Option Bytes) (text : Bytes) (ws : List Layer) (r : Request)
      → Guards h
      → r.method ≡ method
      → r.uri ≡ uri
      → Keeps R (decrypt_with x key text h ws r)
  decrypt_with-Keeps h none text ws r g m u s = (keeps _, refl)
  decrypt_with-Keeps h (some key) text ws r g m u s = elim (Sum-cases (x.decrypt key text)) [
    | inl (e, bad) ↦ rw bad (keeps _, refl)
    | inr (plain, good) ↦ rw good (g _ _ m u s)
  ]

  read_encrypted-Keeps :
      (h : Serve F W) (failure : Option Failure) (ws : List Layer) (r : Request)
      → Guards h
      → r.method ≡ method
      → r.uri ≡ uri
      → Keeps R (read_encrypted x handler h ws r failure)
  read_encrypted-Keeps h (some e) ws r g m u s = (keeps _, refl)
  read_encrypted-Keeps h none ws r g m u s = elim (Sum-cases (x.decode_base64 r.body.content)) [
    | inl (e, bad) ↦ rw bad (keeps _, refl)
    | inr (text, good) ↦ rw good (decrypt_with-Keeps h handler.priv_key text ws r g m u s)
  ]

  pub with_decrypt-Guards : (h : Serve F W) → Guards h → Guards (with_decrypt x handler h)
  unfolding with_decrypt
  with_decrypt-Guards h g ws r m u s =
      elim (Bool-cases
        (bytes_eq (header_get r.header "Content-Encryption") (codes "RSA-PKCS1v15"))) [
          | inr plain ↦ rw (plain, with_decrypt) (g ws r m u s)
          | inl encrypted ↦
              rw (encrypted, with_decrypt) (read_encrypted-Keeps h r.body.failure ws r g m u s)
        ]

  pub inner_chain-Guards : (h : Serve F W) → Guards h → Guards (inner_chain x handler h)
  inner_chain-Guards h g =
      with_request_compress-Guards _
        (with_response_compress-Guards _ (with_hashed_request-Guards _ (with_decrypt-Guards h g)))
