-- ===== src/Agent/HttpClient/Delivery.antt =====
-- A request of the HTTP client against the check of its signature by the server.
use metrify.Base.{
  Bytes, Option, none, some, [], inr, ◌≡◌, ◌≢◌, refl, ◌∙◌, arith, codes, is_empty_of_ne,
  bytes_eq_refl, bytes_eq_of_ne, List,
}
use metrify.Base.GoMap.{lookup, insert, lookup-insert}
use metrify.External.{External}
use metrify.Http.{Request, Layer, Headers, header_get}
use metrify.Serving.{Handler, Serve, send_error}
use metrify.Middleware.{sign_data, with_hashed_request}
use metrify.Agent.HttpClient.{HttpClient, Network, prepare, signed, marked, encrypted_if}

header_get-marked : (h : Headers) → header_get (marked h) "HashSHA256" ≡ header_get h "HashSHA256"
unfolding header_get
header_get-marked h =
    rw
      (
        lookup-insert (insert "Content-Type" (codes "application/octet-stream") h)
            "Content-Encryption" "HashSHA256" (codes "RSA-PKCS1v15"),
        lookup-insert h "Content-Type" "HashSHA256" (codes "application/octet-stream"),
      )
      refl

module _ {F W : Type 0} (x : External F W) (net : Network W) (client : HttpClient) where
  header_get-signed :
      (body : Bytes)
      → client.hash_key ≢ []
      → header_get (signed x net client body) "HashSHA256" ≡ sign_data x body client.hash_key
  unfolding header_get lookup insert
  header_get-signed body keyed = rw (is_empty_of_ne _ keyed) refl

  header_get-encrypted_if :
      (key : Option Bytes) (hs h : Headers) (body b : Bytes) (w w₁ : W)
      → encrypted_if x net key client hs body w ≡ (inr (h, b), w₁)
      → header_get h "HashSHA256" ≡ header_get hs "HashSHA256"
  header_get-encrypted_if none hs h body b w w₁ made =
      let same : h ≡ hs = ground arith in rw same refl
  header_get-encrypted_if (some key) hs h body b w w₁ made =
      let same : h ≡ marked hs = ground arith in rw same (header_get-marked hs)

  -- The signature that a prepared request carries is that of the body before it was encrypted.
  hash-prepare :
      (body b : Bytes) (h : Headers) (w w₁ : W)
      → client.hash_key ≢ []
      → prepare x net client body w ≡ (inr (h, b), w₁)
      → header_get h "HashSHA256" ≡ sign_data x body client.hash_key
  unfolding prepare
  hash-prepare body b h w w₁ keyed made =
      header_get-encrypted_if client.public_key (signed x net client body) h body b w w₁ made
      ∙ header_get-signed body keyed

  body-prepare :
      (body b : Bytes) (h : Headers) (w w₁ : W)
      → client.public_key ≡ none
      → prepare x net client body w ≡ (inr (h, b), w₁)
      → b ≡ body
  unfolding prepare
  body-prepare body b h w w₁ unset made = ground arith

  -- A request that the client made with a hash key, and that arrives whole with its HashSHA256
  -- header, at a server with the same key, where no signature is an empty text: if the client
  -- does not encrypt, it reaches the handler with the very body that was sent. If it does, it is
  -- refused by 401, unless the signatures of the body and of its encrypted form happen to be the
  -- same: the client signs before it encrypts, and the server checks before it decrypts.
  pub prepare-with_hashed_request :
      (handler : Handler) (serve : Serve F W) (ws : List Layer) (r : Request) (body b : Bytes)
      (h : Headers) (w w₁ : W)
      → client.hash_key ≢ []
      → handler.key ≡ client.hash_key
      → prepare x net client body w ≡ (inr (h, b), w₁)
      → header_get r.header "HashSHA256" ≡ header_get h "HashSHA256"
      → r.body ≡ record { content = b; failure = none }
      → sign_data x body client.hash_key ≢ []
      → (client.public_key ≡ none
          → with_hashed_request x handler serve ws r
            ≡ serve ws (record r { body = record { content = body; failure = none } }))
        × (client.public_key ≢ none
            → sign_data x b client.hash_key ≢ sign_data x body client.hash_key
            → with_hashed_request x handler serve ws r ≡ send_error x ws [] 401)
  unfolding with_hashed_request
  prepare-with_hashed_request handler serve ws r body b h w w₁ keyed same made carried whole long =
      let hash = carried ∙ hash-prepare body b h w w₁ keyed made in
      let given = is_empty_of_ne _ long in
      (
        (λ unset.
            rw
              (
                hash,
                given,
                whole,
                same,
                body-prepare body b h w w₁ unset made,
                bytes_eq_refl (sign_data x body client.hash_key),
              )
              refl),
        λ set other. rw (hash, given, whole, same, bytes_eq_of_ne _ _ other) refl,
      )
