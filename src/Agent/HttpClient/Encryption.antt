-- ===== src/Agent/HttpClient/Encryption.antt =====
-- An encrypted request of the HTTP client against WithDecrypt of the server.
use metrify.Base.{Bytes, none, some, inl, inr, ◌≡◌, refl, arith, codes, Sum-cases, List}
use metrify.Base.GoMap.{insert, lookup-insert}
use metrify.External.{External, Codecs}
use metrify.Http.{Request, Layer, Headers, header_get, header_del}
use metrify.Serving.{Handler, Serve}
use metrify.Middleware.{with_decrypt}
use metrify.Agent.HttpClient.{HttpClient, Network, prepare, signed, marked}

-- encoding/base64 and crypto/rsa: what was encoded is decoded, and what was encrypted by the
-- public key of a pair is decrypted by its private key.
pub record PairLaws {W : Type 0} (c : Codecs) (net : Network W) (public private : Bytes)
    : Type 0 where
  pub decode_encode : (b : Bytes) → c.decode_base64 (c.encode_base64 b) ≡ inr b
  pub decrypt_encrypt :
      (plain cipher : Bytes) (w w' : W)
      → net.encrypt public plain w ≡ (inr cipher, w')
      → c.decrypt private cipher ≡ inr plain

header_get-marked_encryption :
    (h : Headers) → header_get (marked h) "Content-Encryption" ≡ codes "RSA-PKCS1v15"
unfolding header_get
header_get-marked_encryption h =
    rw
      (lookup-insert (insert "Content-Type" (codes "application/octet-stream") h)
        "Content-Encryption" "Content-Encryption" (codes "RSA-PKCS1v15"))
      refl

module _ {F W : Type 0} (x : External F W) (net : Network W) (client : HttpClient) where
  pub prepare-encrypted :
      (public body b : Bytes) (h : Headers) (w w₁ : W)
      → client.public_key ≡ some public
      → prepare x net client body w ≡ (inr (h, b), w₁)
      → (cipher : Bytes) × (net.encrypt public body w ≡ (inr cipher, w₁))
        × (b ≡ x.encode_base64 cipher)
        × (h ≡ marked (signed x net client body))
  unfolding prepare
  prepare-encrypted public body b h w w₁ set made = elim (Sum-cases (net.encrypt public body w).0) [
    | inl (e, failed) ↦ absurd (ground arith)
    | inr (cipher, done) ↦ (cipher, ground arith, ground arith, ground arith)
  ]

  -- A request that the client encrypted by the public key of a pair, and that arrives whole with
  -- its Content-Encryption header at a server with the private key of that pair, reaches the
  -- handler behind WithDecrypt with the very body that was to be sent and without that header.
  pub prepare-with_decrypt :
      (handler : Handler) (serve : Serve F W) (ws : List Layer) (r : Request)
      (public private body b : Bytes) (h : Headers) (w w₁ : W)
      (pair : PairLaws x.codecs net public private)
      → client.public_key ≡ some public
      → handler.priv_key ≡ some private
      → prepare x net client body w ≡ (inr (h, b), w₁)
      → header_get r.header "Content-Encryption" ≡ header_get h "Content-Encryption"
      → r.body ≡ record { content = b; failure = none }
      → with_decrypt x handler serve ws r
        ≡ serve ws (record r {
          body = record { content = body; failure = none };
          header = header_del "Content-Encryption" r.header;
        })
  unfolding with_decrypt
  prepare-with_decrypt handler serve ws r public private body b h w w₁ pair set held made carried
        whole =
      let (cipher, done, encoded, header) = prepare-encrypted public body b h w w₁ set made in
      rw
        (
          carried,
          header,
          header_get-marked_encryption (signed x net client body),
          whole,
          encoded,
          pair.decode_encode cipher,
          held,
          pair.decrypt_encrypt body cipher w w₁ done,
        )
        refl
