-- ===== src/Agent/HttpClient.antt =====
-- internal/agent/httpClient.go: the HTTP client of the agent. The timeout of its resty client is
-- part of `post`.
pub mod Sending
pub mod Delivery
pub mod Encryption
use metrify.Base.{
  ℕ, String, Bytes, Option, none, some, [], ◌∷◌, ◌++◌, ◌⊎◌, inl, inr, codes, is_empty, nat_eq, List,
  if◌then◌else◌, Prog, panic, pure,
}
use metrify.Base.GoMap.{insert}
use metrify.Failure.{Failure, message}
use metrify.Int64.{format_int}
use metrify.Model.{Metrics}
use metrify.External.{External}
use metrify.Retry.{retry}
use metrify.Storage.{one_second, two_seconds}
use metrify.Http.{Headers}
use metrify.Middleware.{sign_data}
use metrify.Agent.Outbound.{Dialer, get_outbound_ip}

-- The fields but the logger and the resty client.
pub record HttpClient : Type 0 where
  pub host : Bytes
  pub hash_key : Bytes
  pub max_retry : ℕ
  pub public_key : Option Bytes

unfoldable pub new_http_client : Bytes → Bytes → Option Bytes → HttpClient
new_http_client host hash_key public_key = record {
  host = host;
  hash_key = hash_key;
  max_retry = 3;
  public_key = public_key;
}

pub record Outgoing : Type 0 where
  pub url : Bytes
  pub header : Headers
  pub body : Bytes

pub record Response : Type 0 where
  pub status : ℕ
  pub text : Bytes

-- rsa.EncryptPKCS1v15, which draws random numbers, the dialling of getOutboundIP, and resty's Post.
pub record Network (W : Type 0) : Type 0 where
  pub encrypt : Bytes → Bytes → W → (Failure ⊎ Bytes) × W
  pub dialer : Dialer W
  pub post : Outgoing → W → (Failure ⊎ Response) × W

abbrev pub marked : Headers → Headers
marked h =
    insert "Content-Encryption" (codes "RSA-PKCS1v15")
      (insert "Content-Type" (codes "application/octet-stream") h)

module _ {F W : Type 0} (x : External F W) (net : Network W) where
  abbrev encoded : Failure ⊎ Bytes → Failure ⊎ Bytes
  encoded (inl e) = inl e
  encoded (inr cipher) = inr (x.encode_base64 cipher)

  abbrev encrypt_with : Option Bytes → Bytes → W → (Failure ⊎ Bytes) × W
  encrypt_with none plain w = (inr plain, w)
  encrypt_with (some key) plain w = let (c, w') = net.encrypt key plain w in (encoded c, w')

  unfoldable pub encrypt_body : HttpClient → Bytes → W → (Failure ⊎ Bytes) × W
  encrypt_body client plain w = encrypt_with client.public_key plain w

  abbrev pub signed : HttpClient → Bytes → Headers
  signed client body =
      let plain = ("Content-Type", codes "application/json") ∷ [] in
      if is_empty client.hash_key
      then plain
      else insert "HashSHA256" (sign_data x body client.hash_key) plain

  abbrev with_cipher : Headers → Failure ⊎ Bytes → Failure ⊎ (Headers × Bytes)
  with_cipher h (inl e) = inl e
  with_cipher h (inr cipher) = inr (marked h, cipher)

  abbrev pub encrypted_if :
      Option Bytes → HttpClient → Headers → Bytes → W → (Failure ⊎ (Headers × Bytes)) × W
  encrypted_if none client h body w = (inr (h, body), w)
  encrypted_if (some key) client h body w =
      let (c, w') = encrypt_body client body w in (with_cipher h c, w')

  -- The headers and the body up to the address: signed first, then encrypted.
  unfoldable pub prepare : HttpClient → Bytes → W → (Failure ⊎ (Headers × Bytes)) × W
  unfolding encrypt_body sign_data insert
  prepare client body w = encrypted_if client.public_key client (signed client body) body w

  abbrev with_ip : Failure ⊎ Bytes → Headers → Headers
  with_ip (inl e) h = h
  with_ip (inr ip) h = insert "X-Forwarded-For" ip h

  -- What the client's address adds, and the whole request.
  abbrev pub outgoing : HttpClient → Bytes → Failure ⊎ Bytes → Headers → Bytes → Outgoing
  outgoing client path ip h body = record {
    url = codes "http://" ++ (client.host ++ path);
    header = with_ip ip h;
    body = body;
  }

  abbrev pub to_result : (Failure ⊎ Response) × W → Option Response × Option Failure × W
  to_result (inl e, w) = (none, some e, w)
  to_result (inr r, w) = (some r, none, w)

  -- The function that sendRequest hands to Retry.
  abbrev pub post_once : Outgoing → W → Option Response × Option Failure × W
  post_once req w = to_result (net.post req w)

  -- A nil response would panic.
  abbrev pub check_response : Option Response → Option Failure → Prog W (Option Failure)
  check_response r (some e) = pure (some e)
  check_response none none = panic
  check_response (some r) none =
      if nat_eq r.status 200
      then pure none
      else pure (
          some (
            message
              (codes "unexpected status " ++ (format_int r.status ++ (codes ": " ++ r.text)))))

  unfoldable pub post_retried : ℕ → Outgoing → Prog W (Option Failure)
  post_retried max_retry req w =
      let (r, e, w') = retry x.sleep max_retry one_second two_seconds (post_once req) none w in
      check_response r e w'

  abbrev pub finish_request :
      HttpClient → Bytes → ℕ → Failure ⊎ (Headers × Bytes) → Prog W (Option Failure)
  finish_request client path max_retry (inl e) w = pure (some e) w
  finish_request client path max_retry (inr (h, body)) w =
      let (ip, w') = get_outbound_ip net.dialer w in
      post_retried max_retry (outgoing client path ip h body) w'

  unfoldable pub send_request : HttpClient → Bytes → Bytes → ℕ → Prog W (Option Failure)
  unfolding prepare post_retried
  send_request client path body max_retry w =
      let (p, w') = prepare client body w in finish_request client path max_retry p w'

  abbrev send_marshalled : HttpClient → Bytes → Failure ⊎ Bytes → Prog W (Option Failure)
  send_marshalled client path (inl e) = pure (some e)
  send_marshalled client path (inr body) = send_request client path body client.max_retry

  unfoldable pub update_metric : HttpClient → Metrics F → Prog W (Option Failure)
  unfolding send_request
  update_metric client metric = send_marshalled client (codes "/update") (x.marshal_metric metric)

  unfoldable pub update_metrics : HttpClient → List (Metrics F) → Prog W (Option Failure)
  unfolding send_request
  update_metrics client metrics =
      send_marshalled client (codes "/updates") (x.marshal_metrics metrics)
