-- ===== src/Agent/HttpClient/Sending.antt =====
-- When the HTTP client reports that a request was delivered.
use metrify.Base.{
  ℕ, ◌<◌, Bytes, Option, none, some, ◌⊎◌, inl, inr, ◌≡◌, ◌↔◌, refl, ◌∙◌, arith, returned,
}
use metrify.Failure.{Failure}
use metrify.External.{External}
use metrify.Retry.{retry}
use metrify.Retry.Trace.{Failing}
use metrify.Retry.Laws.{Always, retry-total, retry_from-success}
use metrify.Storage.{one_second, two_seconds}
use metrify.Http.{Headers}
use metrify.Agent.Outbound.{get_outbound_ip}
use metrify.Agent.HttpClient.{
  HttpClient, Network, Outgoing, Response, prepare, outgoing, post_once, to_result, check_response,
  post_retried, finish_request, send_request,
}

module _ {F W : Type 0} (x : External F W) (net : Network W) where
  -- A post that got status 200 after rounds that got no response at all, fewer than the attempts,
  -- each with its pause.
  pub record Posted (attempts : ℕ) (req : Outgoing) (w w' : W) : Type 0 where
    pub failures : ℕ
    pub last : Option Response
    pub last_error : Option Failure
    pub reached : W
    pub response : Response
    pub failed :
        Failing Always x.sleep one_second two_seconds
          (post_once x net req)
          1
          failures
          none
          none
          w
          last
          last_error
          reached
    pub few : failures < attempts
    pub answered : net.post req reached ≡ (inr response, w')
    pub accepted : response.status ≡ 200

  post_retried-answered :
      (attempts : ℕ) (req : Outgoing) {r : Option Response} {e : Option Failure} (w : W) {w' : W}
      → retry x.sleep attempts one_second two_seconds (post_once x net req) none w ≡ (r, e, w')
      → post_retried x net attempts req w ≡ check_response x net r e w'
  unfolding post_retried
  post_retried-answered attempts req w h = rw h refl

  to_result-response :
      (p : (Failure ⊎ Response) × W) (s' : W) (r : Option Response)
      → to_result x net p ≡ (r, none, s')
      → (a : Response) × (r ≡ some a) × (p ≡ (inr a, s'))
  to_result-response (inl e, s) s' r h = cc
  to_result-response (inr a, s) s' r h = (a, ground arith, ground arith)

  check_response-accepted :
      (a : Response) (s w' : W)
      → check_response x net (some a) none s ≡ (returned none, w')
      → (a.status ≡ 200) × (s ≡ w')
  check_response-accepted a s w' h = ground arith

  Posted-of_post_retried :
      (attempts : ℕ) (req : Outgoing) (w w' : W)
      → post_retried x net attempts req w ≡ (returned none, w')
      → Posted attempts req w w'
  Posted-of_post_retried attempts req w w' h =
      elim (retry-total x.sleep attempts one_second two_seconds (post_once x net req) none w) [
        | inl (n, r, e, t, r', s', f, lt, got, result) ↦
            let (a, some_a, posted) = to_result-response (net.post req t) s' r' got in
            let checked = rw (post_retried-answered attempts req w result, some_a) at h in
            let (accepted, same) = check_response-accepted a s' w' checked in
            record {
              failures = n;
              last = r;
              last_error = e;
              reached = t;
              response = a;
              failed = f;
              few = lt;
              answered = rw posted (rw same refl);
              accepted = accepted;
            }
        | inr (r, e, t, f, result) ↦
            absurd (cc (rw (post_retried-answered attempts req w result) at h))
      ]

  post_retried-of_Posted :
      (attempts : ℕ) (req : Outgoing) (w w' : W)
      → Posted attempts req w w'
      → post_retried x net attempts req w ≡ (returned none, w')
  post_retried-of_Posted attempts req w w' p =
      let got : post_once x net req p.reached ≡ (some p.response, none, w') = rw p.answered refl in
      let result : retry x.sleep attempts one_second two_seconds (post_once x net req) none w
          ≡ (some p.response, none, w') =
        unfold retry in
        retry_from-success x.sleep attempts one_second two_seconds (post_once x net req) attempts 1
          p.failed p.few got in
      post_retried-answered attempts req w result ∙ rw p.accepted refl

  -- The request that is sent: what `prepare` made of the body, from this host's address if it is
  -- known.
  abbrev pub Delivered : HttpClient → Bytes → Bytes → ℕ → W → W → Type 0
  Delivered client path body attempts w w' =
      (h : Headers) × (b : Bytes) × (w₁ : W) × (prepare x net client body w ≡ (inr (h, b), w₁))
      × Posted attempts (outgoing x net client path (get_outbound_ip net.dialer w₁).0 h b)
          (get_outbound_ip net.dialer w₁).1 w'

  -- The client reports no error exactly if the body could be prepared, signed and encrypted as
  -- its keys ask, and one of the posts of that request was answered by status 200 before the
  -- attempts ran out, where every post before it got no response and was followed by its pause.
  -- An answer with another status is not tried again.
  pub send_request-Delivered :
      (client : HttpClient) (path body : Bytes) (attempts : ℕ) (w w' : W)
      → (send_request x net client path body attempts w ≡ (returned none, w'))
        ↔ Delivered client path body attempts w w'
  unfolding send_request
  send_request-Delivered client path body attempts w w' = (
    delivered (prepare x net client body w) refl,
    λ (h, b, w₁, made, p). rw made (post_retried-of_Posted attempts _ _ w' p),
  )
    where
      delivered :
          (p : (Failure ⊎ (Headers × Bytes)) × W)
          → prepare x net client body w ≡ p
          → finish_request x net client path attempts p.0 p.1 ≡ (returned none, w')
          → Delivered client path body attempts w w'
      delivered (inl e, w₁) made h = cc
      delivered (inr (hs, b), w₁) made h =
          (hs, b, w₁, made, Posted-of_post_retried attempts _ _ w' h)
