-- ===== src/Middleware/Signature.antt =====
-- What a signed request must be to reach the handler.
use metrify.Base.{
  is_empty-cases, List, Prog, Bytes, none, [], inl, inr, ◌≡◌, ◌≢◌, codes, bytes_eq, bytes_eq_iff,
  Bool-cases, Option-cases,
}
use metrify.External.{External}
use metrify.Http.{Request, Layer, header_get}
use metrify.Serving.{Handler, State, Serve, send_error}
use metrify.Middleware.{sign_data, with_hashed_request}

abbrev hash_header : Request → Bytes
hash_header r = header_get r.header "HashSHA256"

-- The ways in which a request can meet the check, each with what is then done, `p`.
module _ {F W : Type 0} (x : External F W) (handler : Handler) (h : Serve F W) where
  pub data HashGate (ws : List Layer) (r : Request) (p : Prog (State F W) (Unit {0})) : Type 0 where
    unsigned : hash_header r ≡ [] → p ≡ h ws r → HashGate ws r p
    signed :
        hash_header r ≢ []
        → r.body.failure ≡ none
        → sign_data x r.body.content handler.key ≡ hash_header r
        → p ≡ h ws r
        → HashGate ws r p
    unread :
        hash_header r ≢ []
        → r.body.failure ≢ none
        → p ≡ send_error x ws (codes "failed to read body") 400
        → HashGate ws r p
    forged :
        hash_header r ≢ []
        → r.body.failure ≡ none
        → sign_data x r.body.content handler.key ≢ hash_header r
        → p ≡ send_error x ws [] 401
        → HashGate ws r p

  -- A request with no HashSHA256 header is handed on as it is. One with it is handed on only if
  -- its body was read whole and its HMAC under the handler's key, in hex, is the header; the
  -- handler then reads that same body. Otherwise the handler is not run: the reply is 400 if the
  -- body could not be read, and 401 if the signature is another.
  pub with_hashed_request-HashGate :
      (ws : List Layer) (r : Request) → HashGate ws r (with_hashed_request x handler h ws r)
  unfolding with_hashed_request
  with_hashed_request-HashGate ws r = elim (is_empty-cases (hash_header r)) [
    | inl missing ↦ unsigned missing (rw missing)
    | inr (signed_at_all, given) ↦ elim (Option-cases r.body.failure) [
      | inl whole ↦
          elim (Bool-cases (bytes_eq (sign_data x r.body.content handler.key) (hash_header r))) [
            | inl same ↦
                signed signed_at_all whole ((bytes_eq_iff _ _).0 same) (rw (given, whole, same))
            | inr other ↦
                forged signed_at_all whole (λ e. cc ((bytes_eq_iff _ _).1 e, other))
                  (rw (given, whole, other))
          ]
      | inr (e, broken) ↦ unread signed_at_all (λ n. cc (n, broken)) (rw (given, broken))
    ]
  ]
