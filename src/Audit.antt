-- ===== src/Audit.antt =====
-- internal/audit: events about updated metrics, and the receivers that they are published to.
-- A publisher's receivers are copied under its lock, so publishing is a pass over a fixed list.
pub mod Publishing
pub mod Panics
use metrify.Base.{
  ℕ, String, Bytes, Bool, true, false, ◌||◌, Option, none, some, List, [], ◌∷◌, ◌++◌, ◌⊎◌, inl, inr,
  codes, ◌==◌, if◌then◌else◌, Prog, returned, panic, pure, ◌>>=◌, ltb, leb, length,
}
use metrify.Failure.{Failure, message}
use metrify.External.{External}

pub record Event : Type 0 where
  pub ts : ℕ
  pub metrics : List String
  pub ip_address : Bytes

-- A value of the interface Receiver: nil, or one of the two pointers, which may be nil in turn.
-- A FileReceiver is its path, an HTTPReceiver its url.
pub data Receiver : Type 0 where
  nil_receiver : Receiver
  file_receiver : Option String → Receiver
  http_receiver : Option String → Receiver

pub record Publisher : Type 0 where
  pub receivers : List Receiver

unfoldable pub new_file_receiver : String → Option String
new_file_receiver path = if path == "" then none else some path

unfoldable pub new_http_receiver : String → Option String
new_http_receiver url = if url == "" then none else some url

-- r != nil, for the interface
unfoldable pub is_set : Receiver → Bool
is_set nil_receiver = false
is_set (file_receiver r) = true
is_set (http_receiver r) = true

abbrev pub append_set : List Receiver → List Receiver → List Receiver
append_set acc [] = acc
append_set acc (r ∷ rs) = append_set (if is_set r then acc ++ r ∷ [] else acc) rs

unfoldable pub new_publisher : List Receiver → Publisher
unfolding is_set
new_publisher rs = record { receivers = append_set [] rs }

unfoldable pub add : Receiver → Publisher → Publisher
unfolding is_set
add r p = if is_set r then record { receivers = p.receivers ++ r ∷ [] } else p

unfoldable pub enabled : Publisher → Bool
enabled p = ltb 0 (length p.receivers)

-- initAuditPublisher of cmd/server/main.go
unfoldable pub init_audit_publisher : String → String → Publisher
unfolding add new_publisher new_file_receiver new_http_receiver
init_audit_publisher audit_file audit_url =
    let p = new_publisher [] in
    let p = if audit_file == "" then p else add (file_receiver (new_file_receiver audit_file)) p in
    if audit_url == "" then p else add (http_receiver (new_http_receiver audit_url)) p

abbrev pub check_status : Failure ⊎ (ℕ × Bytes) → Option Failure
check_status (inl e) = some e
check_status (inr (code, text)) =
    if ltb code 200 || leb 300 code
    then some (message (codes "audit http receiver: non-2xx status: " ++ text))
    else none

abbrev pub with_error : Option Failure → List Failure → List Failure
with_error none errs = errs
with_error (some e) errs = e ∷ errs

module _ {F W : Type 0} (x : External F W) where
  unfoldable pub new_event : List String → Bytes → W → Event
  new_event metrics ip w = record { ts = x.now w; metrics = metrics; ip_address = ip }

  abbrev ctx_err : Prog W (Option Failure)
  ctx_err w = let (e, w') = x.ctx_err w in (returned e, w')

  -- A step that is made if the one before had no error.
  abbrev unless_failed : Option Failure → Prog W (Option Failure) → Prog W (Option Failure)
  unless_failed none next = next
  unless_failed (some e) next = pure (some e)

  abbrev open_file : String → Prog W (Option Failure)
  open_file path w = let (e, w') = x.open_append path w in (returned e, w')

  abbrev write_line : String → Bytes → Prog W (Option Failure)
  write_line path line w = let (e, w') = x.write_append path line w in (returned e, w')

  -- From the lock on, which a nil pointer does not have.
  abbrev append_event : Option String → Bytes → Prog W (Option Failure)
  append_event none b = panic
  append_event (some path) b = do
    cancelled_waiting ← ctx_err
    unless_failed cancelled_waiting do
      not_opened ← open_file path
      unless_failed not_opened
          do cancelled ← ctx_err; unless_failed cancelled (write_line path (b ++ b'\n' ∷ []))

  unfoldable pub receive_file : Option String → Event → Prog W (Option Failure)
  receive_file r e = do
    cancelled ← ctx_err
    unless_failed cancelled (elim (x.marshal_event e.ts e.metrics e.ip_address) [
      | inl failed ↦ pure (some failed)
      | inr b ↦ append_event r b
    ])

  abbrev post_event : Option String → Bytes → Prog W (Option Failure)
  post_event none b = panic
  post_event (some url) b = elim (x.new_request url) [
    | some e ↦ pure (some e)
    | none ↦ λ w. let (r, w') = x.post_event url b w in (returned (check_status r), w')
  ]

  unfoldable pub receive_http : Option String → Event → Prog W (Option Failure)
  receive_http r e = elim (x.marshal_event e.ts e.metrics e.ip_address) [
    | inl failed ↦ pure (some failed)
    | inr b ↦ post_event r b
  ]

  -- The loop of Publish: the errors of the receivers, in order. Their join is nil if there is none.
  unfoldable pub publish_to : List Receiver → Event → Prog W (List Failure)
  publish_to [] e = pure []
  publish_to (nil_receiver ∷ rs) e = publish_to rs e
  publish_to (file_receiver r ∷ rs) e = do
    failed ← receive_file r e
    errs ← publish_to rs e
    pure (with_error failed errs)
  publish_to (http_receiver r ∷ rs) e = do
    failed ← receive_http r e
    errs ← publish_to rs e
    pure (with_error failed errs)

  unfoldable pub publish : Publisher → Event → Prog W (List Failure)
  unfolding publish_to receive_file receive_http
  publish p e = publish_to p.receivers e
