-- ===== src/Audit/Panics.antt =====
-- When publishing panics. A nil *FileReceiver or *HTTPReceiver in the interface Receiver is a
-- value of it that is not nil.
use mathlib.Core.List.{append-nil, append_assoc}
use metrify.Base.{
  sym, ◌∙◌, String, Bytes, true, ◌&&◌, not, Option, none, some, List, [], ◌∷◌, ◌++◌, inl, inr, ◌≡◌,
  ◌≢◌, refl, arith, ◌==◌, if◌then◌else◌, panicked, Bool-cases, Sum-cases, All,
}
use metrify.External.{External}
use metrify.Audit.{
  Event, Receiver, nil_receiver, file_receiver, http_receiver, new_file_receiver, new_publisher,
  enabled, is_set, append_set, init_audit_publisher, receive_file, receive_http, publish_to,
  publish,
}

-- A receiver with something behind it, or the nil interface, which Publish passes over.
abbrev pub IsUsable : Receiver → Type 0
IsUsable nil_receiver = Unit
IsUsable (file_receiver r) = r ≢ none
IsUsable (http_receiver r) = r ≢ none

-- The receivers that are not the nil interface.
abbrev set_only : List Receiver → List Receiver
set_only [] = []
set_only (r ∷ rs) = if is_set r then r ∷ set_only rs else set_only rs

append_set_lem : (acc rs : List Receiver) → append_set acc rs ≡ acc ++ set_only rs
append_set_lem acc [] = sym (append-nil acc)
append_set_lem acc (r ∷ rs) = elim (Bool-cases (is_set r)) [
  | inl e ↦ rw e (append_set_lem (acc ++ r ∷ []) rs ∙ append_assoc acc (r ∷ []) (set_only rs))
  | inr e ↦ rw e (append_set_lem acc rs)
]

init-IsUsable :
    (audit_file audit_url : String)
    → All IsUsable (init_audit_publisher audit_file audit_url).receivers
unfolding init_audit_publisher
init-IsUsable audit_file audit_url = elim (Bool-cases (audit_file == "")) [
  | inl e ↦ elim (Bool-cases (audit_url == "")) [
    | inl e' ↦ rw (e, e') tt
    | inr e' ↦ rw (e, e') ((λ p. cc), tt)
  ]
  | inr e ↦ elim (Bool-cases (audit_url == "")) [
    | inl e' ↦ rw (e, e') ((λ p. cc), tt)
    | inr e' ↦ rw (e, e') ((λ p. cc), ((λ p. cc), tt))
  ]
]

enabled-init :
    (audit_file audit_url : String)
    → enabled (init_audit_publisher audit_file audit_url)
      ≡ not (audit_file == "" && audit_url == "")
unfolding init_audit_publisher enabled
enabled-init audit_file audit_url = elim (Bool-cases (audit_file == "")) [
  | inl e ↦ elim (Bool-cases (audit_url == "")) [ inl e' ↦ rw (e, e') | inr e' ↦ rw (e, e') ]
  | inr e ↦ elim (Bool-cases (audit_url == "")) [ inl e' ↦ rw (e, e') | inr e' ↦ rw (e, e') ]
]

module _ {F W : Type 0} (x : External F W) where
  receive_file-ne-panicked :
      (r : Option String) (e : Event) (w : W) → r ≢ none → (receive_file x r e w).0 ≢ panicked
  unfolding receive_file
  receive_file-ne-panicked none e w u p = absurd (u refl)
  receive_file-ne-panicked (some path) e w u p =
      elim (Sum-cases (x.marshal_event e.ts e.metrics e.ip_address)) [
        | inl (failed, f) ↦ ground arith
        | inr (b, f) ↦ ground arith
      ]

  receive_http-ne-panicked :
      (r : Option String) (e : Event) (w : W) → r ≢ none → (receive_http x r e w).0 ≢ panicked
  unfolding receive_http
  receive_http-ne-panicked none e w u p = absurd (u refl)
  receive_http-ne-panicked (some url) e w u p = ground arith

  publish_to-ne-panicked :
      (rs : List Receiver) (e : Event) (w : W)
      → All IsUsable rs
      → (publish_to x rs e w).0 ≢ panicked
  unfolding publish_to
  publish_to-ne-panicked [] e w u p = cc
  publish_to-ne-panicked (nil_receiver ∷ rs) e w u p = publish_to-ne-panicked rs e w u.1 p
  publish_to-ne-panicked (file_receiver r ∷ rs) e w u p = ground (
    arith,
    receive_file-ne-panicked r e w u.0,
    publish_to-ne-panicked rs e (receive_file x r e w).1 u.1,
  )
  publish_to-ne-panicked (http_receiver r ∷ rs) e w u p = ground (
    arith,
    receive_http-ne-panicked r e w u.0,
    publish_to-ne-panicked rs e (receive_http x r e w).1 u.1,
  )

  -- The publisher of the server is enabled exactly if it has an audit file or an audit url, and
  -- publishing to it never panics, whatever its receivers meet.
  pub publish-init_audit_publisher :
      (audit_file audit_url : String) (e : Event) (w : W)
      → (enabled (init_audit_publisher audit_file audit_url)
          ≡ not (audit_file == "" && audit_url == ""))
        × ((publish x (init_audit_publisher audit_file audit_url) e w).0 ≢ panicked)
  unfolding publish
  publish-init_audit_publisher audit_file audit_url e w = (
    enabled-init audit_file audit_url,
    publish_to-ne-panicked _ e w (init-IsUsable audit_file audit_url),
  )

  publish_to-nil_file_receiver :
      (rs : List Receiver) (e : Event) (b : Bytes) (w w' : W)
      → x.ctx_err w ≡ (none, w')
      → x.marshal_event e.ts e.metrics e.ip_address ≡ inr b
      → (publish_to x (file_receiver none ∷ rs) e w).0 ≡ panicked
  unfolding publish_to receive_file
  publish_to-nil_file_receiver rs e b w w' alive f = ground arith

  -- A nil *FileReceiver, as NewFileReceiver gives for an empty path, is no nil Receiver: a
  -- publisher that is made with it is enabled, and publishing to it panics, if the context is
  -- alive and the event has a JSON text.
  pub publish-nil_file_receiver :
      (rs : List Receiver) (e : Event) (b : Bytes) (w w' : W)
      → x.ctx_err w ≡ (none, w')
      → x.marshal_event e.ts e.metrics e.ip_address ≡ inr b
      → (enabled (new_publisher (file_receiver (new_file_receiver "") ∷ rs)) ≡ true)
        × ((publish x (new_publisher (file_receiver (new_file_receiver "") ∷ rs)) e w).0 ≡ panicked)
  unfolding new_publisher enabled publish new_file_receiver
  publish-nil_file_receiver rs e b w w' alive f =
      rw (append_set_lem (file_receiver none ∷ []) rs, new_publisher)
        (ground arith, publish_to-nil_file_receiver (set_only rs) e b w w' alive f)
