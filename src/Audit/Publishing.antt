-- ===== src/Audit/Publishing.antt =====
-- What publishing an event does: the receivers one by one, and one receiver's file.
use mathlib.Core.Path.{fun_ext}
use metrify.Base.{
  ◌∙◌, String, Bytes, Option, none, some, List, [], ◌∷◌, ◌++◌, inl, inr, ◌≡◌, ◌↔◌, ap, arith, Prog,
  returned, pure, ◌>>=◌, Sum-cases,
}
use metrify.Failure.{Failure}
use metrify.External.{External}
use metrify.Audit.{
  Event, Receiver, nil_receiver, file_receiver, http_receiver, receive_file, receive_http,
  publish_to, with_error,
}

module _ {F W : Type 0} (x : External F W) where
  -- Both halves of a list of receivers, one after the other.
  abbrev publish_both : List Receiver → List Receiver → Event → Prog W (List Failure)
  publish_both rs ss e = do
    errs ← publish_to x rs e
    errs' ← publish_to x ss e
    pure (errs ++ errs')

  abbrev after_one : Prog W (Option Failure) → Prog W (List Failure) → Prog W (List Failure)
  after_one m rest = do failed ← m; errs ← rest; pure (with_error failed errs)

  after_one_both :
      (m : Prog W (Option Failure)) (rs ss : List Receiver) (e : Event)
      → after_one m (publish_both rs ss e) ≡ (do
        errs ← after_one m (publish_to x rs e)
        errs' ← publish_to x ss e
        pure (errs ++ errs'))
  after_one_both m rs ss e = fun_ext λ w. ground arith

  publish_nothing : (m : Prog W (List Failure)) → m ≡ (do errs ← m; pure ([] ++ errs))
  publish_nothing m = fun_ext λ w. ground arith

  -- Publishing to a list of receivers is publishing to its first part and then, whatever errors
  -- that had, to the rest; the errors are those of both parts, in order. So no receiver's error
  -- keeps the event from the receivers after it; only a panic does.
  publish_to-append :
      (rs ss : List Receiver) (e : Event) → publish_to x (rs ++ ss) e ≡ publish_both rs ss e
  unfolding publish_to
  publish_to-append [] ss e = publish_nothing (publish_to x ss e)
  publish_to-append (nil_receiver ∷ rs) ss e = publish_to-append rs ss e
  publish_to-append (file_receiver r ∷ rs) ss e =
      ap (after_one (receive_file x r e)) (publish_to-append rs ss e)
      ∙ after_one_both (receive_file x r e) rs ss e
  publish_to-append (http_receiver r ∷ rs) ss e =
      ap (after_one (receive_http x r e)) (publish_to-append rs ss e)
      ∙ after_one_both (receive_http x r e) rs ss e

  -- The way to a file in which the event's line is written: the context is asked three times,
  -- before and after the wait for the lock and before the write, and the file is opened.
  pub record Appended (path : String) (line : Bytes) (w w' : W) : Type 0 where
    pub asked : W
    pub locked : W
    pub opened : W
    pub asked_last : W
    pub before : x.ctx_err w ≡ (none, asked)
    pub waited : x.ctx_err asked ≡ (none, locked)
    pub opens : x.open_append path locked ≡ (none, opened)
    pub ready : x.ctx_err opened ≡ (none, asked_last)
    pub written : x.write_append path line asked_last ≡ (none, w')

  receive_file-marshalled :
      (path : String) (e : Event) (w w' : W)
      → receive_file x (some path) e w ≡ (returned none, w')
      → (b : Bytes) × (x.marshal_event e.ts e.metrics e.ip_address ≡ inr b)
  unfolding receive_file
  receive_file-marshalled path e w w' h =
      elim (Sum-cases (x.marshal_event e.ts e.metrics e.ip_address)) [
        | inl (failed, f) ↦ absurd (ground arith)
        | inr found ↦ found
      ]

  Appended-of_receive_file :
      (path : String) (e : Event) (b : Bytes) (w w' : W)
      → x.marshal_event e.ts e.metrics e.ip_address ≡ inr b
      → receive_file x (some path) e w ≡ (returned none, w')
      → Appended path (b ++ b'\n' ∷ []) w w'
  unfolding receive_file
  Appended-of_receive_file path e b w w' f h = record {
    asked = (x.ctx_err w).1;
    locked = (x.ctx_err (x.ctx_err w).1).1;
    opened = (x.open_append path (x.ctx_err (x.ctx_err w).1).1).1;
    asked_last = (x.ctx_err (x.open_append path (x.ctx_err (x.ctx_err w).1).1).1).1;
    before = ground arith;
    waited = ground arith;
    opens = ground arith;
    ready = ground arith;
    written = ground arith;
  }

  receive_file_of_Appended :
      (path : String) (e : Event) (b : Bytes) (w w' : W)
      → x.marshal_event e.ts e.metrics e.ip_address ≡ inr b
      → Appended path (b ++ b'\n' ∷ []) w w'
      → receive_file x (some path) e w ≡ (returned none, w')
  unfolding receive_file
  receive_file_of_Appended path e b w w' f a =
      ground (arith, a.before, a.waited, a.opens, a.ready, a.written)

  -- A FileReceiver reports no error exactly if the event has a JSON text and that text, with a
  -- newline, was appended to its file, after the context was found alive three times.
  pub receive_file-Appended :
      (path : String) (e : Event) (w w' : W)
      → (receive_file x (some path) e w ≡ (returned none, w')) ↔ (
          (b : Bytes) × (x.marshal_event e.ts e.metrics e.ip_address ≡ inr b)
          × Appended path (b ++ b'\n' ∷ []) w w')
  receive_file-Appended path e w w' = (
    (λ h.
        let (b, f) = receive_file-marshalled path e w w' h in
        (b, f, Appended-of_receive_file path e b w w' f h)),
    λ (b, f, a). receive_file_of_Appended path e b w w' f a,
  )
