-- ===== src/Server/Shutdown/Unfinished.antt =====
-- What a server that ends leaves behind.
use metrify.Base.{
  Bool, true, false, none, some, List, [], ◌∷◌, ◌≡◌, refl, arith, inl, inr, Option-cases,
}
use metrify.Server.Shutdown.{
  Serve, listening, served, Closer, watching, shutting, sent, canceled, Process, running, exited,
  Closing, Event, shutdown_begins, serve_stops, serve_selects, dumper_stops, signals_stop,
  wait_ends, up, act, step, run,
}

-- Shutdown has been called.
abbrev has_begun : Closer → Bool
has_begun watching = false
has_begun _ = true

abbrev has_stopped : Serve → Bool
has_stopped listening = false
has_stopped _ = true

abbrev has_ended : Process → Bool
has_ended running = false
has_ended _ = true

record IsOrderly (s : Closing) : Type 0 where
  begun : has_begun s.closer ≡ true → s.accepts ≡ false
  stopped : has_stopped s.serve ≡ true → s.accepts ≡ false
  ended : has_ended s.process ≡ true → s.serve ≡ served
  emptied : s.closer ≡ sent none → s.in_flight ≡ 0

act-IsOrderly :
    (dumps : Bool) (e : Event) (s t : Closing)
    → s.process ≡ running
    → IsOrderly s
    → act dumps e s ≡ some t
    → IsOrderly t
act-IsOrderly dumps e s t at o h = ground arith

step-IsOrderly :
    (dumps : Bool) (e : Event) (s t : Closing) → IsOrderly s → step dumps e s ≡ some t → IsOrderly t
unfolding step
step-IsOrderly dumps e s t o h = ground (arith, act-IsOrderly dumps e s t)

run-IsOrderly :
    (dumps : Bool) (es : List Event) (s t : Closing)
    → IsOrderly s
    → run dumps es s ≡ some t
    → IsOrderly t
unfolding run
run-IsOrderly dumps [] s t o h = ground arith
run-IsOrderly dumps (e ∷ es) s t o h = elim (Option-cases (step dumps e s)) [
  | inl stuck ↦ absurd (cc (rw (stuck, run) at h))
  | inr (u, one) ↦
      run-IsOrderly dumps es u t (step-IsOrderly dumps e s u o one) (rw (one, run) at h)
]

-- From the signal to the end of main.
abbrev pub hasty : List Event
hasty = shutdown_begins ∷ serve_stops ∷ serve_selects ∷ dumper_stops ∷ signals_stop ∷ wait_ends ∷ []

up-IsOrderly : IsOrderly up
up-IsOrderly = record { begun = λ e. cc; stopped = λ e. cc; ended = λ e. cc; emptied = λ e. refl }

-- A server over HTTP that has reached the end of main accepts no connection, and where Shutdown
-- has returned without an error no request is being served.
pub run-orderly :
    (dumps : Bool) (es : List Event) (s : Closing)
    → run dumps es up ≡ some s
    → (s.process ≡ exited → s.accepts ≡ false)
      × (s.closer ≡ sent none → (s.accepts ≡ false) × (s.in_flight ≡ 0))
run-orderly dumps es s h = (
  (λ at. ground (arith, orderly.stopped, orderly.ended)),
  (λ at. (ground (arith, orderly.begun), orderly.emptied at)),
)
  where
    orderly : IsOrderly s
    orderly = run-IsOrderly dumps es up s up-IsOrderly h

-- The main of a server over HTTP does not wait for Shutdown: from every state in which the signal
-- has come, and neither Shutdown was called nor a goroutine of main has returned, the six steps
-- of the goroutines alone end the server, without an error, with every request that was being
-- served cut off: ListenAndServe returns as soon as Shutdown is called, and the select behind it
-- has a default.
pub run-unfinished :
    (dumps : Bool) (s : Closing)
    → s.process ≡ running
    → s.cancelled ≡ true
    → s.serve ≡ listening
    → s.closer ≡ watching
    → s.dumper_done ≡ false
    → s.signals_done ≡ false
    → s.first_error ≡ none
    → (t : Closing) × (run dumps hasty s ≡ some t)
      × (t.process ≡ exited)
      × (t.in_flight ≡ s.in_flight)
unfolding run step
run-unfinished true s runs cancels listens watches dumper signals first = (
  record s {
    accepts = false;
    closer = shutting;
    serve = served;
    dumper_done = true;
    signals_done = true;
    first_error = some canceled;
    process = exited;
  },
  ground arith,
  refl,
  refl,
)
run-unfinished false s runs cancels listens watches dumper signals first = (
  record s {
    accepts = false;
    closer = shutting;
    serve = served;
    dumper_done = true;
    signals_done = true;
    process = exited;
  },
  ground arith,
  refl,
  refl,
)
