-- ===== src/Tests/Closing.antt =====
-- The end of a server at concrete steps.
use metrify.Base.{true, false, some, [], ◌∷◌, ◌≡◌, refl, codes}
use metrify.Failure.{Failure, message}
use metrify.Server.Shutdown.{
  exited, fatal, Closing, request, response, signal, listen_fails, shutdown_begins, shutdown_ends,
  shutdown_times_out, serve_stops, serve_selects, dumper_stops, signals_stop, wait_ends, up, step,
  run,
}
use metrify.Server.Shutdown.Unfinished.{hasty, run-unfinished}

-- Two requests are being served when the signal comes.
abbrev busy : Closing
busy = record up { in_flight = 2; cancelled = true }

reaches_busy : run true (request ∷ request ∷ signal ∷ []) up ≡ some busy
unfolding run step
reaches_busy = refl

run-unfinished_example :
    (t : Closing) × (run true hasty busy ≡ some t) × (t.process ≡ exited) × (t.in_flight ≡ 2)
run-unfinished_example = run-unfinished true busy refl refl refl refl refl refl refl

-- Shutdown ends before the select: both requests were answered.
graceful :
    (t : Closing) × (run false
        (shutdown_begins ∷ serve_stops ∷ response ∷ response ∷ shutdown_ends ∷ serve_selects
          ∷ dumper_stops ∷ signals_stop ∷ wait_ends ∷ [])
        busy
      ≡ some t)
    × (t.process ≡ exited)
    × (t.in_flight ≡ 0)
unfolding run step
graceful = (_, refl, refl, refl)

abbrev timeout : Failure
timeout = message (codes "context deadline exceeded")

-- With a dumper, which returns context.Canceled first, the error of Shutdown is not seen; without
-- one it ends the process.
masked :
    (t : Closing) × (run true
        (shutdown_begins
          ∷ dumper_stops
          ∷ shutdown_times_out timeout
          ∷ serve_stops
          ∷ serve_selects
          ∷ signals_stop
          ∷ wait_ends
          ∷ [])
        busy
      ≡ some t)
    × (t.process ≡ exited)
unfolding run step
masked = (_, refl, refl)

seen :
    (t : Closing) × (run false
        (shutdown_begins
          ∷ dumper_stops
          ∷ shutdown_times_out timeout
          ∷ serve_stops
          ∷ serve_selects
          ∷ signals_stop
          ∷ wait_ends
          ∷ [])
        busy
      ≡ some t)
    × (t.process ≡ fatal timeout)
unfolding run step
seen = (_, refl, refl)

-- A listener that cannot listen.
unheard :
    (t : Closing) × (run true
        (listen_fails timeout ∷ dumper_stops ∷ signals_stop ∷ wait_ends ∷ [])
        up
      ≡ some t)
    × (t.process ≡ fatal timeout)
unfolding run step
unheard = (_, refl, refl)
