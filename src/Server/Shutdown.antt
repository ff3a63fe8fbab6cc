-- ===== src/Server/Shutdown.antt =====
-- The end of a server over HTTP, cmd/server/main.go: ListenAndServe and the goroutine that calls
-- Shutdown in runHTTPServer, the two other goroutines of main, and g.Wait(), with the requests
-- that are being served, in any order of their steps.
pub mod Unfinished
use metrify.Base.{
  ℕ, suc, zero, ◌-◌, Bool, true, false, ◌&&◌, Option, none, some, List, [], ◌∷◌, nat_eq,
  if◌then◌else◌,
}
use metrify.Failure.{Failure}

-- Where runHTTPServer stands: in ListenAndServe, behind it with http.ErrServerClosed, or at its
-- end.
pub data Serve : Type 0 where
  listening : Serve
  closed : Serve
  served : Serve

-- Where its goroutine stands: at <-ctx.Done(), in srv.Shutdown, or at its end, with what it sent on
-- shutdownErr, which has room for it.
pub data Closer : Type 0 where
  watching : Closer
  shutting : Closer
  sent : Option Failure → Closer

-- What a goroutine of errgroup returns: ctx.Err(), which is context.Canceled, or another error.
pub data Reported : Type 0 where
  canceled : Reported
  failed : Failure → Reported

-- Whether main goes on, or how the process ends: log.Fatal at an error that is not
-- context.Canceled.
pub data Process : Type 0 where
  running : Process
  exited : Process
  fatal : Failure → Process

pub record Closing : Type 0 where
  pub accepts : Bool
  pub in_flight : ℕ
  pub cancelled : Bool
  pub serve : Serve
  pub closer : Closer
  pub dumper_done : Bool
  pub signals_done : Bool
  pub first_error : Option Reported
  pub process : Process

-- A connection with a request, the end of one, the signal, and the steps of the goroutines: the
-- listener fails, Shutdown begins, ends or reaches its five seconds, ListenAndServe sees that it
-- is shut down, the select behind it, the two others of main, and g.Wait().
pub data Event : Type 0 where
  request : Event
  response : Event
  signal : Event
  listen_fails : Failure → Event
  shutdown_begins : Event
  shutdown_ends : Event
  shutdown_times_out : Failure → Event
  serve_stops : Event
  serve_selects : Event
  dumper_stops : Event
  signals_stop : Event
  wait_ends : Event

-- A server that main has started and that is waited for.
abbrev pub up : Closing
up = record {
  accepts = true;
  in_flight = 0;
  cancelled = false;
  serve = listening;
  closer = watching;
  dumper_done = false;
  signals_done = false;
  first_error = none;
  process = running;
}

abbrev pub when : Bool → Closing → Option Closing
when true s = some s
when false s = none

abbrev pub is_running : Process → Bool
is_running running = true
is_running _ = false

-- errgroup keeps the first error of its goroutines, and cancels at it.
abbrev pub keep : Option Reported → Reported → Option Reported
keep none e = some e
keep (some first) e = some first

abbrev pub report : Option Reported → Closing → Closing
report none s = s
report (some e) s = record s { cancelled = true; first_error = keep s.first_error e }

-- ListenAndServe returns another error, and runHTTPServer that.
abbrev pub fail_listening : Serve → Failure → Closing → Option Closing
fail_listening listening e s =
    some (report (some (failed e)) (record s { accepts = false; serve = served }))
fail_listening _ e s = none

-- Shutdown closes the listeners first.
abbrev pub begin_shutdown : Closer → Closing → Option Closing
begin_shutdown watching s = when s.cancelled (record s { accepts = false; closer = shutting })
begin_shutdown _ s = none

-- It returns when nothing is being served, or with an error when its context ends.
abbrev pub end_shutdown : Closer → Closing → Option Closing
end_shutdown shutting s = when (nat_eq s.in_flight 0) (record s { closer = sent none })
end_shutdown _ s = none

abbrev pub time_out : Closer → Failure → Closing → Option Closing
time_out shutting e s = some (record s { closer = sent (some e) })
time_out _ e s = none

-- ListenAndServe returns http.ErrServerClosed as soon as Shutdown has been called.
abbrev pub stop_serving : Serve → Closer → Closing → Option Closing
stop_serving listening watching s = none
stop_serving listening _ s = some (record s { serve = closed })
stop_serving _ _ s = none

-- The select with a default: what Shutdown returned, if it has, is what runHTTPServer returns.
abbrev pub result : Closer → Option Reported
result (sent (some e)) = some (failed e)
result _ = none

abbrev pub select_result : Serve → Closing → Option Closing
select_result closed s = some (report (result s.closer) (record s { serve = served }))
select_result _ s = none

-- runMetricDumper, which returns at once if it has no interval.
abbrev pub stop_dumper : Bool → Bool → Closing → Option Closing
stop_dumper true false s =
    when s.cancelled (report (some canceled) (record s { dumper_done = true }))
stop_dumper false false s = some (record s { dumper_done = true })
stop_dumper dumps true s = none

abbrev pub stop_signals : Bool → Closing → Option Closing
stop_signals false s = when s.cancelled (record s { signals_done = true })
stop_signals true s = none

-- g.Wait() and the end of main.
abbrev pub ending : Option Reported → Process
ending (some (failed e)) = fatal e
ending _ = exited

abbrev pub end_main : Serve → Closing → Option Closing
end_main served s =
    when (s.dumper_done && s.signals_done) (record s { process = ending s.first_error })
end_main _ s = none

abbrev pub after : Option Closing → (Closing → Option Closing) → Option Closing
after none k = none
after (some s) k = k s

-- `dumps` is whether the flags give an interval.
module _ (dumps : Bool) where
  abbrev pub act : Event → Closing → Option Closing
  act request s = when s.accepts (record s { in_flight = suc s.in_flight })
  act response s =
      if nat_eq s.in_flight 0 then none else some (record s { in_flight = s.in_flight - 1 })
  act signal s = some (record s { cancelled = true })
  act (listen_fails e) s = fail_listening s.serve e s
  act shutdown_begins s = begin_shutdown s.closer s
  act shutdown_ends s = end_shutdown s.closer s
  act (shutdown_times_out e) s = time_out s.closer e s
  act serve_stops s = stop_serving s.serve s.closer s
  act serve_selects s = select_result s.serve s
  act dumper_stops s = stop_dumper dumps s.dumper_done s
  act signals_stop s = stop_signals s.signals_done s
  act wait_ends s = end_main s.serve s

  unfoldable pub step : Event → Closing → Option Closing
  step e s = if is_running s.process then act e s else none

  unfoldable pub run : List Event → Closing → Option Closing
  unfolding step
  run [] s = some s
  run (e ∷ es) s = after (step e s) (λ t. run es t)
