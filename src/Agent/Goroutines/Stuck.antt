-- ===== src/Agent/Goroutines/Stuck.antt =====
-- An agent that never ends.
use metrify.Base.{
  ℕ, ◌<◌, ◌≤◌, String, Bool, true, false, ◌||◌, some, List, [], ◌∷◌, ◌≡◌, ◌≢◌, refl, arith, length,
  Option-cases, inl, inr,
}
use metrify.Agent.Collecting.{runtime_gauges, gopsutil_gauges}
use metrify.Agent.Loop.{Sender}
use metrify.Agent.Goroutines.{
  capacity, Collector, selecting, putting, counting, done, finished, Main, waiting, joining,
  closing, exited, crashed, Threads, Event, runtime_tick, runtime_next, runtime_leave,
  gopsutil_tick, gopsutil_next, gopsutil_leave, sender_tick, sender_next, sender_leave, signal,
  main_next, boot, put, set_runtime, set_gopsutil, on_tick, on_leave, next_runtime, next_gopsutil,
  next_sender, next_main, on_signal, act, step, run,
}
use metrify.Agent.Goroutines.Invariant.{IsCalm, after_close}
use metrify.Agent.Goroutines.Ending.{run-ends}

-- The collector has a metric to send.
abbrev pub has_metric : {F : Type 0} → Collector F → Bool
has_metric (putting (q ∷ qs)) = true
has_metric counting = true
has_metric _ = false

-- main is before or in wg.Wait().
abbrev pub is_before_close : Main → Bool
is_before_close waiting = true
is_before_close joining = true
is_before_close _ = false

-- The senders have returned, if there are any, the channel is full, and a collector has a metric
-- to send.
pub record IsStuck {F W : Type 0} (n : ℕ) (w : W) (s : Threads F W) : Type 0 where
  pub full : length s.queue ≡ capacity
  pub unclosed : s.closed ≡ false
  pub before : is_before_close s.main ≡ true
  pub has : (has_metric s.runtime || has_metric s.gopsutil) ≡ true
  pub returned_senders : (i : ℕ) → i < n → s.senders i ≡ finished
  pub still : s.world ≡ w

module _ {F W : Type 0} {n : ℕ} {w : W} {s t : Threads F W} (stuck : IsStuck n w s) where
  next_runtime-IsStuck :
      (c : Collector F) → s.runtime ≡ c → next_runtime c s ≡ some t → IsStuck n w t
  unfolding next_runtime put
  next_runtime-IsStuck selecting at h = cc
  next_runtime-IsStuck (putting (q ∷ qs)) at h = ground arith
  next_runtime-IsStuck (putting []) at h = ground arith
  next_runtime-IsStuck counting at h = ground arith
  next_runtime-IsStuck done at h = cc

  next_gopsutil-IsStuck :
      (c : Collector F) → s.gopsutil ≡ c → next_gopsutil c s ≡ some t → IsStuck n w t
  unfolding next_gopsutil put
  next_gopsutil-IsStuck selecting at h = cc
  next_gopsutil-IsStuck (putting (q ∷ qs)) at h = ground arith
  next_gopsutil-IsStuck (putting []) at h = ground arith
  next_gopsutil-IsStuck counting at h = cc
  next_gopsutil-IsStuck done at h = cc

  tick_runtime-IsStuck :
      (gauges : List (String × F)) (c : Collector F)
      → s.runtime ≡ c
      → set_runtime s (on_tick gauges c) ≡ some t
      → IsStuck n w t
  tick_runtime-IsStuck gauges selecting at h = ground arith
  tick_runtime-IsStuck gauges (putting qs) at h = cc
  tick_runtime-IsStuck gauges counting at h = cc
  tick_runtime-IsStuck gauges done at h = cc

  tick_gopsutil-IsStuck :
      (gauges : List (String × F)) (c : Collector F)
      → s.gopsutil ≡ c
      → set_gopsutil s (on_tick gauges c) ≡ some t
      → IsStuck n w t
  tick_gopsutil-IsStuck gauges selecting at h = ground arith
  tick_gopsutil-IsStuck gauges (putting qs) at h = cc
  tick_gopsutil-IsStuck gauges counting at h = cc
  tick_gopsutil-IsStuck gauges done at h = cc

  leave_runtime-IsStuck :
      (b : Bool) (c : Collector F)
      → s.runtime ≡ c
      → set_runtime s (on_leave b c) ≡ some t
      → IsStuck n w t
  leave_runtime-IsStuck true selecting at h = ground arith
  leave_runtime-IsStuck b c at h = ground arith

  leave_gopsutil-IsStuck :
      (b : Bool) (c : Collector F)
      → s.gopsutil ≡ c
      → set_gopsutil s (on_leave b c) ≡ some t
      → IsStuck n w t
  leave_gopsutil-IsStuck true selecting at h = ground arith
  leave_gopsutil-IsStuck b c at h = ground arith

  next_main-IsStuck : (m : Main) → s.main ≡ m → next_main m s ≡ some t → IsStuck n w t
  unfolding next_main
  next_main-IsStuck joining at h = ground arith
  next_main-IsStuck closing at h = ground arith
  next_main-IsStuck waiting at h = cc
  next_main-IsStuck exited at h = cc
  next_main-IsStuck crashed at h = cc

  on_signal-IsStuck : (m : Main) → s.main ≡ m → on_signal m s ≡ some t → IsStuck n w t
  unfolding on_signal
  on_signal-IsStuck waiting at h = ground arith
  on_signal-IsStuck m at h = ground arith

  act-IsStuck :
      (float : ℕ → F) (client : Sender F W) (batch : Bool) (e : Event F)
      → act float client batch n e s ≡ some t
      → IsStuck n w t
  unfolding act next_sender
  act-IsStuck float client batch (runtime_tick r) h =
      tick_runtime-IsStuck (runtime_gauges float r) s.runtime refl h
  act-IsStuck float client batch runtime_next h = next_runtime-IsStuck s.runtime refl h
  act-IsStuck float client batch runtime_leave h =
      leave_runtime-IsStuck s.cancelled s.runtime refl h
  act-IsStuck float client batch (gopsutil_tick r) h =
      tick_gopsutil-IsStuck (gopsutil_gauges float r) s.gopsutil refl h
  act-IsStuck float client batch gopsutil_next h = next_gopsutil-IsStuck s.gopsutil refl h
  act-IsStuck float client batch gopsutil_leave h =
      leave_gopsutil-IsStuck s.cancelled s.gopsutil refl h
  act-IsStuck float client batch (sender_tick i) h =
      absurd (ground (arith, stuck.returned_senders i))
  act-IsStuck float client batch (sender_next i) h =
      absurd (ground (arith, stuck.returned_senders i))
  act-IsStuck float client batch (sender_leave i) h =
      absurd (ground (arith, stuck.returned_senders i))
  act-IsStuck float client batch signal h = on_signal-IsStuck s.main refl h
  act-IsStuck float client batch main_next h = next_main-IsStuck s.main refl h

  step-IsStuck :
      (float : ℕ → F) (client : Sender F W) (batch : Bool) (e : Event F)
      → step float client batch n e s ≡ some t
      → IsStuck n w t
  unfolding step
  step-IsStuck float client batch e h = ground (arith, act-IsStuck float client batch e)

module _ {F W : Type 0} (float : ℕ → F) (client : Sender F W) (batch : Bool) (n : ℕ) where
  run-IsStuck :
      (es : List (Event F)) (w : W) (s t : Threads F W)
      → IsStuck n w s
      → run float client batch n es s ≡ some t
      → IsStuck n w t
  unfolding run
  run-IsStuck [] w s t stuck h = ground arith
  run-IsStuck (e ∷ es) w s t stuck h = elim (Option-cases (step float client batch n e s)) [
    | inl none_left ↦ absurd (cc (rw (none_left, run) at h))
    | inr (u, one) ↦
        run-IsStuck es w u t (step-IsStuck stuck float client batch e one) (rw (one, run) at h)
  ]

  -- If all senders of an agent have returned, or it has none, and the channel is full while a
  -- collector still has a metric to send, then the agent never ends, signal or not, and sends
  -- nothing more: the collector waits for room, and main for the collector.
  pub run-stuck :
      (es later : List (Event F)) (w : W) (s t : Threads F W)
      → IsCalm client
      → run float client batch n es (boot w) ≡ some s
      → ((i : ℕ) → i < n → s.senders i ≡ finished)
      → length s.queue ≡ capacity
      → (has_metric s.runtime || has_metric s.gopsutil) ≡ true
      → run float client batch n later s ≡ some t
      → (t.main ≢ exited) × (t.world ≡ s.world)
  run-stuck es later w s t calm reached gone full has h =
      (ground (arith, stuck.before), stuck.still)
    where
      ended :
          (s.main ≢ crashed)
          × (length s.queue ≤ capacity)
          × (s.closed ≡ after_close s.main)
          × (s.closed ≡ true → (s.runtime ≡ done) × (s.gopsutil ≡ done))
      ended = run-ends float client batch n es w s calm reached

      unclosed : s.closed ≡ false
      unclosed = ground (arith, ended.3)

      starts : IsStuck n s.world s
      starts = record {
        full = full;
        unclosed = unclosed;
        before = ground (arith, unclosed, ended.2, ended.0);
        has = has;
        returned_senders = gone;
        still = refl;
      }

      stuck : IsStuck n s.world t
      stuck = run-IsStuck later s.world s t starts h
