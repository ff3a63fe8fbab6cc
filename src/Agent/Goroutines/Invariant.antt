-- ===== src/Agent/Goroutines/Invariant.antt =====
-- What every step of the agent's goroutines keeps, and the moves that are not calls of the
-- client.
use metrify.Base.{
  ℕ, ◌≤◌, Bool, true, false, some, List, [], ◌∷◌, ◌≡◌, ◌≢◌, refl, arith, String, length,
  length-append, Outcome, returned, panicked,
}
use metrify.Model.{Metrics}
use metrify.Agent.Loop.{Sender, queued_count}
use metrify.Agent.Goroutines.{
  capacity, Collector, selecting, putting, counting, done, Drain, idle, Main, waiting, joining,
  closing, exited, crashed, Threads, tick_sender, leave_sender, put, set_runtime, set_gopsutil,
  on_tick, on_leave, called, next_runtime, next_gopsutil, next_main, on_signal,
}

-- main has closed the channel, or ended after that.
abbrev pub after_close : Main → Bool
after_close closing = true
after_close exited = true
after_close _ = false

abbrev pub not_crashed : Main → Bool
not_crashed crashed = false
not_crashed _ = true

pub record IsSound {F W : Type 0} (s : Threads F W) : Type 0 where
  pub alive : not_crashed s.main ≡ true
  pub room : length s.queue ≤ capacity
  pub closes : s.closed ≡ after_close s.main
  pub runtime_done : s.closed ≡ true → s.runtime ≡ done
  pub gopsutil_done : s.closed ≡ true → s.gopsutil ≡ done

module _ {F W : Type 0} (client : Sender F W) where
  -- No call of the client panics.
  pub record IsCalm : Type 0 where
    pub single : (m : Metrics F) (w : W) → (client.update_metric m w).0 ≢ panicked
    pub batches : (ms : List (Metrics F)) (w : W) → (client.update_metrics ms w).0 ≢ panicked

module _ {F W : Type 0} where
  pub next_runtime-IsSound :
      (c : Collector F) (s t : Threads F W)
      → s.runtime ≡ c
      → IsSound s
      → next_runtime c s ≡ some t
      → IsSound t
  unfolding next_runtime put
  next_runtime-IsSound selecting s t at sound h = cc
  next_runtime-IsSound (putting (q ∷ qs)) s t at sound h =
      ground (arith, length-append s.queue (q ∷ []))
  next_runtime-IsSound (putting []) s t at sound h = ground arith
  next_runtime-IsSound counting s t at sound h =
      ground (arith, length-append s.queue (queued_count ∷ []))
  next_runtime-IsSound done s t at sound h = cc

  pub next_gopsutil-IsSound :
      (c : Collector F) (s t : Threads F W)
      → s.gopsutil ≡ c
      → IsSound s
      → next_gopsutil c s ≡ some t
      → IsSound t
  unfolding next_gopsutil put
  next_gopsutil-IsSound selecting s t at sound h = cc
  next_gopsutil-IsSound (putting (q ∷ qs)) s t at sound h =
      ground (arith, length-append s.queue (q ∷ []))
  next_gopsutil-IsSound (putting []) s t at sound h = ground arith
  next_gopsutil-IsSound counting s t at sound h = cc
  next_gopsutil-IsSound done s t at sound h = cc

  pub on_tick-IsSound :
      (gauges : List (String × F)) (c : Collector F) (s t : Threads F W)
      → s.runtime ≡ c
      → IsSound s
      → set_runtime s (on_tick gauges c) ≡ some t
      → IsSound t
  on_tick-IsSound gauges selecting s t at sound h = ground arith
  on_tick-IsSound gauges (putting qs) s t at sound h = cc
  on_tick-IsSound gauges counting s t at sound h = cc
  on_tick-IsSound gauges done s t at sound h = cc

  pub next_main-IsSound :
      (m : Main) (s t : Threads F W) → s.main ≡ m → IsSound s → next_main m s ≡ some t → IsSound t
  unfolding next_main
  next_main-IsSound joining s t at sound h = ground arith
  next_main-IsSound closing s t at sound h = ground arith
  next_main-IsSound waiting s t at sound h = cc
  next_main-IsSound exited s t at sound h = cc
  next_main-IsSound crashed s t at sound h = cc

  pub on_tick_gopsutil-IsSound :
      (gauges : List (String × F)) (c : Collector F) (s t : Threads F W)
      → s.gopsutil ≡ c
      → IsSound s
      → set_gopsutil s (on_tick gauges c) ≡ some t
      → IsSound t
  on_tick_gopsutil-IsSound gauges selecting s t at sound h = ground arith
  on_tick_gopsutil-IsSound gauges (putting qs) s t at sound h = cc
  on_tick_gopsutil-IsSound gauges counting s t at sound h = cc
  on_tick_gopsutil-IsSound gauges done s t at sound h = cc

  pub on_leave-IsSound :
      (cancelled : Bool) (c : Collector F) (s t : Threads F W)
      → s.runtime ≡ c
      → IsSound s
      → set_runtime s (on_leave cancelled c) ≡ some t
      → IsSound t
  on_leave-IsSound true selecting s t at sound h = ground arith
  on_leave-IsSound b c s t at sound h = ground arith

  pub on_leave_gopsutil-IsSound :
      (cancelled : Bool) (c : Collector F) (s t : Threads F W)
      → s.gopsutil ≡ c
      → IsSound s
      → set_gopsutil s (on_leave cancelled c) ≡ some t
      → IsSound t
  on_leave_gopsutil-IsSound true selecting s t at sound h = ground arith
  on_leave_gopsutil-IsSound b c s t at sound h = ground arith

  pub on_signal-IsSound :
      (m : Main) (s t : Threads F W) → s.main ≡ m → IsSound s → on_signal m s ≡ some t → IsSound t
  unfolding on_signal
  on_signal-IsSound waiting s t at sound h = ground arith
  on_signal-IsSound m s t at sound h = ground arith

  pub tick_sender-IsSound :
      (i : ℕ) (d : Drain F) (s t : Threads F W) → IsSound s → tick_sender i d s ≡ some t → IsSound t
  tick_sender-IsSound i idle s t sound h = ground arith
  tick_sender-IsSound i d s t sound h = cc

  pub leave_sender-IsSound :
      (i : ℕ) (cancelled : Bool) (d : Drain F) (s t : Threads F W)
      → IsSound s
      → leave_sender i cancelled d s ≡ some t
      → IsSound t
  leave_sender-IsSound i true idle s t sound h = ground arith
  leave_sender-IsSound i b d s t sound h = ground arith

  pub called-IsSound :
      {A : Type 0} (r : Outcome A × W) (s : Threads F W)
      → r.0 ≢ panicked
      → IsSound s
      → IsSound (called r s)
  called-IsSound (returned a, w) s calm sound = ground arith
  called-IsSound (panicked, w) s calm sound = absurd (calm refl)
