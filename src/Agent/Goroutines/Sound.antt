-- ===== src/Agent/Goroutines/Sound.antt =====
-- What every step of the agent's goroutines keeps.
use metrify.Base.{
  ℕ, Bool, some, List, [], ◌∷◌, ◌≡◌, ◌≢◌, refl, arith, panicked, Option-cases, Bool-cases, inl, inr,
}
use metrify.Model.{Metrics}
use metrify.Agent.Collecting.{runtime_gauges, gopsutil_gauges}
use metrify.Agent.Loop.{Sender, Queued, send_batch}
use metrify.Agent.Goroutines.{
  Drain, draining, Threads, Event, runtime_tick, runtime_next, runtime_leave, gopsutil_tick,
  gopsutil_next, gopsutil_leave, sender_tick, sender_next, sender_leave, signal, main_next, flush,
  next_sender, receive, act, step, run,
}
use metrify.Agent.Goroutines.Invariant.{
  IsSound, IsCalm, next_runtime-IsSound, next_gopsutil-IsSound, on_tick-IsSound,
  on_tick_gopsutil-IsSound, on_leave-IsSound, on_leave_gopsutil-IsSound, on_signal-IsSound,
  next_main-IsSound, tick_sender-IsSound, leave_sender-IsSound, called-IsSound,
}

module _ {F W : Type 0} (float : ℕ → F) (client : Sender F W) (batch : Bool) where
  pub run-step :
      (n : ℕ) (e : Event F) (es : List (Event F)) (s t : Threads F W)
      → step float client batch n e s ≡ some t
      → run float client batch n (e ∷ es) s ≡ run float client batch n es t
  unfolding run
  run-step n e es s t one = rw one refl

module _ {F W : Type 0} (float : ℕ → F) (client : Sender F W) (batch : Bool)
    (calm : IsCalm client) where
  send_batch-calm : (ms : List (Metrics F)) (w : W) → (send_batch client ms w).0 ≢ panicked
  send_batch-calm [] w e = cc
  send_batch-calm (m ∷ ms) w e = ground (arith, calm.batches (m ∷ ms) w)

  flush-IsSound :
      (held : List (Queued F)) (s : Threads F W) → IsSound s → IsSound (flush client held s)
  flush-IsSound held s sound = called-IsSound _ s (send_batch-calm _ s.world) sound

  receive-IsSound :
      (i : ℕ) (held qs : List (Queued F)) (s : Threads F W)
      → s.queue ≡ qs
      → IsSound s
      → IsSound (receive client batch i held qs s)
  unfolding receive
  receive-IsSound i held [] s at sound = ground (arith, flush-IsSound held s sound)
  receive-IsSound i held (q ∷ qs) s at sound = elim (Bool-cases batch) [
    | inl e ↦ rw e (ground arith)
    | inr e ↦ rw e (called-IsSound _ _ (calm.single _ s.world) (ground arith))
  ]

  next_sender-IsSound :
      (i : ℕ) (d : Drain F) (s t : Threads F W)
      → IsSound s
      → next_sender client batch i d s ≡ some t
      → IsSound t
  unfolding next_sender
  next_sender-IsSound i (draining held) s t sound h =
      ground (arith, receive-IsSound i held s.queue s refl sound)
  next_sender-IsSound i d s t sound h = cc

  act-IsSound :
      (n : ℕ) (e : Event F) (s t : Threads F W)
      → IsSound s
      → act float client batch n e s ≡ some t
      → IsSound t
  unfolding act
  act-IsSound n (runtime_tick r) s t sound h =
      on_tick-IsSound (runtime_gauges float r) s.runtime s t refl sound h
  act-IsSound n runtime_next s t sound h = next_runtime-IsSound s.runtime s t refl sound h
  act-IsSound n runtime_leave s t sound h = on_leave-IsSound s.cancelled s.runtime s t refl sound h
  act-IsSound n (gopsutil_tick r) s t sound h =
      on_tick_gopsutil-IsSound (gopsutil_gauges float r) s.gopsutil s t refl sound h
  act-IsSound n gopsutil_next s t sound h = next_gopsutil-IsSound s.gopsutil s t refl sound h
  act-IsSound n gopsutil_leave s t sound h =
      on_leave_gopsutil-IsSound s.cancelled s.gopsutil s t refl sound h
  act-IsSound n (sender_tick i) s t sound h =
      ground (arith, tick_sender-IsSound i (s.senders i) s t sound)
  act-IsSound n (sender_next i) s t sound h =
      ground (arith, next_sender-IsSound i (s.senders i) s t sound)
  act-IsSound n (sender_leave i) s t sound h =
      ground (arith, leave_sender-IsSound i s.cancelled (s.senders i) s t sound)
  act-IsSound n signal s t sound h = on_signal-IsSound s.main s t refl sound h
  act-IsSound n main_next s t sound h = next_main-IsSound s.main s t refl sound h

  pub step-IsSound :
      (n : ℕ) (e : Event F) (s t : Threads F W)
      → IsSound s
      → step float client batch n e s ≡ some t
      → IsSound t
  unfolding step
  step-IsSound n e s t sound h = ground (arith, act-IsSound n e s t sound)

  pub run-IsSound :
      (n : ℕ) (es : List (Event F)) (s t : Threads F W)
      → IsSound s
      → run float client batch n es s ≡ some t
      → IsSound t
  unfolding run
  run-IsSound n [] s t sound h = ground arith
  run-IsSound n (e ∷ es) s t sound h = elim (Option-cases (step float client batch n e s)) [
    | inl stuck ↦ absurd (cc (rw (stuck, run) at h))
    | inr (u, one) ↦ run-IsSound n es u t (step-IsSound n e s u sound one) (rw (one, run) at h)
  ]
