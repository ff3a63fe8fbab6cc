-- ===== src/Agent/Goroutines/Conserving.antt =====
-- Where the metrics are that the collectors have gathered.
use metrify.Base.{
  ℕ, ◌+◌, String, Bool, some, List, [], ◌∷◌, ◌≡◌, refl, arith, Option-cases, Bool-cases, inl, inr,
  ltb, sum_of-zero,
}
use metrify.Model.{Metrics}
use metrify.Agent.Collecting.{runtime_gauges, gopsutil_gauges}
use metrify.Agent.Loop.PollCount.{recorder}
use metrify.Agent.Goroutines.{
  idle, Threads, Event, runtime_tick, runtime_next, runtime_leave, gopsutil_tick, gopsutil_next,
  gopsutil_leave, sender_tick, sender_next, sender_leave, signal, main_next, boot, act, step, run,
}
use metrify.Agent.Goroutines.Invariant.{IsSound, IsCalm}
use metrify.Agent.Goroutines.Sound.{step-IsSound}
use metrify.Agent.Goroutines.Ending.{boot-IsSound}
use metrify.Agent.Goroutines.Amounts.{
  ltb→lt, amount, gathered_by, gathered, runtime_tick-gathers, gopsutil_tick-gathers,
  leave_runtime-conserves, leave_gopsutil-conserves, next_main-conserves, on_signal-conserves,
  tick_sender-conserves, leave_sender-conserves, next_sender-conserves, runtime-conserves,
  gopsutil-conserves, held_by,
}

pub recorder-IsCalm : {F : Type 0} → IsCalm (recorder {F = F})
recorder-IsCalm = record { single = λ m w e. cc; batches = λ ms w e. cc }

module _ {F : Type 0} (float : ℕ → F) (name : String) where
  act-gathers :
      (n : ℕ) (batch : Bool) (e : Event F) (s t : Threads F (List (Metrics F)))
      → IsSound s
      → act float recorder batch n e s ≡ some t
      → amount name n t ≡ amount name n s + gathered_by name float e
  unfolding act
  act-gathers n batch (runtime_tick r) s t sound h =
      runtime_tick-gathers name n s (runtime_gauges float r) s.runtime refl h
  act-gathers n batch runtime_next s t sound h =
      omega (arith, runtime-conserves name n sound s.runtime refl h)
  act-gathers n batch runtime_leave s t sound h =
      omega (arith, leave_runtime-conserves name n s s.cancelled s.runtime refl h)
  act-gathers n batch (gopsutil_tick r) s t sound h =
      gopsutil_tick-gathers name n s (gopsutil_gauges float r) s.gopsutil refl h
  act-gathers n batch gopsutil_next s t sound h =
      omega (arith, gopsutil-conserves name n sound s.gopsutil refl h)
  act-gathers n batch gopsutil_leave s t sound h =
      omega (arith, leave_gopsutil-conserves name n s s.cancelled s.gopsutil refl h)
  act-gathers n batch (sender_tick i) s t sound h = elim (Bool-cases (ltb i n)) [
    | inl lt ↦ omega (
      arith,
      tick_sender-conserves name n i (ltb→lt i n lt) s (s.senders i) refl (rw (lt, act) at h),
    )
    | inr ge ↦ absurd (cc (rw (ge, act) at h))
  ]
  act-gathers n batch (sender_next i) s t sound h = elim (Bool-cases (ltb i n)) [
    | inl lt ↦ omega (
      arith,
      next_sender-conserves name n i (ltb→lt i n lt) s batch (s.senders i) refl (rw (lt, act) at h),
    )
    | inr ge ↦ absurd (cc (rw (ge, act) at h))
  ]
  act-gathers n batch (sender_leave i) s t sound h = elim (Bool-cases (ltb i n)) [
    | inl lt ↦ omega (
      arith,
      leave_sender-conserves name n i (ltb→lt i n lt) s s.cancelled (s.senders i) refl
          (rw (lt, act) at h),
    )
    | inr ge ↦ absurd (cc (rw (ge, act) at h))
  ]
  act-gathers n batch signal s t sound h = omega (arith, on_signal-conserves name n s s.main h)
  act-gathers n batch main_next s t sound h = omega (arith, next_main-conserves name n s s.main h)

  step-gathers :
      (n : ℕ) (batch : Bool) (e : Event F) (s t : Threads F (List (Metrics F)))
      → IsSound s
      → step float recorder batch n e s ≡ some t
      → amount name n t ≡ amount name n s + gathered_by name float e
  unfolding step
  step-gathers n batch e s t sound h = ground (arith, act-gathers n batch e s t sound)

  run-gathers :
      (n : ℕ) (batch : Bool) (es : List (Event F)) (s t : Threads F (List (Metrics F)))
      → IsSound s
      → run float recorder batch n es s ≡ some t
      → amount name n t ≡ amount name n s + gathered name float es
  unfolding run
  run-gathers n batch [] s t sound h = ground arith
  run-gathers n batch (e ∷ es) s t sound h = elim (Option-cases (step float recorder batch n e s)) [
    | inl stuck ↦ absurd (cc (rw (stuck, run) at h))
    | inr (u, one) ↦
        let sound' = step-IsSound float recorder batch recorder-IsCalm n e s u sound one in
        omega (
          arith,
          step-gathers n batch e s u sound one,
          run-gathers n batch es u t sound' (rw (one, run) at h),
        )
  ]

  -- No metric that an agent gathers is lost or sent twice as long as the client keeps what it is
  -- given and the agent runs, whatever the order of the steps: of any name, as many as its ticks
  -- have gathered (with one PollCount for each tick of runRuntimeCollector) are sent, on the
  -- channel, in the batches of the senders, or still with the collectors. When main has ended,
  -- those that were not sent stay in the channel or in a batch.
  pub run-conserves :
      (n : ℕ) (batch : Bool) (es : List (Event F)) (s : Threads F (List (Metrics F)))
      → run float recorder batch n es (boot []) ≡ some s
      → amount name n s ≡ gathered name float es
  unfolding boot
  run-conserves n batch es s h = omega (
    arith,
    run-gathers n batch es (boot []) s (boot-IsSound []) h,
    sum_of-zero (held_by name) n idle refl,
  )
