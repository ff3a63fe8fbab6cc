-- ===== src/Tests/Hanging.antt =====
-- The goroutines of the agent at concrete events.
use metrify.Base.{
  ℕ, zero, suc, true, false, some, List, [], ◌∷◌, ◌≡◌, ◌≢◌, refl, arith, length, map, ◌||◌, ◌≤◌,
}
use metrify.Model.{Metrics}
use metrify.Agent.Loop.PollCount.{recorder}
use metrify.Agent.Goroutines.{
  capacity, exited, Threads, Event, runtime_tick, runtime_next, runtime_leave, gopsutil_leave,
  sender_tick, sender_next, sender_leave, signal, main_next, boot, next_runtime, put, next_main,
  next_sender, receive, done, crashed, on_signal, act, step, run,
}
use metrify.Agent.Goroutines.Invariant.{after_close}
use metrify.Agent.Goroutines.Stuck.{has_metric, run-stuck}
use metrify.Agent.Collecting.{in_order, collect_gauge, runtime_gauges}
use metrify.Tests.Gathering.{float, reading}
use metrify.Agent.Goroutines.Ending.{run-ends}
use metrify.Agent.Goroutines.Amounts.{amount, gathered}
use metrify.Agent.Goroutines.Conserving.{recorder-IsCalm, run-conserves}

abbrev nexts : ℕ → List (Event ℕ) → List (Event ℕ)
nexts zero es = es
nexts (suc k) es = runtime_next ∷ nexts k es

-- Polls of an agent without senders, each with 28 gauges and the counter.
abbrev polls : ℕ → List (Event ℕ) → List (Event ℕ)
polls zero es = es
polls (suc k) es = runtime_tick reading ∷ nexts 30 (polls k es)

-- The 35th poll finds room for fourteen gauges only.
abbrev filling : List (Event ℕ)
filling = polls 34 (runtime_tick reading ∷ nexts 14 [])

reaches_filled :
    (s : Threads ℕ (List (Metrics ℕ))) × (run float recorder false 0 filling (boot []) ≡ some s)
    × (length s.queue ≡ capacity)
    × (has_metric s.runtime ≡ true)
unfolding run step act next_runtime put boot runtime_gauges in_order collect_gauge
reaches_filled = (_, refl, refl, refl)

after_signal :
    (t : Threads ℕ (List (Metrics ℕ))) × (run float recorder false 0
        (signal ∷ gopsutil_leave ∷ [])
        reaches_filled.0
      ≡ some t)
unfolding run step act on_signal boot reaches_filled
after_signal = (_, refl)

run-stuck_example : (after_signal.0.main ≢ exited) × (after_signal.0.world ≡ reaches_filled.0.world)
run-stuck_example =
    run-stuck float recorder false 0 filling (signal ∷ gopsutil_leave ∷ []) [] reaches_filled.0
      after_signal.0 recorder-IsCalm reaches_filled.1 (λ i lt. absurd (omega arith))
      reaches_filled.2 has after_signal.1
  where
    has : (has_metric reaches_filled.0.runtime || has_metric reaches_filled.0.gopsutil) ≡ true
    has = rw reaches_filled.3 refl

abbrev receives : ℕ → List (Event ℕ) → List (Event ℕ)
receives zero es = es
receives (suc k) es = sender_next 1 ∷ receives k es

-- Two senders, a poll, a batch, and a shutdown in which the batch is sent and one metric is lost.
schedule : List (Event ℕ)
schedule =
    runtime_tick reading
    ∷ nexts 28 (
        sender_tick 1
        ∷ runtime_next
        ∷ receives 28 (
            signal
            ∷ sender_leave 0
            ∷ gopsutil_leave
            ∷ sender_next 1
            ∷ runtime_next
            ∷ runtime_leave
            ∷ main_next
            ∷ main_next
            ∷ []))

ended :
    (s : Threads ℕ (List (Metrics ℕ))) × (run float recorder true 2 schedule (boot []) ≡ some s)
    × (s.main ≡ exited)
    × (length s.world ≡ 28)
    × (map (λ q. q.id) s.queue ≡ "PollCount" ∷ [])
unfolding run step act next_runtime next_main next_sender receive on_signal put boot schedule
    runtime_gauges in_order collect_gauge
ended = (_, refl, refl, refl, refl)

run-ends_example :
    (ended.0.main ≢ crashed)
    × (length ended.0.queue ≤ capacity)
    × (ended.0.closed ≡ after_close ended.0.main)
    × (ended.0.closed ≡ true → (ended.0.runtime ≡ done) × (ended.0.gopsutil ≡ done))
run-ends_example = run-ends float recorder true 2 schedule [] ended.0 recorder-IsCalm ended.1

run-conserves_example : amount "Sys" 2 ended.0 ≡ gathered "Sys" float schedule
run-conserves_example = run-conserves float "Sys" 2 true schedule ended.0 ended.1
