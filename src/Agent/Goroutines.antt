-- ===== src/Agent/Goroutines.antt =====
-- The goroutines of cmd/agent/main.go step by step, in any order: the collectors, the senders, and
-- main from its wait for a signal to its end, on the channel with its capacity. A step is one
-- operation on the channel, one call of the client, or one case of a select; a send on a full
-- channel is not a step, as the goroutine waits. The events say which step is made.
pub mod Invariant
pub mod Sound
pub mod Ending
pub mod Stuck
pub mod Amounts
pub mod Conserving
pub mod Draining
use metrify.Base.{
  ℕ, suc, String, Bool, true, false, ◌&&◌, not, Option, none, some, List, [], ◌∷◌, ◌++◌, map,
  length, ltb, if◌then◌else◌, Outcome, returned, panicked, replace,
}
use metrify.Failure.{Failure}
use metrify.Int64.{add64}
use metrify.Model.{Metrics}
use metrify.Agent.Collecting.{Reading, runtime_gauges, gopsutil_gauges}
use metrify.Agent.Loop.{Sender, Queued, load, queued_gauge, queued_count, send_batch}

-- make(chan models.Metrics, 1000)
abbrev pub capacity : ℕ
capacity = 1000

-- Where a collector stands: at its select, in the loop over what it collected, before it sends its
-- poll counter, or at its end.
pub data Collector (F : Type 0) : Type 0 where
  selecting : Collector F
  putting : List (Queued F) → Collector F
  counting : Collector F
  done : Collector F

-- Where a sender stands; `held` is the batch that it has taken off the channel.
pub data Drain (F : Type 0) : Type 0 where
  idle : Drain F
  draining : (held : List (Queued F)) → Drain F
  finished : Drain F

-- Where main stands: at <-sigCh, at wg.Wait(), after close(metricChan), or at its end, with which
-- the process ends, as it does with a panic.
pub data Main : Type 0 where
  waiting : Main
  joining : Main
  closing : Main
  exited : Main
  crashed : Main

pub record Threads (F W : Type 0) : Type 0 where
  pub queue : List (Queued F)
  pub closed : Bool
  pub cancelled : Bool
  pub poll_counter : ℕ
  pub runtime : Collector F
  pub gopsutil : Collector F
  pub senders : ℕ → Drain F
  pub main : Main
  pub world : W

-- A goroutine's own choices: a tick of its ticker, its next operation, or the case <-ctx.Done().
pub data Event (F : Type 0) : Type 0 where
  runtime_tick : Reading F → Event F
  runtime_next : Event F
  runtime_leave : Event F
  gopsutil_tick : Reading F → Event F
  gopsutil_next : Event F
  gopsutil_leave : Event F
  sender_tick : ℕ → Event F
  sender_next : ℕ → Event F
  sender_leave : ℕ → Event F
  signal : Event F
  main_next : Event F

abbrev pub collected : {F : Type 0} → List (String × F) → Collector F
collected gauges = putting (map queued_gauge gauges)

-- The case <-ticker.C, where the collector stands at its select.
abbrev pub on_tick : {F : Type 0} → List (String × F) → Collector F → Option (Collector F)
on_tick gauges selecting = some (collected gauges)
on_tick gauges _ = none

-- The case <-ctx.Done().
abbrev pub on_leave : {F : Type 0} → Bool → Collector F → Option (Collector F)
on_leave true selecting = some done
on_leave _ _ = none

abbrev pub is_running : Main → Bool
is_running exited = false
is_running crashed = false
is_running _ = true

module _ {F W : Type 0} where
  -- main before its wait for a signal
  unfoldable pub boot : W → Threads F W
  boot w = record {
    queue = [];
    closed = false;
    cancelled = false;
    poll_counter = 0;
    runtime = selecting;
    gopsutil = selecting;
    senders = λ i. idle;
    main = waiting;
    world = w;
  }

  -- A send on the channel: it panics on a closed one, and waits on a full one.
  unfoldable pub put : Queued F → Threads F W → Option (Threads F W)
  put q s =
      if s.closed
      then some (record s { main = crashed })
      else if ltb (length s.queue) capacity
      then some (record s { queue = s.queue ++ q ∷ [] })
      else none

  abbrev pub with_runtime : Collector F → Option (Threads F W) → Option (Threads F W)
  with_runtime c none = none
  with_runtime c (some s) = some (record s { runtime = c })

  abbrev pub with_gopsutil : Collector F → Option (Threads F W) → Option (Threads F W)
  with_gopsutil c none = none
  with_gopsutil c (some s) = some (record s { gopsutil = c })

  abbrev pub set_runtime : Threads F W → Option (Collector F) → Option (Threads F W)
  set_runtime s none = none
  set_runtime s (some c) = some (record s { runtime = c })

  abbrev pub set_gopsutil : Threads F W → Option (Collector F) → Option (Threads F W)
  set_gopsutil s none = none
  set_gopsutil s (some c) = some (record s { gopsutil = c })

  unfoldable pub next_runtime : Collector F → Threads F W → Option (Threads F W)
  unfolding put
  next_runtime selecting s = none
  next_runtime (putting (q ∷ qs)) s = with_runtime (putting qs) (put q s)
  next_runtime (putting []) s =
      some (record s { poll_counter = add64 s.poll_counter 1; runtime = counting })
  next_runtime counting s = with_runtime selecting (put queued_count s)
  next_runtime done s = none

  unfoldable pub next_gopsutil : Collector F → Threads F W → Option (Threads F W)
  unfolding put
  next_gopsutil selecting s = none
  next_gopsutil (putting (q ∷ qs)) s = with_gopsutil (putting qs) (put q s)
  next_gopsutil (putting []) s = some (record s { gopsutil = selecting })
  next_gopsutil counting s = none
  next_gopsutil done s = none

  abbrev pub joined : Collector F → Collector F → Threads F W → Option (Threads F W)
  joined done done s = some (record s { closed = true; main = closing })
  joined _ _ s = none

  -- wg.Wait() with close(metricChan), and the end of main.
  unfoldable pub next_main : Main → Threads F W → Option (Threads F W)
  next_main joining s = joined s.runtime s.gopsutil s
  next_main closing s = some (record s { main = exited })
  next_main _ s = none

  unfoldable pub on_signal : Main → Threads F W → Option (Threads F W)
  on_signal waiting s = some (record s { cancelled = true; main = joining })
  on_signal _ s = none

  -- What a call of the client leaves behind: a panic ends the process.
  abbrev pub called : {A : Type 0} → Outcome A × W → Threads F W → Threads F W
  called (returned a, w) s = record s { world = w }
  called (panicked, w) s = record s { world = w; main = crashed }

  abbrev pub tick_sender : ℕ → Drain F → Threads F W → Option (Threads F W)
  tick_sender i idle s = some (record s { senders = replace s.senders i (draining []) })
  tick_sender i _ s = none

  abbrev pub leave_sender : ℕ → Bool → Drain F → Threads F W → Option (Threads F W)
  leave_sender i true idle s = some (record s { senders = replace s.senders i finished })
  leave_sender i _ _ s = none

module _ {F W : Type 0} (client : Sender F W) where
  -- if len(batch) > 0 { client.UpdateMetrics(batch) }. A delta is read when it is sent.
  abbrev pub flush : List (Queued F) → Threads F W → Threads F W
  flush held s = called (send_batch client (map (load s.poll_counter) held) s.world) s

-- A sender, with its client and f.BatchUpdate.
module _ {F W : Type 0} (client : Sender F W) (batch : Bool) where
  unfoldable pub receive : ℕ → List (Queued F) → List (Queued F) → Threads F W → Threads F W
  receive i held [] s =
      let s' = flush client held s in
      record s' { senders = replace s'.senders i (if s.closed then finished else idle) }
  receive i held (q ∷ qs) s =
      if batch
      then record s { queue = qs; senders = replace s.senders i (draining (held ++ q ∷ [])) }
      else called (client.update_metric (load s.poll_counter q) s.world) (record s { queue = qs })

  unfoldable pub next_sender : ℕ → Drain F → Threads F W → Option (Threads F W)
  unfolding receive
  next_sender i (draining held) s = some (receive i held s.queue s)
  next_sender i _ s = none

-- The agent with `n` senders; `float` is the conversion to float64.
module _ {F W : Type 0} (float : ℕ → F) (client : Sender F W) (batch : Bool) (n : ℕ) where
  unfoldable pub act : Event F → Threads F W → Option (Threads F W)
  unfolding next_runtime next_gopsutil next_sender next_main on_signal runtime_gauges
      gopsutil_gauges
  act (runtime_tick r) s = set_runtime s (on_tick (runtime_gauges float r) s.runtime)
  act runtime_next s = next_runtime s.runtime s
  act runtime_leave s = set_runtime s (on_leave s.cancelled s.runtime)
  act (gopsutil_tick r) s = set_gopsutil s (on_tick (gopsutil_gauges float r) s.gopsutil)
  act gopsutil_next s = next_gopsutil s.gopsutil s
  act gopsutil_leave s = set_gopsutil s (on_leave s.cancelled s.gopsutil)
  act (sender_tick i) s = if ltb i n then tick_sender i (s.senders i) s else none
  act (sender_next i) s = if ltb i n then next_sender client batch i (s.senders i) s else none
  act (sender_leave i) s = if ltb i n then leave_sender i s.cancelled (s.senders i) s else none
  act signal s = on_signal s.main s
  act main_next s = next_main s.main s

  -- One step of the process, or none where that step cannot be made.
  unfoldable pub step : Event F → Threads F W → Option (Threads F W)
  unfolding act
  step e s = if is_running s.main then act e s else none

  abbrev pub after :
      Option (Threads F W) → (Threads F W → Option (Threads F W)) → Option (Threads F W)
  after none k = none
  after (some s) k = k s

  unfoldable pub run : List (Event F) → Threads F W → Option (Threads F W)
  unfolding step
  run [] s = some s
  run (e ∷ es) s = after (step e s) (λ t. run es t)
