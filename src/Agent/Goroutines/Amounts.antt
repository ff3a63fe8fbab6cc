-- ===== src/Agent/Goroutines/Amounts.antt =====
-- How many metrics of a name the agent has, on their way or sent, and what each move makes of it.
use metrify.Base.{
  ℕ, ◌+◌, ◌<◌, String, Bool, true, false, some, List, [], ◌∷◌, ◌++◌, ◌≡◌, refl, arith, map, ltb,
  if◌then◌else◌, ◌==◌, ap, sum_of, sum_of-replace,
}
use metrify.Model.{Metrics}
use metrify.Agent.Collecting.{runtime_gauges, gopsutil_gauges}
use metrify.Agent.Loop.{Queued, load, queued_gauge, queued_count}
use metrify.Agent.Loop.PollCount.{recorder, send_batch-recorder}
use metrify.Agent.Goroutines.{
  Collector, selecting, putting, counting, done, Drain, idle, draining, finished, Main, waiting,
  joining, closing, exited, crashed, Threads, Event, runtime_tick, gopsutil_tick, put, flush,
  called, receive, tick_sender, leave_sender, set_runtime, set_gopsutil, on_tick, on_leave,
  next_runtime, next_gopsutil, next_sender, next_main, on_signal,
}
use metrify.Agent.Goroutines.Invariant.{IsSound}

pub ltb→lt : (a b : ℕ) → ltb a b ≡ true → a < b
ltb→lt a b h = ground arith

-- How often a name is among others.
abbrev pub among : String → List String → ℕ
among name [] = 0
among name (id ∷ ids) = (if id == name then 1 else 0) + among name ids

among-append :
    (name : String) (ids ids' : List String)
    → among name (ids ++ ids') ≡ among name ids + among name ids'
among-append name [] ids' = omega arith
among-append name (id ∷ ids) ids' = omega (arith, among-append name ids ids')

abbrev pub queued_ids : {F : Type 0} → List (Queued F) → List String
queued_ids qs = map (λ q. q.id) qs

abbrev pub sent_ids : {F : Type 0} → List (Metrics F) → List String
sent_ids ms = map (λ m. m.id) ms

abbrev pub gauge_ids : {F : Type 0} → List (String × F) → List String
gauge_ids gauges = map (λ g. g.0) gauges

pub flush-recorder :
    {F : Type 0} (held : List (Queued F)) (s : Threads F (List (Metrics F)))
    → flush recorder held s ≡ record s { world = s.world ++ map (load s.poll_counter) held }
flush-recorder held s =
    ap (λ r. called r s) (send_batch-recorder (map (load s.poll_counter) held) s.world)

module _ {F : Type 0} (name : String) where
  pub queued-append :
      (qs rs : List (Queued F))
      → among name (queued_ids (qs ++ rs)) ≡ among name (queued_ids qs) + among name (queued_ids rs)
  queued-append [] rs = omega arith
  queued-append (q ∷ qs) rs = omega (arith, queued-append qs rs)

  pub sent-append :
      (ms : List (Metrics F)) (n : ℕ) (qs : List (Queued F))
      → among name (sent_ids (ms ++ map (load n) qs))
        ≡ among name (sent_ids ms) + among name (queued_ids qs)
  sent-append [] n [] = omega arith
  sent-append [] n (q ∷ qs) = omega (arith, sent-append [] n qs)
  sent-append (m ∷ ms) n qs = omega (arith, sent-append ms n qs)

  pub among-gauges :
      (gauges : List (String × F))
      → among name (queued_ids (map queued_gauge gauges)) ≡ among name (gauge_ids gauges)
  among-gauges [] = refl
  among-gauges ((id, v) ∷ gauges) = omega (arith, among-gauges gauges)

  -- What a collector has still to send of its tick: the one of runtime sends its counter last.
  abbrev pub runtime_rest : Collector F → ℕ
  runtime_rest (putting qs) = among name (queued_ids qs) + among name ("PollCount" ∷ [])
  runtime_rest counting = among name ("PollCount" ∷ [])
  runtime_rest _ = 0

  abbrev pub gopsutil_rest : Collector F → ℕ
  gopsutil_rest (putting qs) = among name (queued_ids qs)
  gopsutil_rest _ = 0

  abbrev pub held_by : Drain F → ℕ
  held_by (draining held) = among name (queued_ids held)
  held_by _ = 0

  -- How many metrics of that name there are, sent or not.
  abbrev pub amount : ℕ → Threads F (List (Metrics F)) → ℕ
  amount n s =
      among name (sent_ids s.world)
      + among name (queued_ids s.queue)
      + sum_of held_by n s.senders
      + runtime_rest s.runtime
      + gopsutil_rest s.gopsutil

  -- `float` is the conversion to float64.
  abbrev pub gathered_by : (ℕ → F) → Event F → ℕ
  gathered_by float (runtime_tick r) =
      among name (gauge_ids (runtime_gauges float r)) + among name ("PollCount" ∷ [])
  gathered_by float (gopsutil_tick r) = among name (gauge_ids (gopsutil_gauges float r))
  gathered_by float _ = 0

  abbrev pub gathered : (ℕ → F) → List (Event F) → ℕ
  gathered float [] = 0
  gathered float (e ∷ es) = gathered_by float e + gathered float es

  module _ (n : ℕ) {s t : Threads F (List (Metrics F))} (sound : IsSound s) where
    pub runtime-conserves :
        (c : Collector F) → s.runtime ≡ c → next_runtime c s ≡ some t → amount n t ≡ amount n s
    unfolding next_runtime put
    runtime-conserves selecting at h = cc
    runtime-conserves (putting (q ∷ qs)) at h = ground (arith, queued-append s.queue (q ∷ []))
    runtime-conserves (putting []) at h = ground arith
    runtime-conserves counting at h = ground (arith, queued-append s.queue (queued_count ∷ []))
    runtime-conserves done at h = cc

    pub gopsutil-conserves :
        (c : Collector F) → s.gopsutil ≡ c → next_gopsutil c s ≡ some t → amount n t ≡ amount n s
    unfolding next_gopsutil put
    gopsutil-conserves selecting at h = cc
    gopsutil-conserves (putting (q ∷ qs)) at h = ground (arith, queued-append s.queue (q ∷ []))
    gopsutil-conserves (putting []) at h = ground arith
    gopsutil-conserves counting at h = cc
    gopsutil-conserves done at h = cc

  module _ (n : ℕ) (s : Threads F (List (Metrics F))) {t : Threads F (List (Metrics F))} where
    pub runtime_tick-gathers :
        (gauges : List (String × F)) (c : Collector F)
        → s.runtime ≡ c
        → set_runtime s (on_tick gauges c) ≡ some t
        → amount n t ≡ amount n s + (among name (gauge_ids gauges) + among name ("PollCount" ∷ []))
    runtime_tick-gathers gauges selecting at h = ground (arith, among-gauges gauges)
    runtime_tick-gathers gauges (putting qs) at h = cc
    runtime_tick-gathers gauges counting at h = cc
    runtime_tick-gathers gauges done at h = cc

    pub gopsutil_tick-gathers :
        (gauges : List (String × F)) (c : Collector F)
        → s.gopsutil ≡ c
        → set_gopsutil s (on_tick gauges c) ≡ some t
        → amount n t ≡ amount n s + among name (gauge_ids gauges)
    gopsutil_tick-gathers gauges selecting at h = ground (arith, among-gauges gauges)
    gopsutil_tick-gathers gauges (putting qs) at h = cc
    gopsutil_tick-gathers gauges counting at h = cc
    gopsutil_tick-gathers gauges done at h = cc

    pub leave_runtime-conserves :
        (b : Bool) (c : Collector F)
        → s.runtime ≡ c
        → set_runtime s (on_leave b c) ≡ some t
        → amount n t ≡ amount n s
    leave_runtime-conserves true selecting at h = ground arith
    leave_runtime-conserves b c at h = ground arith

    pub leave_gopsutil-conserves :
        (b : Bool) (c : Collector F)
        → s.gopsutil ≡ c
        → set_gopsutil s (on_leave b c) ≡ some t
        → amount n t ≡ amount n s
    leave_gopsutil-conserves true selecting at h = ground arith
    leave_gopsutil-conserves b c at h = ground arith

    pub next_main-conserves : (m : Main) → next_main m s ≡ some t → amount n t ≡ amount n s
    unfolding next_main
    next_main-conserves joining h = ground arith
    next_main-conserves closing h = ground arith
    next_main-conserves waiting h = cc
    next_main-conserves exited h = cc
    next_main-conserves crashed h = cc

    pub on_signal-conserves : (m : Main) → on_signal m s ≡ some t → amount n t ≡ amount n s
    unfolding on_signal
    on_signal-conserves waiting h = ground arith
    on_signal-conserves m h = ground arith

  module _ (n i : ℕ) (lt : i < n) (s : Threads F (List (Metrics F))) where
    pub tick_sender-conserves :
        {t : Threads F (List (Metrics F))} (d : Drain F)
        → s.senders i ≡ d
        → tick_sender i d s ≡ some t
        → amount n t ≡ amount n s
    tick_sender-conserves idle at h =
        ground (arith, sum_of-replace held_by n s.senders i (draining []) lt)
    tick_sender-conserves (draining held) at h = cc
    tick_sender-conserves finished at h = cc

    pub leave_sender-conserves :
        {t : Threads F (List (Metrics F))} (b : Bool) (d : Drain F)
        → s.senders i ≡ d
        → leave_sender i b d s ≡ some t
        → amount n t ≡ amount n s
    leave_sender-conserves true idle at h =
        ground (arith, sum_of-replace held_by n s.senders i finished lt)
    leave_sender-conserves b d at h = ground arith

    receive-conserves :
        (batch : Bool) (held qs : List (Queued F))
        → s.senders i ≡ draining held
        → s.queue ≡ qs
        → amount n (receive recorder batch i held qs s) ≡ amount n s
    unfolding receive
    receive-conserves batch held [] at empty = rw (flush-recorder held s) (
        ground (
          arith,
          sent-append s.world s.poll_counter held,
          sum_of-replace held_by n s.senders i (if s.closed then finished else idle) lt,
        ))
    receive-conserves true held (q ∷ qs) at next = ground (
      arith,
      sum_of-replace held_by n s.senders i (draining (held ++ q ∷ [])) lt,
      queued-append held (q ∷ []),
    )
    receive-conserves false held (q ∷ qs) at next =
        ground (arith, sent-append s.world s.poll_counter (q ∷ []))

    pub next_sender-conserves :
        {t : Threads F (List (Metrics F))} (batch : Bool) (d : Drain F)
        → s.senders i ≡ d
        → next_sender recorder batch i d s ≡ some t
        → amount n t ≡ amount n s
    unfolding next_sender
    next_sender-conserves batch (draining held) at h =
        ground (arith, receive-conserves batch held s.queue at refl)
    next_sender-conserves batch idle at h = cc
    next_sender-conserves batch finished at h = cc
