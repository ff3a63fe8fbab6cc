-- ===== src/Tests/Gathering.antt =====
-- The collectors at a concrete machine.
use metrify.Base.{
  ℕ, String, false, some, List, [], ◌∷◌, ◌⊎◌, inl, inr, ◌≡◌, ◌≢◌, refl, codes, arith, nat_eq,
  if◌then◌else◌,
}
use metrify.Failure.{Failure, message}
use metrify.Model.{Metrics}
use metrify.Agent.Collecting.{
  MemStats, VirtualMemory, Reading, in_order, collect_gauge, runtime_gauges, gopsutil_gauges,
  collect_gopsutil_gauges,
}
use metrify.Agent.Collecting.Unsent.{run-gopsutil_unsent}
use metrify.Agent.Loop.PollCount.{recorder}
use metrify.Agent.Goroutines.{
  Threads, Event, runtime_tick, runtime_next, gopsutil_tick, gopsutil_next, next_gopsutil,
  sender_tick, sender_next, boot, run, step, act, put, next_runtime, next_sender, receive,
}
use metrify.Agent.Goroutines.Amounts.{among, gauge_ids, sent_ids}

abbrev pub stats : MemStats ℕ
stats = record {
  alloc = 1;
  buck_hash_sys = 2;
  frees = 3;
  gc_cpu_fraction = 4;
  gc_sys = 5;
  heap_alloc = 6;
  heap_idle = 7;
  heap_inuse = 8;
  heap_objects = 9;
  heap_released = 10;
  heap_sys = 11;
  last_gc = 12;
  lookups = 13;
  m_cache_inuse = 14;
  m_cache_sys = 15;
  m_span_inuse = 16;
  m_span_sys = 17;
  mallocs = 18;
  next_gc = 19;
  num_forced_gc = 20;
  num_gc = 21;
  other_sys = 22;
  pause_total_ns = 23;
  stack_inuse = 24;
  stack_sys = 25;
  sys = 26;
  total_alloc = 27;
}

abbrev pub float : ℕ → ℕ
float n = n

-- The text of a number below 3.
abbrev decimal : ℕ → String
decimal n = if nat_eq n 1 then "1" else "2"

abbrev memory : Failure ⊎ VirtualMemory
memory = inr (record { total = 100; free = 40 })

machine_gauges :
    collect_gopsutil_gauges float decimal memory (inr (7 ∷ 8 ∷ []))
    ≡ ("TotalMemory", 100)
      ∷ ("FreeMemory", 40)
      ∷ ("CPUutilization1", 7)
      ∷ ("CPUutilization2", 8)
      ∷ []
unfolding collect_gopsutil_gauges
machine_gauges = refl

gopsutil_failed :
    ◌≡◌ {A = List (String × ℕ)}
      (collect_gopsutil_gauges float decimal (inl (message (codes "no proc"))) (inr (7 ∷ [])))
      (("CPUutilization1", 7) ∷ [])
unfolding collect_gopsutil_gauges
gopsutil_failed = refl

-- What a tick finds, with the third gauge first.
abbrev pub reading : Reading ℕ
reading = record { stats = stats; random = 28; order = 2 ∷ [] }

gathering : List (Event ℕ)
gathering =
    runtime_tick reading
    ∷ runtime_next
    ∷ gopsutil_tick reading
    ∷ gopsutil_next
    ∷ sender_tick 0
    ∷ runtime_next
    ∷ sender_next 0
    ∷ sender_next 0
    ∷ []

sends :
    (s : Threads ℕ (List (Metrics ℕ))) × (run float recorder false 1 gathering (boot []) ≡ some s)
    × (sent_ids s.world ≡ "Frees" ∷ "Frees" ∷ [])
unfolding run step act next_runtime next_gopsutil next_sender receive put boot gathering
    collect_gauge runtime_gauges gopsutil_gauges in_order
sends = (_, refl, refl)

memory_given :
    among "TotalMemory" (gauge_ids (collect_gopsutil_gauges float decimal memory (inr (7 ∷ []))))
    ≢ 0
unfolding collect_gopsutil_gauges
memory_given e = omega arith

run-gopsutil_unsent_example : among "TotalMemory" (sent_ids sends.0.world) ≡ 0
run-gopsutil_unsent_example =
    run-gopsutil_unsent float decimal memory (inr (7 ∷ [])) "TotalMemory" 1 false gathering sends.0
      memory_given sends.1
