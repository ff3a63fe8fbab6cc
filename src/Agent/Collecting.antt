-- ===== src/Agent/Collecting.antt =====
-- internal/agent/collector.go: what one collection gathers. Map literals and maps are association
-- lists; the loops of cmd/agent/main.go go over them in any order. Each tick has a reading.
pub mod Names
pub mod Unsent
use Prim.Native.String.{◌++◌}
use metrify.Base.{ℕ, String, zero, suc, ◌+◌, Bool, List, [], ◌∷◌, ◌⊎◌, inl, inr}
use metrify.Base.GoMap.{insert}
use metrify.Failure.{Failure}

-- The fields of runtime.MemStats that are read; GCCPUFraction is a float64 already.
pub record MemStats (F : Type 0) : Type 0 where
  pub alloc : ℕ
  pub buck_hash_sys : ℕ
  pub frees : ℕ
  pub gc_cpu_fraction : F
  pub gc_sys : ℕ
  pub heap_alloc : ℕ
  pub heap_idle : ℕ
  pub heap_inuse : ℕ
  pub heap_objects : ℕ
  pub heap_released : ℕ
  pub heap_sys : ℕ
  pub last_gc : ℕ
  pub lookups : ℕ
  pub m_cache_inuse : ℕ
  pub m_cache_sys : ℕ
  pub m_span_inuse : ℕ
  pub m_span_sys : ℕ
  pub mallocs : ℕ
  pub next_gc : ℕ
  pub num_forced_gc : ℕ
  pub num_gc : ℕ
  pub other_sys : ℕ
  pub pause_total_ns : ℕ
  pub stack_inuse : ℕ
  pub stack_sys : ℕ
  pub sys : ℕ
  pub total_alloc : ℕ

-- mem.VirtualMemoryStat
pub record VirtualMemory : Type 0 where
  pub total : ℕ
  pub free : ℕ

-- range over a map, which may take the entries in any order: the k-th of those that are left comes
-- next, or the last of them.
module _ {A : Type 0} where
  abbrev pub take_at : ℕ → A → List A → A × List A
  take_at zero g gs = (g, gs)
  take_at (suc k) g [] = (g, [])
  take_at (suc k) g (h ∷ gs) = let (a, rest) = take_at k h gs in (a, g ∷ rest)

  unfoldable pub in_order : List ℕ → List A → List A
  in_order [] gs = gs
  in_order (k ∷ ks) [] = []
  in_order (k ∷ ks) (g ∷ gs) = let (a, rest) = take_at k g gs in a ∷ in_order ks rest

-- What a collector meets at a tick: what runtime.ReadMemStats and rand.Float64 give, and the order
-- in which it goes over the map.
pub record Reading (F : Type 0) : Type 0 where
  pub stats : MemStats F
  pub random : F
  pub order : List ℕ

-- `float` is the conversion to float64.
module _ {F : Type 0} (float : ℕ → F) where
  -- CollectGauge: `m` is what runtime.ReadMemStats gives, `random` what rand.Float64 does.
  unfoldable pub collect_gauge : MemStats F → F → List (String × F)
  collect_gauge m random =
      ("Alloc", float m.alloc)
      ∷ ("BuckHashSys", float m.buck_hash_sys)
      ∷ ("Frees", float m.frees)
      ∷ ("GCCPUFraction", m.gc_cpu_fraction)
      ∷ ("GCSys", float m.gc_sys)
      ∷ ("HeapAlloc", float m.heap_alloc)
      ∷ ("HeapIdle", float m.heap_idle)
      ∷ ("HeapInuse", float m.heap_inuse)
      ∷ ("HeapObjects", float m.heap_objects)
      ∷ ("HeapReleased", float m.heap_released)
      ∷ ("HeapSys", float m.heap_sys)
      ∷ ("LastGC", float m.last_gc)
      ∷ ("Lookups", float m.lookups)
      ∷ ("MCacheInuse", float m.m_cache_inuse)
      ∷ ("MCacheSys", float m.m_cache_sys)
      ∷ ("MSpanInuse", float m.m_span_inuse)
      ∷ ("MSpanSys", float m.m_span_sys)
      ∷ ("Mallocs", float m.mallocs)
      ∷ ("NextGC", float m.next_gc)
      ∷ ("NumForcedGC", float m.num_forced_gc)
      ∷ ("NumGC", float m.num_gc)
      ∷ ("OtherSys", float m.other_sys)
      ∷ ("PauseTotalNs", float m.pause_total_ns)
      ∷ ("StackInuse", float m.stack_inuse)
      ∷ ("StackSys", float m.stack_sys)
      ∷ ("Sys", float m.sys)
      ∷ ("TotalAlloc", float m.total_alloc)
      ∷ ("RandomValue", random)
      ∷ []

  -- What the loops of runRuntimeCollector and runGopsutilCollector go over at a tick: both call
  -- CollectGauge.
  unfoldable pub runtime_gauges : Reading F → List (String × F)
  unfolding collect_gauge in_order
  runtime_gauges r = in_order r.order (collect_gauge r.stats r.random)

  unfoldable pub gopsutil_gauges : Reading F → List (String × F)
  unfolding collect_gauge in_order
  gopsutil_gauges r = in_order r.order (collect_gauge r.stats r.random)

  abbrev pub memory_gauges : Failure ⊎ VirtualMemory → List (String × F) → List (String × F)
  memory_gauges (inl e) gauges = gauges
  memory_gauges (inr vm) gauges =
      insert "FreeMemory" (float vm.free) (insert "TotalMemory" (float vm.total) gauges)

-- fmt.Sprintf("CPUutilization%d", n), where `decimal` is what %d prints.
abbrev pub cpu_key : (ℕ → String) → ℕ → String
cpu_key decimal n = "CPUutilization" ++ decimal n

module _ {F : Type 0} (float : ℕ → F) (decimal : ℕ → String) where
  abbrev pub cpu_loop : ℕ → List F → List (String × F) → List (String × F)
  cpu_loop i [] gauges = gauges
  cpu_loop i (p ∷ ps) gauges = cpu_loop (suc i) ps (insert (cpu_key decimal (i + 1)) p gauges)

  abbrev pub cpu_gauges : Failure ⊎ List F → List (String × F) → List (String × F)
  cpu_gauges (inl e) gauges = gauges
  cpu_gauges (inr percents) gauges = cpu_loop 0 percents gauges

  -- CollectGopsutilGauges, with what mem.VirtualMemory and cpu.Percent give. No program calls it.
  unfoldable pub collect_gopsutil_gauges :
      Failure ⊎ VirtualMemory → Failure ⊎ List F → List (String × F)
  unfolding insert
  collect_gopsutil_gauges vm percents = cpu_gauges percents (memory_gauges float vm [])
