-- ===== src/Agent/Collecting/Names.antt =====
-- The names of what is collected, and those that the agent never sends.
use Prim.Native.String.{count}
use text.Mathlib.TextLemmas.{length-append}
use metrify.Base.{
  ℕ, suc, ◌+◌, ◌<◌, String, List, [], ◌∷◌, ◌⊎◌, inl, inr, ◌≡◌, ◌≢◌, ap, Bool-cases, refl, arith,
  All, ◌==◌, eq_iff,
}
use metrify.Base.GoMap.{insert}
use metrify.Failure.{Failure}
use metrify.Agent.Collecting.{
  VirtualMemory, cpu_key, memory_gauges, cpu_loop, collect_gopsutil_gauges,
}
use metrify.Agent.Goroutines.Amounts.{among}

ne-cpu_key : (decimal : ℕ → String) (n : ℕ) (id : String) → count id < 14 → id ≢ cpu_key decimal n
ne-cpu_key decimal n id short e =
    omega (arith, ap count e, length-append "CPUutilization" (decimal n))

-- The names of CollectGauge, and that of the poll counter.
abbrev pub collected_names : List String
collected_names =
    "Alloc" ∷ "BuckHashSys" ∷ "Frees" ∷ "GCCPUFraction" ∷ "GCSys" ∷ "HeapAlloc" ∷ "HeapIdle"
    ∷ "HeapInuse" ∷ "HeapObjects" ∷ "HeapReleased" ∷ "HeapSys" ∷ "LastGC" ∷ "Lookups"
    ∷ "MCacheInuse" ∷ "MCacheSys" ∷ "MSpanInuse" ∷ "MSpanSys" ∷ "Mallocs" ∷ "NextGC" ∷ "NumForcedGC"
    ∷ "NumGC" ∷ "OtherSys" ∷ "PauseTotalNs" ∷ "StackInuse" ∷ "StackSys" ∷ "Sys" ∷ "TotalAlloc"
    ∷ "RandomValue" ∷ "PollCount" ∷ []

abbrev pub IsForeign : String → Type 0
IsForeign name = among name collected_names ≡ 0

among_shorter :
    (decimal : ℕ → String) (n : ℕ) (ids : List String)
    → All (λ id. count id < 14) ids
    → among (cpu_key decimal n) ids ≡ 0
among_shorter decimal n [] short = refl
among_shorter decimal n (id ∷ ids) short = ground (
  arith,
  among_shorter decimal n ids short.1,
  eq_iff id (cpu_key decimal n),
  ne-cpu_key decimal n id short.0,
)

cpu_key-IsForeign : (decimal : ℕ → String) (n : ℕ) → IsForeign (cpu_key decimal n)
cpu_key-IsForeign decimal n = among_shorter decimal n collected_names (omega arith)

module _ {F : Type 0} where
  -- Every name is one that CollectGauge does not give.
  abbrev pub AllForeign : List (String × F) → Type 0
  AllForeign gauges = All (λ g. IsForeign g.0) gauges

  insert-AllForeign :
      (name : String) (v : F) (gauges : List (String × F))
      → IsForeign name
      → AllForeign gauges
      → AllForeign (insert name v gauges)
  unfolding insert
  insert-AllForeign name v [] foreign all = (foreign, tt)
  insert-AllForeign name v ((id, w) ∷ gauges) foreign all = elim (Bool-cases (id == name)) [
    | inl e ↦ rw e (foreign, all.1)
    | inr e ↦ rw e (all.0, insert-AllForeign name v gauges foreign all.1)
  ]

module _ {F : Type 0} (float : ℕ → F) (decimal : ℕ → String) where
  memory_gauges-AllForeign : (vm : Failure ⊎ VirtualMemory) → AllForeign (memory_gauges float vm [])
  memory_gauges-AllForeign (inl e) = tt
  memory_gauges-AllForeign (inr vm) =
      insert-AllForeign "FreeMemory" (float vm.free) _ refl
        (insert-AllForeign "TotalMemory" (float vm.total) [] refl tt)

  cpu_loop-AllForeign :
      (i : ℕ) (ps : List F) (gauges : List (String × F))
      → AllForeign gauges
      → AllForeign (cpu_loop float decimal i ps gauges)
  cpu_loop-AllForeign i [] gauges all = all
  cpu_loop-AllForeign i (p ∷ ps) gauges all =
      cpu_loop-AllForeign (suc i) ps (insert (cpu_key decimal (i + 1)) p gauges) (
        insert-AllForeign (cpu_key decimal (i + 1)) p gauges (cpu_key-IsForeign decimal (i + 1))
          all)

  pub collect_gopsutil_gauges-AllForeign :
      (vm : Failure ⊎ VirtualMemory) (percents : Failure ⊎ List F)
      → AllForeign (collect_gopsutil_gauges float decimal vm percents)
  unfolding collect_gopsutil_gauges
  collect_gopsutil_gauges-AllForeign vm (inl e) = memory_gauges-AllForeign vm
  collect_gopsutil_gauges-AllForeign vm (inr percents) =
      cpu_loop-AllForeign 0 percents _ (memory_gauges-AllForeign vm)
