-- ===== src/Agent/Collecting/Unsent.antt =====
-- What CollectGopsutilGauges gathers is never sent.
use metrify.Base.{
  ℕ, zero, suc, ◌+◌, String, Bool, some, List, [], ◌∷◌, ◌⊎◌, inl, inr, ap, ◌≡◌, ◌≢◌, refl, arith,
  Bool-cases, eq_iff, ◌==◌, if◌then◌else◌,
}
use metrify.Failure.{Failure}
use metrify.Model.{Metrics}
use metrify.Agent.Collecting.{
  VirtualMemory, Reading, take_at, in_order, collect_gauge, runtime_gauges, gopsutil_gauges,
  collect_gopsutil_gauges,
}
use metrify.Agent.Collecting.Names.{IsForeign, AllForeign, collect_gopsutil_gauges-AllForeign}
use metrify.Agent.Loop.PollCount.{recorder}
use metrify.Agent.Goroutines.{Threads, Event, runtime_tick, gopsutil_tick, boot, run}
use metrify.Agent.Goroutines.Amounts.{among, gauge_ids, sent_ids, gathered, gathered_by}
use metrify.Agent.Goroutines.Conserving.{run-conserves}

module _ {F : Type 0} (name : String) where
  among-take_at :
      (k : ℕ) (g : String × F) (gs : List (String × F))
      → among name (gauge_ids ((take_at k g gs).0 ∷ (take_at k g gs).1))
        ≡ among name (gauge_ids (g ∷ gs))
  among-take_at zero g gs = refl
  among-take_at (suc k) g [] = refl
  among-take_at (suc k) g (h ∷ gs) = omega (arith, among-take_at k h gs)

  -- The order of the loop changes no name.
  among-in_order :
      (ks : List ℕ) (gs : List (String × F))
      → among name (gauge_ids (in_order ks gs)) ≡ among name (gauge_ids gs)
  unfolding in_order
  among-in_order [] gs = refl
  among-in_order (k ∷ ks) [] = refl
  among-in_order (k ∷ ks) (g ∷ gs) =
      omega (arith, among-take_at k g gs, among-in_order ks (take_at k g gs).1)

module _ {F : Type 0} (float : ℕ → F) where
  collected-foreign :
      (name : String) (r : Reading F)
      → IsForeign name
      → among name (gauge_ids (collect_gauge float r.stats r.random))
          + among name ("PollCount" ∷ [])
        ≡ 0
  unfolding collect_gauge
  collected-foreign name r foreign = omega (arith)

  gathered_by-foreign :
      (name : String) (e : Event F) → IsForeign name → gathered_by name float e ≡ 0
  unfolding runtime_gauges gopsutil_gauges
  gathered_by-foreign name (runtime_tick r) foreign = omega (
    arith,
    collected-foreign name r foreign,
    among-in_order name r.order (collect_gauge float r.stats r.random),
  )
  gathered_by-foreign name (gopsutil_tick r) foreign = omega (
    arith,
    collected-foreign name r foreign,
    among-in_order name r.order (collect_gauge float r.stats r.random),
  )
  gathered_by-foreign name e foreign = refl

  gathered-foreign :
      (name : String) (es : List (Event F)) → IsForeign name → gathered name float es ≡ 0
  gathered-foreign name [] foreign = refl
  gathered-foreign name (e ∷ es) foreign =
      omega (arith, gathered_by-foreign name e foreign, gathered-foreign name es foreign)

IsForeign-of_among :
    {F : Type 0} (name : String) (gauges : List (String × F))
    → AllForeign gauges
    → among name (gauge_ids gauges) ≢ 0
    → IsForeign name
IsForeign-of_among name [] all h = absurd (h refl)
IsForeign-of_among name ((id, v) ∷ gauges) all h = elim (Bool-cases (id == name)) [
  | inl e ↦ let same : id ≡ name = (eq_iff id name).0 e in rw (← same) all.0
  | inr e ↦
      IsForeign-of_among name gauges all.1 (λ none_later.
        h (omega (arith, ap {B = ℕ} (λ (b : Bool). if b then 1 else 0) e, none_later)))
]

-- No gauge of CollectGopsutilGauges (TotalMemory, FreeMemory and CPUutilization1, 2, …) is ever
-- sent by the agent, whatever memory and processors it finds and whatever its goroutines do in
-- whatever order, where the client keeps what it is given.
pub run-gopsutil_unsent :
    {F : Type 0} (float : ℕ → F) (decimal : ℕ → String)
    → (vm : Failure ⊎ VirtualMemory) (percents : Failure ⊎ List F) (name : String)
    → (n : ℕ) (batch : Bool) (es : List (Event F)) (s : Threads F (List (Metrics F)))
    → among name (gauge_ids (collect_gopsutil_gauges float decimal vm percents)) ≢ 0
    → run float recorder batch n es (boot []) ≡ some s
    → among name (sent_ids s.world) ≡ 0
run-gopsutil_unsent float decimal vm percents name n batch es s given h =
    let foreign =
      IsForeign-of_among name _ (collect_gopsutil_gauges-AllForeign float decimal vm percents)
        given in
    omega (arith, run-conserves float name n batch es s h, gathered-foreign float name es foreign)
