-- ===== src/Agent/Goroutines/Draining.antt =====
-- The loops drainBatch and drainSingle of runSender.
use metrify.Base.{ℕ, zero, suc, ◌<◌, List, [], ◌∷◌, ◌≡◌, if◌then◌else◌}
use metrify.Model.{Metrics}
use metrify.Agent.Goroutines.{idle, finished, Threads, Event, sender_next}

-- As many steps of one sender.
abbrev pub own_steps : {F : Type 0} → ℕ → ℕ → List (Event F)
own_steps zero i = []
own_steps (suc k) i = sender_next i ∷ own_steps k i

module _ {F : Type 0} (float : ℕ → F) (n i : ℕ) (lt : i < n) where
  -- The sender is after its loop: the channel is empty, it is back at its select, or at its end
  -- if the channel is closed, and its client has `ms`.
  abbrev pub Drained :
      List (Metrics F) → Threads F (List (Metrics F)) → Threads F (List (Metrics F)) → Type 0
  Drained ms s t =
      (t.queue ≡ []) × (t.senders i ≡ (if s.closed then finished else idle)) × (t.world ≡ ms)
