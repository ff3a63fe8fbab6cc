-- ===== src/Agent/Goroutines/Ending.antt =====
-- How the agent ends: never by a send on the closed channel.
use metrify.Base.{ℕ, ◌≤◌, Bool, true, some, List, ◌≡◌, ◌≢◌, arith, length}
use metrify.Agent.Loop.{Sender}
use metrify.Agent.Goroutines.{capacity, done, crashed, Threads, Event, boot, run}
use metrify.Agent.Goroutines.Invariant.{IsSound, IsCalm, after_close}
use metrify.Agent.Goroutines.Sound.{run-IsSound}

module _ {F W : Type 0} where
  pub boot-IsSound : (w : W) → IsSound (boot {F = F} w)
  unfolding boot
  boot-IsSound w = ground arith

  -- Whatever the goroutines of an agent do, and in whatever order, if no call of the client panics
  -- the agent does not panic either, and the channel never holds more than its capacity. The
  -- channel is closed exactly from the end of wg.Wait() on, and then both collectors have
  -- returned.
  pub run-ends :
      (float : ℕ → F) (client : Sender F W) (batch : Bool) (n : ℕ) (es : List (Event F)) (w : W)
      (s : Threads F W)
      → IsCalm client
      → run float client batch n es (boot w) ≡ some s
      → (s.main ≢ crashed)
        × (length s.queue ≤ capacity)
        × (s.closed ≡ after_close s.main)
        × (s.closed ≡ true → (s.runtime ≡ done) × (s.gopsutil ≡ done))
  run-ends float client batch n es w s calm h = (
    ground (arith, sound.alive),
    sound.room,
    sound.closes,
    λ closed. (sound.runtime_done closed, sound.gopsutil_done closed),
  )
    where
      sound : IsSound s
      sound = run-IsSound float client batch calm n es (boot w) s (boot-IsSound w) h
