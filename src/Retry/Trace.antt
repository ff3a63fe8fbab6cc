-- ===== src/Retry/Trace.antt =====
-- Rounds that fail and are followed by another, described with no loop: what the calls return,
-- the pauses between them, and the states that they lead through.
use metrify.Base.{ℕ, zero, suc, ◌+◌, ◌≡◌, Option, some}
use metrify.Failure.{Failure}
use metrify.Retry.{delay}

module _ {S T : Type 0} (Again : Failure → Type 0) (sleep : ℕ → S → S) (base step : ℕ)
    (fn : S → T × Option Failure × S) where
  -- `Failing i n r e s t`: from `s`, the rounds i, …, i + n - 1 all fail by an error that is tried
  -- again, the pause of each is made, and `t` is the state after the last pause; `r` and `e` are
  -- the last result and error, or those before, where n is 0.
  pub data Failing : ℕ → ℕ → T → Option Failure → S → T → Option Failure → S → Type 0 where
    done : {i : ℕ} {r : T} {e : Option Failure} {s : S} → Failing i zero r e s r e s
    failed :
        {i n : ℕ} {r r' r'' : T} {e e'' : Option Failure} {x : Failure} {s s' s'' : S}
        → fn s ≡ (r', some x, s')
        → Again x
        → Failing (i + 1) n r' (some x) (sleep (delay base step i) s') r'' e'' s''
        → Failing i (suc n) r e s r'' e'' s''
