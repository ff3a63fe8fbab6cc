-- ===== src/Retry.antt =====
-- internal/service/retry.go: calling a function again after it fails.
-- `S` is what the calls change, and `fn` one call: its result, its error and the state after it.
-- The loop recurs on the rounds left, `i` counts the rounds from 1. A negative number of attempts
-- makes no round, as 0 does, and is not told apart from it. A Duration is an int64 of nanoseconds.
pub mod Trace
pub mod Laws
pub mod Database
use metrify.Base.{
  ℕ, zero, suc, ◌+◌, ◌-◌, ◌*◌, ◌%◌, String, Bool, true, false, ◌||◌, Option, none, some, ◌==◌,
  if◌then◌else◌,
}
use metrify.Int64.{modulus}
use metrify.Failure.{Failure, message, pg_error, after, after_nil}

-- fmt.Errorf("after %d attempts, last error: %w", attempts, err): never nil.
unfoldable pub exhausted : ℕ → Option Failure → Failure
exhausted attempts none = after_nil attempts
exhausted attempts (some e) = after attempts e

-- base + step*time.Duration(i-1)
unfoldable pub delay : ℕ → ℕ → ℕ → ℕ
delay base step i = (base + step * (i - 1)) % modulus

-- errors.As(err, &pgErr) and pgErr.SQLState(): the first *PgError of the chain.
unfoldable pub sql_state : Failure → Option String
sql_state (message t) = none
sql_state (pg_error state) = some state
sql_state (after n e) = sql_state e
sql_state (after_nil n) = none

-- pgerrcode.ConnectionFailure, TooManyConnections and DeadlockDetected
abbrev pub is_transient : String → Bool
is_transient state = state == "08006" || state == "53300" || state == "40P01"

abbrev pub is_transient? : Option String → Bool
is_transient? none = false
is_transient? (some state) = is_transient state

-- The two tests of RetryDB that do not return the error at once.
unfoldable pub is_retryable : Failure → Bool
unfolding sql_state
is_retryable e = is_transient? (sql_state e)

module _ {S T : Type 0} (sleep : ℕ → S → S) (attempts base step : ℕ)
    (fn : S → T × Option Failure × S) where
  unfoldable pub retry_from : ℕ → ℕ → T → Option Failure → S → T × Option Failure × S
  retry_from zero i res err s = (res, some (exhausted attempts err), s)
  retry_from (suc rounds) i res err s =
      let (res', err', s') = fn s in
      let again = retry_from rounds (i + 1) res' err' (sleep (delay base step i) s') in
      elim err' [ none ↦ (res', none, s') | some _ ↦ again ]

  -- `res` starts as the zero value of T.
  unfoldable pub retry : T → S → T × Option Failure × S
  unfolding retry_from exhausted delay
  retry res s = retry_from attempts 1 res none s

  unfoldable pub retry_db_from : ℕ → ℕ → T → Option Failure → S → T × Option Failure × S
  retry_db_from zero i res err s = (res, some (exhausted attempts err), s)
  retry_db_from (suc rounds) i res err s =
      let (res', err', s') = fn s in
      let again = retry_db_from rounds (i + 1) res' err' (sleep (delay base step i) s') in
      elim err' [
        | none ↦ (res', none, s')
        | some e ↦ if is_retryable e then again else (res', some e, s')
      ]

  -- The loop runs while i < attempts: one round less.
  unfoldable pub retry_db : T → S → T × Option Failure × S
  unfolding retry_db_from exhausted delay is_retryable
  retry_db res s = retry_db_from (attempts - 1) 1 res none s
