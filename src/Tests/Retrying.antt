-- ===== src/Tests/Retrying.antt =====
-- Retrying at concrete inputs: the state counts the calls, and a pause is added to it.
use metrify.Base.{ℕ, ◌+◌, ◌-◌, ◌<◌, Option, none, some, ◌≡◌, ◌⊎◌, if◌then◌else◌, ltb, refl}
use metrify.Failure.{Failure, pg_error}
use metrify.Retry.{exhausted, retry, retry_db}
use metrify.Retry.Trace.{Failing}
use metrify.Retry.Laws.{Always, retry-total}
use metrify.Retry.Database.{Transient, Final, retry_db-total}

-- A call that loses its connection until 100 is reached.
abbrev call : ℕ → ℕ × Option Failure × ℕ
call n = if ltb n 100 then (n, some (pg_error "08006"), n + 1) else (n, none, n + 1)

abbrev pause : ℕ → ℕ → ℕ
pause d n = n + d

retry-total_example :
    ((n : ℕ) × (r' : ℕ) × (e' : Option Failure) × (t : ℕ) × (r'' : ℕ) × (s' : ℕ) × Failing Always
        pause 10 20 call 1 n 0 none 0 r' e' t
      × (n < 3)
      × (call t ≡ (r'', none, s'))
      × (retry pause 3 10 20 call 0 0 ≡ (r'', none, s')))
    ⊎ ((r' : ℕ) × (e' : Option Failure) × (t : ℕ) × Failing Always pause 10 20 call 1 3 0 none 0 r'
          e' t
        × (retry pause 3 10 20 call 0 0 ≡ (r', some (exhausted 3 e'), t)))
retry-total_example = retry-total pause 3 10 20 call 0 0

retry_db-total_example :
    ((n : ℕ) × (r' : ℕ) × (e' : Option Failure) × (t : ℕ) × (r'' : ℕ) × (e'' : Option Failure)
      × (s' : ℕ) × Failing Transient pause 10 90 call 1 n 0 none 0 r' e' t
      × (n < 3 - 1)
      × (call t ≡ (r'', e'', s'))
      × Final e''
      × (retry_db pause 3 10 90 call 0 0 ≡ (r'', e'', s')))
    ⊎ ((r' : ℕ) × (e' : Option Failure) × (t : ℕ) × Failing Transient pause 10 90 call 1
          (3 - 1)
          0
          none
          0
          r'
          e'
          t
        × (retry_db pause 3 10 90 call 0 0 ≡ (r', some (exhausted 3 e'), t)))
retry_db-total_example = retry_db-total pause 3 10 90 call 0 0

-- Of 3 attempts, RetryDB makes two: the third call would have succeeded, and Retry makes it.
retry_db_runs :
    retry_db pause 3 10 90 call 0 0 ≡ (11, some (exhausted 3 (some (pg_error "08006"))), 112)
unfolding retry_db
retry_db_runs = refl

retry_runs : retry pause 3 10 90 call 0 0 ≡ (112, none, 113)
unfolding retry
retry_runs = refl
