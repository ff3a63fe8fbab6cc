-- ===== src/Failure.antt =====
-- Go's `error` values, as far as the program tells them apart. A nil error is `none`.
use metrify.Base.{ℕ, String, Bytes}

pub data Failure : Type 0 where
  -- an error of the standard library or of fmt.Errorf, with its text
  message : Bytes → Failure
  -- a *pgconn.PgError, with its SQLSTATE
  pg_error : String → Failure
  -- "after %d attempts, last error: %w", with the error that it wraps, or with a nil one
  after : ℕ → Failure → Failure
  after_nil : ℕ → Failure
