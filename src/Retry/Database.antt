-- ===== src/Retry/Database.antt =====
-- What `RetryDB` returns, for any function that it calls.
use metrify.Base.{
  ℕ, zero, suc, ◌+◌, ◌-◌, ◌<◌, ◌≡◌, refl, ◌⊎◌, inl, inr, Option, none, some, Option-cases, true,
  false, Bool-cases, arith,
}
use metrify.Failure.{Failure}
use metrify.Retry.{exhausted, delay, is_retryable, retry_db_from, retry_db}
use metrify.Retry.Trace.{Failing, done, failed}

-- RetryDB tries again after a *PgError of one of three SQLSTATEs.
abbrev pub Transient : Failure → Type 0
Transient e = is_retryable e ≡ true

-- An error, or none, at which RetryDB stops.
abbrev pub Final : Option Failure → Type 0
Final none = Unit
Final (some e) = is_retryable e ≡ false

module _ {S T : Type 0} (sleep : ℕ → S → S) (attempts base step : ℕ)
    (fn : S → T × Option Failure × S) where
  abbrev Fails : ℕ → ℕ → T → Option Failure → S → T → Option Failure → S → Type 0
  Fails = Failing Transient sleep base step fn

  retry_db_from-failed :
      (rounds i : ℕ) (r : T) (e : Option Failure) {r' : T} {x : Failure} {s s' : S}
      → fn s ≡ (r', some x, s')
      → Transient x
      → retry_db_from sleep attempts base step fn (suc rounds) i r e s
        ≡ retry_db_from sleep attempts base step fn rounds
            (i + 1)
            r'
            (some x)
            (sleep (delay base step i) s')
  unfolding retry_db_from
  retry_db_from-failed rounds i r e h a = ground arith

  retry_db_from-Final :
      (rounds i : ℕ) {r' : T} {e' : Option Failure} (r : T) (e : Option Failure) {s s' : S}
      → fn s ≡ (r', e', s')
      → Final e'
      → retry_db_from sleep attempts base step fn (suc rounds) i r e s ≡ (r', e', s')
  unfolding retry_db_from
  retry_db_from-Final rounds i {e' = none} r e h f = ground arith
  retry_db_from-Final rounds i {e' = some x} r e h f = ground arith

  retry_db_from-stops :
      (rounds i : ℕ) {n : ℕ} {r r' r'' : T} {e e' e'' : Option Failure} {s t s' : S}
      → Fails i n r e s r' e' t
      → n < rounds
      → fn t ≡ (r'', e'', s')
      → Final e''
      → retry_db_from sleep attempts base step fn rounds i r e s ≡ (r'', e'', s')
  retry_db_from-stops zero i f lt h last = absurd (omega arith)
  retry_db_from-stops (suc rounds) i done lt h last = retry_db_from-Final rounds i _ _ h last
  retry_db_from-stops (suc rounds) i (failed first a rest) lt h last =
      rw (retry_db_from-failed rounds i _ _ first a)
        (retry_db_from-stops rounds (i + 1) rest (omega arith) h last)

  retry_db_from-exhausted :
      (rounds i : ℕ) {r r' : T} {e e' : Option Failure} {s t : S}
      → Fails i rounds r e s r' e' t
      → retry_db_from sleep attempts base step fn rounds i r e s
        ≡ (r', some (exhausted attempts e'), t)
  retry_db_from-exhausted zero i done = unfold retry_db_from in refl
  retry_db_from-exhausted (suc rounds) i (failed first a rest) =
      rw (retry_db_from-failed rounds i _ _ first a) (retry_db_from-exhausted rounds (i + 1) rest)

  abbrev Rounds : ℕ → ℕ → T → Option Failure → S → Type 0
  Rounds rounds i r e s =
      ((n : ℕ) × (r' : T) × (e' : Option Failure) × (t : S) × (r'' : T) × (e'' : Option Failure)
        × (s' : S) × Fails i n r e s r' e' t
        × (n < rounds)
        × (fn t ≡ (r'', e'', s'))
        × Final e'')
      ⊎ ((r' : T) × (e' : Option Failure) × (t : S) × Fails i rounds r e s r' e' t)

  Rounds-failed :
      (rounds i : ℕ) {r r' : T} {e : Option Failure} {x : Failure} {s s' : S}
      → fn s ≡ (r', some x, s')
      → Transient x
      → Rounds rounds (i + 1) r' (some x) (sleep (delay base step i) s')
      → Rounds (suc rounds) i r e s
  Rounds-failed rounds i h a (inl (n, r', e', t, r'', e'', s', f, lt, last, final)) =
      inl (suc n, r', e', t, r'', e'', s', failed h a f, omega arith, last, final)
  Rounds-failed rounds i h a (inr (r', e', t, f)) = inr (r', e', t, failed h a f)

  Rounds-total : (rounds i : ℕ) (r : T) (e : Option Failure) (s : S) → Rounds rounds i r e s
  Rounds-total zero i r e s = inr (r, e, s, done)
  Rounds-total (suc rounds) i r e s =
      let (r', err, s') = fn s in
      elim (Option-cases err) [
        | inl ok ↦ inl (0, r, e, s, r', none, s', done, omega arith, cc, tt)
        | inr (x, bad) ↦
            let h : fn s ≡ (r', some x, s') = cc in
            elim (Bool-cases (is_retryable x)) [
              | inl again ↦
                  Rounds-failed rounds i h again
                    (Rounds-total rounds (i + 1) r' (some x) (sleep (delay base step i) s'))
              | inr stop ↦ inl (0, r, e, s, r', some x, s', done, omega arith, h, stop)
            ]
      ]

  -- `RetryDB` makes at most attempts - 1 calls, one fewer than its error text says. Either a call
  -- after n rounds of transient errors, n below attempts - 1, succeeds or fails by an error that
  -- is not transient: then its result, its error and its state are returned, with no pause after
  -- it. Or every one of the attempts - 1 rounds fails by a transient error, each followed by its
  -- pause, and the last error is returned under "after %d attempts", where for 0 or 1 attempts no
  -- call is made. One of the two always happens.
  pub retry_db-total :
      (r : T) (s : S)
      → ((n : ℕ) × (r' : T) × (e' : Option Failure) × (t : S) × (r'' : T) × (e'' : Option Failure)
          × (s' : S) × Fails 1 n r none s r' e' t
          × (n < attempts - 1)
          × (fn t ≡ (r'', e'', s'))
          × Final e''
          × (retry_db sleep attempts base step fn r s ≡ (r'', e'', s')))
        ⊎ ((r' : T) × (e' : Option Failure) × (t : S) × Fails 1 (attempts - 1) r none s r' e' t
            × (retry_db sleep attempts base step fn r s ≡ (r', some (exhausted attempts e'), t)))
  unfolding retry_db
  retry_db-total r s = elim (Rounds-total (attempts - 1) 1 r none s) [
    | inl (n, r', e', t, r'', e'', s', f, lt, last, final) ↦ inl (
      n,
      r',
      e',
      t,
      r'',
      e'',
      s',
      f,
      lt,
      last,
      final,
      retry_db_from-stops (attempts - 1) 1 f lt last final,
    )
    | inr (r', e', t, f) ↦ inr (r', e', t, f, retry_db_from-exhausted (attempts - 1) 1 f)
  ]
