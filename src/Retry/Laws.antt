-- ===== src/Retry/Laws.antt =====
-- What `Retry` returns, for any function that it calls.
use metrify.Base.{
  ℕ, zero, suc, ◌+◌, ◌<◌, ◌≡◌, refl, ◌⊎◌, inl, inr, Option, none, some, Option-cases, arith,
}
use metrify.Failure.{Failure}
use metrify.Retry.{exhausted, delay, retry_from, retry}
use metrify.Retry.Trace.{Failing, done, failed}

-- Retry tries again after any error.
abbrev pub Always : Failure → Type 0
Always e = Unit

module _ {S T : Type 0} (sleep : ℕ → S → S) (attempts base step : ℕ)
    (fn : S → T × Option Failure × S) where
  abbrev Fails : ℕ → ℕ → T → Option Failure → S → T → Option Failure → S → Type 0
  Fails = Failing Always sleep base step fn

  -- A failed round is followed by the rest of the loop.
  retry_from-failed :
      (rounds i : ℕ) (r : T) (e : Option Failure) {r' : T} {x : Failure} {s s' : S}
      → fn s ≡ (r', some x, s')
      → retry_from sleep attempts base step fn (suc rounds) i r e s
        ≡ retry_from sleep attempts base step fn rounds
            (i + 1)
            r'
            (some x)
            (sleep (delay base step i) s')
  unfolding retry_from
  retry_from-failed rounds i r e h = ground arith

  pub retry_from-success :
      (rounds i : ℕ) {n : ℕ} {r r' r'' : T} {e e' : Option Failure} {s t s' : S}
      → Fails i n r e s r' e' t
      → n < rounds
      → fn t ≡ (r'', none, s')
      → retry_from sleep attempts base step fn rounds i r e s ≡ (r'', none, s')
  retry_from-success zero i f lt h = absurd (omega arith)
  retry_from-success (suc rounds) i done lt h = unfold retry_from in ground arith
  retry_from-success (suc rounds) i (failed first a rest) lt h =
      rw (retry_from-failed rounds i _ _ first)
        (retry_from-success rounds (i + 1) rest (omega arith) h)

  retry_from-exhausted :
      (rounds i : ℕ) {r r' : T} {e e' : Option Failure} {s t : S}
      → Fails i rounds r e s r' e' t
      → retry_from sleep attempts base step fn rounds i r e s
        ≡ (r', some (exhausted attempts e'), t)
  retry_from-exhausted zero i done = unfold retry_from in refl
  retry_from-exhausted (suc rounds) i (failed first a rest) =
      rw (retry_from-failed rounds i _ _ first) (retry_from-exhausted rounds (i + 1) rest)

  -- What can happen in the rounds left: one of them succeeds, or all fail.
  abbrev Rounds : ℕ → ℕ → T → Option Failure → S → Type 0
  Rounds rounds i r e s =
      ((n : ℕ) × (r' : T) × (e' : Option Failure) × (t : S) × (r'' : T) × (s' : S) × Fails i n r e s
          r' e' t
        × (n < rounds)
        × (fn t ≡ (r'', none, s')))
      ⊎ ((r' : T) × (e' : Option Failure) × (t : S) × Fails i rounds r e s r' e' t)

  Rounds-failed :
      (rounds i : ℕ) {r r' : T} {e : Option Failure} {x : Failure} {s s' : S}
      → fn s ≡ (r', some x, s')
      → Rounds rounds (i + 1) r' (some x) (sleep (delay base step i) s')
      → Rounds (suc rounds) i r e s
  Rounds-failed rounds i h (inl (n, r', e', t, r'', s', f, lt, last)) =
      inl (suc n, r', e', t, r'', s', failed h tt f, omega arith, last)
  Rounds-failed rounds i h (inr (r', e', t, f)) = inr (r', e', t, failed h tt f)

  Rounds-total : (rounds i : ℕ) (r : T) (e : Option Failure) (s : S) → Rounds rounds i r e s
  Rounds-total zero i r e s = inr (r, e, s, done)
  Rounds-total (suc rounds) i r e s =
      let (r', err, s') = fn s in
      elim (Option-cases err) [
        | inl ok ↦ inl (0, r, e, s, r', s', done, omega arith, cc)
        | inr (x, bad) ↦
            let h : fn s ≡ (r', some x, s') = cc in
            Rounds-failed rounds i h
              (Rounds-total rounds (i + 1) r' (some x) (sleep (delay base step i) s'))
      ]

  -- `Retry` stops at the first call that succeeds: after n failed rounds, n below the attempts,
  -- each followed by its pause, a call that returns no error ends it with that call's result and
  -- state, and no further call or pause is made. If every one of the attempts fails, all the
  -- pauses are made, the last included, and the result is the last one, with the last error under
  -- "after %d attempts"; for 0 attempts the error is the one that wraps nil. One of the two
  -- always happens.
  pub retry-total :
      (r : T) (s : S)
      → ((n : ℕ) × (r' : T) × (e' : Option Failure) × (t : S) × (r'' : T) × (s' : S) × Fails 1 n r
            none s r' e' t
          × (n < attempts)
          × (fn t ≡ (r'', none, s'))
          × (retry sleep attempts base step fn r s ≡ (r'', none, s')))
        ⊎ ((r' : T) × (e' : Option Failure) × (t : S) × Fails 1 attempts r none s r' e' t
            × (retry sleep attempts base step fn r s ≡ (r', some (exhausted attempts e'), t)))
  unfolding retry
  retry-total r s = elim (Rounds-total attempts 1 r none s) [
    | inl (n, r', e', t, r'', s', f, lt, last) ↦
        inl (n, r', e', t, r'', s', f, lt, last, retry_from-success attempts 1 f lt last)
    | inr (r', e', t, f) ↦ inr (r', e', t, f, retry_from-exhausted attempts 1 f)
  ]
