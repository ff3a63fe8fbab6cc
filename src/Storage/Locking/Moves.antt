-- ===== src/Storage/Locking/Moves.antt =====
-- What every step of the goroutines keeps of the storage and its lock.
use metrify.Base.{
  ℕ, ◌+◌, ◌-◌, ◌<◌, true, Option, none, some, List, [], ◌∷◌, ◌++◌, ◌≡◌, ◌≢◌, ◌∙◌, refl, arith, ap,
  sym, inl, inr, Bool-cases, Option-cases, nat_eq, replace, sum_of, sum_of-replace, sum_of-le,
}
use metrify.Base.GoMap.{GoMap, nil, made}
use metrify.Int64.{add64}
use metrify.External.{External}
use metrify.Storage.{Machine, get_counter, get_gauge}
use metrify.Storage.Updates.{IsLive}
use metrify.Storage.History.{Update, set_gauge, add_counter}
use metrify.Storage.Locking.{
  Call, outside, locked, loaded, stored, leaving, reading_counter, reading_gauge, read_counter,
  read_gauge, Shared, quiet, lock, rlock, write_gauge, write_counter, if_made, save, proceed,
}
use metrify.Storage.Locking.Phases.{
  Written, run-snoc, write_gauge-Written, write_counter-Written, is_reader, performed, Knows,
  Knows-elsewhere, Written-Knows,
}

pub record Inv {F W : Type 0} (x : External F W) (m₀ : Machine F W) (n : ℕ) (us : List (Update F))
    (s : Shared F W) : Type 0 where
  pub free : s.writer ≡ none → s.machine ≡ performed x m₀ us
  pub apart : (j : ℕ) → s.writer ≡ some j → s.readers ≡ 0
  pub counted : s.readers ≡ sum_of is_reader n s.calls
  pub knows : (i : ℕ) → i < n → Knows x m₀ us s.machine s.writer i (s.calls i)

eq_of_nat_eq : (i j : ℕ) → nat_eq i j ≡ true → i ≡ j
eq_of_nat_eq i j e = ground arith

-- What each goroutine knows, after goroutine `i` went on to `c`.
placed :
    {F : Type 0} (P : ℕ → Call F → Type 0) (calls : ℕ → Call F) (i : ℕ) (c : Call F) (j : ℕ)
    → P i c
    → (i ≢ j → P j (calls j))
    → P j (replace calls i c j)
placed P calls i c j here elsewhere = elim (Bool-cases (nat_eq i j)) [
  | inl e ↦ let same : i ≡ j = eq_of_nat_eq i j e in rw e (rw (← same) here)
  | inr e ↦ rw e (elsewhere (λ same. ground arith))
]

module _ {F W : Type 0} (x : External F W) (m₀ : Machine F W) (live : IsLive m₀.ms) (n : ℕ)
    (us : List (Update F)) (s : Shared F W) (inv : Inv x m₀ n us s) (i : ℕ) (lt : i < n) where
  -- While there are no readers, no goroutine is one.
  no_reader : (j : ℕ) → j < n → s.readers ≡ 0 → is_reader (s.calls j) ≡ 0
  no_reader j below none_there = omega (arith, inv.counted, sum_of-le is_reader n s.calls j below)

  -- A step of the goroutine that has the lock for writing.
  writes :
      (m : Machine F W) (w : Option ℕ) (c : Call F)
      → s.writer ≡ some i
      → is_reader c ≡ 0
      → (w ≡ none → m ≡ performed x m₀ us)
      → Knows x m₀ us m w i c
      → Inv x m₀ n us (record s { machine = m; writer = w; calls = replace s.calls i c })
  writes m w c own quiet free knows = record {
    free = free;
    apart = λ j e. inv.apart i own;
    counted = omega (
      arith,
      quiet,
      inv.counted,
      no_reader i lt (inv.apart i own),
      sum_of-replace is_reader n s.calls i c lt,
    );
    knows = λ j below.
        placed (λ k d. Knows x m₀ us m w k d) s.calls i c j knows
          (λ other.
            Knows-elsewhere x m₀ us us s.machine m s.writer w j (s.calls j)
              (λ theirs. other (ground arith)) (no_reader j below (inv.apart i own))
              (inv.knows j below));
  }

  -- The same, where it keeps the lock.
  writes_on :
      (m : Machine F W) (c : Call F)
      → s.writer ≡ some i
      → is_reader c ≡ 0
      → Knows x m₀ us m s.writer i c
      → Inv x m₀ n us (record s { machine = m; calls = replace s.calls i c })
  writes_on m c own quiet knows = writes m s.writer c own quiet (λ e. absurd (cc)) knows

  -- A step of a goroutine while none has the lock for writing.
  reads :
      (readers : ℕ) (c : Call F)
      → s.writer ≡ none
      → readers + is_reader (s.calls i) ≡ s.readers + is_reader c
      → Knows x m₀ us s.machine s.writer i c
      → Inv x m₀ n us (record s { readers = readers; calls = replace s.calls i c })
  reads readers c unwritten counts knows = record {
    free = inv.free;
    apart = λ j e. absurd (cc);
    counted = omega (arith, counts, inv.counted, sum_of-replace is_reader n s.calls i c lt);
    knows = λ j below.
        placed (λ k d. Knows x m₀ us s.machine s.writer k d) s.calls i c j knows
          (λ other. inv.knows j below);
  }

  -- A goroutine that gets the lock for writing.
  locks :
      (u : Update F)
      → s.writer ≡ none
      → s.readers ≡ 0
      → Inv x m₀ n
          (us ++ u ∷ [])
          (record s { writer = some i; calls = replace s.calls i (locked u) })
  locks u unwritten unread = record {
    free = λ e. absurd (cc);
    apart = λ j e. unread;
    counted = omega (
      arith,
      inv.counted,
      no_reader i lt unread,
      sum_of-replace is_reader n s.calls i (locked u) lt,
    );
    knows = λ j below.
        placed (λ k d. Knows x m₀ (us ++ u ∷ []) s.machine (some i) k d) s.calls i (locked u) j
          (refl, us, refl, inv.free unwritten)
          (λ other.
            Knows-elsewhere x m₀ us (us ++ u ∷ []) s.machine s.machine s.writer (some i) j
              (s.calls j) (λ theirs. cc) (no_reader j below unread) (inv.knows j below));
  }

  -- While a goroutine reads, none has the lock for writing.
  pub unwritten_by : is_reader (s.calls i) ≡ 1 → s.writer ≡ none
  unwritten_by reader = elim (Option-cases s.writer) [
    | inl e ↦ e
    | inr (j, e) ↦ absurd (omega (arith, reader, no_reader i lt (inv.apart j e)))
  ]

Written-base :
    {F W : Type 0} (x : External F W) (base m : Machine F W) (u : Update F) (c : Call F)
    → (m' : Machine F W) → base ≡ m
    → Written x m u c m'
    → Written x base u c m'
Written-base x base m u c m' e h = rw e h

if_made-quiet : {F V : Type 0} (m : GoMap V) (u : Update F) → is_reader (if_made m u) ≡ 0
if_made-quiet nil u = refl
if_made-quiet (made m) u = refl

module _ {F W : Type 0} (x : External F W) (m₀ : Machine F W) (live : IsLive m₀.ms) (n : ℕ) where
  pub Inv-some :
      (us : List (Update F)) (s t : Shared F W)
      → Inv x m₀ n us s
      → some s ≡ some t
      → Inv x m₀ n us t
  Inv-some us s t inv h = let same : s ≡ t = ground arith in rw (← same) inv

  pub proceed-Inv :
      (us : List (Update F)) (i : ℕ) (c : Call F) (s t : Shared F W)
      → i < n
      → s.calls i ≡ c
      → Inv x m₀ n us s
      → Knows x m₀ us s.machine s.writer i c
      → proceed x i c s ≡ some t
      → Inv x m₀ n us t
  unfolding proceed
  proceed-Inv us i outside s t lt here inv k h = cc
  proceed-Inv us i (locked (set_gauge name v)) s t lt here inv (own, prev, last, at) h =
      let g = s.machine.gauges in
      let u : Update F = set_gauge name v in
      let m = write_gauge g name v s.machine in
      let c = if_made g u in
      let written : Written x (performed x m₀ prev) u c m =
        Written-base x _ s.machine u c m (sym at) (write_gauge-Written x g name v s.machine refl) in
      Inv-some us _ t
        (writes_on x m₀ live n us s inv i lt m c own (if_made-quiet g u)
          (Written-Knows x m₀ us prev m s.writer i u c live own last written))
        h
  proceed-Inv us i (locked (add_counter name d)) s t lt here inv (own, prev, last, at) h =
      Inv-some us _ t
        (writes_on x m₀ live n us s inv i lt s.machine (loaded name d _) own refl
          (own, prev, last, at, refl))
        h
  proceed-Inv us i (loaded name d v) s t lt here inv (own, prev, last, at, read) h =
      let g = s.machine.counters in
      let u : Update F = add_counter name d in
      let m = write_counter g name (add64 v d) s.machine in
      let c = if_made g u in
      let written : Written x (performed x m₀ prev) u c m =
        Written-base x _ s.machine u c m (sym at)
          (rw read (write_counter-Written x g name d s.machine refl)) in
      Inv-some us _ t
        (writes_on x m₀ live n us s inv i lt m c own (if_made-quiet g u)
          (Written-Knows x m₀ us prev m s.writer i u c live own last written))
        h
  proceed-Inv us i (stored u) s t lt here inv (own, prev, last, at) h =
      let saved : save x u s.machine ≡ performed x m₀ us =
        at ∙ sym (ap (performed x m₀) last ∙ run-snoc x prev u m₀ live) in
      Inv-some us _ t
        (writes_on x m₀ live n us s inv i lt (save x u s.machine) (leaving u) own refl (own, saved))
        h
  proceed-Inv us i (leaving u) s t lt here inv (own, at) h =
      Inv-some us _ t
        (writes x m₀ live n us s inv i lt s.machine none outside own refl (λ e. at) tt) h
  proceed-Inv us i (reading_counter key) s t lt here inv k h =
      let reader = ap is_reader here in
      Inv-some us _ t
        (reads x m₀ live n us s inv i lt s.readers (read_counter key (get_counter x key s.machine))
          (unwritten_by x m₀ live n us s inv i lt reader) (omega (arith, reader)) refl)
        h
  proceed-Inv us i (reading_gauge key) s t lt here inv k h =
      let reader = ap is_reader here in
      Inv-some us _ t
        (reads x m₀ live n us s inv i lt s.readers (read_gauge key (get_gauge x key s.machine))
          (unwritten_by x m₀ live n us s inv i lt reader) (omega (arith, reader)) refl)
        h
  proceed-Inv us i (read_counter key v) s t lt here inv k h =
      let reader = ap is_reader here in
      let some_reader = sum_of-le is_reader n s.calls i lt in
      Inv-some us _ t
        (reads x m₀ live n us s inv i lt (s.readers - 1) outside
          (unwritten_by x m₀ live n us s inv i lt reader)
          (omega (arith, reader, some_reader, inv.counted)) tt)
        h
  proceed-Inv us i (read_gauge key v) s t lt here inv k h =
      let reader = ap is_reader here in
      let some_reader = sum_of-le is_reader n s.calls i lt in
      Inv-some us _ t
        (reads x m₀ live n us s inv i lt (s.readers - 1) outside
          (unwritten_by x m₀ live n us s inv i lt reader)
          (omega (arith, reader, some_reader, inv.counted)) tt)
        h

  pub lock-Inv :
      (us : List (Update F)) (i : ℕ) (u : Update F) (w : Option ℕ) (s t : Shared F W)
      → i < n
      → s.writer ≡ w
      → Inv x m₀ n us s
      → lock i u w s ≡ some t
      → Inv x m₀ n (us ++ u ∷ []) t
  unfolding lock
  lock-Inv us i u none s t lt at inv h = elim (Bool-cases (nat_eq s.readers 0)) [
    | inl e ↦
        Inv-some (us ++ u ∷ []) _ t
          (locks x m₀ live n us s inv i lt u at (eq_of_nat_eq s.readers 0 e)) (rw e at h)
    | inr e ↦ absurd (cc (rw e at h))
  ]
  lock-Inv us i u (some j) s t lt at inv h = cc

  pub rlock-Inv :
      (us : List (Update F)) (i : ℕ) (c : Call F) (w : Option ℕ) (s t : Shared F W)
      → i < n
      → s.writer ≡ w
      → s.calls i ≡ outside
      → is_reader c ≡ 1
      → Knows x m₀ us s.machine s.writer i c
      → Inv x m₀ n us s
      → rlock i c w s ≡ some t
      → Inv x m₀ n us t
  unfolding rlock
  rlock-Inv us i c none s t lt at here reader k inv h =
      Inv-some us _ t
        (reads x m₀ live n us s inv i lt (s.readers + 1) c at
          (omega (arith, reader, ap is_reader here)) k)
        h
  rlock-Inv us i c (some j) s t lt at here reader k inv h = cc
