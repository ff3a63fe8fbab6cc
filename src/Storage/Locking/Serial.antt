-- ===== src/Storage/Locking/Serial.antt =====
-- The methods of the storage behave as if they were called one after another.
use mathlib.Core.List.{append-nil, append_assoc}
use metrify.Base.{
  ℕ, ◌<◌, String, Option, none, some, List, [], ◌∷◌, ◌++◌, ◌≡◌, ◌∙◌, refl, arith, ap, sym, inl, inr,
  Option-cases, ltb, if◌then◌else◌, sum_of-zero,
}
use metrify.External.{External}
use metrify.Storage.{Machine, get_counter, get_gauge}
use metrify.Storage.Updates.{IsLive}
use metrify.Storage.History.{Update, set_gauge, add_counter}
use metrify.Storage.History
use metrify.Storage.Locking.{
  Call, outside, locked, loaded, stored, leaving, reading_counter, reading_gauge, read_counter,
  read_gauge, Shared, Event, update, ask_counter, ask_gauge, next, quiet, lock, rlock, enters,
  proceed, step, run,
}
use metrify.Storage.Locking.Phases.{is_reader, performed}
use metrify.Storage.Locking.Moves.{Inv, unwritten_by, proceed-Inv, lock-Inv, rlock-Inv}

-- The updates in the order in which they got the lock.
abbrev pub asked : {F : Type 0} → Event F → List (Update F)
asked (update i u) = u ∷ []
asked _ = []

abbrev pub history : {F : Type 0} → List (Event F) → List (Update F)
history [] = []
history (e ∷ es) = asked e ++ history es

module _ {F W : Type 0} (x : External F W) (m₀ : Machine F W) (live : IsLive m₀.ms) (n : ℕ) where
  enters-cases :
      (c : Call F) (r : Option (Shared F W)) (t : Shared F W)
      → enters c r ≡ some t
      → (c ≡ outside) × (r ≡ some t)
  enters-cases outside r t h = (refl, h)
  enters-cases (locked u) r t h = cc
  enters-cases (loaded name d v) r t h = cc
  enters-cases (stored u) r t h = cc
  enters-cases (leaving u) r t h = cc
  enters-cases (reading_counter key) r t h = cc
  enters-cases (reading_gauge key) r t h = cc
  enters-cases (read_counter key v) r t h = cc
  enters-cases (read_gauge key v) r t h = cc

  in_range :
      (i : ℕ) (r : Option (Shared F W)) (t : Shared F W)
      → (if ltb i n then r else none) ≡ some t
      → (i < n) × (r ≡ some t)
  in_range i r t h = ground arith

  step-Inv :
      (e : Event F) (us : List (Update F)) (s t : Shared F W)
      → Inv x m₀ n us s
      → step x n e s ≡ some t
      → Inv x m₀ n (us ++ asked e) t
  unfolding step
  step-Inv (update i u) us s t inv h =
      let (lt, entered) = in_range i (enters (s.calls i) (lock i u s.writer s)) t h in
      let (here, got) = enters-cases (s.calls i) (lock i u s.writer s) t entered in
      lock-Inv x m₀ live n us i u s.writer s t lt refl inv got
  step-Inv (ask_counter i key) us s t inv h =
      let ask = rlock i (reading_counter key) s.writer s in
      let (lt, entered) = in_range i (enters (s.calls i) ask) t h in
      let (here, got) = enters-cases (s.calls i) ask t entered in
      rw (append-nil us)
        (rlock-Inv x m₀ live n us i (reading_counter key) s.writer s t lt refl here refl tt inv got)
  step-Inv (ask_gauge i key) us s t inv h =
      let ask = rlock i (reading_gauge key) s.writer s in
      let (lt, entered) = in_range i (enters (s.calls i) ask) t h in
      let (here, got) = enters-cases (s.calls i) ask t entered in
      rw (append-nil us)
        (rlock-Inv x m₀ live n us i (reading_gauge key) s.writer s t lt refl here refl tt inv got)
  step-Inv (next i) us s t inv h =
      let (lt, got) = in_range i (proceed x i (s.calls i) s) t h in
      rw (append-nil us)
        (proceed-Inv x m₀ live n us i (s.calls i) s t lt refl inv (inv.knows i lt) got)

  run-Inv :
      (es : List (Event F)) (us : List (Update F)) (s t : Shared F W)
      → Inv x m₀ n us s
      → run x n es s ≡ some t
      → Inv x m₀ n (us ++ history es) t
  unfolding run
  run-Inv [] us s t inv h = let same : s ≡ t = ground arith in rw (append-nil us) (rw (← same) inv)
  run-Inv (e ∷ es) us s t inv h = elim (Option-cases (step x n e s)) [
    | inl stuck ↦ absurd (cc (rw (stuck, run) at h))
    | inr (u, one) ↦
        rw (← append_assoc us (asked e) (history es))
          (run-Inv es (us ++ asked e) u t (step-Inv e us s u inv one) (rw (one, run) at h))
  ]

  quiet-Inv : Inv x m₀ n [] (quiet m₀)
  unfolding quiet History.run
  quiet-Inv = record {
    free = λ e. refl;
    apart = λ j e. refl;
    counted = sym (sum_of-zero is_reader n outside refl);
    knows = λ i lt. tt;
  }

  -- The methods of a storage whose maps are not nil, called by any number of goroutines at once,
  -- behave as if they were called one after another: while no goroutine has the lock for writing,
  -- maps, file and database are what the updates make of them one after another, in the order in
  -- which they got the lock; and a read by GetCounter or GetGauge has got what the storage then
  -- had under its key, until it gives its lock back.
  pub run-serial :
      (es : List (Event F)) (s : Shared F W)
      → run x n es (quiet m₀) ≡ some s
      → (s.writer ≡ none → s.machine ≡ performed x m₀ (history es))
        × ((i : ℕ) (key : String) (v : Option ℕ)
            → i < n
            → s.calls i ≡ read_counter key v
            → v ≡ get_counter x key (performed x m₀ (history es)))
        × ((i : ℕ) (key : String) (v : Option F)
            → i < n
            → s.calls i ≡ read_gauge key v
            → v ≡ get_gauge x key (performed x m₀ (history es)))
  run-serial es s h = (
    inv.free,
    (λ i key v lt here.
        rw here at (inv.knows i lt)
        ∙ ap (λ m. get_counter x key m) (read_state i lt (ap is_reader here))),
    (λ i key v lt here.
        rw here at (inv.knows i lt)
        ∙ ap (λ m. get_gauge x key m) (read_state i lt (ap is_reader here))),
  )
    where
      inv : Inv x m₀ n (history es) s
      inv = run-Inv es [] (quiet m₀) s quiet-Inv h

      read_state :
          (i : ℕ) → i < n → is_reader (s.calls i) ≡ 1 → s.machine ≡ performed x m₀ (history es)
      read_state i lt reader = inv.free (unwritten_by x m₀ live n (history es) s inv i lt reader)
