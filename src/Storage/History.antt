-- ===== src/Storage/History.antt =====
-- A history of updates, apart from any storage, and the storage that performs it.
use metrify.Base.{
  ℕ, ◌+◌, ◌%◌, String, Bool, true, false, ◌||◌, Option, none, some, List, [], ◌∷◌, ◌≡◌, refl, arith,
  Prog, returned, panicked, ◌==◌, eq_iff, ◌≢◌, if◌then◌else◌, continue, Outcome, ◌∙◌,
}
use metrify.Base.GoMap.{get, lookup}
use metrify.Int64.{modulus, add64}
use metrify.Failure.{Failure}
use metrify.External.{External}
use metrify.Storage.{
  Machine, new_mem_storage, or_zero, get_counter, get_gauge, update_gauge, update_counter,
}
use metrify.Storage.Updates.{
  IsLive, update_gauge-IsLive, update_counter-IsLive, update_gauge-panicked_iff,
  update_counter-panicked_iff, get_gauge-update_gauge, get_counter-update_counter,
  get_counter-update_gauge, get_gauge-update_counter, update_gauge-no_db, update_counter-no_db,
  db-update_gauge, db-update_counter,
}

pub data Update (F : Type 0) : Type 0 where
  set_gauge : String → F → Update F
  add_counter : String → ℕ → Update F

-- A request as a history: its updates up to the first part that asks for none.
module _ {F : Type 0} where
  abbrev pub before : Option (Update F) → List (Update F) → List (Update F)
  before none us = []
  before (some u) us = u ∷ us

  abbrev pub is_good : Option (Update F) → Bool
  is_good none = false
  is_good (some u) = true

-- What the updates of a history mean, apart from any storage.
module _ {F : Type 0} (key : String) where
  -- the value that was set last
  abbrev pub last_set : List (Update F) → Option F
  last_set [] = none
  last_set (set_gauge name v ∷ us) = elim (last_set us) [
    | some later ↦ some later
    | none ↦ if name == key then some v else none
  ]
  last_set (add_counter name d ∷ us) = last_set us

  -- the sum of the deltas, unbounded
  abbrev pub total : List (Update F) → ℕ
  total [] = 0
  total (set_gauge name v ∷ us) = total us
  total (add_counter name d ∷ us) = (if name == key then d else 0) + total us

  abbrev pub is_counted : List (Update F) → Bool
  is_counted [] = false
  is_counted (set_gauge name v ∷ us) = is_counted us
  is_counted (add_counter name d ∷ us) = name == key || is_counted us

module _ {F W : Type 0} (x : External F W) where
  abbrev pub perform : Update F → Prog (Machine F W) (Option Failure)
  perform (set_gauge name v) = update_gauge x name v
  perform (add_counter name d) = update_counter x name d

  -- A history, whose updates follow one another; their errors are dropped.
  unfoldable pub run : List (Update F) → Prog (Machine F W) (Unit {0})
  run [] m = (returned tt, m)
  run (u ∷ us) m = continue (perform u m).0 (λ _. run us) (perform u m).1

  pub perform-IsLive : (u : Update F) (m : Machine F W) → IsLive m.ms → IsLive (perform u m).1.ms
  perform-IsLive (set_gauge name v) m l = update_gauge-IsLive x name v m l
  perform-IsLive (add_counter name d) m l = update_counter-IsLive x name d m l

  pub perform-ne-panicked :
      (u : Update F) (m : Machine F W) → IsLive m.ms → (perform u m).0 ≢ panicked
  perform-ne-panicked (set_gauge name v) m l h =
      cc ((update_gauge-panicked_iff x name v m).0 h, l.gauges_made)
  perform-ne-panicked (add_counter name d) m l h =
      cc ((update_counter-panicked_iff x name d m).0 h, l.counters_made)

  pub perform-no_db :
      (u : Update F) (m : Machine F W)
      → IsLive m.ms
      → m.db ≡ false
      → ((perform u m).0 ≡ returned none) × ((perform u m).1.db ≡ false)
  perform-no_db (set_gauge name v) m l off =
      (update_gauge-no_db x name v m l off, db-update_gauge x name v m l ∙ off)
  perform-no_db (add_counter name d) m l off =
      (update_counter-no_db x name d m l off, db-update_counter x name d m l ∙ off)

  pub run-cons :
      (u : Update F) (us : List (Update F)) (m : Machine F W)
      → IsLive m.ms
      → run (u ∷ us) m ≡ run us (perform u m).1
  unfolding run
  run-cons u us m l = continue_returned (perform u m).0 (perform-ne-panicked u m l)
    where
      continue_returned :
          (o : Outcome (Option Failure))
          → o ≢ panicked
          → continue o (λ _. run us) (perform u m).1 ≡ run us (perform u m).1
      continue_returned (returned e) h = refl
      continue_returned panicked h = absurd (h refl)

  run-IsLive : (us : List (Update F)) (m : Machine F W) → IsLive m.ms → IsLive (run us m).1.ms
  unfolding run
  run-IsLive [] m l = l
  run-IsLive (u ∷ us) m l =
      rw (run-cons u us m l) (run-IsLive us (perform u m).1 (perform-IsLive u m l))

  run-returned : (us : List (Update F)) (m : Machine F W) → IsLive m.ms → (run us m).0 ≡ returned tt
  unfolding run
  run-returned [] m l = refl
  run-returned (u ∷ us) m l =
      rw (run-cons u us m l) (run-returned us (perform u m).1 (perform-IsLive u m l))

  abbrev or_old : Option F → Option F → Option F
  or_old (some v) old = some v
  or_old none old = old

  get_gauge-run :
      (key : String) (us : List (Update F)) (m : Machine F W)
      → IsLive m.ms
      → get_gauge x key (run us m).1 ≡ or_old (last_set key us) (get_gauge x key m)
  unfolding run
  get_gauge-run key [] m l = refl
  get_gauge-run key (set_gauge name v ∷ us) m l =
      let ih =
        get_gauge-run key us (perform (set_gauge name v) m).1
          (perform-IsLive (set_gauge name v) m l) in
      rw (run-cons (set_gauge name v) us m l)
        (ground (arith, ih, get_gauge-update_gauge x name key v m l))
  get_gauge-run key (add_counter name d ∷ us) m l = rw (run-cons (add_counter name d) us m l) (
      get_gauge-run key us _ (perform-IsLive (add_counter name d) m l)
      ∙ rw (get_gauge-update_counter x name key d m l))

  abbrev counted : Bool → ℕ → Option ℕ → Option ℕ
  counted b sum old = if b then some ((or_zero old + sum) % modulus) else old

  counted-add64 :
      (same later : Bool) (d sum : ℕ) (old : Option ℕ)
      → (later ≡ false → sum ≡ 0)
      → counted later sum (if same then some (add64 (or_zero old) d) else old)
        ≡ counted (same || later) ((if same then d else 0) + sum) old
  unfolding add64
  counted-add64 true true d sum old h = ground arith
  counted-add64 true false d sum old h = ground (arith, h refl)
  counted-add64 false later d sum old h = ground arith

  total_of_uncounted :
      (key : String) (us : List (Update F)) → is_counted key us ≡ false → total key us ≡ 0
  total_of_uncounted key [] h = refl
  total_of_uncounted key (set_gauge name v ∷ us) h = total_of_uncounted key us h
  total_of_uncounted key (add_counter name d ∷ us) h =
      let later : is_counted key us ≡ false = ground arith in
      ground (arith, total_of_uncounted key us later)

  get_counter-add :
      (name key : String) (d : ℕ) (m : Machine F W)
      → IsLive m.ms
      → get_counter x key (update_counter x name d m).1 ≡ (
          if name == key
          then some (add64 (or_zero (get_counter x key m)) d)
          else get_counter x key m)
  get_counter-add name key d m l =
      get_counter-update_counter x name key d m l ∙ ground (arith, eq_iff name key)

  get_counter-run :
      (key : String) (us : List (Update F)) (m : Machine F W)
      → IsLive m.ms
      → get_counter x key (run us m).1
        ≡ counted (is_counted key us) (total key us) (get_counter x key m)
  unfolding run
  get_counter-run key [] m l = refl
  get_counter-run key (set_gauge name v ∷ us) m l = rw (run-cons (set_gauge name v) us m l) (
      get_counter-run key us _ (perform-IsLive (set_gauge name v) m l)
      ∙ rw (get_counter-update_gauge x name key v m l))
  get_counter-run key (add_counter name d ∷ us) m l = rw (run-cons (add_counter name d) us m l) (
      get_counter-run key us _ (perform-IsLive (add_counter name d) m l)
      ∙ rw (get_counter-add name key d m l) (
          counted-add64 (name == key) (is_counted key us) d (total key us) (get_counter x key m)
            (total_of_uncounted key us)))

  abbrev pub fresh : String → Bool → W → Machine F W
  fresh filepath db w = record { ms = new_mem_storage filepath db; world = w }

  pub fresh-IsLive : (filepath : String) (db : Bool) (w : W) → IsLive (fresh filepath db w).ms
  unfolding new_mem_storage
  fresh-IsLive filepath db w = record {
    gauge_map = [];
    counter_map = [];
    gauges_made = refl;
    counters_made = refl;
  }

  -- Whatever updates a new storage is given, with a database or without and whatever it answers,
  -- no update panics; then a gauge reads as the value that was set last, and is missing where
  -- none was set, and a counter reads as the sum of its deltas modulo 2 ^ 64, and is missing
  -- where none was added.
  pub run-refines :
      (filepath : String) (db : Bool) (w : W) (us : List (Update F)) (key : String)
      → ((run us (fresh filepath db w)).0 ≡ returned tt)
        × (get_gauge x key (run us (fresh filepath db w)).1 ≡ last_set key us)
        × (get_counter x key (run us (fresh filepath db w)).1
            ≡ (if is_counted key us then some (total key us % modulus) else none))
  run-refines filepath db w us key =
      let l = fresh-IsLive filepath db w in
      let m = fresh filepath db w in
      (
        run-returned us m l,
        get_gauge-run key us m l ∙ or_old_none (last_set key us),
        get_counter-run key us m l ∙ counted_none (is_counted key us) (total key us),
      )
    where
      or_old_none : (o : Option F) → or_old o (get_gauge x key (fresh filepath db w)) ≡ o
      or_old_none o = unfold get_gauge new_mem_storage get lookup in ground arith

      counted_none :
          (b : Bool) (n : ℕ)
          → counted b n (get_counter x key (fresh filepath db w))
            ≡ (if b then some (n % modulus) else none)
      counted_none b n = unfold get_counter new_mem_storage get lookup in ground arith
