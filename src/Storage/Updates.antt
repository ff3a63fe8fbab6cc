-- ===== src/Storage/Updates.antt =====
-- The updates of the storage: when they panic, and what a history of them leaves behind.
use metrify.Base.{
  ap, ℕ, String, Bytes, false, Option, none, some, List, ◌≡◌, ◌≢◌, ◌↔◌, refl, arith, returned,
  panicked, ◌==◌, if◌then◌else◌, inl, inr,
}
use metrify.Base.GoMap.{nil, made, get, insert, get-insert, GoMap-cases}
use metrify.Int64.{add64}
use metrify.Failure.{Failure}
use metrify.External.{External}
use metrify.Retry.{retry_db}
use metrify.Storage.{
  MemStorage, Machine, or_zero, one_second, two_seconds, insert_row, get_counter, get_gauge,
  save_db, update_gauge, update_counter,
}

-- Both maps can be written: so it is from NewMemStorage on, unless a file is read that lacks one.
pub record IsLive {F : Type 0} (s : MemStorage F) : Type 0 where
  pub gauge_map : List (String × F)
  pub counter_map : List (String × ℕ)
  pub gauges_made : s.gauges ≡ made gauge_map
  pub counters_made : s.counters ≡ made counter_map

module _ {F W : Type 0} (x : External F W) where
  pub ms-save_db : (name : String) (v : Bytes) (m : Machine F W) → (save_db x name v m).1.ms ≡ m.ms
  unfolding save_db
  ms-save_db name v m = ground arith

  save_db-returned :
      (name : String) (v : Bytes) (m : Machine F W)
      → (e : Option Failure) × ((save_db x name v m).0 ≡ returned e)
  unfolding save_db
  save_db-returned name v m = (
    if m.db
        then (retry_db x.sleep m.max_retry one_second two_seconds (insert_row x name v) tt
            m.world).1
        else none,
    ground arith,
  )

  -- What an update of a gauge does to a live storage, whatever the database answers.
  update_gauge_live :
      (name : String) (value : F) (m : Machine F W) (l : IsLive m.ms)
      → (update_gauge x name value m).1.ms
        ≡ record m.ms { gauges = made (insert name value l.gauge_map) }
  unfolding update_gauge
  update_gauge_live name value m l = rw l.gauges_made (ms-save_db name _ _)

  update_counter_live :
      (name : String) (delta : ℕ) (m : Machine F W) (l : IsLive m.ms)
      → (update_counter x name delta m).1.ms ≡ record m.ms {
        counters = made (insert name (add64 (or_zero (get m.counters name)) delta) l.counter_map);
      }
  unfolding update_counter
  update_counter_live name delta m l = rw l.counters_made (ms-save_db name _ _)

  save_db-ne-panicked :
      (name : String) (v : Bytes) (m : Machine F W) → (save_db x name v m).0 ≢ panicked
  save_db-ne-panicked name v m h = let (e, r) = save_db-returned name v m in cc

  -- An update panics exactly when the map that it writes is nil.
  pub update_gauge-panicked_iff :
      (name : String) (value : F) (m : Machine F W)
      → ((update_gauge x name value m).0 ≡ panicked) ↔ (m.gauges ≡ nil)
  unfolding update_gauge
  update_gauge-panicked_iff name value m = elim (GoMap-cases m.gauges) [
    | inl e ↦ (λ _. e, λ _. rw e)
    | inr (l, e) ↦ rw e (λ p. absurd (save_db-ne-panicked name _ _ p), λ p. cc)
  ]

  -- An update of a counter panics exactly if the map of counters is nil, with a database or
  -- without.
  pub update_counter-panicked_iff :
      (name : String) (delta : ℕ) (m : Machine F W)
      → ((update_counter x name delta m).0 ≡ panicked) ↔ (m.counters ≡ nil)
  unfolding update_counter
  update_counter-panicked_iff name delta m = elim (GoMap-cases m.counters) [
    | inl e ↦ (λ _. e, λ _. rw e)
    | inr (l, e) ↦ rw e (λ p. absurd (save_db-ne-panicked name _ _ p), λ p. cc)
  ]

  -- Reads after one update.
  pub get_gauge-update_gauge :
      (name key : String) (value : F) (m : Machine F W)
      → IsLive m.ms
      → get_gauge x key (update_gauge x name value m).1
        ≡ (if name == key then some value else get_gauge x key m)
  unfolding get_gauge
  get_gauge-update_gauge name key value m l =
      rw (update_gauge_live name value m l, get-insert, l.gauges_made)

  pub get_counter-update_counter :
      (name key : String) (delta : ℕ) (m : Machine F W)
      → IsLive m.ms
      → get_counter x key (update_counter x name delta m).1 ≡ (
          if name == key
          then some (add64 (or_zero (get_counter x name m)) delta)
          else get_counter x key m)
  unfolding get_counter
  get_counter-update_counter name key delta m l =
      rw (update_counter_live name delta m l, get-insert, l.counters_made)

  pub get_counter-update_gauge :
      (name key : String) (value : F) (m : Machine F W)
      → IsLive m.ms
      → get_counter x key (update_gauge x name value m).1 ≡ get_counter x key m
  unfolding get_counter
  get_counter-update_gauge name key value m l = rw (update_gauge_live name value m l)

  pub get_gauge-update_counter :
      (name key : String) (delta : ℕ) (m : Machine F W)
      → IsLive m.ms
      → get_gauge x key (update_counter x name delta m).1 ≡ get_gauge x key m
  unfolding get_gauge
  get_gauge-update_counter name key delta m l = rw (update_counter_live name delta m l)

  pub update_gauge-IsLive :
      (name : String) (value : F) (m : Machine F W)
      → IsLive m.ms
      → IsLive (update_gauge x name value m).1.ms
  update_gauge-IsLive name value m l = rw (update_gauge_live name value m l) (record {
    gauge_map = insert name value l.gauge_map;
    counter_map = l.counter_map;
    gauges_made = refl;
    counters_made = l.counters_made;
  })

  pub update_counter-IsLive :
      (name : String) (delta : ℕ) (m : Machine F W)
      → IsLive m.ms
      → IsLive (update_counter x name delta m).1.ms
  update_counter-IsLive name delta m l = rw (update_counter_live name delta m l) (record {
    gauge_map = l.gauge_map;
    counter_map = insert name (add64 (or_zero (get m.counters name)) delta) l.counter_map;
    gauges_made = l.gauges_made;
    counters_made = refl;
  })

  save_db-no_db :
      (name : String) (v : Bytes) (m : Machine F W)
      → m.db ≡ false
      → (save_db x name v m).0 ≡ returned none
  unfolding save_db
  save_db-no_db name v m off = ground arith

  -- With no database no update has an error.
  pub update_gauge-no_db :
      (name : String) (value : F) (m : Machine F W)
      → IsLive m.ms
      → m.db ≡ false
      → (update_gauge x name value m).0 ≡ returned none
  unfolding update_gauge
  update_gauge-no_db name value m l off = rw l.gauges_made (save_db-no_db name _ _ off)

  pub update_counter-no_db :
      (name : String) (delta : ℕ) (m : Machine F W)
      → IsLive m.ms
      → m.db ≡ false
      → (update_counter x name delta m).0 ≡ returned none
  unfolding update_counter
  update_counter-no_db name delta m l off = rw l.counters_made (save_db-no_db name _ _ off)

  -- An update attaches no database and detaches none.
  pub db-update_gauge :
      (name : String) (value : F) (m : Machine F W)
      → IsLive m.ms
      → (update_gauge x name value m).1.db ≡ m.db
  db-update_gauge name value m l =
      ap (λ (s : MemStorage F). s.db) (update_gauge_live name value m l)

  pub db-update_counter :
      (name : String) (delta : ℕ) (m : Machine F W)
      → IsLive m.ms
      → (update_counter x name delta m).1.db ≡ m.db
  db-update_counter name delta m l =
      ap (λ (s : MemStorage F). s.db) (update_counter_live name delta m l)
