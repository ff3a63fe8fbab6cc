-- ===== src/Storage/Bounds.antt =====
-- How often the database is called by updates, and how long they wait for it.
use metrify.Base.{
  ℕ, suc, ◌+◌, ◌*◌, ◌≤◌, String, Bytes, Bool, false, List, [], ◌∷◌, ◌≡◌, refl, ◌∙◌, arith, length,
}
use metrify.Int64.{format_int}
use metrify.External.{External}
use metrify.Retry.{retry_db, retry_db_from, delay}
use metrify.Storage
use metrify.Storage.{Machine, new_mem_storage, one_second, two_seconds, insert_row, save_db}
use metrify.Storage.Updates.{IsLive}
use metrify.Storage.History.{
  Update, set_gauge, add_counter, perform, run, run-cons, perform-IsLive, fresh, fresh-IsLive,
}
use metrify.Storage.Kept.{perform-Kept}

-- A measure of the world: the statements that were executed, and the nanoseconds slept. Each
-- db.Exec is one statement, and takes no time.Sleep.
pub record Meter {F W : Type 0} (x : External F W) : Type 0 where
  pub calls : W → ℕ
  pub slept : W → ℕ
  pub calls_exec : (name : String) (v : Bytes) (w : W) → calls (x.exec name v w).1 ≡ suc (calls w)
  pub slept_exec : (name : String) (v : Bytes) (w : W) → slept (x.exec name v w).1 ≡ slept w
  pub calls_sleep : (d : ℕ) (w : W) → calls (x.sleep d w) ≡ calls w
  pub slept_sleep : (d : ℕ) (w : W) → slept (x.sleep d w) ≡ slept w + d

module _ {F W : Type 0} (x : External F W) (meter : Meter x) where
  -- At most `n` statements and `t` nanoseconds from one world to another.
  abbrev pub Within : ℕ → ℕ → W → W → Type 0
  Within n t w w' = (meter.calls w' ≤ meter.calls w + n) × (meter.slept w' ≤ meter.slept w + t)

  save_db-Within :
      (name : String) (v : Bytes) (m : Machine F W)
      → m.max_retry ≡ 3
      → Within 2 4000000000 m.world (save_db x name v m).1.world
  unfolding save_db retry_db retry_db_from insert_row delay
  save_db-Within name v m three =
      let w₁ = (x.exec name v m.world).1 in
      let w₂ = x.sleep 1000000000 w₁ in
      let w₃ = (x.exec name v w₂).1 in
      rw three (
        ground (
          arith,
          meter.calls_exec name v m.world,
          meter.slept_exec name v m.world,
          meter.calls_sleep 1000000000 w₁,
          meter.slept_sleep 1000000000 w₁,
          meter.calls_exec name v w₂,
          meter.slept_exec name v w₂,
          meter.calls_sleep 3000000000 w₃,
          meter.slept_sleep 3000000000 w₃,
        ))

  perform-Within :
      (u : Update F) (m : Machine F W)
      → IsLive m.ms
      → m.max_retry ≡ 3
      → Within 2 4000000000 m.world (perform x u m).1.world
  unfolding Storage.update_gauge Storage.update_counter
  perform-Within (set_gauge name value) m l three =
      rw l.gauges_made (save_db-Within name (x.format_float value) _ three)
  perform-Within (add_counter name delta) m l three =
      rw l.counters_made (save_db-Within name (format_int delta) _ three)

  perform-no_calls :
      (u : Update F) (m : Machine F W)
      → IsLive m.ms
      → m.db ≡ false
      → (perform x u m).1.world ≡ m.world
  unfolding Storage.update_gauge Storage.update_counter save_db
  perform-no_calls (set_gauge name value) m l off =
      rw (l.gauges_made, Storage.update_gauge) (rw off refl)
  perform-no_calls (add_counter name delta) m l off =
      rw (l.counters_made, Storage.update_counter) (rw off refl)

  run-Within :
      (us : List (Update F)) (m : Machine F W)
      → IsLive m.ms
      → m.max_retry ≡ 3
      → Within (2 * length us) (4000000000 * length us) m.world (run x us m).1.world
  unfolding run
  run-Within [] m l three = (omega arith, omega arith)
  run-Within (u ∷ us) m l three =
      let (calls, slept) = perform-Within u m l three in
      let (calls', slept') =
        run-Within us (perform x u m).1 (perform-IsLive x u m l)
          ((perform-Kept x u m).same_max_retry ∙ three) in
      rw (run-cons x u us m l) (omega (arith, calls, calls'), omega (arith, slept, slept'))

  run-no_calls :
      (us : List (Update F)) (m : Machine F W)
      → IsLive m.ms
      → m.db ≡ false
      → (run x us m).1.world ≡ m.world
  unfolding run
  run-no_calls [] m l off = refl
  run-no_calls (u ∷ us) m l off = rw (run-cons x u us m l) (
      run-no_calls us (perform x u m).1 (perform-IsLive x u m l)
        ((perform-Kept x u m).same_db ∙ off)
      ∙ perform-no_calls u m l off)

  -- The updates that a new storage is given execute at most two statements each, and wait at most
  -- four seconds each between and after these, whatever the database answers. Without a database
  -- they execute none and wait for nothing.
  pub run-bounded :
      (filepath : String) (db : Bool) (w : W) (us : List (Update F))
      → Within (2 * length us) (4000000000 * length us) w (run x us (fresh x filepath db w)).1.world
        × (db ≡ false → (run x us (fresh x filepath db w)).1.world ≡ w)
  unfolding new_mem_storage
  run-bounded filepath db w us =
      let l = fresh-IsLive x filepath db w in
      (
        run-Within us (fresh x filepath db w) l refl,
        λ off. run-no_calls us (fresh x filepath db w) l off,
      )
