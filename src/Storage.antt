-- ===== src/Storage.antt =====
-- internal/service/storage.go: the metrics in memory, with a file and a database behind them.
-- Each method runs under the storage's mutex from its first to its last action, so a method is one
-- step on the state here; its steps among those of others are in Locking. UnmarshalJSON writes
-- under the read lock, before there are other goroutines.
pub mod Updates
pub mod History
pub mod Order
pub mod Dump
pub mod Kept
pub mod Bounds
pub mod Locking
use metrify.Base.{
  ℕ, String, Bytes, Bool, Option, none, some, ◌⊎◌, inl, inr, [], Prog, panicked, pure, reads,
  returned, ◌>>=◌, ◌>>◌, if◌then◌else◌,
}
use metrify.Base.GoMap.{GoMap, nil, made, get, insert}
use metrify.Int64.{add64, format_int}
use metrify.Failure.{Failure}
use metrify.External.{External}
use metrify.Retry.{retry_db}

-- The field db is whether there is a database.
pub record MemStorage (F : Type 0) : Type 0 where
  pub gauges : GoMap F
  pub counters : GoMap ℕ
  pub filepath : String
  pub db : Bool
  pub max_retry : ℕ

unfoldable pub new_mem_storage : {F : Type 0} → String → Bool → MemStorage F
new_mem_storage filepath db = record {
  gauges = made [];
  counters = made [];
  filepath = filepath;
  db = db;
  max_retry = 3;
}

-- The storage, with all that the external calls change.
pub record Machine (F W : Type 0) : Type 0 where
  pub ms : MemStorage F
  pub open ms use *
  pub world : W

-- 1*time.Second and 2*time.Second
abbrev pub one_second : ℕ
one_second = 1000000000

abbrev pub two_seconds : ℕ
two_seconds = 2000000000

-- The value that a read of a missing key has.
abbrev pub or_zero : Option ℕ → ℕ
or_zero none = 0
or_zero (some n) = n

module _ {F W : Type 0} (x : External F W) where
  unfoldable pub get_counter : String → Machine F W → Option ℕ
  get_counter key m = get m.counters key

  unfoldable pub get_gauge : String → Machine F W → Option F
  get_gauge key m = get m.gauges key

  -- the function that saveDB hands to RetryDB; the sql.Result is dropped
  unfoldable pub insert_row : String → Bytes → W → Unit {0} × Option Failure × W
  insert_row name value w = let (e, w') = x.exec name value w in (tt, e, w')

  unfoldable pub save_db : String → Bytes → Prog (Machine F W) (Option Failure)
  save_db name value m =
      let (_, e, w) =
        retry_db x.sleep m.max_retry one_second two_seconds (insert_row name value) tt m.world in
      if m.db then (returned e, record m { world = w }) else (returned none, m)

  -- ms.gauges[name] = value
  unfoldable pub assign_gauge : GoMap F → String → F → Prog (Machine F W) (Unit {0})
  assign_gauge nil name value m = (panicked, m)
  assign_gauge (made g) name value m =
      (returned tt, record m { ms = record m.ms { gauges = made (insert name value g) } })

  -- ms.counters[name] += delta
  unfoldable pub add_counter : GoMap ℕ → String → ℕ → Prog (Machine F W) (Unit {0})
  unfolding add64
  add_counter nil name delta m = (panicked, m)
  add_counter (made c) name delta m =
      let sum = add64 (or_zero (get (made c) name)) delta in
      (returned tt, record m { ms = record m.ms { counters = made (insert name sum c) } })

  unfoldable pub update_gauge : String → F → Prog (Machine F W) (Option Failure)
  unfolding assign_gauge
  update_gauge name value = do
    gauges ← reads (λ m. m.gauges)
    assign_gauge gauges name value
    save_db name (x.format_float value)

  unfoldable pub update_counter : String → ℕ → Prog (Machine F W) (Option Failure)
  unfolding add_counter
  update_counter name delta = do
    counters ← reads (λ m. m.counters)
    add_counter counters name delta
    save_db name (format_int delta)

  -- The maps are replaced by what was decoded, also where decoding failed.
  unfoldable pub unmarshal_json : Bytes → Prog (Machine F W) (Option Failure)
  unmarshal_json text m =
      let (dto, e) = x.unmarshal_dto text in
      (returned e, record m { ms = record m.ms { gauges = dto.gauges; counters = dto.counters } })

  unfoldable pub marshal_json : Machine F W → Failure ⊎ Bytes
  marshal_json m = x.marshal_dto (record { gauges = m.gauges; counters = m.counters })

  -- json.Unmarshal(data, ms)
  abbrev unmarshal : Bytes → Prog (Machine F W) (Option Failure)
  unmarshal text = elim (x.check_valid text) [ some e ↦ pure (some e) | none ↦ unmarshal_json text ]

  unfoldable pub read_from_file : String → Prog (Machine F W) (Option Failure)
  unfolding unmarshal_json
  read_from_file path m = elim (x.read_file path m.world) [
    | inl e ↦ (returned (some e), m)
    | inr text ↦ unmarshal text m
  ]

  -- os.WriteFile(ms.filepath, data, 0644)
  abbrev write_dump : Bytes → Prog (Machine F W) (Option Failure)
  write_dump text m =
      let (e, w) = x.write_file m.filepath text m.world in (returned e, record m { world = w })

  -- json.MarshalIndent calls MarshalJSON and reformats its text.
  unfoldable pub flush_to_file : Prog (Machine F W) (Option Failure)
  unfolding marshal_json
  flush_to_file m = elim (marshal_json m) [
    | inl e ↦ (returned (some e), m)
    | inr text ↦ write_dump (x.indent text) m
  ]
