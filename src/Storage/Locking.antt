-- ===== src/Storage/Locking.antt =====
-- The methods of internal/service/storage.go called by several goroutines at once: every access of
-- a map is a step of its own, under ms.mu, a sync.RWMutex, and the steps of the goroutines come in
-- any order. FlushToFile, which writes its file after the lock, is left out.
pub mod Phases
pub mod Moves
pub mod Serial
use metrify.Base.{
  ℕ, ◌+◌, ◌-◌, String, Bytes, Bool, Option, none, some, List, [], ◌∷◌, nat_eq, ltb, if◌then◌else◌,
  replace, Prog,
}
use metrify.Base.GoMap.{GoMap, nil, made, get, insert}
use metrify.Int64.{add64, format_int}
use metrify.External.{External}
use metrify.Storage.{Machine, or_zero, save_db, get_counter, get_gauge}
use metrify.Storage.History.{Update, set_gauge, add_counter}

-- Where a goroutine stands: outside of the storage; in a method that updates, after Lock, with the
-- counter that += has read, after the map was written, or after saveDB; in a method that reads,
-- after RLock, or with what it has read.
pub data Call (F : Type 0) : Type 0 where
  outside : Call F
  locked : Update F → Call F
  loaded : String → ℕ → ℕ → Call F
  stored : Update F → Call F
  leaving : Update F → Call F
  reading_counter : String → Call F
  reading_gauge : String → Call F
  read_counter : String → Option ℕ → Call F
  read_gauge : String → Option F → Call F

-- The mutex: the goroutine that has it for writing, and how many have it for reading.
pub record Shared (F W : Type 0) : Type 0 where
  pub machine : Machine F W
  pub writer : Option ℕ
  pub readers : ℕ
  pub calls : ℕ → Call F

-- A goroutine enters a method, or takes its next step in one.
pub data Event (F : Type 0) : Type 0 where
  update : ℕ → Update F → Event F
  ask_counter : ℕ → String → Event F
  ask_gauge : ℕ → String → Event F
  next : ℕ → Event F

unfoldable pub quiet : {F W : Type 0} → Machine F W → Shared F W
quiet m = record { machine = m; writer = none; readers = 0; calls = λ i. outside }

-- A write to a nil map panics, and the deferred Unlock follows.
abbrev pub if_made : {F V : Type 0} → GoMap V → Update F → Call F
if_made nil u = leaving u
if_made (made m) u = stored u

module _ {F W : Type 0} where
  -- Lock, which waits for readers and writers.
  unfoldable pub lock : ℕ → Update F → Option ℕ → Shared F W → Option (Shared F W)
  lock i u none s =
      if nat_eq s.readers 0
      then some (record s { writer = some i; calls = replace s.calls i (locked u) })
      else none
  lock i u (some j) s = none

  -- RLock, which waits for a writer.
  unfoldable pub rlock : ℕ → Call F → Option ℕ → Shared F W → Option (Shared F W)
  rlock i c none s = some (record s { readers = s.readers + 1; calls = replace s.calls i c })
  rlock i c (some j) s = none

  abbrev pub enters : Call F → Option (Shared F W) → Option (Shared F W)
  enters outside s = s
  enters _ s = none

  abbrev pub write_gauge : GoMap F → String → F → Machine F W → Machine F W
  write_gauge nil name v m = m
  write_gauge (made g) name v m = record m { ms = record m.ms { gauges = made (insert name v g) } }

  abbrev pub write_counter : GoMap ℕ → String → ℕ → Machine F W → Machine F W
  write_counter nil name n m = m
  write_counter (made c) name n m = record m {
    ms = record m.ms { counters = made (insert name n c) };
  }

module _ {F W : Type 0} (x : External F W) where
  -- saveDB, with the texts of the two methods that update
  abbrev pub save : Update F → Machine F W → Machine F W
  save (set_gauge name v) m = (save_db x name (x.format_float v) m).1
  save (add_counter name d) m = (save_db x name (format_int d) m).1

  unfoldable pub proceed : ℕ → Call F → Shared F W → Option (Shared F W)
  unfolding add64 get_counter get_gauge
  proceed i outside s = none
  proceed i (locked (set_gauge name v)) s =
      let g = s.machine.gauges in
      some (record s {
        machine = write_gauge g name v s.machine;
        calls = replace s.calls i (if_made g (set_gauge name v));
      })
  proceed i (locked (add_counter name d)) s = some (record s {
    calls = replace s.calls i (loaded name d (or_zero (get s.machine.counters name)));
  })
  proceed i (loaded name d n) s =
      let c = s.machine.counters in
      some (record s {
        machine = write_counter c name (add64 n d) s.machine;
        calls = replace s.calls i (if_made c (add_counter name d));
      })
  proceed i (stored u) s =
      some (record s { machine = save u s.machine; calls = replace s.calls i (leaving u) })
  proceed i (leaving u) s = some (record s { writer = none; calls = replace s.calls i outside })
  proceed i (reading_counter key) s =
      some (record s { calls = replace s.calls i (read_counter key (get_counter x key s.machine)) })
  proceed i (reading_gauge key) s =
      some (record s { calls = replace s.calls i (read_gauge key (get_gauge x key s.machine)) })
  proceed i (read_counter key v) s =
      some (record s { readers = s.readers - 1; calls = replace s.calls i outside })
  proceed i (read_gauge key v) s =
      some (record s { readers = s.readers - 1; calls = replace s.calls i outside })

  -- One step, of one of `n` goroutines, or none where it cannot be made.
  unfoldable pub step : ℕ → Event F → Shared F W → Option (Shared F W)
  unfolding lock rlock proceed
  step n (update i u) s = if ltb i n then enters (s.calls i) (lock i u s.writer s) else none
  step n (ask_counter i key) s =
      if ltb i n then enters (s.calls i) (rlock i (reading_counter key) s.writer s) else none
  step n (ask_gauge i key) s =
      if ltb i n then enters (s.calls i) (rlock i (reading_gauge key) s.writer s) else none
  step n (next i) s = if ltb i n then proceed i (s.calls i) s else none

  abbrev pub after : Option (Shared F W) → (Shared F W → Option (Shared F W)) → Option (Shared F W)
  after none k = none
  after (some s) k = k s

  unfoldable pub run : ℕ → List (Event F) → Shared F W → Option (Shared F W)
  unfolding step
  run n [] s = some s
  run n (e ∷ es) s = after (step n e s) (λ t. run n es t)
