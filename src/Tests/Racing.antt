-- ===== src/Tests/Racing.antt =====
-- Two goroutines in the storage at once.
use metrify.Base.{ℕ, ◌<◌, String, true, Option, none, some, List, [], ◌∷◌, ◌≡◌, refl}
use metrify.Base.GoMap.{get, lookup, insert}
use metrify.Storage.{Machine, new_mem_storage, get_counter, get_gauge, save_db}
use metrify.Storage.History.{set_gauge, add_counter, fresh, fresh-IsLive}
use metrify.Storage.Locking.{
  read_counter, read_gauge, Shared, Event, update, ask_counter, ask_gauge, next, quiet, lock, rlock,
  proceed, step, run,
}
use metrify.Storage.Locking.Phases.{performed}
use metrify.Storage.Locking.Serial.{history, run-serial}
use metrify.Tests.Example.{Files, example}

abbrev start : Machine ℕ Files
start = fresh example "dump" true []

-- Both add to one counter; the second gets the lock when the first gives it back, and is then read.
abbrev race : List (Event ℕ)
race =
    update 1 (add_counter "hits" 2)
    ∷ next 1
    ∷ next 1
    ∷ next 1
    ∷ next 1
    ∷ update 0 (add_counter "hits" 3)
    ∷ next 0
    ∷ next 0
    ∷ next 0
    ∷ next 0
    ∷ ask_counter 1 "hits"
    ∷ next 1
    ∷ []

raced :
    (s : Shared ℕ Files) × (run example 2 race (quiet start) ≡ some s)
    × (s.writer ≡ none)
    × (s.calls 1 ≡ read_counter "hits" (some 5))
unfolding run step lock rlock proceed quiet save_db new_mem_storage get lookup insert
raced = (_, refl, refl, refl)

-- While one goroutine writes, another gets no lock.
excluded :
    (run example 2
        (update 1 (add_counter "hits" 2) ∷ update 0 (set_gauge "load" 3) ∷ [])
        (quiet start)
      ≡ none)
    × (run example 2 (update 1 (add_counter "hits" 2) ∷ ask_gauge 0 "load" ∷ []) (quiet start)
        ≡ none)
unfolding run step lock rlock quiet
excluded = (refl, refl)

run-serial_example :
    (raced.0.writer ≡ none → raced.0.machine ≡ performed example start (history race))
    × ((i : ℕ) (key : String) (v : Option ℕ)
        → i < 2
        → raced.0.calls i ≡ read_counter key v
        → v ≡ get_counter example key (performed example start (history race)))
    × ((i : ℕ) (key : String) (v : Option ℕ)
        → i < 2
        → raced.0.calls i ≡ read_gauge key v
        → v ≡ get_gauge example key (performed example start (history race)))
run-serial_example =
    run-serial example start (fresh-IsLive example "dump" true []) 2 race raced.0 raced.1
