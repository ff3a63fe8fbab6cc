-- ===== src/Tests/Storing.antt =====
-- The storage at concrete inputs.
use mathlib.Core.List.{Perm, Permᴰ}
use metrify.Base.{ℕ, ◌-◌, true, false, none, some, List, [], ◌∷◌, ◌≡◌, refl, returned}
use metrify.Base.GoMap.{nil, made, insert}
use metrify.Int64.{modulus}
use metrify.Storage.{Machine, get_counter, get_gauge, read_from_file, flush_to_file}
use metrify.Storage.Updates.{IsLive}
use metrify.Storage.History.{Update, set_gauge, add_counter, run, fresh, run-refines}
use metrify.Storage.Order.{counters-perm}
use metrify.Storage.Dump.{restore-dump}
use metrify.Tests.Example.{Files, example, json_laws, file_laws}

-- -1 as an int64
abbrev minus_one : ℕ
minus_one = modulus - 1

abbrev history : List (Update ℕ)
history =
    add_counter "hits" 2
    ∷ set_gauge "load" 5
    ∷ add_counter "hits" minus_one
    ∷ set_gauge "load" 6
    ∷ []

abbrev swapped : List (Update ℕ)
swapped =
    set_gauge "load" 5
    ∷ add_counter "hits" 2
    ∷ add_counter "hits" minus_one
    ∷ set_gauge "load" 6
    ∷ []

run-refines_example :
    ((run example history (fresh example "dump" true [])).0 ≡ returned tt)
    × (get_gauge example "load" (run example history (fresh example "dump" true [])).1 ≡ some 6)
    × (get_counter example "load" (run example history (fresh example "dump" true [])).1 ≡ none)
run-refines_example = run-refines example "dump" true [] history "load"

history-swapped : Perm history swapped
history-swapped = ∣ Permᴰ.swap refl refl ∣₁

counters-perm_example :
    get_counter example "hits" (run example history (fresh example "dump" true [])).1
    ≡ get_counter example "hits" (run example swapped (fresh example "dump" true [])).1
counters-perm_example = counters-perm example "dump" true [] history swapped "hits" history-swapped

abbrev pub dumped : Machine ℕ Files
dumped = record {
  ms = record {
    gauges = made (("a", 4) ∷ []);
    counters = made (("a", 9) ∷ []);
    filepath = "dump";
    db = false;
    max_retry = 3;
  };
  world = [];
}

abbrev written : Machine ℕ Files
written = record dumped { world = ("dump", 4 ∷ 9 ∷ []) ∷ [] }

abbrev pub restarted : Machine ℕ Files
restarted = record (fresh example "other" false []) { world = ("dump", 4 ∷ 9 ∷ []) ∷ [] }

flush_to_file-written : flush_to_file example dumped ≡ (returned none, written)
unfolding flush_to_file insert
flush_to_file-written = refl

restore-dump_example :
    ((read_from_file example "dump" restarted).0 ≡ returned none)
    × ((key : _)
        → get_gauge example key (read_from_file example "dump" restarted).1
          ≡ get_gauge example key dumped)
    × ((key : _)
        → get_counter example key (read_from_file example "dump" restarted).1
          ≡ get_counter example key dumped)
    × (IsLive dumped.ms → IsLive (read_from_file example "dump" restarted).1.ms)
    × (written.ms ≡ dumped.ms)
restore-dump_example =
    restore-dump example json_laws file_laws dumped written restarted flush_to_file-written refl

abbrev lost : Machine ℕ Files
lost = record dumped { ms = record dumped.ms { counters = nil; gauges = nil } }
