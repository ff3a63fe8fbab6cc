-- ===== src/Tests/Stopping.antt =====
-- Stopping and starting the server at concrete inputs.
use metrify.Base.{String, true, none, [], ◌∷◌, ◌++◌, ◌≡◌, refl, returned}
use metrify.Base.GoMap.{insert}
use metrify.Storage.{get_counter, get_gauge, read_from_file, flush_to_file}
use metrify.Server.{ticked, done, run_metric_dumper}
use metrify.Server.Dumper.{ticks, dumps, run_metric_dumper-restores}
use metrify.Tests.Example.{example, json_laws, file_laws}
use metrify.Tests.Storing.{dumped, restarted}

last_dump : (flush_to_file example (dumps example 2 dumped)).0 ≡ returned none
unfolding flush_to_file dumps insert
last_dump = refl

left_behind :
    restarted.world
    ≡ (run_metric_dumper example true (ticks 2 ++ done ∷ ticked ∷ []) dumped).1.world
unfolding run_metric_dumper insert
left_behind = refl

run_metric_dumper-restores_example :
    ((run_metric_dumper example true (ticks 2 ++ done ∷ ticked ∷ []) dumped).0 ≡ returned true)
    × ((key : String)
        → get_gauge example key (read_from_file example "dump" restarted).1
          ≡ get_gauge example key dumped)
    × ((key : String)
        → get_counter example key (read_from_file example "dump" restarted).1
          ≡ get_counter example key dumped)
run_metric_dumper-restores_example =
    run_metric_dumper-restores example json_laws file_laws 2 (ticked ∷ []) dumped restarted
      last_dump left_behind
