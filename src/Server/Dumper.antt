-- ===== src/Server/Dumper.antt =====
-- What a stopped dumper leaves on the disk.
use metrify.Base.{
  ℕ, zero, suc, String, Bool, true, Option, none, List, [], ◌∷◌, ◌++◌, ◌≡◌, ◌≢◌, refl, ap, ◌∙◌,
  Outcome, returned, panicked, pure, continue,
}
use metrify.Base.GoMap.{get}
use metrify.Failure.{Failure}
use metrify.External.{External}
use metrify.External.Laws.{JsonLaws, FileLaws}
use metrify.Storage.{Machine, MemStorage, flush_to_file, get_gauge, get_counter, read_from_file}
use metrify.Storage.Dump.{flush_to_file-keeps, restore-dump}
use metrify.Server.{DumpEvent, ticked, done, try_flush, dump_loop, run_metric_dumper}

abbrev pub ticks : ℕ → List DumpEvent
ticks zero = []
ticks (suc n) = ticked ∷ ticks n

module _ {F W : Type 0} (x : External F W) where
  try_flush_lem : (m : Machine F W) → try_flush x m ≡ (returned tt, (flush_to_file x m).1)
  try_flush_lem m = from_outcome (flush_to_file x m).0 (flush_to_file-keeps x m).0
    where
      from_outcome :
          (o : Outcome (Option Failure))
          → o ≢ panicked
          → continue o (λ _. pure tt) (flush_to_file x m).1 ≡ (returned tt, (flush_to_file x m).1)
      from_outcome (returned e) h = refl
      from_outcome panicked h = absurd (h refl)

  -- The state after a number of dumps, one after another.
  unfoldable pub dumps : ℕ → Machine F W → Machine F W
  dumps zero m = m
  dumps (suc n) m = dumps n (flush_to_file x m).1

  ms-dumps : (n : ℕ) (m : Machine F W) → (dumps n m).ms ≡ m.ms
  unfolding dumps
  ms-dumps zero m = refl
  ms-dumps (suc n) m = ms-dumps n (flush_to_file x m).1 ∙ (flush_to_file-keeps x m).1

  dump_loop-done :
      (n : ℕ) (later : List DumpEvent) (m : Machine F W)
      → dump_loop x (ticks n ++ done ∷ later) m ≡ (returned true, (flush_to_file x (dumps n m)).1)
  unfolding dumps dump_loop
  dump_loop-done zero later m = rw (try_flush_lem m) refl
  dump_loop-done (suc n) later m =
      rw (try_flush_lem m) (dump_loop-done n later (flush_to_file x m).1)

  get_gauge-dumps :
      (n : ℕ) (m : Machine F W) (key : String) → get_gauge x key (dumps n m) ≡ get_gauge x key m
  unfolding get_gauge
  get_gauge-dumps n m key = ap (λ (s : MemStorage F). get s.gauges key) (ms-dumps n m)

  get_counter-dumps :
      (n : ℕ) (m : Machine F W) (key : String) → get_counter x key (dumps n m) ≡ get_counter x key m
  unfolding get_counter
  get_counter-dumps n m key = ap (λ (s : MemStorage F). get s.counters key) (ms-dumps n m)

  -- A dumper that is stopped after any number of ticks, whatever their dumps met, ends with one
  -- more dump, and takes no event after it. If that dump has no error, a server that starts with
  -- the world it left, and restores the file, reads every gauge and every counter as before.
  pub run_metric_dumper-restores :
      (laws : JsonLaws x.json) (files : FileLaws x.system) (n : ℕ) (later : List DumpEvent)
      (m m' : Machine F W)
      → (flush_to_file x (dumps n m)).0 ≡ returned none
      → m'.world ≡ (run_metric_dumper x true (ticks n ++ done ∷ later) m).1.world
      → ((run_metric_dumper x true (ticks n ++ done ∷ later) m).0 ≡ returned true)
        × ((key : String) → get_gauge x key (read_from_file x m.filepath m').1 ≡ get_gauge x key m)
        × ((key : String)
            → get_counter x key (read_from_file x m.filepath m').1 ≡ get_counter x key m)
  unfolding run_metric_dumper get_gauge get_counter
  run_metric_dumper-restores laws files n later m m' fine same =
      let ended = dump_loop-done n later m in
      let last = (flush_to_file x (dumps n m)).1 in
      let flushed : flush_to_file x (dumps n m) ≡ (returned none, last) = λ i. (fine i, last) in
      let restored =
        restore-dump x laws files (dumps n m) last m' flushed
          (same ∙ ap (λ (r : Outcome Bool × Machine F W). r.1.world) ended) in
      let path = ap (λ (s : MemStorage F). s.filepath) (ms-dumps n m) in
      (
        ap (λ (r : Outcome Bool × Machine F W). r.0) ended,
        (λ key. rw (← path) (restored.1 key ∙ get_gauge-dumps n m key)),
        λ key. rw (← path) (restored.2 key ∙ get_counter-dumps n m key),
      )
