-- ===== src/Profiling.antt =====
-- internal/pprof: the captures of profiles into files (profiler.go), and the loop over the signals
-- that start them (pprof.go).
pub mod Captures
use metrify.Base.{
  ℕ, String, Bytes, Bool, true, false, Option, none, some, List, [], ◌∷◌, ◌⊎◌, inl, inr, codes,
  if◌then◌else◌,
}
use metrify.Failure.{Failure, message}

-- filepath.Abs, os.Create, (*os.File).Close, and runtime/pprof: whether there is a profile of a
-- name, and its WriteTo.
pub record Files (W : Type 0) : Type 0 where
  pub abs : Bytes → Failure ⊎ Bytes
  pub create : Bytes → W → Option Failure × W
  pub close : Bytes → W → Option Failure × W
  pub has_profile : String → Bool
  pub write_to : String → Bytes → W → Option Failure × W

-- The world of the files, and whether the runtime writes a CPU profile.
pub record Runtime (W : Type 0) : Type 0 where
  pub world : W
  pub cpu_on : Bool

abbrev pub Task : Type 0 → Type 0
Task W = Runtime W → Option Failure × Runtime W

-- The profiles of runtime/pprof.
pub data Profile : Type 0 where
  heap goroutine allocs thread_create block mutex : Profile

abbrev pub name_of : Profile → String
name_of heap = "heap"
name_of goroutine = "goroutine"
name_of allocs = "allocs"
name_of thread_create = "threadcreate"
name_of block = "block"
name_of mutex = "mutex"

module _ {W : Type 0} (os : Files W) where
  abbrev on_world : (W → Option Failure × W) → Task W
  on_world f s = let (e, w) = f s.world in (e, record s { world = w })

  -- A task that ends early, by its error, or goes on.
  abbrev unless_failed : Task W → Task W → Task W
  unless_failed first next s =
      let (e, s') = first s in elim e [ some failed ↦ (some failed, s') | none ↦ next s' ]

  -- `defer file.Close()`: its error is dropped.
  abbrev with_deferred_close : Bytes → Task W → Task W
  with_deferred_close path body s =
      let (e, s') = body s in let (dropped, s'') = on_world (os.close path) s' in (e, s'')

  -- pprof.StartCPUProfile fails exactly if there is already a CPU profile.
  unfoldable pub start_cpu_profile : Task W
  start_cpu_profile s =
      if s.cpu_on
      then (some (message (codes "cpu profiling already in use")), s)
      else (none, record s { cpu_on = true })

  -- What the select waits for: the cause of the context, if it is done first.
  abbrev await_then_stop : Option Failure → Bytes → Task W
  await_then_stop (some cause) path s = (some cause, s)
  await_then_stop none path s = on_world (os.close path) (record s { cpu_on = false })

  abbrev in_file : (Bytes → Task W) → Failure ⊎ Bytes → Task W
  in_file body (inl e) s = (some e, s)
  in_file body (inr path) s =
      unless_failed (on_world (os.create path)) (with_deferred_close path (body path)) s

  unfoldable pub cpu_capture : Option Failure → Bytes → Task W
  unfolding start_cpu_profile
  cpu_capture cancelled filename =
      in_file (λ path. unless_failed start_cpu_profile (await_then_stop cancelled path))
        (os.abs filename)

  abbrev write_profile : Profile → Bytes → Task W
  write_profile profile path =
      if os.has_profile (name_of profile)
      then unless_failed (on_world (os.write_to (name_of profile) path)) (on_world (os.close path))
      else λ s. (some (message (codes "pprof profile not found")), s)

  unfoldable pub capture : Profile → Bytes → Task W
  capture profile filename = in_file (write_profile profile) (os.abs filename)

-- What the select of ListenSignals meets.
pub data SignalEvent : Type 0 where
  sigusr1 sigusr2 context_done : SignalEvent

-- The goroutine that a signal starts.
pub data Job : Type 0 where
  cpu_job heap_job : Bytes → Job

-- The jobs that the signals start up to the end of the context, and whether the loop has ended.
unfoldable pub listen_signals : Bytes → Bytes → List SignalEvent → List Job × Bool
listen_signals cpu_filename mem_filename [] = ([], false)
listen_signals cpu_filename mem_filename (sigusr1 ∷ events) =
    let (jobs, ended) = listen_signals cpu_filename mem_filename events in
    (cpu_job cpu_filename ∷ jobs, ended)
listen_signals cpu_filename mem_filename (sigusr2 ∷ events) =
    let (jobs, ended) = listen_signals cpu_filename mem_filename events in
    (heap_job mem_filename ∷ jobs, ended)
listen_signals cpu_filename mem_filename (context_done ∷ events) = ([], true)

-- Jobs one after another, each with the cause that cancels it, if it is cancelled: their results.
module _ {W : Type 0} (os : Files W) where
  abbrev pub run_job : Option Failure → Job → Task W
  run_job cancelled (cpu_job filename) = cpu_capture os cancelled filename
  run_job cancelled (heap_job filename) = capture os heap filename

  unfoldable pub run_jobs :
      List (Option Failure × Job) → Runtime W → List (Option Failure) × Runtime W
  unfolding cpu_capture capture
  run_jobs [] s = ([], s)
  run_jobs ((cancelled, job) ∷ jobs) s =
      let (e, s') = run_job cancelled job s in let (es, s'') = run_jobs jobs s' in (e ∷ es, s'')
