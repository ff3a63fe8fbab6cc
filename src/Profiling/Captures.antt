-- ===== src/Profiling/Captures.antt =====
-- Captures one after another, and a capture that is cancelled.
use metrify.Base.{
  Bytes, true, false, Option, none, some, List, [], ◌∷◌, inr, ◌≡◌, ◌≢◌, arith, ap, ◌∙◌, All,
}
use metrify.Failure.{Failure}
use metrify.Profiling.{
  heap, Files, Runtime, Job, cpu_job, heap_job, cpu_capture, capture, start_cpu_profile, run_job,
  run_jobs,
}

module _ {W : Type 0} (os : Files W) where
  -- The job asks for a CPU profile and is cancelled.
  abbrev pub IsCancelled : Option Failure × Job → Type 0
  IsCancelled (cancelled, cpu_job filename) = cancelled ≢ none
  IsCancelled (cancelled, heap_job filename) = ⊥

  cpu_on-capture :
      (filename : Bytes) (s : Runtime W)
      → (run_job os none (heap_job filename) s).1.cpu_on ≡ s.cpu_on
  unfolding capture
  cpu_on-capture filename s = ground arith

  cpu_capture-on :
      (cancelled : Option Failure) (filename : Bytes) (s : Runtime W)
      → s.cpu_on ≡ true
      → ((cpu_capture os cancelled filename s).0 ≢ none)
        × ((cpu_capture os cancelled filename s).1.cpu_on ≡ true)
  unfolding cpu_capture start_cpu_profile
  cpu_capture-on cancelled filename s on = ground arith

  cpu_capture-off :
      (filename : Bytes) (s : Runtime W)
      → s.cpu_on ≡ false
      → (cpu_capture os none filename s).1.cpu_on ≡ false
  unfolding cpu_capture start_cpu_profile
  cpu_capture-off filename s off = ground arith

  cpu_capture-cancelled :
      (cause : Failure) (filename path : Bytes) (s : Runtime W)
      → s.cpu_on ≡ false
      → os.abs filename ≡ inr path
      → (os.create path s.world).0 ≡ none
      → ((cpu_capture os (some cause) filename s).0 ≡ some cause)
        × ((cpu_capture os (some cause) filename s).1.cpu_on ≡ true)
  unfolding cpu_capture start_cpu_profile
  cpu_capture-cancelled cause filename path s off at created = ground arith

  -- The results of jobs among which every CPU profile has failed.
  abbrev pub AllCpuFail : List (Option Failure × Job) → List (Option Failure) → Type 0
  AllCpuFail [] es = Unit
  AllCpuFail (job ∷ jobs) [] = ⊥
  AllCpuFail ((cancelled, cpu_job filename) ∷ jobs) (e ∷ es) = (e ≢ none) × AllCpuFail jobs es
  AllCpuFail ((cancelled, heap_job filename) ∷ jobs) (e ∷ es) = AllCpuFail jobs es

  run_jobs-on :
      (jobs : List (Option Failure × Job)) (s : Runtime W)
      → s.cpu_on ≡ true
      → AllCpuFail jobs (run_jobs os jobs s).0 × ((run_jobs os jobs s).1.cpu_on ≡ true)
  unfolding run_jobs
  run_jobs-on [] s on = (tt, on)
  run_jobs-on ((cancelled, cpu_job filename) ∷ jobs) s on =
      let (fails, still) = cpu_capture-on cancelled filename s on in
      let (all, last) = run_jobs-on jobs (cpu_capture os cancelled filename s).1 still in
      ((fails, all), last)
  run_jobs-on ((cancelled, heap_job filename) ∷ jobs) s on =
      run_jobs-on jobs (capture os heap filename s).1 (cpu_on-capture filename s ∙ on)

  -- If no CPU profile is cancelled, the runtime writes none after any jobs, whatever the files
  -- answer, if it wrote none before. But if the context is done while a CPU profile is written
  -- into a file that could be created, then the capture returns the cause of the context and the
  -- runtime goes on with the profile: after any further jobs it still does, and every CPU profile
  -- among these has failed.
  pub run_jobs-cpu_on :
      (s : Runtime W) (jobs : List (Option Failure × Job))
      → s.cpu_on ≡ false
      → (All (λ job. ¬ IsCancelled job) jobs → (run_jobs os jobs s).1.cpu_on ≡ false)
        × ((cause : Failure) (filename path : Bytes)
            → os.abs filename ≡ inr path
            → (os.create path s.world).0 ≡ none
            → (t : Runtime W) × (cpu_capture os (some cause) filename s ≡ (some cause, t))
              × AllCpuFail jobs (run_jobs os jobs t).0
              × ((run_jobs os jobs t).1.cpu_on ≡ true))
  unfolding run_jobs
  run_jobs-cpu_on s jobs off = (uncancelled jobs s off, cancelled)
    where
      uncancelled :
          (jobs : List (Option Failure × Job)) (s : Runtime W)
          → s.cpu_on ≡ false
          → All (λ job. ¬ IsCancelled job) jobs
          → (run_jobs os jobs s).1.cpu_on ≡ false
      uncancelled [] s off all = off
      uncancelled ((none, cpu_job filename) ∷ jobs) s off all =
          uncancelled jobs _ (cpu_capture-off filename s off) all.1
      uncancelled ((some e, cpu_job filename) ∷ jobs) s off all = absurd (all.0 (λ p. cc))
      uncancelled ((c, heap_job filename) ∷ jobs) s off all =
          uncancelled jobs (capture os heap filename s).1 (cpu_on-capture filename s ∙ off) all.1

      cancelled :
          (cause : Failure) (filename path : Bytes)
          → os.abs filename ≡ inr path
          → (os.create path s.world).0 ≡ none
          → (t : Runtime W) × (cpu_capture os (some cause) filename s ≡ (some cause, t))
            × AllCpuFail jobs (run_jobs os jobs t).0
            × ((run_jobs os jobs t).1.cpu_on ≡ true)
      cancelled cause filename path at created =
          let (result, on) = cpu_capture-cancelled cause filename path s off at created in
          let t = (cpu_capture os (some cause) filename s).1 in
          let (all, last) = run_jobs-on jobs t on in
          (t, ap (λ (e : Option Failure). (e, t)) result, all, last)
