-- ===== src/Tests/Tooling.antt =====
-- The check of calls, the pool and the profiles at concrete inputs.
use metrify.Base.{
  ℕ, suc, Bytes, Bool, ◌||◌, ◌==◌, true, false, Option, none, some, List, [], ◌∷◌, ◌++◌, map, All,
  inr, ◌≡◌, ◌≢◌, ◌↔◌, refl, codes,
}
use mathlib.Core.List.{Perm}
use metrify.Failure.{Failure}
use metrify.Nocall.{Node, ident, selector, call, other, nil, cons, split, contains, name_of}
use metrify.Nocall
use metrify.Gostan
use metrify.Nocall.Reports.{Among, Calls, run-reports}
use metrify.Pool.{Pool, new, Action, gets, puts, drops}
use metrify.Pool
use metrify.Pool.Ownership.{put_values, reused_of, IsMade, run-new}
use metrify.Profiling.{Files, Runtime, Job, cpu_job, heap_job, cpu_capture, run_jobs}
use metrify.Profiling.Captures.{IsCancelled, AllCpuFail, run_jobs-cpu_on}

-- func() { log.Fatal(os.Exit(1)) }()
abbrev file : Node
file =
    call 1
      (other (
        cons
          (call 8 (selector (ident (codes "log")) (codes "Fatal"))
            (cons (call 18 (selector (ident (codes "os")) (codes "Exit")) nil) nil))
          nil))
      nil

abbrev functions : Bytes
functions = codes "panic,os.Exit,"

run-reports_example : Among (18, codes "os.Exit") (Nocall.run functions (file ∷ [])) ↔ (
    (functions ≢ [])
    × ((f : Node) × (fun : Node) × Among f (file ∷ [])
        × Calls 18 fun f
        × (name_of fun ≡ some (codes "os.Exit"))
        × (contains (split functions) (codes "os.Exit") ≡ true)))
run-reports_example = run-reports functions (file ∷ []) 18 (codes "os.Exit")

-- The call of a function literal is reported under the empty name.
reports_literal : Nocall.run functions (file ∷ []) ≡ (1, []) ∷ (18, codes "os.Exit") ∷ []
unfolding Nocall.run Nocall.inspect Nocall.inspect_files Nocall.visit name_of
reports_literal = refl

abbrev counter : ℕ → ℕ × ℕ
counter w = (w, suc w)

abbrev clear : ℕ → ℕ
clear v = 0

abbrev actions : List (Action ℕ)
actions = gets (some 0) ∷ puts 7 ∷ puts 8 ∷ drops 1 ∷ gets (some 0) ∷ gets none ∷ []

run-new_example :
    (p : Pool ℕ ℕ) × (new (some counter) ≡ inr p)
    × Perm
        (reused_of (Pool.run clear actions p 3).0
          ++ ((Pool.run clear actions p 3).1 ++ (Pool.run clear actions p 3).2.items))
        (map clear (put_values actions))
    × All (IsMade clear p) (Pool.run clear actions p 3).0
run-new_example = run-new clear counter actions 3

-- Paths are as they are, and the world counts the files.
abbrev files : Files ℕ
files = record {
  abs = λ path. inr path;
  create = λ path w. (none, suc w);
  close = λ path w. (none, w);
  has_profile = λ name. true;
  write_to = λ name path w. (none, w);
}

abbrev at_rest : Runtime ℕ
at_rest = record { world = 0; cpu_on = false }

abbrev jobs : List (Option Failure × Job)
jobs = (none, cpu_job (codes "cpu.prof")) ∷ (none, heap_job (codes "mem.prof")) ∷ []

run_jobs-cpu_on_example :
    (All (λ (job : Option Failure × Job). ¬ IsCancelled files job) jobs
      → (run_jobs files jobs at_rest).1.cpu_on ≡ false)
    × ((cause : Failure) (filename path : Bytes)
        → files.abs filename ≡ inr path
        → (files.create path 0).0 ≡ none
        → (t : Runtime ℕ) × (cpu_capture files (some cause) filename at_rest ≡ (some cause, t))
          × AllCpuFail files jobs (run_jobs files jobs t).0
          × ((run_jobs files jobs t).1.cpu_on ≡ true))
run_jobs-cpu_on_example = run_jobs-cpu_on files at_rest jobs refl

-- The checks that run: this repository's own first, and no analyzer twice, which multichecker
-- refuses.
abbrev same : Gostan.Analyzer → Gostan.Analyzer → Bool
same Gostan.own Gostan.own = true
same (Gostan.pass a) (Gostan.pass b) = a == b
same (Gostan.staticcheck a) (Gostan.staticcheck b) = a == b
same _ _ = false

abbrev among : Gostan.Analyzer → List Gostan.Analyzer → Bool
among a [] = false
among a (b ∷ bs) = same a b || among a bs

abbrev repeats : List Gostan.Analyzer → Bool
repeats [] = false
repeats (a ∷ rest) = among a rest || repeats rest

no_repeats :
    repeats (Gostan.main ("SA1000" ∷ "SA1001" ∷ []) (λ vars analyzers w. analyzers) []) ≡ false
unfolding Gostan.main Gostan.append_all
no_repeats = refl
