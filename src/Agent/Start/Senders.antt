-- ===== src/Agent/Start/Senders.antt =====
-- The senders of an agent that main has started.
use mathlib.Core.List.{Memᴰ}
use mathlib.Core.List.Memᴰ.{not-nil, cases_cons}
use metrify.Base.{
  ℕ, Bytes, Option, none, List, [], ◌∷◌, ◌⊎◌, inl, inr, ◌≡◌, ◌≢◌, refl, sym, ap, ◌∙◌, arith, codes,
  Bool-cases,
}
use metrify.Failure.{Failure}
use metrify.Int64.{is_positive}
use metrify.External.{External}
use metrify.Flags.Parsing.{last_given}
use metrify.Config.{Startup, get_config_path}
use metrify.Config.Exits.{and_then-inr}
use metrify.Config.RateLimit.{parse_flags-rate_limit}
use metrify.Config.Agent
use metrify.Agent.HttpClient.{Network}
use metrify.Agent.Loop.{poll, poll_gauges}
use metrify.Agent.Loop
use metrify.Agent.Start.{
  Resources, Role, runtime_collector, gopsutil_collector, sender, Goroutine, ticking, panicking,
  seconds, new_goroutine, go_senders, Launched, launch, public_key, client_of, main, Ticks, idle,
  runtime_tick, gopsutil_tick, sender_tick,
}

abbrev role_of : Goroutine → Role
role_of (ticking role interval) = role
role_of (panicking role) = role

role_of-new_goroutine : (role : Role) (n : ℕ) → role_of (new_goroutine role n) ≡ role
unfolding new_goroutine
role_of-new_goroutine role n = elim (Bool-cases (is_positive (seconds n))) [
  | inl e ↦ rw e refl
  | inr e ↦ rw e refl
]

not_sender :
    (role : Role) (n interval : ℕ) → sender ≢ role → ticking sender interval ≢ new_goroutine role n
not_sender role n interval other e = other (ap role_of e ∙ role_of-new_goroutine role n)

collectors_only :
    (n interval : ℕ)
    → Memᴰ
        (ticking sender interval)
        (new_goroutine runtime_collector n ∷ new_goroutine gopsutil_collector n ∷ [])
    → ⊥
collectors_only n interval m = elim (cases_cons m) [
  | inl e ↦ not_sender runtime_collector n interval (λ p. cc) e
  | inr m' ↦ elim (cases_cons m') [
    | inl e ↦ not_sender gopsutil_collector n interval (λ p. cc) e
    | inr m'' ↦ not-nil m''
  ]
]

module _ {F W : Type 0} (x : External F W) (net : Network W) (res : Resources F W) where
  main_launched :
      (f : Agent.Flags) (w : W) (l : Launched F W)
      → main x net res f w ≡ inr l
      → (client : Loop.Sender F W) × (launch f w client ≡ l)
  unfolding main
  main_launched f w l h =
      let (key, loaded, rest) = and_then-inr (public_key x net res f.crypto_key) _ l h in
      let (client, made, done) = and_then-inr (client_of x net res f key) _ l rest in
      (client, ground arith)

  no_sender :
      (f : Agent.Flags) (w : W) (client : Loop.Sender F W) (interval : ℕ)
      → f.rate_limit ≡ 0
      → Memᴰ (ticking sender interval) (launch f w client).goroutines
      → ⊥
  unfolding launch go_senders
  no_sender f w client interval zero_rate m =
      collectors_only f.poll_interval interval (rw zero_rate at m)

  Ticks-world :
      (l : Launched F W) (a b : Loop.Agent F W)
      → ((interval : ℕ) → Memᴰ (ticking sender interval) l.goroutines → ⊥)
      → Ticks l a b
      → b.world ≡ a.world
  Ticks-world l a b none_runs idle = refl
  Ticks-world l a b none_runs (runtime_tick collected m later) =
      Ticks-world l _ b none_runs later ∙ unfold poll poll_gauges in refl
  Ticks-world l a b none_runs (gopsutil_tick collected m later) =
      Ticks-world l _ b none_runs later ∙ unfold poll_gauges in refl
  Ticks-world l a b none_runs (sender_tick m later) = absurd (none_runs _ m)

  -- An agent with a configuration file, with no rate limit in the environment and none on the
  -- command line, never sends anything: whatever its goroutines do, the world is as it was when
  -- main got the settings.
  pub main-unsent :
      (os : Startup) (unmarshal : Bytes → Agent.Config × Option Failure)
      → (env_parse : Agent.Flags → Failure ⊎ Agent.Flags) (args : List Bytes)
      → (f : Agent.Flags) (w : W) (l : Launched F W) (b : Loop.Agent F W)
      → ((g g' : Agent.Flags) → env_parse g ≡ inr g' → g'.rate_limit ≡ g.rate_limit)
      → get_config_path os args ≢ []
      → last_given (Agent.vars os) (codes "l") args ≡ none
      → Agent.parse_flags os unmarshal env_parse args ≡ inr f
      → main x net res f w ≡ inr l
      → Ticks l l.agent b
      → b.world ≡ w
  unfolding launch
  main-unsent os unmarshal env_parse args f w l b unset has_file not_given configured h ticks =
      let (client, made) = main_launched f w l h in
      let no_limit =
        parse_flags-rate_limit os unmarshal env_parse args f unset has_file not_given configured in
      let none_runs : (interval : ℕ) → Memᴰ (ticking sender interval) l.goroutines → ⊥ =
        λ interval m. no_sender f w client interval no_limit (rw (sym made) at m) in
      Ticks-world l l.agent b none_runs ticks ∙ ap (λ (k : Launched F W). k.agent.world) (sym made)
