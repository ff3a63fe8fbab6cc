-- ===== src/Tests/Launching.antt =====
-- The start of an agent at concrete settings.
use mathlib.Core.List.Memᴰ.{head}
use metrify.Base.{
  ℕ, Bytes, true, Option, none, some, List, [], ◌∷◌, ◌⊎◌, inl, inr, ◌≡◌, ◌≢◌, refl, codes, arith,
  returned,
}
use metrify.Failure.{Failure, message}
use metrify.Flags.{string_var, number_var, bool_var, parse, parse_loop, parse_one}
use metrify.Flags.Parsing.{last_given, given}
use metrify.Config.{fatal, config_vars, config_argument, get_config_path, parse_or_exit}
use metrify.Config.Agent
use metrify.Agent.Loop.{Sender, new_sender}
use metrify.Agent.Loop
use metrify.Agent.Start.{
  Resources, runtime_collector, gopsutil_collector, sender, ticking, panicking, new_goroutine,
  go_senders, Launched, launch, get_public_key, public_key, client_of, main, Ticks, idle,
  runtime_tick,
}
use metrify.Agent.Start.Senders.{main-unsent}
use metrify.Tests.Example.{Files, example}
use metrify.Tests.Sending.{network}
use metrify.Tests.Configuring.{os}

-- No gRPC server can be dialled; the only key file has a key of another kind.
abbrev resources : Resources ℕ Files
resources = record {
  read_file = λ path. inr path;
  decode_pem = λ key. some key;
  parse_pkix = λ block. inr none;
  dial = λ host. inl (message host);
  quote = λ protocol. protocol;
}

abbrev no_client : Sender ℕ Files
no_client = record {
  update_metric = λ m w. (returned none, w);
  update_metrics = λ ms w. (returned none, w);
}

abbrev unmarshal : Bytes → Agent.Config × Option Failure
unmarshal text = (
  record { address = codes "h:1"; report_interval = 10; poll_interval = 2; crypto_key = [] },
  none,
)

abbrev env_parse : Agent.Flags → Failure ⊎ Agent.Flags
env_parse f = inr f

abbrev args : List Bytes
args = codes "-config" ∷ codes "agent.json" ∷ codes "-b" ∷ []

abbrev settings : Agent.Flags
settings = record Agent.zero_flags {
  host = codes "h:1";
  poll_interval = 2;
  report_interval = 10;
  batch_update = true;
  config = codes "agent.json";
  protocol = codes "http";
}

configured : Agent.parse_flags os unmarshal env_parse args ≡ inr settings
unfolding Agent.parse_flags Agent.from_config Agent.of_config Agent.vars get_config_path
    config_argument config_vars parse_or_exit parse parse_loop parse_one string_var number_var
    bool_var
configured = refl

has_file : get_config_path os args ≢ []
unfolding get_config_path config_argument parse parse_loop parse_one config_vars string_var
has_file p = cc

not_given : last_given (Agent.vars os) (codes "l") args ≡ none
unfolding given parse_one Agent.vars string_var number_var bool_var
not_given = refl

launched :
    (l : Launched ℕ Files) × (b : Loop.Agent ℕ Files) × (main example network resources settings []
      ≡ inr l)
    × Ticks l l.agent b
unfolding main public_key client_of new_sender launch new_goroutine
launched = (_, _, refl, runtime_tick {interval = 2000000000} (("Alloc", 5) ∷ []) (head refl) idle)

main-unsent_example : launched.1.world ≡ []
main-unsent_example =
    main-unsent example network resources os unmarshal env_parse args settings [] launched.0
      launched.1 (λ g g' e. ground arith) has_file not_given configured launched.2 launched.3

-- The defaults start both collectors and one sender.
default_goroutines :
    (launch {F = ℕ} (Agent.set_defaults Agent.zero_flags) [] no_client).goroutines
    ≡ ticking runtime_collector 2000000000
      ∷ ticking gopsutil_collector 2000000000
      ∷ ticking sender 10000000000
      ∷ []
unfolding launch new_goroutine go_senders Agent.set_defaults
default_goroutines = refl

-- A configuration file without an interval of polls gives 0, at which time.NewTicker panics, as it
-- does where the nanoseconds of the interval wrap round.
no_interval :
    (new_goroutine runtime_collector 0 ≡ panicking runtime_collector)
    × (new_goroutine sender 9223372037 ≡ panicking sender)
unfolding new_goroutine
no_interval = (refl, refl)

not_rsa : public_key example network resources (codes "key.pem") ≡ inl fatal
unfolding public_key get_public_key
not_rsa = refl

unknown_protocol :
    main example network resources (record Agent.zero_flags { protocol = codes "udp" }) []
    ≡ inl fatal
unfolding main public_key client_of new_sender
unknown_protocol = refl
