-- ===== src/Config/Agent.antt =====
-- cmd/agent/flags.go: the settings of the agent.
use metrify.Base.{
  ℕ, Bytes, Bool, false, Option, List, [], ◌∷◌, ◌⊎◌, inr, codes, is_empty, if◌then◌else◌,
}
use metrify.Failure.{Failure}
use metrify.Flags.{Var, string_var, number_var, bool_var}
use metrify.Config.{Startup, from_file, Exit, parse_or_exit, get_config_path, or_fatal, and_then}

-- An int is its bit pattern.
pub record Flags : Type 0 where
  pub host : Bytes
  pub poll_interval : ℕ
  pub report_interval : ℕ
  pub batch_update : Bool
  pub key : Bytes
  pub rate_limit : ℕ
  pub crypto_key : Bytes
  pub config : Bytes
  pub protocol : Bytes

-- agent.Config
pub record Config : Type 0 where
  pub address : Bytes
  pub report_interval : ℕ
  pub poll_interval : ℕ
  pub crypto_key : Bytes

-- flags{}
abbrev pub zero_flags : Flags
zero_flags = record {
  host = [];
  poll_interval = 0;
  report_interval = 0;
  batch_update = false;
  key = [];
  rate_limit = 0;
  crypto_key = [];
  config = [];
  protocol = [];
}

unfoldable pub set_defaults : Flags → Flags
set_defaults f = record {
  host = codes ":8080";
  poll_interval = 2;
  report_interval = 10;
  batch_update = false;
  key = [];
  rate_limit = 1;
  crypto_key = [];
  config = [];
  protocol = codes "http";
}

-- The fields that a configuration file gives.
unfoldable pub of_config : Config → Flags
of_config cfg = record zero_flags {
  host = cfg.address;
  report_interval = cfg.report_interval;
  poll_interval = cfg.poll_interval;
  crypto_key = cfg.crypto_key;
}

-- The flags of the command line, each with its default.
unfoldable pub vars : Startup → List (Var Flags)
unfolding string_var number_var bool_var
vars os =
    string_var (λ f v. record f { host = v }) "address" (λ f. f.host)
    ∷ string_var (λ f v. record f { host = v }) "a" (λ f. f.host)
    ∷ number_var os.parse_int (λ f n. record f { poll_interval = n }) "p" (λ f. f.poll_interval)
    ∷ number_var os.parse_int (λ f n. record f { report_interval = n }) "r" (λ f. f.report_interval)
    ∷ bool_var (λ f b. record f { batch_update = b }) "b" (λ f. f.batch_update)
    ∷ string_var (λ f v. record f { key = v }) "k" (λ f. f.key)
    ∷ number_var os.parse_int (λ f n. record f { rate_limit = n }) "l" (λ f. f.rate_limit)
    ∷ string_var (λ f v. record f { crypto_key = v }) "crypto-key" (λ f. f.crypto_key)
    ∷ string_var (λ f v. record f { config = v }) "config" (λ f. f.config)
    ∷ string_var (λ f v. record f { protocol = v }) "protocol" (λ f. codes "http")
    ∷ []

module _ (os : Startup) (unmarshal : Bytes → Config × Option Failure)
    (env_parse : Flags → Failure ⊎ Flags) where
  abbrev settings : Config → Exit ⊎ Flags
  settings cfg = inr (of_config cfg)

  -- What the file gives, or the defaults where there is no path of one.
  unfoldable pub from_config : Bytes → Exit ⊎ Flags
  unfolding of_config set_defaults from_file
  from_config path =
      if is_empty path
      then inr (set_defaults zero_flags)
      else and_then (or_fatal (from_file os unmarshal path)) settings

  -- `env_parse` is env.Parse, `args` os.Args[1:].
  unfoldable pub parse_flags : List Bytes → Exit ⊎ Flags
  unfolding from_config vars parse_or_exit get_config_path
  parse_flags args =
      and_then (from_config (get_config_path os args))
        (λ f. and_then (or_fatal (env_parse f)) (parse_or_exit (vars os) args))
