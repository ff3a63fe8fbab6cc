-- ===== src/Config/Server.antt =====
-- cmd/server/flags.go: the settings of the server.
use metrify.Base.{
  ℕ, Bytes, Bool, true, false, Option, none, some, List, [], ◌∷◌, ◌⊎◌, inl, inr, codes, is_empty,
  if◌then◌else◌,
}
use metrify.Failure.{Failure}
use metrify.Flags.{Var, string_var, number_var, bool_var}
use metrify.Config.{
  Startup, from_file, Exit, fatal, parse_or_exit, get_config_path, or_fatal, and_then,
}

-- An int is its bit pattern, a time.Duration its nanoseconds.
pub record Flags : Type 0 where
  pub run_addr : Bytes
  pub store_interval : ℕ
  pub file_store_path : Bytes
  pub restore : Bool
  pub dsn : Bytes
  pub key : Bytes
  pub audit_file : Bytes
  pub audit_url : Bytes
  pub cpu_profile_file : Bytes
  pub cpu_profile_duration : ℕ
  pub mem_profile_file : Bytes
  pub crypto_key : Bytes
  pub trusted_subnet : Bytes
  pub protocol : Bytes

-- config.Config
pub record Config : Type 0 where
  pub address : Bytes
  pub restore : Bool
  pub store_interval : Bytes
  pub store_file : Bytes
  pub database_dsn : Bytes
  pub crypto_key : Bytes

-- flags{}
abbrev pub zero_flags : Flags
zero_flags = record {
  run_addr = [];
  store_interval = 0;
  file_store_path = [];
  restore = false;
  dsn = [];
  key = [];
  audit_file = [];
  audit_url = [];
  cpu_profile_file = [];
  cpu_profile_duration = 0;
  mem_profile_file = [];
  crypto_key = [];
  trusted_subnet = [];
  protocol = [];
}

unfoldable pub set_defaults : Flags → Flags
set_defaults f = record {
  run_addr = codes ":8080";
  store_interval = 5;
  file_store_path = codes "./metrics.json";
  restore = true;
  dsn = [];
  key = [];
  audit_file = [];
  audit_url = [];
  cpu_profile_file = [];
  cpu_profile_duration = 0;
  mem_profile_file = [];
  crypto_key = [];
  trusted_subnet = [];
  protocol = codes "http";
}

abbrev with_interval : Flags → Option Failure × ℕ → Exit ⊎ Flags
with_interval f (some e, n) = inl fatal
with_interval f (none, n) = inr (record f { store_interval = n })

-- The fields that a configuration file gives.
unfoldable pub of_config : Startup → Config → Exit ⊎ Flags
of_config os cfg =
    let f : Flags = record zero_flags {
      run_addr = cfg.address;
      restore = cfg.restore;
      file_store_path = cfg.store_file;
      dsn = cfg.database_dsn;
      crypto_key = cfg.crypto_key;
    } in
    if is_empty cfg.store_interval
    then inr f
    else with_interval f (os.parse_seconds cfg.store_interval)

-- The flags of the command line, each with its default.
unfoldable pub vars : Startup → List (Var Flags)
unfolding string_var number_var bool_var
vars os =
    string_var (λ f v. record f { run_addr = v }) "a" (λ f. f.run_addr)
    ∷ number_var os.parse_int (λ f n. record f { store_interval = n }) "i" (λ f. f.store_interval)
    ∷ string_var (λ f v. record f { file_store_path = v }) "f" (λ f. f.file_store_path)
    ∷ bool_var (λ f b. record f { restore = b }) "r" (λ f. f.restore)
    ∷ string_var (λ f v. record f { dsn = v }) "d" (λ f. f.dsn)
    ∷ string_var (λ f v. record f { key = v }) "k" (λ f. f.key)
    ∷ string_var (λ f v. record f { audit_file = v }) "audit-file" (λ f. f.audit_file)
    ∷ string_var (λ f v. record f { audit_url = v }) "audit-url" (λ f. f.audit_url)
    ∷ string_var (λ f v. record f { cpu_profile_file = v }) "cpu-profile-file"
        (λ f. f.cpu_profile_file)
    ∷ number_var os.parse_duration (λ f n. record f { cpu_profile_duration = n })
        "cpu-profile-duration" (λ f. f.cpu_profile_duration)
    ∷ string_var (λ f v. record f { mem_profile_file = v }) "mem-profile-file"
        (λ f. f.mem_profile_file)
    ∷ string_var (λ f v. record f { crypto_key = v }) "crypto-key" (λ f. f.crypto_key)
    ∷ string_var (λ f v. record f { trusted_subnet = v }) "t" (λ f. f.crypto_key)
    ∷ string_var (λ f v. record f { protocol = v }) "protocol" (λ f. codes "http")
    ∷ []

module _ (os : Startup) (unmarshal : Bytes → Config × Option Failure)
    (env_parse : Flags → Failure ⊎ Flags) where
  -- What the file gives, or the defaults where there is no path of one.
  unfoldable pub from_config : Bytes → Exit ⊎ Flags
  unfolding of_config set_defaults from_file
  from_config path =
      if is_empty path
      then inr (set_defaults zero_flags)
      else and_then (or_fatal (from_file os unmarshal path)) (of_config os)

  -- `env_parse` is env.Parse, `args` os.Args[1:].
  unfoldable pub parse_flags : List Bytes → Exit ⊎ Flags
  unfolding from_config vars parse_or_exit get_config_path
  parse_flags args =
      and_then (from_config (get_config_path os args))
        (λ f. and_then (or_fatal (env_parse f)) (parse_or_exit (vars os) args))
