-- ===== src/Tests/Configuring.antt =====
-- The command line and the settings of the server at concrete arguments.
use metrify.Base.{
  ℕ, String, Bytes, true, Option, none, some, List, [], ◌∷◌, ◌⊎◌, inl, inr, ◌≡◌, ◌≢◌, refl, arith,
  codes, ◌==◌, if◌then◌else◌,
}
use metrify.Failure.{Failure, message}
use metrify.Int64.{parse_uint}
use metrify.Flags.{string_var, number_var, bool_var, parse, parse_loop, parse_one}
use metrify.Flags.Parsing.{or_text}
use metrify.Config.{
  Startup, Exit, exit_code, config_vars, config_argument, get_config_path, parse_or_exit,
}
use metrify.Config.Server
use metrify.Config.Precedence.{from_env, argument, EnvLaws, parse_flags-precedence}
use metrify.Config.File.{parse_flags-config_argument}

abbrev or_syntax : Option ℕ → Option Failure × ℕ
or_syntax none = (some (message (codes "invalid syntax")), 0)
or_syntax (some n) = (none, n)

abbrev environment : String → Bytes
environment name =
    if name == "ADDRESS"
    then codes "h:1"
    else if name == "CRYPTO_KEY"
    then codes "key.pem"
    else if name == "TRUSTED_SUBNET"
    then codes "10.0.0.0/8"
    else []

abbrev pub os : Startup
os = record {
  read_file = λ path. inr [];
  getenv = environment;
  parse_int = λ v. or_syntax (parse_uint v);
  parse_duration = λ v. or_syntax (parse_uint v);
  parse_seconds = λ v. or_syntax (parse_uint v);
}

abbrev unmarshal : Bytes → Server.Config × Option Failure
unmarshal text = (
  record {
    address = [];
    restore = true;
    store_interval = [];
    store_file = [];
    database_dsn = [];
    crypto_key = [];
  },
  none,
)

abbrev env_parse : Server.Flags → Failure ⊎ Server.Flags
env_parse f = inr (record f {
  run_addr = codes "h:1";
  crypto_key = codes "key.pem";
  trusted_subnet = codes "10.0.0.0/8";
})

env_laws : EnvLaws os env_parse
env_laws = record { address = λ f f' h. ground arith; crypto_key = λ f f' h. ground arith }

abbrev args : List Bytes
args = codes "-r" ∷ codes "-i" ∷ codes "30" ∷ codes "--a=:90" ∷ codes "rest" ∷ []

started :
    (f : Server.Flags) × (Server.parse_flags os unmarshal env_parse args ≡ inr f)
    × (f.trusted_subnet ≡ codes "key.pem")
unfolding Server.parse_flags Server.from_config get_config_path config_argument parse_or_exit parse
    parse_loop parse_one string_var number_var bool_var Server.vars config_vars parse_uint
started = (_, refl, refl)

parse_flags-precedence_example :
    (f₁ : Server.Flags) × (Server.from_config os unmarshal env_parse (get_config_path os args)
      ≡ inr f₁)
    × (started.0.run_addr
        ≡ or_text
            (argument os unmarshal env_parse args started.0 "a")
            (from_env os "ADDRESS" f₁.run_addr))
    × (started.0.crypto_key
        ≡ or_text
            (argument os unmarshal env_parse args started.0 "crypto-key")
            (from_env os "CRYPTO_KEY" f₁.crypto_key))
    × (started.0.trusted_subnet
        ≡ or_text
            (argument os unmarshal env_parse args started.0 "t")
            (from_env os "CRYPTO_KEY" f₁.crypto_key))
    × (started.0.protocol
        ≡ or_text (argument os unmarshal env_parse args started.0 "protocol") (codes "http"))
parse_flags-precedence_example =
    parse_flags-precedence os unmarshal env_parse args started.0 env_laws started.1

abbrev with_file : List Bytes
with_file = codes "-c" ∷ codes "server.json" ∷ codes "-r" ∷ []

names_file : config_argument with_file ≢ []
unfolding config_argument parse parse_loop parse_one config_vars string_var
names_file p = cc

parse_flags-config_argument_example :
    ((e : Exit) × (Server.parse_flags os unmarshal env_parse with_file ≡ inl e))
    × ((f₁ f₂ : Server.Flags)
        → Server.from_config os unmarshal env_parse (config_argument with_file) ≡ inr f₁
        → env_parse f₁ ≡ inr f₂
        → Server.parse_flags os unmarshal env_parse with_file ≡ inl (exit_code 2))
parse_flags-config_argument_example =
    parse_flags-config_argument os unmarshal env_parse with_file names_file
