-- ===== src/Config.antt =====
-- cmd/server/flags.go and cmd/agent/flags.go: the settings of both programs, from the command line,
-- the environment and a file; internal/service/configLoader.go, internal/config and
-- internal/agent/config.go.
use metrify.Base.{
  ℕ, String, Bytes, Bool, true, false, Option, none, some, List, [], ◌∷◌, ◌⊎◌, inl, inr, codes,
  is_empty, if◌then◌else◌,
}
use metrify.Failure.{Failure}
use metrify.Flags.{Var, string_var, number_var, bool_var, End, parsed, help_asked, wrong, parse}
pub mod Server
pub mod Agent
pub mod Exits
pub mod Precedence
pub mod File
pub mod RateLimit

-- What the start of a program reads: files, environment variables, and the parsers of json,
-- strconv and time; `parse_seconds` is time.ParseDuration followed by int(d.Seconds()).
pub record Startup : Type 0 where
  pub read_file : Bytes → Failure ⊎ Bytes
  pub getenv : String → Bytes
  pub parse_int : Bytes → Option Failure × ℕ
  pub parse_duration : Bytes → Option Failure × ℕ
  pub parse_seconds : Bytes → Option Failure × ℕ

-- service.FromFile: `unmarshal` is json.Unmarshal at the type of the configuration.
abbrev decoded : {C : Type 0} → C × Option Failure → Failure ⊎ C
decoded (cfg, none) = inr cfg
decoded (cfg, some e) = inl e

abbrev unmarshalled : {C : Type 0} → (Bytes → C × Option Failure) → Failure ⊎ Bytes → Failure ⊎ C
unmarshalled unmarshal (inl e) = inl e
unmarshalled unmarshal (inr text) = decoded (unmarshal text)

unfoldable pub from_file :
    {C : Type 0} → Startup → (Bytes → C × Option Failure) → Bytes → Failure ⊎ C
from_file os unmarshal path = unmarshalled unmarshal (os.read_file path)

-- How a program ends before it has its settings: by log.Fatal, or by os.Exit in flag.Parse.
pub data Exit : Type 0 where
  fatal : Exit
  exit_code : ℕ → Exit

abbrev pub of_parse : {S : Type 0} → End × S → Exit ⊎ S
of_parse (parsed, f) = inr f
of_parse (help_asked, f) = inl (exit_code 0)
of_parse (wrong, f) = inl (exit_code 2)

-- flag.Parse, with ExitOnError
unfoldable pub parse_or_exit : {S : Type 0} → List (Var S) → List Bytes → S → Exit ⊎ S
unfolding parse
parse_or_exit vs args f = of_parse (parse vs args f)

-- getConfigPath: both programs have the same. The flag set ends at the first flag that it does not
-- know; the error is dropped.
unfoldable pub config_vars : List (Var Bytes)
unfolding string_var
config_vars =
    string_var (λ cfg v. v) "config" (λ cfg. []) ∷ string_var (λ cfg v. v) "c" (λ cfg. []) ∷ []

unfoldable pub config_argument : List Bytes → Bytes
unfolding parse config_vars
config_argument args = (parse config_vars args []).1

unfoldable pub get_config_path : Startup → List Bytes → Bytes
unfolding config_argument
get_config_path os args =
    let cfg = config_argument args in if is_empty cfg then os.getenv "CONFIG" else cfg

abbrev pub or_fatal : {A : Type 0} → Failure ⊎ A → Exit ⊎ A
or_fatal (inl e) = inl fatal
or_fatal (inr a) = inr a

abbrev pub and_then : {A B : Type 0} → Exit ⊎ A → (A → Exit ⊎ B) → Exit ⊎ B
and_then (inl e) k = inl e
and_then (inr a) k = k a
