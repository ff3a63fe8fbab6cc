-- ===== src/Config/RateLimit.antt =====
-- The rate limit of an agent with a configuration file, which has no field for it.
use metrify.Base.{
  ℕ, Bytes, Option, none, List, [], ◌⊎◌, inr, ◌≡◌, ◌≢◌, sym, ap, ◌∙◌, arith, All, codes,
  is_empty_of_ne,
}
use metrify.Failure.{Failure}
use metrify.Flags.{parsed, parse}
use metrify.Flags.Parsing.{Reads, last_given, or_given, parse-Reads}
use metrify.Config.{Startup, parse_or_exit, get_config_path, from_file, or_fatal}
use metrify.Config.Exits.{or_fatal-inr, and_then-inr, of_parse-parsed}
use metrify.Config.Agent.{Flags, Config, of_config, from_config, vars, parse_flags}

module _ (os : Startup) (unmarshal : Bytes → Config × Option Failure)
    (env_parse : Flags → Failure ⊎ Flags) (args : List Bytes) where
  abbrev read_rate : Bytes → ℕ
  read_rate value = (os.parse_int value).1

  rate_limit-Reads : All (Reads (vars os) read_rate (λ f. f.rate_limit) (codes "l")) (vars os)
  unfolding vars
  rate_limit-Reads = ground arith

  from_config-rate_limit :
      (path : Bytes) (f : Flags)
      → path ≢ []
      → from_config os unmarshal env_parse path ≡ inr f
      → f.rate_limit ≡ 0
  unfolding from_config of_config
  from_config-rate_limit path f h configured =
      let (cfg, loaded, done) =
        and_then-inr (or_fatal (from_file os unmarshal path)) _ f
          (rw (is_empty_of_ne path h, from_config) at configured) in
      let same : of_config cfg ≡ f = ground (arith, done) in
      ap (λ (g : Flags). g.rate_limit) (sym same)

  parse-rate_limit :
      (f f' : Flags)
      → last_given (vars os) (codes "l") args ≡ none
      → parse (vars os) args f ≡ (parsed, f')
      → f'.rate_limit ≡ f.rate_limit
  unfolding vars
  parse-rate_limit f f' not_given done =
      parse-Reads (vars os) read_rate (λ g. g.rate_limit) (codes "l") args f f' rate_limit-Reads
        done
      ∙ ap (λ given. or_given read_rate given f.rate_limit) not_given

  -- An agent with a configuration file has the rate limit 0, unless the environment changes it or
  -- the command line gives one.
  pub parse_flags-rate_limit :
      (f : Flags)
      → ((g g' : Flags) → env_parse g ≡ inr g' → g'.rate_limit ≡ g.rate_limit)
      → get_config_path os args ≢ []
      → last_given (vars os) (codes "l") args ≡ none
      → parse_flags os unmarshal env_parse args ≡ inr f
      → f.rate_limit ≡ 0
  unfolding parse_flags parse_or_exit
  parse_flags-rate_limit f unset has_file not_given h =
      let (f₁, configured, rest) =
        and_then-inr (from_config os unmarshal env_parse (get_config_path os args)) _ f h in
      let (f₂, loaded, done) = and_then-inr (or_fatal (env_parse f₁)) _ f rest in
      parse-rate_limit f₂ f not_given (of_parse-parsed _ f done)
      ∙ unset f₁ f₂ (or_fatal-inr (env_parse f₁) f₂ loaded)
      ∙ from_config-rate_limit (get_config_path os args) f₁ has_file configured
