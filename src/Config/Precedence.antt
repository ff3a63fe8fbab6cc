-- ===== src/Config/Precedence.antt =====
-- Which of the sources of a setting wins.
use metrify.Base.{
  String, Bytes, Option, List, ◌⊎◌, inr, ◌≡◌, ap, ◌∙◌, arith, All, codes, is_empty, if◌then◌else◌,
}
use metrify.Failure.{Failure}
use metrify.Flags.{parsed, parse}
use metrify.Flags.Parsing.{Holds, last_given, or_text, parse-Holds}
use metrify.Config.{Startup, parse_or_exit, get_config_path}
use metrify.Config.Exits.{or_fatal-inr, and_then-inr, of_parse-parsed}
use metrify.Config.Server

-- env.Parse: a variable that is set and not empty wins over what the field had.
abbrev pub from_env : Startup → String → Bytes → Bytes
from_env os name before = if is_empty (os.getenv name) then before else os.getenv name

pub record EnvLaws (os : Startup) (env_parse : Server.Flags → Failure ⊎ Server.Flags) : Type 0 where
  pub address :
      (f f' : Server.Flags) → env_parse f ≡ inr f' → f'.run_addr ≡ from_env os "ADDRESS" f.run_addr
  pub crypto_key :
      (f f' : Server.Flags)
      → env_parse f ≡ inr f'
      → f'.crypto_key ≡ from_env os "CRYPTO_KEY" f.crypto_key

module _ (os : Startup) (unmarshal : Bytes → Server.Config × Option Failure)
    (env_parse : Server.Flags → Failure ⊎ Server.Flags) (args : List Bytes) (f : Server.Flags) where
  parsed_flags :
      Server.parse_flags os unmarshal env_parse args ≡ inr f
      → (f₁ f₂ : Server.Flags) × (Server.from_config os unmarshal env_parse
            (get_config_path os args)
          ≡ inr f₁)
        × (env_parse f₁ ≡ inr f₂)
        × (parse (Server.vars os) args f₂ ≡ (parsed, f))
  unfolding Server.parse_flags
  parsed_flags h =
      let (f₁, configured, rest) = and_then-inr _ _ f h in
      let (f₂, loaded, done) = and_then-inr _ _ f rest in
      (
        f₁,
        f₂,
        configured,
        or_fatal-inr (env_parse f₁) f₂ loaded,
        unfold parse_or_exit in of_parse-parsed _ f done,
      )

  run_addr-Holds : All (Holds (Server.vars os) (λ f. f.run_addr) (codes "a")) (Server.vars os)
  unfolding Server.vars
  run_addr-Holds = ground arith

  crypto_key-Holds :
      All (Holds (Server.vars os) (λ f. f.crypto_key) (codes "crypto-key")) (Server.vars os)
  unfolding Server.vars
  crypto_key-Holds = ground arith

  trusted_subnet-Holds :
      All (Holds (Server.vars os) (λ f. f.trusted_subnet) (codes "t")) (Server.vars os)
  unfolding Server.vars
  trusted_subnet-Holds = ground arith

  protocol-Holds :
      All (Holds (Server.vars os) (λ f. f.protocol) (codes "protocol")) (Server.vars os)
  unfolding Server.vars
  protocol-Holds = ground arith

  abbrev pub argument : String → Option Bytes
  argument name = last_given (Server.vars os) (codes name) args

  -- Where the server gets its settings at all, with an environment that wins over the
  -- configuration file or the defaults: the address and the crypto key are those of the command
  -- line, if it gives them, otherwise those of the environment, if it has them, and otherwise
  -- those of the file or the defaults. But the trusted subnet, if the command line does not give
  -- it, is the crypto key of environment, file or defaults, and the protocol, if the command line
  -- does not give it, is http, whatever the environment and the file have for them.
  pub parse_flags-precedence :
      EnvLaws os env_parse
      → Server.parse_flags os unmarshal env_parse args ≡ inr f
      → (f₁ : Server.Flags) × (Server.from_config os unmarshal env_parse (get_config_path os args)
          ≡ inr f₁)
        × (f.run_addr ≡ or_text (argument "a") (from_env os "ADDRESS" f₁.run_addr))
        × (f.crypto_key ≡ or_text (argument "crypto-key") (from_env os "CRYPTO_KEY" f₁.crypto_key))
        × (f.trusted_subnet ≡ or_text (argument "t") (from_env os "CRYPTO_KEY" f₁.crypto_key))
        × (f.protocol ≡ or_text (argument "protocol") (codes "http"))
  unfolding Server.vars
  parse_flags-precedence laws h =
      let (f₁, f₂, configured, loaded, done) = parsed_flags h in
      let vs = Server.vars os in
      (
        f₁,
        configured,
        parse-Holds vs (λ g. g.run_addr) (codes "a") args f₂ f run_addr-Holds done
            ∙ ap (or_text (argument "a")) (laws.address f₁ f₂ loaded),
        parse-Holds vs (λ g. g.crypto_key) (codes "crypto-key") args f₂ f crypto_key-Holds done
            ∙ ap (or_text (argument "crypto-key")) (laws.crypto_key f₁ f₂ loaded),
        parse-Holds vs (λ g. g.trusted_subnet) (codes "t") args f₂ f trusted_subnet-Holds done
            ∙ ap (or_text (argument "t")) (laws.crypto_key f₁ f₂ loaded),
        parse-Holds vs (λ g. g.protocol) (codes "protocol") args f₂ f protocol-Holds done,
      )
