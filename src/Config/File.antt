-- ===== src/Config/File.antt =====
-- A configuration file that is named on the command line.
use metrify.Base.{
  Bytes, Option, none, some, List, [], ◌∷◌, ◌⊎◌, inl, inr, ◌≡◌, ◌≢◌, refl, sym, ap, arith, codes,
  is_empty_of_ne, bytes_eq, bytes_eq_iff, Bool-cases, Sum-cases,
}
use metrify.Failure.{Failure}
use metrify.Flags.{
  Var, string_var, find_var, End, wrong, Word, plain, terminator, bad_syntax, named, word_of, ended,
  assigned, parse_one, of_word,
}
use metrify.Flags.Rounds.{Step-cases, of_var-found}
use metrify.Flags.Parsing.{parse-ended}
use metrify.Config.{
  Startup, config_vars, config_argument, Exit, fatal, exit_code, parse_or_exit, get_config_path,
}
use metrify.Config.Server

-- The names that getConfigPath knows.
abbrev IsConfigName : Bytes → Type 0
IsConfigName name = (name ≡ codes "config") ⊎ (name ≡ codes "c")

find_var-config :
    (name : Bytes) (v : Var Bytes) → find_var config_vars name ≡ some v → IsConfigName name
unfolding config_vars string_var
find_var-config name v h = elim (Bool-cases (bytes_eq (codes "config") name)) [
  | inl e ↦ inl (sym ((bytes_eq_iff (codes "config") name).0 e))
  | inr e ↦ elim (Bool-cases (bytes_eq (codes "c") name)) [
    | inl e' ↦ inr (sym ((bytes_eq_iff (codes "c") name).0 e'))
    | inr e' ↦ absurd (ground arith)
  ]
]

named_word :
    (w : Word) (args rest : List Bytes) (v : Var Bytes) (value : Bytes)
    → of_word config_vars w args ≡ assigned v value rest
    → (name : Bytes) × (given : Option Bytes) × (w ≡ named name given) × IsConfigName name
named_word plain args rest v value h = cc
named_word terminator args rest v value h = cc
named_word bad_syntax args rest v value h = cc
named_word (named name given) args rest v value h = (
  name,
  given,
  refl,
  find_var-config name v
      (of_var-found config_vars (find_var config_vars name) v name value given args rest h),
)

named_argument :
    (args rest : List Bytes) (v : Var Bytes) (value : Bytes)
    → parse_one config_vars args ≡ assigned v value rest
    → (a : Bytes) × (later : List Bytes) × (name : Bytes) × (given : Option Bytes) × (args
        ≡ a ∷ later)
      × (word_of a ≡ named name given)
      × IsConfigName name
unfolding parse_one
named_argument [] rest v value h = cc
named_argument (a ∷ args) rest v value h =
    let (name, given, word, known) = named_word (word_of a) args rest v value h in
    (a, args, name, given, refl, word, known)

-- Where getConfigPath finds a path in the arguments, the first of them is one of its flags.
named_first :
    (args : List Bytes)
    → config_argument args ≢ []
    → (a : Bytes) × (later : List Bytes) × (name : Bytes) × (given : Option Bytes) × (args
        ≡ a ∷ later)
      × (word_of a ≡ named name given)
      × IsConfigName name
unfolding config_argument config_vars string_var
named_first args h = elim (Step-cases config_vars (parse_one config_vars args)) [
  | inl (e, at_end) ↦
      absurd (h (ap (λ (r : End × Bytes). r.1) (parse-ended config_vars args [] e at_end)))
  | inr (v, value, rest, one) ↦ named_argument args rest v value one
]

unknown : (os : Startup) (name : Bytes) → IsConfigName name → find_var (Server.vars os) name ≡ none
unfolding Server.vars
unknown os name (inl e) = rw e refl
unknown os name (inr e) = rw e refl

undefined :
    (os : Startup) (name : Bytes) (given : Option Bytes) (later : List Bytes)
    → IsConfigName name
    → of_word (Server.vars os) (named name given) later ≡ ended wrong
undefined os name given later (inl e) = rw (unknown os name (inl e)) (rw e refl)
undefined os name given later (inr e) = rw (unknown os name (inr e)) (rw e refl)

module _ (os : Startup) (unmarshal : Bytes → Server.Config × Option Failure)
    (env_parse : Server.Flags → Failure ⊎ Server.Flags) (args : List Bytes) where
  parse-config :
      (f : Server.Flags)
      → config_argument args ≢ []
      → parse_or_exit (Server.vars os) args f ≡ inl (exit_code 2)
  unfolding parse_or_exit parse_one
  parse-config f h =
      let (a, later, name, given, first, word, known) = named_first args h in
      let at_end : parse_one (Server.vars os) args ≡ ended wrong =
        rw (first, word) (undefined os name given later known) in
      rw (parse-ended (Server.vars os) args f wrong at_end) refl

  -- A server whose configuration file is named on the command line never gets its settings: the
  -- program ends. Where the file and the environment are read without an error, it ends with
  -- status 2, as the flag that names the file is not one of the flags of the server.
  pub parse_flags-config_argument :
      config_argument args ≢ []
      → ((e : Exit) × (Server.parse_flags os unmarshal env_parse args ≡ inl e))
        × ((f₁ f₂ : Server.Flags)
            → Server.from_config os unmarshal env_parse (config_argument args) ≡ inr f₁
            → env_parse f₁ ≡ inr f₂
            → Server.parse_flags os unmarshal env_parse args ≡ inl (exit_code 2))
  unfolding Server.parse_flags get_config_path
  parse_flags-config_argument h = (ends, ends_wrong)
    where
      path : get_config_path os args ≡ config_argument args
      path = rw (is_empty_of_ne (config_argument args) h, get_config_path) refl

      ends_wrong :
          (f₁ f₂ : Server.Flags)
          → Server.from_config os unmarshal env_parse (config_argument args) ≡ inr f₁
          → env_parse f₁ ≡ inr f₂
          → Server.parse_flags os unmarshal env_parse args ≡ inl (exit_code 2)
      ends_wrong f₁ f₂ configured loaded =
          rw (path, Server.parse_flags) (rw configured (rw loaded (parse-config f₂ h)))

      ends : (e : Exit) × (Server.parse_flags os unmarshal env_parse args ≡ inl e)
      ends = elim (Sum-cases (Server.from_config os unmarshal env_parse (config_argument args))) [
        | inl (e, failed) ↦ (e, rw (path, Server.parse_flags) (rw failed refl))
        | inr (f₁, configured) ↦ elim (Sum-cases (env_parse f₁)) [
          | inl (e, failed) ↦
              (fatal, rw (path, Server.parse_flags) (rw configured (rw failed refl)))
          | inr (f₂, loaded) ↦ (exit_code 2, ends_wrong f₁ f₂ configured loaded)
        ]
      ]
