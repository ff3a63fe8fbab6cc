-- ===== src/Flags.antt =====
-- Package flag, as cmd/server/flags.go and cmd/agent/flags.go use it: flags that set the fields of
-- a struct, and the loop of FlagSet.Parse over the arguments.
pub mod Rounds
pub mod Parsing
use metrify.Base.{
  ℕ, zero, suc, String, Bytes, Bool, true, false, ◌&&◌, ◌||◌, Option, none, some, List, [], ◌∷◌,
  map, codes, bytes_eq, nat_eq, length, is_empty, if◌then◌else◌,
}
use metrify.Failure.{Failure, message}
use metrify.Address.{split_first}

-- A *flag.Flag over the struct `S`: `start` is what its registration assigns, and `set` its
-- Value.Set.
pub record Var (S : Type 0) : Type 0 where
  pub name : Bytes
  pub is_bool : Bool
  pub start : S → S
  pub set : Bytes → S → Option Failure × S

-- strconv.ParseBool
abbrev pub parse_bool : Bytes → Option Bool
parse_bool v =
    if bytes_eq v (codes "1")
      || bytes_eq v (codes "t")
      || bytes_eq v (codes "T")
      || bytes_eq v (codes "true")
      || bytes_eq v (codes "TRUE")
      || bytes_eq v (codes "True")
    then some true
    else if bytes_eq v (codes "0")
        || bytes_eq v (codes "f")
        || bytes_eq v (codes "F")
        || bytes_eq v (codes "false")
        || bytes_eq v (codes "FALSE")
        || bytes_eq v (codes "False")
    then some false
    else none

module _ {S : Type 0} where
  -- flag.StringVar(p, name, value): `put` assigns to *p, `value` is computed at the registration.
  unfoldable pub string_var : (S → Bytes → S) → String → (S → Bytes) → Var S
  string_var put name value = record {
    name = codes name;
    is_bool = false;
    start = λ f. put f (value f);
    set = λ v f. (none, put f v);
  }

  -- flag.IntVar and flag.DurationVar: `parse` is the parser of the type. What it gives is assigned
  -- beside an error too.
  unfoldable pub number_var : (Bytes → Option Failure × ℕ) → (S → ℕ → S) → String → (S → ℕ) → Var S
  number_var parse put name value = record {
    name = codes name;
    is_bool = false;
    start = λ f. put f (value f);
    set = λ v f. let (e, n) = parse v in (e, put f n);
  }

  abbrev assign_bool : (S → Bool → S) → Option Bool → S → Option Failure × S
  assign_bool put none f = (some (message (codes "parse error")), put f false)
  assign_bool put (some b) f = (none, put f b)

  unfoldable pub bool_var : (S → Bool → S) → String → (S → Bool) → Var S
  bool_var put name value = record {
    name = codes name;
    is_bool = true;
    start = λ f. put f (value f);
    set = λ v f. assign_bool put (parse_bool v) f;
  }

  -- The registrations, in their order.
  abbrev pub register : List (Var S) → S → S
  register [] f = f
  register (v ∷ vs) f = register vs (v.start f)

  abbrev pub find_var : List (Var S) → Bytes → Option (Var S)
  find_var [] name = none
  find_var (v ∷ vs) name =
      let later = find_var vs name in if bytes_eq v.name name then some v else later

-- An argument: a word that ends the flags, "--", a flag that is badly written, or a name with or
-- without a value after "=".
pub data Word : Type 0 where
  plain terminator bad_syntax : Word
  named : Bytes → Option Bytes → Word

abbrev split_value : ℕ → Bytes → Option (Bytes × Bytes) → Word
split_value c rest none = named (c ∷ rest) none
split_value c rest (some (front, value)) = named (c ∷ front) (some value)

-- The text after the dashes.
abbrev name_word : Bytes → Word
name_word [] = bad_syntax
name_word (c ∷ rest) =
    if nat_eq c b'-' || nat_eq c b'='
    then bad_syntax
    else split_value c rest (split_first b'=' rest)

abbrev after_dash : Bytes → Word
after_dash [] = plain
after_dash (c ∷ rest) =
    if nat_eq c b'-'
    then (if is_empty rest then terminator else name_word rest)
    else name_word (c ∷ rest)

abbrev pub word_of : Bytes → Word
word_of [] = plain
word_of (c ∷ rest) = if nat_eq c b'-' then after_dash rest else plain

-- How Parse ends: at the end of the flags, at -help or -h where these are not defined, or at an
-- error.
pub data End : Type 0 where
  parsed help_asked wrong : End

-- What parseOne makes of the arguments: an end, or a value for a flag, with what is left.
pub data Step (S : Type 0) : Type 0 where
  ended : End → Step S
  assigned : Var S → Bytes → List Bytes → Step S

module _ {S : Type 0} where
  abbrev pub take_value : Var S → Option Bytes → List Bytes → Step S
  take_value v (some value) rest = assigned v value rest
  take_value v none [] = if v.is_bool then assigned v (codes "true") [] else ended wrong
  take_value v none (value ∷ rest) =
      if v.is_bool then assigned v (codes "true") (value ∷ rest) else assigned v value rest

  abbrev pub of_var : Bytes → Option Bytes → Option (Var S) → List Bytes → Step S
  of_var name value none rest =
      if bytes_eq name (codes "help") || bytes_eq name (codes "h")
      then ended help_asked
      else ended wrong
  of_var name value (some v) rest = take_value v value rest

  abbrev pub of_word : List (Var S) → Word → List Bytes → Step S
  of_word vs plain rest = ended parsed
  of_word vs terminator rest = ended parsed
  of_word vs bad_syntax rest = ended wrong
  of_word vs (named name value) rest = of_var name value (find_var vs name) rest

  unfoldable pub parse_one : List (Var S) → List Bytes → Step S
  parse_one vs [] = ended parsed
  parse_one vs (a ∷ rest) = of_word vs (word_of a) rest

  -- The loop of Parse, on fuel; `none` is that there was not enough.
  unfoldable pub parse_loop : ℕ → List (Var S) → List Bytes → S → Option (End × S)
  unfolding parse_one
  parse_loop zero vs args f = none
  parse_loop (suc fuel) vs args f = elim (parse_one vs args) [
    | ended e ↦ some (e, f)
    | assigned v value rest ↦
        (let (failed, f') = v.set value f in
          elim failed [ some e ↦ some (wrong, f') | none ↦ parse_loop fuel vs rest f' ])
  ]

  abbrev or_wrong : S → Option (End × S) → End × S
  or_wrong f none = (wrong, f)
  or_wrong f (some r) = r

  -- Registration and Parse, with more fuel than there are arguments.
  unfoldable pub parse : List (Var S) → List Bytes → S → End × S
  unfolding parse_loop
  parse vs args f =
      or_wrong (register vs f) (parse_loop (suc (length args)) vs args (register vs f))
