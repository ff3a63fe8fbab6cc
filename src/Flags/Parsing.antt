-- ===== src/Flags/Parsing.antt =====
-- The loop over the arguments: that it ends, and what it assigns.
use metrify.Base.{
  ℕ, zero, suc, ◌<◌, Bytes, Bool, Option, none, some, List, inl, inr, ◌≡◌, ◌∙◌, sym, ap, All, refl,
  arith, length, Option-cases, if◌then◌else◌, bytes_eq,
}
use metrify.Flags.{Var, register, End, parsed, ended, assigned, parse_one, parse_loop, parse}
use metrify.Flags.Rounds.{
  find_var-All, parse_one-IsFound, Step-cases, parse_loop-ended, parse_loop-assigned,
  parse_loop-wrong, parse_loop-enough,
}

abbrev pub or_given : {A : Type 0} → (Bytes → A) → Option Bytes → A → A
or_given read (some value) otherwise = read value
or_given read none otherwise = otherwise

abbrev pub or_text : Option Bytes → Bytes → Bytes
or_text = or_given (λ value. value)

module _ {S : Type 0} (vs : List (Var S)) where
  -- Parse ends on any arguments: every fuel above their number is enough, and all such fuel gives
  -- what Parse gives.
  parse-ends :
      (fuel : ℕ) (args : List Bytes) (f : S)
      → length args < fuel
      → parse_loop fuel vs args (register vs f) ≡ some (parse vs args f)
  unfolding parse
  parse-ends fuel args f h =
      let (r, at_fuel, at_least) =
        parse_loop-enough vs fuel (suc (length args)) args (register vs f) h (omega arith) in
      rw (at_fuel, at_least) refl

  -- The value that the arguments give last for the flag `name`.
  abbrev or_later : Option Bytes → Option Bytes → Option Bytes
  or_later (some later) now = some later
  or_later none now = now

  unfoldable pub given : ℕ → Bytes → List Bytes → Option Bytes
  given zero name args = none
  given (suc fuel) name args = elim (parse_one vs args) [
    | ended e ↦ none
    | assigned v value rest ↦
        or_later (given fuel name rest) (if bytes_eq v.name name then some value else none)
  ]

  abbrev pub last_given : Bytes → List Bytes → Option Bytes
  last_given name args = given (suc (length args)) name args

  -- No flag but those named `name` assigns to the field, and these assign what is read from the
  -- text they are given.
  abbrev pub Reads : {A : Type 0} → (Bytes → A) → (S → A) → Bytes → Var S → Type 0
  Reads read field name v =
      (value : Bytes) (f : S)
      → field (v.set value f).1 ≡ (if bytes_eq v.name name then read value else field f)

  -- The same for a text.
  abbrev pub Holds : (S → Bytes) → Bytes → Var S → Type 0
  Holds = Reads (λ value. value)

  given-ended :
      (fuel : ℕ) (name : Bytes) (args : List Bytes) (e : End)
      → parse_one vs args ≡ ended e
      → given (suc fuel) name args ≡ none
  unfolding given
  given-ended fuel name args e h = rw (h, given) refl

  given-assigned :
      (fuel : ℕ) (name : Bytes) (args rest : List Bytes) (v : Var S) (value : Bytes)
      → parse_one vs args ≡ assigned v value rest
      → given (suc fuel) name args
        ≡ or_later (given fuel name rest) (if bytes_eq v.name name then some value else none)
  unfolding given
  given-assigned fuel name args rest v value h = rw (h, given) refl

  field_later :
      {A : Type 0} (read : Bytes → A) (later : Option Bytes) (same : Bool) (value : Bytes)
      → (before : A)
      → or_given read later (if same then read value else before)
        ≡ or_given read (or_later later (if same then some value else none)) before
  field_later read later same value before = ground arith

  given-Reads :
      {A : Type 0} (read : Bytes → A) (field : S → A) (name : Bytes) (fuel : ℕ) (args : List Bytes)
      (f f' : S)
      → All (Reads read field name) vs
      → parse_loop fuel vs args f ≡ some (parsed, f')
      → field f' ≡ or_given read (given fuel name args) (field f)
  given-Reads read field name zero args f f' all h = unfold parse_loop in absurd (ground arith)
  given-Reads read field name (suc fuel) args f f' all h =
      elim (Step-cases vs (parse_one vs args)) [
        | inl (e, at_end) ↦
            let same : f' ≡ f = ground (arith, h, parse_loop-ended vs fuel args f e at_end) in
            rw (given-ended fuel name args e at_end, same) refl
        | inr (v, value, rest, one) ↦ elim (Option-cases (v.set value f).0) [
          | inl fine ↦
              let later =
                given-Reads read field name fuel rest (v.set value f).1 f' all
                  (sym (parse_loop-assigned vs fuel args rest f v value one fine) ∙ h) in
              let now =
                find_var-All (Reads read field name) vs v all
                  (parse_one-IsFound vs args rest v value one) in
              later
              ∙ ap (or_given read (given fuel name rest)) (now value f)
              ∙ field_later read (given fuel name rest) (bytes_eq v.name name) value (field f)
              ∙ rw (given-assigned fuel name args rest v value one) refl
          | inr (e, failed) ↦
              absurd (ground (arith, h, parse_loop-wrong vs fuel args rest f v value e one failed))
        ]
      ]

  pub parse-Reads :
      {A : Type 0} (read : Bytes → A) (field : S → A) (name : Bytes) (args : List Bytes) (f f' : S)
      → All (Reads read field name) vs
      → parse vs args f ≡ (parsed, f')
      → field f' ≡ or_given read (last_given name args) (field (register vs f))
  parse-Reads read field name args f f' all h =
      given-Reads read field name (suc (length args)) args (register vs f) f' all
        (parse-ends (suc (length args)) args f (omega arith) ∙ ap some h)

  pub parse-Holds :
      (field : S → Bytes) (name : Bytes) (args : List Bytes) (f f' : S)
      → All (Holds field name) vs
      → parse vs args f ≡ (parsed, f')
      → field f' ≡ or_text (last_given name args) (field (register vs f))
  parse-Holds = parse-Reads (λ value. value)

  pub parse-ended :
      (args : List Bytes) (f : S) (e : End)
      → parse_one vs args ≡ ended e
      → parse vs args f ≡ (e, register vs f)
  unfolding parse
  parse-ended args f e h = rw (parse_loop-ended vs (length args) args (register vs f) e h) refl
