-- ===== src/Flags/Rounds.antt =====
-- One round of the loop over the arguments, and how many there can be.
use metrify.Base.{
  ℕ, zero, suc, ◌≤◌, ◌<◌, Bytes, Option, none, some, List, [], ◌∷◌, inl, inr, ◌⊎◌, ◌≡◌, ◌∙◌, All,
  refl, arith, length, Bool-cases, Option-cases, bytes_eq,
}
use metrify.Failure.{Failure}
use metrify.Flags.{
  Var, find_var, Word, plain, terminator, bad_syntax, named, word_of, End, wrong, Step, ended,
  assigned, parse_one, parse_loop, take_value, of_var, of_word,
}

pub find_var-All :
    {S : Type 0} (P : Var S → Type 0) (vs : List (Var S)) (v : Var S)
    → All P vs
    → (word : Bytes) × (find_var vs word ≡ some v)
    → P v
find_var-All P [] v all (word, h) = cc
find_var-All P (u ∷ vs) v all (word, h) = elim (Bool-cases (bytes_eq u.name word)) [
  | inl here ↦ let same : u ≡ v = ground arith in rw⁻¹ same all.0
  | inr later ↦ find_var-All P vs v all.1 (word, ground arith)
]

module _ {S : Type 0} (vs : List (Var S)) where
  take_value-shorter :
      (w v : Var S) (given : Option Bytes) (value : Bytes) (args rest : List Bytes)
      → take_value w given args ≡ assigned v value rest
      → length rest ≤ length args
  take_value-shorter w v (some value') value args rest h = ground arith
  take_value-shorter w v none value [] rest h = ground arith
  take_value-shorter w v none value (a ∷ args) rest h = ground arith

  of_var-shorter :
      (found : Option (Var S)) (v : Var S) (name value : Bytes) (given : Option Bytes)
      (args rest : List Bytes)
      → of_var name given found args ≡ assigned v value rest
      → length rest ≤ length args
  of_var-shorter none v name value given args rest h = ground arith
  of_var-shorter (some w) v name value given args rest h =
      take_value-shorter w v given value args rest h

  of_word-shorter :
      (w : Word) (v : Var S) (value : Bytes) (args rest : List Bytes)
      → of_word vs w args ≡ assigned v value rest
      → length rest ≤ length args
  of_word-shorter plain v value args rest h = cc
  of_word-shorter terminator v value args rest h = cc
  of_word-shorter bad_syntax v value args rest h = cc
  of_word-shorter (named name given) v value args rest h =
      of_var-shorter (find_var vs name) v name value given args rest h

  pub of_var-found :
      (found : Option (Var S)) (v : Var S) (name value : Bytes) (given : Option Bytes)
      (args rest : List Bytes)
      → of_var name given found args ≡ assigned v value rest
      → found ≡ some v
  of_var-found none v name value given args rest h = ground arith
  of_var-found (some w) v name value (some value') args rest h = ground arith
  of_var-found (some w) v name value none [] rest h = ground arith
  of_var-found (some w) v name value none (a ∷ args) rest h = ground arith

  of_word-found :
      (w : Word) (v : Var S) (value : Bytes) (args rest : List Bytes)
      → of_word vs w args ≡ assigned v value rest
      → (word : Bytes) × (find_var vs word ≡ some v)
  of_word-found plain v value args rest h = cc
  of_word-found terminator v value args rest h = cc
  of_word-found bad_syntax v value args rest h = cc
  of_word-found (named name given) v value args rest h =
      (name, of_var-found (find_var vs name) v name value given args rest h)

  parse_one-shorter :
      (args rest : List Bytes) (v : Var S) (value : Bytes)
      → parse_one vs args ≡ assigned v value rest
      → length rest < length args
  unfolding parse_one
  parse_one-shorter [] rest v value h = cc
  parse_one-shorter (a ∷ args) rest v value h =
      let less = of_word-shorter (word_of a) v value args rest h in omega (arith, less)

  abbrev IsFound : Var S → Type 0
  IsFound v = (word : Bytes) × (find_var vs word ≡ some v)

  pub parse_one-IsFound :
      (args rest : List Bytes) (v : Var S) (value : Bytes)
      → parse_one vs args ≡ assigned v value rest
      → IsFound v
  unfolding parse_one
  parse_one-IsFound [] rest v value h = cc
  parse_one-IsFound (a ∷ args) rest v value h = of_word-found (word_of a) v value args rest h

  pub Step-cases :
      (s : Step S)
      → ((e : End) × (s ≡ ended e))
        ⊎ ((v : Var S) × (value : Bytes) × (rest : List Bytes) × (s ≡ assigned v value rest))
  Step-cases (ended e) = inl (e, refl)
  Step-cases (assigned v value rest) = inr (v, value, rest, refl)

  pub parse_loop-ended :
      (fuel : ℕ) (args : List Bytes) (f : S) (e : End)
      → parse_one vs args ≡ ended e
      → parse_loop (suc fuel) vs args f ≡ some (e, f)
  unfolding parse_loop
  parse_loop-ended fuel args f e h = rw (h, parse_loop) refl

  pub parse_loop-assigned :
      (fuel : ℕ) (args rest : List Bytes) (f : S) (v : Var S) (value : Bytes)
      → parse_one vs args ≡ assigned v value rest
      → (v.set value f).0 ≡ none
      → parse_loop (suc fuel) vs args f ≡ parse_loop fuel vs rest (v.set value f).1
  unfolding parse_loop
  parse_loop-assigned fuel args rest f v value h fine = rw (h, parse_loop) (rw fine refl)

  pub parse_loop-wrong :
      (fuel : ℕ) (args rest : List Bytes) (f : S) (v : Var S) (value : Bytes) (e : Failure)
      → parse_one vs args ≡ assigned v value rest
      → (v.set value f).0 ≡ some e
      → parse_loop (suc fuel) vs args f ≡ some (wrong, (v.set value f).1)
  unfolding parse_loop
  parse_loop-wrong fuel args rest f v value e h failed = rw (h, parse_loop) (rw failed refl)

  pub parse_loop-enough :
      (n m : ℕ) (args : List Bytes) (f : S)
      → length args < n
      → length args < m
      → (r : End × S) × (parse_loop n vs args f ≡ some r) × (parse_loop m vs args f ≡ some r)
  parse_loop-enough zero m args f h h' = absurd (omega arith)
  parse_loop-enough (suc n) zero args f h h' = absurd (omega arith)
  parse_loop-enough (suc n) (suc m) args f h h' = elim (Step-cases (parse_one vs args)) [
    | inl (e, at_end) ↦
        ((e, f), parse_loop-ended n args f e at_end, parse_loop-ended m args f e at_end)
    | inr (v, value, rest, one) ↦ elim (Option-cases (v.set value f).0) [
      | inl fine ↦
          let shorter = parse_one-shorter args rest v value one in
          let (r, at_n, at_m) =
            parse_loop-enough n m rest (v.set value f).1 (omega (arith, shorter))
              (omega (arith, shorter)) in
          (
            r,
            parse_loop-assigned n args rest f v value one fine ∙ at_n,
            parse_loop-assigned m args rest f v value one fine ∙ at_m,
          )
      | inr (e, failed) ↦ (
        (wrong, (v.set value f).1),
        parse_loop-wrong n args rest f v value e one failed,
        parse_loop-wrong m args rest f v value e one failed,
      )
    ]
  ]
