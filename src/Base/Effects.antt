-- ===== src/Base/Effects.antt =====
-- Methods that change a state and may panic. What was changed before a panic stays changed, so the
-- state comes back beside the panic too.

pub data Outcome {ℓ} (A : Type ℓ) : Type ℓ where
  returned : A → Outcome A
  panicked : Outcome A

abbrev pub Prog {ℓ} : Type ℓ → Type ℓ → Type ℓ
Prog S A = S → Outcome A × S

module _ {ℓ} {S A : Type ℓ} where
  abbrev pub pure : A → Prog S A
  pure a s = (returned a, s)

  abbrev pub panic : Prog S A
  panic s = (panicked, s)

  abbrev pub reads : (S → A) → Prog S A
  reads f s = (returned (f s), s)

abbrev pub modifies {ℓ} : {S : Type ℓ} → (S → S) → Prog S (Unit {ℓ})
modifies f s = (returned tt, f s)

module _ {ℓ} {S A B : Type ℓ} where
  abbrev pub continue : Outcome A → (A → Prog S B) → Prog S B
  continue (returned a) f s = f a s
  continue panicked f s = (panicked, s)

  infixl 10 ◌>>=◌ ◌>>◌
  abbrev pub ◌>>=◌ : Prog S A → (A → Prog S B) → Prog S B
  ◌>>=◌ m f s = let (r, s') = m s in continue r f s'

  abbrev pub ◌>>◌ : Prog S A → Prog S B → Prog S B
  m >> n = m >>= λ _. n
