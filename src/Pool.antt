-- ===== src/Pool.antt =====
-- pkg/pool/pool.go: a pool of values that are reset before they are kept. sync.Pool is the bag of
-- its values: Get takes any of them, or none, and then calls New; and the runtime may drop any.
pub mod Ownership
use metrify.Base.{ℕ, zero, suc, Option, none, some, List, [], ◌∷◌, ◌++◌, ◌⊎◌, inl, inr, codes}
use metrify.Failure.{Failure, message}

-- Pool: `T` is the type of the values, `W` what the factory reads and changes.
pub record Pool (T W : Type 0) : Type 0 where
  pub factory : W → T × W
  pub items : List T

-- New: a nil factory is an error.
unfoldable pub new : {T W : Type 0} → Option (W → T × W) → Failure ⊎ Pool T W
new none = inl (message (codes "pool.New: factory is nil"))
new (some factory) = inr (record { factory = factory; items = [] })

-- One value out of the bag, with what is left.
abbrev pub kept : {T : Type 0} → T → Option (T × List T) → Option (T × List T)
kept a none = none
kept a (some (b, rest)) = some (b, a ∷ rest)

abbrev pub take : {T : Type 0} → ℕ → List T → Option (T × List T)
take i [] = none
take zero (a ∷ items) = some (a, items)
take (suc i) (a ∷ items) = kept a (take i items)

-- What Get gives: a value of the bag, or one that the factory has made.
pub data Got (T : Type 0) : Type 0 where
  reused made : T → Got T

module _ {T W : Type 0} where
  abbrev get_of : Pool T W → Option (T × List T) → W → Got T × Pool T W × W
  get_of p (some (a, rest)) w = (reused a, record p { items = rest }, w)
  get_of p none w = let (a, w') = p.factory w in (made a, p, w')

  -- Get; `choice` is the value that sync.Pool takes, if it takes one.
  unfoldable pub get : Option ℕ → Pool T W → W → Got T × Pool T W × W
  get none p w = get_of p none w
  get (some i) p w = get_of p (take i p.items) w

  -- Put; `reset` is the method Reset of the type.
  unfoldable pub put : (T → T) → T → Pool T W → Pool T W
  put reset v p = record p { items = reset v ∷ p.items }

  abbrev pub dropped : Pool T W → Option (T × List T) → List T × Pool T W
  dropped p none = ([], p)
  dropped p (some (a, rest)) = (a ∷ [], record p { items = rest })

-- What happens to a pool: the two methods, and the runtime.
pub data Action (T : Type 0) : Type 0 where
  gets : Option ℕ → Action T
  puts : T → Action T
  drops : ℕ → Action T

-- Actions one after another: what Get gave, what the runtime dropped, and the pool that is left.
module _ {T W : Type 0} (reset : T → T) where
  unfoldable pub run : List (Action T) → Pool T W → W → List (Got T) × List T × Pool T W
  unfolding get put
  run [] p w = ([], [], p)
  run (gets choice ∷ actions) p w =
      let (g, p', w') = get choice p w in
      let (given, lost, q) = run actions p' w' in (g ∷ given, lost, q)
  run (puts v ∷ actions) p w = run actions (put reset v p) w
  run (drops i ∷ actions) p w =
      let (gone, p') = dropped p (take i p.items) in
      let (given, lost, q) = run actions p' w in (given, gone ++ lost, q)
