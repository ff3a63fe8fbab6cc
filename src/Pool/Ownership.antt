-- ===== src/Pool/Ownership.antt =====
-- Where the values that Get gives come from.
use metrify.Base.{
  ℕ, zero, suc, none, some, List, [], ◌∷◌, ◌++◌, map, inl, inr, ◌≡◌, refl, arith, All, Option-cases,
}
use mathlib.Core.List.{Perm, perm_middle, append-nil}
use mathlib.Core.List.Perm
use metrify.Pool.{Pool, new, take, Got, reused, made, get, put, Action, gets, puts, drops, run}

module _ {T : Type 0} where
  -- What was put, in the order of time reversed.
  abbrev pub put_values : List (Action T) → List T
  put_values [] = []
  put_values (gets choice ∷ actions) = put_values actions
  put_values (puts v ∷ actions) = v ∷ put_values actions
  put_values (drops i ∷ actions) = put_values actions

  abbrev pub reused_of : List (Got T) → List T
  reused_of [] = []
  reused_of (reused a ∷ given) = a ∷ reused_of given
  reused_of (made a ∷ given) = reused_of given

  take-Perm :
      (i : ℕ) (items rest : List T) (a : T) → take i items ≡ some (a, rest) → Perm items (a ∷ rest)
  take-Perm i [] rest a h = cc
  take-Perm zero (b ∷ items) rest a h =
      let same : b ∷ items ≡ a ∷ rest = ground arith in rw same (Perm.refl (a ∷ rest))
  take-Perm (suc i) (b ∷ items) rest a h = elim (Option-cases (take i items)) [
    | inl nothing ↦ absurd (ground arith)
    | inr ((c, others), found) ↦
        let same : c ∷ b ∷ others ≡ a ∷ rest = ground arith in
        rw⁻¹ same
          (Perm.trans (Perm.cons b (take-Perm i items others c found)) (Perm.swap c b others))
  ]

  out-Perm :
      (a : T) (out given items rest : List T)
      → Perm items (a ∷ rest)
      → Perm out (given ++ rest)
      → Perm (a ∷ out) (given ++ items)
  out-Perm a out given items rest taken p =
      Perm.trans (Perm.cons a p)
        (Perm.trans (Perm.symm (perm_middle given rest)) (Perm.append_left given (Perm.symm taken)))

module _ {T W : Type 0} (reset : T → T) where
  abbrev pub IsMade : Pool T W → Got T → Type 0
  IsMade p (reused a) = Unit
  IsMade p (made a) = (w : W) × ((p.factory w).0 ≡ a)

  abbrev pub Accounts : List (Action T) → Pool T W → W → Type 0
  Accounts actions p w =
      let (given, lost, q) = run reset actions p w in
      Perm (reused_of given ++ (lost ++ q.items)) (map reset (put_values actions) ++ p.items)
      × All (IsMade p) given
      × (q.factory ≡ p.factory)

  run-Accounts : (actions : List (Action T)) (p : Pool T W) (w : W) → Accounts actions p w
  unfolding run get put
  run-Accounts [] p w = (Perm.refl p.items, tt, refl)
  run-Accounts (gets none ∷ actions) p w =
      let (balance, sources, same) = run-Accounts actions p (p.factory w).1 in
      (balance, ((w, refl), sources), same)
  run-Accounts (gets (some i) ∷ actions) p w = elim (Option-cases (take i p.items)) [
    | inl nothing ↦
        let (balance, sources, same) = run-Accounts actions p (p.factory w).1 in
        rw (nothing, run) (balance, ((w, refl), sources), same)
    | inr ((a, rest), found) ↦
        let (balance, sources, same) = run-Accounts actions (record p { items = rest }) w in
        rw (found, run)
          (
            out-Perm a _ (map reset (put_values actions)) p.items rest
                (take-Perm i p.items rest a found) balance,
            (tt, sources),
            same,
          )
  ]
  run-Accounts (puts v ∷ actions) p w =
      let (balance, sources, same) = run-Accounts actions (put reset v p) w in
      (Perm.trans balance (perm_middle (map reset (put_values actions)) p.items), sources, same)
  run-Accounts (drops i ∷ actions) p w = elim (Option-cases (take i p.items)) [
    | inl nothing ↦ rw (nothing, run) (run-Accounts actions p w)
    | inr ((a, rest), found) ↦
        let (balance, sources, same) = run-Accounts actions (record p { items = rest }) w in
        let (given, lost, q) = run reset actions (record p { items = rest }) w in
        rw (found, run)
          (
            Perm.trans (perm_middle (reused_of given) (lost ++ q.items)) (
                out-Perm a _ (map reset (put_values actions)) p.items rest
                  (take-Perm i p.items rest a found) balance),
            sources,
            same,
          )
  ]

  -- Whatever is done with a new pool, and whatever values sync.Pool takes, drops or does not
  -- have: the values that Get reused, those that were dropped and those still in the pool are
  -- together, each as often, the values that were put, as Reset left them. So no value that was
  -- put is given out twice, and none before it was reset; and every other value that Get gave is
  -- one that the factory made.
  pub run-new :
      (factory : W → T × W) (actions : List (Action T)) (w : W)
      → (p : Pool T W) × (new (some factory) ≡ inr p)
        × Perm
            (reused_of (run reset actions p w).0
              ++ ((run reset actions p w).1 ++ (run reset actions p w).2.items))
            (map reset (put_values actions))
        × All (IsMade p) (run reset actions p w).0
  unfolding new
  run-new factory actions w =
      let p : Pool T W = record { factory = factory; items = [] } in
      let (balance, sources, same) = run-Accounts actions p w in
      (p, refl, rw⁻¹ (append-nil (map reset (put_values actions))) balance, sources)
