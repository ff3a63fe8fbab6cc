-- ===== src/Storage/Order.antt =====
-- Counters and the order of the updates.
use mathlib.Core.List.{Perm, Permᴰ}
use mathlib.Core.Logic.{∥∥₁_elim}
use metrify.Base.{
  ℕ, ◌+◌, String, Bool, false, ◌||◌, List, ◌∷◌, ◌≡◌, refl, sym, ◌∙◌, arith, ◌==◌, if◌then◌else◌,
}
use metrify.External.{External}
use metrify.Storage.{get_counter}
use metrify.Storage.History.{
  Update, set_gauge, add_counter, total, is_counted, run, fresh, run-refines,
}

module _ {F : Type 0} (key : String) where
  -- The two marks that decide a counter, of one update.
  abbrev share : Update F → ℕ
  share (set_gauge name v) = 0
  share (add_counter name d) = if name == key then d else 0

  abbrev marks : Update F → Bool
  marks (set_gauge name v) = false
  marks (add_counter name d) = name == key

  total-cons : (u : Update F) (us : List (Update F)) → total key (u ∷ us) ≡ share u + total key us
  total-cons (set_gauge name v) us = omega arith
  total-cons (add_counter name d) us = refl

  is_counted-cons :
      (u : Update F) (us : List (Update F))
      → is_counted key (u ∷ us) ≡ (marks u || is_counted key us)
  is_counted-cons (set_gauge name v) us = refl
  is_counted-cons (add_counter name d) us = refl

  abbrev SameCount : List (Update F) → List (Update F) → Type 0
  SameCount us vs = (total key us ≡ total key vs) × (is_counted key us ≡ is_counted key vs)

  SameCount-prop : (us vs : List (Update F)) → IsProp (SameCount us vs)
  SameCount-prop us vs = hlevel

  SameCount-of_permᴰ : {us vs : List (Update F)} → Permᴰ us vs → SameCount us vs
  SameCount-of_permᴰ Permᴰ.nil = (refl, refl)
  SameCount-of_permᴰ (Permᴰ.cons {a} {b} {l₁} {l₂} e p) =
      let (sums, flags) = SameCount-of_permᴰ p in
      rw
        (
          total-cons a l₁,
          total-cons b l₂,
          is_counted-cons a l₁,
          is_counted-cons b l₂,
          e,
          sums,
          flags,
        )
        (refl, refl)
  SameCount-of_permᴰ (Permᴰ.swap {a} {b} {a'} {b'} {l} e f) =
      rw (← e, ← f)
        (ground (
          arith,
          total-cons a (b ∷ l),
          total-cons b (a ∷ l),
          total-cons a l,
          total-cons b l,
          is_counted-cons a (b ∷ l),
          is_counted-cons b (a ∷ l),
          is_counted-cons a l,
          is_counted-cons b l,
        ))
  SameCount-of_permᴰ (Permᴰ.trans p q) =
      let (sums, flags) = SameCount-of_permᴰ p in
      let (sums', flags') = SameCount-of_permᴰ q in (sums ∙ sums', flags ∙ flags')

  SameCount-of_perm : (us vs : List (Update F)) → Perm us vs → SameCount us vs
  SameCount-of_perm us vs p = ∥∥₁_elim p (SameCount-prop us vs) SameCount-of_permᴰ

-- Histories of a new storage with the same updates, as often and in any order, leave the same
-- counters behind.
pub counters-perm :
    {F W : Type 0} (x : External F W) (filepath : String) (db : Bool) (w : W)
    (us vs : List (Update F)) (key : String)
    → Perm us vs
    → get_counter x key (run x us (fresh x filepath db w)).1
      ≡ get_counter x key (run x vs (fresh x filepath db w)).1
counters-perm x filepath db w us vs key p =
    let (sums, flags) = SameCount-of_perm key us vs p in
    (run-refines x filepath db w us key).2
    ∙ rw (sums, flags) (sym (run-refines x filepath db w vs key).2)
