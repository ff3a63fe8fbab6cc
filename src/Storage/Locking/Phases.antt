-- ===== src/Storage/Locking/Phases.antt =====
-- What a goroutine inside a method of the storage knows of it.
use metrify.Base.{ℕ, String, Option, some, List, [], ◌∷◌, ◌++◌, ◌≡◌, ◌∙◌, ◌≢◌, refl, ap, sym}
use metrify.Base.GoMap.{GoMap, nil, made, get}
use metrify.Int64.{add64}
use metrify.External.{External}
use metrify.Storage.{Machine, or_zero, update_gauge, update_counter, get_counter, get_gauge}
use metrify.Storage.Updates.{IsLive}
use metrify.Storage.History.{Update, set_gauge, add_counter, perform, run, run-cons, perform-IsLive}
use metrify.Storage.Locking.{
  Call, outside, locked, loaded, stored, leaving, reading_counter, reading_gauge, read_counter,
  read_gauge, write_gauge, write_counter, if_made, save,
}

module _ {F W : Type 0} (x : External F W) where
  -- After the write of a map that is not nil there is saveDB left; after a panic nothing.
  abbrev pub Written : Machine F W → Update F → Call F → Machine F W → Type 0
  Written base u (stored u') m = (u' ≡ u) × (save x u m ≡ (perform x u base).1)
  Written base u (leaving u') m = (u' ≡ u) × (m ≡ (perform x u base).1)
  Written base u _ m = ⊥

  pub write_gauge-Written :
      (g : GoMap F) (name : String) (v : F) (m : Machine F W)
      → m.gauges ≡ g
      → Written m (set_gauge name v) (if_made g (set_gauge name v)) (write_gauge g name v m)
  unfolding update_gauge
  write_gauge-Written nil name v m here = (refl, rw here refl)
  write_gauge-Written (made g) name v m here = (refl, rw here refl)

  pub write_counter-Written :
      (c : GoMap ℕ) (name : String) (d : ℕ) (m : Machine F W)
      → m.counters ≡ c
      → Written m
          (add_counter name d)
          (if_made c (add_counter name d))
          (write_counter c name (add64 (or_zero (get m.counters name)) d) m)
  unfolding update_counter
  write_counter-Written nil name d m here = (refl, rw here refl)
  write_counter-Written (made c) name d m here = (refl, rw here refl)

  pub run-snoc :
      (us : List (Update F)) (u : Update F) (m : Machine F W)
      → IsLive m.ms
      → (run x (us ++ u ∷ []) m).1 ≡ (perform x u (run x us m).1).1
  unfolding run
  run-snoc [] u m live = ap (λ r. r.1) (run-cons x u [] m live)
  run-snoc (v ∷ us) u m live =
      rw (run-cons x v (us ++ u ∷ []) m live, run-cons x v us m live)
        (run-snoc us u (perform x v m).1 (perform-IsLive x v m live))

abbrev pub is_reader : {F : Type 0} → Call F → ℕ
is_reader (reading_counter key) = 1
is_reader (reading_gauge key) = 1
is_reader (read_counter key v) = 1
is_reader (read_gauge key v) = 1
is_reader _ = 0

module _ {F W : Type 0} (x : External F W) (m₀ : Machine F W) where
  -- The storage after the updates `us`, one after another, of a storage that was `m₀`.
  abbrev pub performed : List (Update F) → Machine F W
  performed us = (run x us m₀).1

  -- What goroutine `i` knows where it stands, when the updates that got the lock are `us`.
  abbrev pub Knows : List (Update F) → Machine F W → Option ℕ → ℕ → Call F → Type 0
  Knows us m w i (locked u) =
      (w ≡ some i) × (prev : List (Update F)) × (us ≡ prev ++ u ∷ []) × (m ≡ performed prev)
  Knows us m w i (loaded name d k) =
      (w ≡ some i)
      × (prev : List (Update F)) × (us ≡ prev ++ add_counter name d ∷ [])
      × (m ≡ performed prev)
      × (k ≡ or_zero (get m.counters name))
  Knows us m w i (stored u) =
      (w ≡ some i)
      × (prev : List (Update F)) × (us ≡ prev ++ u ∷ [])
      × (save x u m ≡ (perform x u (performed prev)).1)
  Knows us m w i (leaving u) = (w ≡ some i) × (m ≡ performed us)
  Knows us m w i (read_counter key v) = v ≡ get_counter x key m
  Knows us m w i (read_gauge key v) = v ≡ get_gauge x key m
  Knows us m w i _ = Unit

  -- A goroutine that has no lock knows nothing, so that any change keeps it.
  pub Knows-elsewhere :
      (us us' : List (Update F)) (m m' : Machine F W) (w w' : Option ℕ) (j : ℕ) (c : Call F)
      → w ≢ some j
      → is_reader c ≡ 0
      → Knows us m w j c
      → Knows us' m' w' j c
  Knows-elsewhere us us' m m' w w' j outside other quiet k = tt
  Knows-elsewhere us us' m m' w w' j (locked u) other quiet k = absurd (other k.0)
  Knows-elsewhere us us' m m' w w' j (loaded name d n) other quiet k = absurd (other k.0)
  Knows-elsewhere us us' m m' w w' j (stored u) other quiet k = absurd (other k.0)
  Knows-elsewhere us us' m m' w w' j (leaving u) other quiet k = absurd (other k.0)
  Knows-elsewhere us us' m m' w w' j (reading_counter key) other quiet k = tt
  Knows-elsewhere us us' m m' w w' j (reading_gauge key) other quiet k = tt
  Knows-elsewhere us us' m m' w w' j (read_counter key v) other quiet k = cc
  Knows-elsewhere us us' m m' w w' j (read_gauge key v) other quiet k = cc

  -- After the write of a map the goroutine knows the rest of its method.
  pub Written-Knows :
      (us prev : List (Update F)) (m : Machine F W) (w : Option ℕ) (i : ℕ) (u : Update F)
      → (c : Call F) → IsLive m₀.ms
      → w ≡ some i
      → us ≡ prev ++ u ∷ []
      → Written x (performed prev) u c m
      → Knows us m w i c
  Written-Knows us prev m w i u outside live own last h = elim h [ ]
  Written-Knows us prev m w i u (locked v) live own last h = elim h [ ]
  Written-Knows us prev m w i u (loaded name d k) live own last h = elim h [ ]
  Written-Knows us prev m w i u (reading_counter key) live own last h = elim h [ ]
  Written-Knows us prev m w i u (reading_gauge key) live own last h = elim h [ ]
  Written-Knows us prev m w i u (read_counter key v) live own last h = elim h [ ]
  Written-Knows us prev m w i u (read_gauge key v) live own last h = elim h [ ]
  Written-Knows us prev m w i u (stored v) live own last h =
      (own, prev, last ∙ ap (λ t. prev ++ t ∷ []) (sym h.0), cc)
  Written-Knows us prev m w i u (leaving v) live own last h =
      (own, h.1 ∙ sym (ap performed last ∙ run-snoc x prev u m₀ live))
