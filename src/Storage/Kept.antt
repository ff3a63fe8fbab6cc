-- ===== src/Storage/Kept.antt =====
-- What the updates of the storage leave as it was.
use metrify.Base.{ℕ, String, ◌≡◌, refl, ◌∙◌, inl, inr}
use metrify.Base.GoMap.{made, get, insert, GoMap-cases}
use metrify.Int64.{add64}
use metrify.External.{External}
use metrify.Storage
use metrify.Storage.{MemStorage, Machine, or_zero}
use metrify.Storage.Updates.{IsLive, ms-save_db}
use metrify.Storage.History.{Update, set_gauge, add_counter, perform}

-- What no operation does to a storage: it takes no map away, and changes neither the database, nor
-- the path of the file, nor the number of retries.
pub record Kept {F : Type 0} (m m' : MemStorage F) : Type 0 where
  pub still_live : IsLive m → IsLive m'
  pub same_db : m'.db ≡ m.db
  pub same_filepath : m'.filepath ≡ m.filepath
  pub same_max_retry : m'.max_retry ≡ m.max_retry

module _ {F : Type 0} where
  pub Kept-refl : (m : MemStorage F) → Kept m m
  Kept-refl m = record {
    still_live = λ l. l;
    same_db = refl;
    same_filepath = refl;
    same_max_retry = refl;
  }

  pub Kept-trans : (m₁ m₂ m₃ : MemStorage F) → Kept m₁ m₂ → Kept m₂ m₃ → Kept m₁ m₃
  Kept-trans m₁ m₂ m₃ k k' = record {
    still_live = λ l. k'.still_live (k.still_live l);
    same_db = k'.same_db ∙ k.same_db;
    same_filepath = k'.same_filepath ∙ k.same_filepath;
    same_max_retry = k'.same_max_retry ∙ k.same_max_retry;
  }

  pub Kept-of_same : (m m' : MemStorage F) → m' ≡ m → Kept m m'
  Kept-of_same m m' e = rw e (Kept-refl m)

module _ {F W : Type 0} (x : External F W) where
  pub update_gauge-Kept :
      (name : String) (value : F) (m : Machine F W)
      → Kept m.ms (Storage.update_gauge x name value m).1.ms
  unfolding Storage.update_gauge
  update_gauge-Kept name value m = elim (GoMap-cases m.gauges) [
    | inl e ↦ rw (e, Storage.update_gauge) (Kept-refl _)
    | inr (g, e) ↦
        let now : (Storage.update_gauge x name value m).1.ms
            ≡ record m.ms { gauges = made (insert name value g) } =
          rw e (ms-save_db x name _ _) in
        rw now (record {
          still_live = λ l. record {
            gauge_map = insert name value g;
            counter_map = l.counter_map;
            gauges_made = refl;
            counters_made = l.counters_made;
          };
          same_db = refl;
          same_filepath = refl;
          same_max_retry = refl;
        })
  ]

  pub update_counter-Kept :
      (name : String) (delta : ℕ) (m : Machine F W)
      → Kept m.ms (Storage.update_counter x name delta m).1.ms
  unfolding Storage.update_counter
  update_counter-Kept name delta m = elim (GoMap-cases m.counters) [
    | inl e ↦ rw (e, Storage.update_counter) (Kept-refl _)
    | inr (c, e) ↦
        let sum = add64 (or_zero (get m.counters name)) delta in
        let now : (Storage.update_counter x name delta m).1.ms
            ≡ record m.ms { counters = made (insert name sum c) } =
          rw e (ms-save_db x name _ _) in
        rw now (record {
          still_live = λ l. record {
            gauge_map = l.gauge_map;
            counter_map = insert name sum c;
            gauges_made = l.gauges_made;
            counters_made = refl;
          };
          same_db = refl;
          same_filepath = refl;
          same_max_retry = refl;
        })
  ]

  pub perform-Kept : (u : Update F) (m : Machine F W) → Kept m.ms (perform x u m).1.ms
  perform-Kept (set_gauge name value) m = update_gauge-Kept name value m
  perform-Kept (add_counter name delta) m = update_counter-Kept name delta m
