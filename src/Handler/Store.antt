-- ===== src/Handler/Store.antt =====
-- What the handlers of JSON updates store of a metric, and of a list of them.
use mathlib.Core.List.{append-nil, append_assoc}
use metrify.Base.{
  ℕ, String, Bool, true, false, ◌&&◌, Option, none, some, List, [], ◌∷◌, ◌++◌, inl, inr, ◌≡◌, refl,
  sym, arith, ap, ◌∙◌, ◌==◌, eq_iff, if◌then◌else◌, returned, panicked, Bool-cases, Option-cases,
}
use metrify.Failure.{Failure}
use metrify.Model.{Metrics, gauge}
use metrify.External.{External}
use metrify.Storage.Updates.{IsLive}
use metrify.Storage.History.{
  Update, set_gauge, add_counter, perform, run, run-cons, perform-no_db, perform-IsLive, before,
  is_good,
}
use metrify.Handler.{store, store_all}
use metrify.Serving.{State, on_machine}

-- The update that a JSON metric asks for: any type but "gauge" is taken for a counter. There is
-- none where the pointer that the type asks for is nil.
module _ {F : Type 0} where
  abbrev pub gauge_update : String → Option F → Option (Update F)
  gauge_update id none = none
  gauge_update id (some v) = some (set_gauge id v)

  abbrev pub counter_update : String → Option ℕ → Option (Update F)
  counter_update id none = none
  counter_update id (some d) = some (add_counter id d)

  abbrev pub update_of_metric : Metrics F → Option (Update F)
  update_of_metric m =
      if m.mtype == gauge then gauge_update m.id m.value else counter_update m.id m.delta

  abbrev pub served : List (Metrics F) → List (Update F)
  served [] = []
  served (m ∷ ms) = before (update_of_metric m) (served ms)

  abbrev pub all_good : List (Metrics F) → Bool
  all_good [] = true
  all_good (m ∷ ms) = is_good (update_of_metric m) && all_good ms

module _ {F W : Type 0} (x : External F W) where
  pub store-panicked :
      (m : Metrics F) (s : State F W) → update_of_metric m ≡ none → store x m s ≡ (panicked, s)
  unfolding store
  store-panicked m s h = ground (arith, eq_iff m.mtype gauge)

  pub store-perform :
      (m : Metrics F) (u : Update F) (s : State F W)
      → update_of_metric m ≡ some u
      → store x m s ≡ on_machine (perform x u) s
  unfolding store
  store-perform m u s h = elim (Bool-cases (m.mtype == gauge)) [
    | inl g ↦ elim (Option-cases m.value) [
      | inl missing ↦ absurd (ground arith)
      | inr (v, found) ↦
          let same : u ≡ set_gauge m.id v = ground arith in rw (same, g, found, store)
    ]
    | inr c ↦ elim (Option-cases m.delta) [
      | inl missing ↦ absurd (ground arith)
      | inr (d, found) ↦
          let same : u ≡ add_counter m.id d = ground arith in rw (same, c, found, store)
    ]
  ]

  -- The names and the errors of a batch whose updates have no error.
  abbrev pub names_of : List (Metrics F) → List String
  names_of [] = []
  names_of (m ∷ ms) = m.id ∷ names_of ms

  abbrev pub Stored : List String → List Failure → List (Metrics F) → State F W → Type 0
  Stored names errs ms s =
      ((store_all x names errs ms s).1 ≡ record s { machine = (run x (served ms) s.machine).1 })
      × (all_good ms ≡ true
          → (store_all x names errs ms s).0 ≡ returned (names ++ names_of ms, errs))
      × (all_good ms ≡ false → (store_all x names errs ms s).0 ≡ panicked)

  store_all-good :
      (names : List String) (errs : List Failure) (m : Metrics F) (ms : List (Metrics F))
      (u : Update F) (s : State F W)
      → update_of_metric m ≡ some u
      → (perform x u s.machine).0 ≡ returned none
      → store_all x names errs (m ∷ ms) s
        ≡ store_all x
            (names ++ m.id ∷ [])
            errs
            ms
            (record s { machine = (perform x u s.machine).1 })
  unfolding store_all
  store_all-good names errs m ms u s good fine = rw (store-perform m u s good, store_all) (rw fine)

  store_all-bad :
      (names : List String) (errs : List Failure) (m : Metrics F) (ms : List (Metrics F))
      (s : State F W)
      → update_of_metric m ≡ none
      → store_all x names errs (m ∷ ms) s ≡ (panicked, s)
  unfolding store_all
  store_all-bad names errs m ms s bad = rw (store-panicked m s bad, store_all)

  pub store_all-Stored :
      (names : List String) (errs : List Failure) (ms : List (Metrics F)) (s : State F W)
      → IsLive s.machine.ms
      → s.machine.db ≡ false
      → Stored names errs ms s
  store_all-Stored names errs [] s l off =
      unfold store_all run in
      (
        refl,
        (λ _. ap (λ (ns : List String). returned (ns, errs)) (sym (append-nil names))),
        λ p. cc,
      )
  store_all-Stored names errs (m ∷ ms) s l off = elim (Option-cases (update_of_metric m)) [
    | inl bad ↦
        rw (bad, store_all-bad names errs m ms s bad) (unfold run in (refl, (λ p. cc), λ _. refl))
    | inr (u, good) ↦
        let (fine, still_off) = perform-no_db x u s.machine l off in
        let (state, all, some_bad) =
          store_all-Stored (names ++ m.id ∷ []) errs ms
            (record s { machine = (perform x u s.machine).1 }) (perform-IsLive x u s.machine l)
            still_off in
        rw
          (good, store_all-good names errs m ms u s good fine, run-cons x u (served ms) s.machine l)
          (
            state,
            (λ g.
                all g
                ∙ ap (λ (ns : List String). returned (ns, errs))
                    (append_assoc names (m.id ∷ []) (names_of ms))),
            some_bad,
          )
  ]
