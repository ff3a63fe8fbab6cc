-- ===== src/Router/Reading.antt =====
-- The routes of the service, by what their handlers do to the storage.
use metrify.Base.{
  ℕ, String, some, List, [], ◌∷◌, map, inl, inr, ◌⊎◌, ◌≡◌, ◌≢◌, refl, arith, All, zero, suc,
}
use metrify.External.{External}
use metrify.Http.{Request, Layer}
use metrify.Handler.{get_gauge, get_counter, get_metrics, invalid_metric_handler, get_info, ping}
use metrify.Serving.{Handler}
use metrify.Router.{Chi, Route, nth, routes}
use metrify.Router.Keeping.{Keeps, IsQuiet}
use metrify.Storage.Kept.{Kept, Kept-refl}
use metrify.Router.Routes.{
  Keeps-of_IsQuiet, get_gauge-IsQuiet, get_counter-IsQuiet, get_metrics-IsQuiet, get_info-IsQuiet,
  invalid_metric_handler-IsQuiet, ping-IsQuiet, update_metrics_batch-Keeps, update_metrics-Keeps,
  update_gauge-Keeps, update_counter-Keeps,
}

pub nth-All :
    {A : Type 0} (P : A → Type 0) (i : ℕ) (xs : List A) (a : A) → All P xs → nth i xs ≡ some a → P a
nth-All P i [] a all h = cc
nth-All P zero (b ∷ xs) a all h = let same : b ≡ a = ground arith in rw⁻¹ same all.0
nth-All P (suc i) (b ∷ xs) a all h = nth-All P i xs a all.1 h

pub nth-map :
    {A B : Type 0} (f : A → B) (i : ℕ) (xs : List A) (a : A)
    → nth i xs ≡ some a
    → nth i (map f xs) ≡ some (f a)
nth-map f i [] a h = cc
nth-map f zero (b ∷ xs) a h = ground arith
nth-map f (suc i) (b ∷ xs) a h = nth-map f i xs a h

-- A route that no update goes through.
abbrev pub IsReading : {F W : Type 0} → Route F W → Type 0
IsReading route = (route.method ≢ "POST") ⊎ (route.pattern ≡ "/value/")

-- A route whose handler keeps the storage, and one whose handler leaves it as it is if no update
-- goes through it.
abbrev pub Keeping : {F W : Type 0} → Route F W → Type 0
Keeping route = (ws : List Layer) (r : Request) → Keeps Kept (route.serve ws r)

abbrev pub Quiet : {F W : Type 0} → Route F W → Type 0
Quiet route = IsReading route → (ws : List Layer) (r : Request) → IsQuiet (route.serve ws r)

module _ {F W : Type 0} (x : External F W) (chi : Chi) (handler : Handler) where
  pub routes-Keeping : All Keeping (routes x chi handler)
  unfolding routes
  routes-Keeping = (
    (λ ws r s. (Kept-refl _, refl)),
    (
      (λ ws r. update_metrics_batch-Keeps x handler ws r),
      (
        (λ ws r. update_metrics-Keeps x handler ws r),
        (
          (λ ws r. update_counter-Keeps x handler ws r),
          (
            (λ ws r. update_gauge-Keeps x handler ws r),
            (
              (λ ws r.
                  Keeps-of_IsQuiet (invalid_metric_handler x ws r)
                    (invalid_metric_handler-IsQuiet x handler ws r)),
              (
                (λ ws r. Keeps-of_IsQuiet (get_info x ws r) (get_info-IsQuiet x handler ws r)),
                (
                  (λ ws r. Keeps-of_IsQuiet (ping x handler ws r) (ping-IsQuiet x handler ws r)),
                  (
                    (λ ws r.
                        Keeps-of_IsQuiet (get_metrics x ws r) (get_metrics-IsQuiet x handler ws r)),
                    (
                      (λ ws r.
                          Keeps-of_IsQuiet (get_counter x ws r)
                            (get_counter-IsQuiet x handler ws r)),
                      (
                        (λ ws r.
                            Keeps-of_IsQuiet (get_gauge x ws r) (get_gauge-IsQuiet x handler ws r)),
                        (
                          (λ ws r.
                              Keeps-of_IsQuiet (invalid_metric_handler x ws r)
                                (invalid_metric_handler-IsQuiet x handler ws r)),
                          tt,
                        ),
                      ),
                    ),
                  ),
                ),
              ),
            ),
          ),
        ),
      ),
    ),
  )

  not_reading :
      (method pattern : String)
      → method ≡ "POST"
      → pattern ≢ "/value/"
      → ¬ ((method ≢ "POST") ⊎ (pattern ≡ "/value/"))
  not_reading method pattern post other (inl h) = h post
  not_reading method pattern post other (inr h) = other h

  pub routes-Quiet : All Quiet (routes x chi handler)
  unfolding routes
  routes-Quiet = (
    (λ h ws r s. (refl, refl)),
    (
      (λ h. absurd (not_reading "POST" "/updates/" refl (λ p. cc) h)),
      (
        (λ h. absurd (not_reading "POST" "/update/" refl (λ p. cc) h)),
        (
          (λ h. absurd (not_reading "POST" "/update/counter/{name}/{value}" refl (λ p. cc) h)),
          (
            (λ h. absurd (not_reading "POST" "/update/gauge/{name}/{value}" refl (λ p. cc) h)),
            (
              (λ h. absurd (not_reading "POST" "/update/{type}/{name}/{value}" refl (λ p. cc) h)),
              (
                (λ h ws r. get_info-IsQuiet x handler ws r),
                (
                  (λ h ws r. ping-IsQuiet x handler ws r),
                  (
                    (λ h ws r. get_metrics-IsQuiet x handler ws r),
                    (
                      (λ h ws r. get_counter-IsQuiet x handler ws r),
                      (
                        (λ h ws r. get_gauge-IsQuiet x handler ws r),
                        ((λ h ws r. invalid_metric_handler-IsQuiet x handler ws r), tt),
                      ),
                    ),
                  ),
                ),
              ),
            ),
          ),
        ),
      ),
    ),
  )
