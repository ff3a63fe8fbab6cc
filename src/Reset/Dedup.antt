-- ===== src/Reset/Dedup.antt =====
-- The names that get a method, against those that were found.
use metrify.Base.{
  String, true, false, List, [], ◌∷◌, ◌⊎◌, inl, inr, ◌≡◌, ◌≢◌, ◌↔◌, refl, sym, ◌∙◌, ◌==◌, eq_iff,
  Bool-cases,
}
use metrify.Reset.{drop_repeats, dedup_targets}

abbrev pub In : String → List String → Type 0
In x [] = ⊥
In x (t ∷ ts) = (x ≡ t) ⊎ In x ts

drop_repeats-same :
    (prev t : String) (ts : List String)
    → (t == prev) ≡ true
    → drop_repeats prev (t ∷ ts) ≡ drop_repeats prev ts
unfolding drop_repeats
drop_repeats-same prev t ts e = rw (e, drop_repeats) refl

drop_repeats-other :
    (prev t : String) (ts : List String)
    → (t == prev) ≡ false
    → drop_repeats prev (t ∷ ts) ≡ t ∷ drop_repeats t ts
unfolding drop_repeats
drop_repeats-other prev t ts e = rw (e, drop_repeats) refl

module _ (le : String → String → Type 0) where
  -- Sorted, from a name that may come before the first one, and strictly so.
  abbrev pub Sorted : String → List String → Type 0
  Sorted p [] = Unit
  Sorted p (t ∷ ts) = le p t × Sorted t ts

  abbrev pub Increasing : String → List String → Type 0
  Increasing p [] = Unit
  Increasing p (t ∷ ts) = (le p t × (p ≢ t)) × Increasing t ts

  -- sort.Slice by `le` on a list, where no name is below the empty one: sorted, and with the same
  -- names.
  pub record Sorts (sort : List String → List String) (ts : List String) : Type 0 where
    pub sorted : Sorted "" (sort ts)
    pub kept : (x : String) → In x (sort ts) ↔ In x ts

  drop_repeats-Increasing :
      (prev : String) (ts : List String) → Sorted prev ts → Increasing prev (drop_repeats prev ts)
  drop_repeats-Increasing prev [] s = unfold drop_repeats in tt
  drop_repeats-Increasing prev (t ∷ ts) (first, rest) = elim (Bool-cases (t == prev)) [
    | inl e ↦
        rw (drop_repeats-same _ _ _ e)
          (drop_repeats-Increasing prev ts (rw ((eq_iff t prev).0 e) at rest))
    | inr e ↦
        rw (drop_repeats-other _ _ _ e)
          ((first, (λ p. cc ((eq_iff t prev).1 (sym p), e))), drop_repeats-Increasing t ts rest)
  ]

In-drop_repeats : (x prev : String) (ts : List String) → In x (drop_repeats prev ts) → In x ts
In-drop_repeats x prev [] h = unfold drop_repeats in h
In-drop_repeats x prev (t ∷ ts) h = elim (Bool-cases (t == prev)) [
  | inl e ↦ inr (In-drop_repeats x prev ts (rw (drop_repeats-same prev t ts e) at h))
  | inr e ↦ elim (rw (drop_repeats-other prev t ts e) at h) [
    | inl first ↦ inl first
    | inr later ↦ inr (In-drop_repeats x t ts later)
  ]
]

drop_repeats-keeps :
    (x prev : String) (ts : List String) → x ≢ prev → In x ts → In x (drop_repeats prev ts)
drop_repeats-keeps x prev [] ne h = unfold drop_repeats in h
drop_repeats-keeps x prev (t ∷ ts) ne h = elim (Bool-cases (t == prev)) [
  | inl e ↦ elim h [
    | inl first ↦ absurd (ne (first ∙ (eq_iff t prev).0 e))
    | inr later ↦ rw (drop_repeats-same prev t ts e) (drop_repeats-keeps x prev ts ne later)
  ]
  | inr e ↦ rw (drop_repeats-other prev t ts e) (elim h [
    | inl first ↦ inl first
    | inr later ↦ elim (Bool-cases (x == t)) [
      | inl same ↦ inl ((eq_iff x t).0 same)
      | inr other ↦ inr (drop_repeats-keeps x t ts (λ p. cc ((eq_iff x t).1 p, other)) later)
    ]
  ])
]

-- Deduplication loses no name but the empty one.
pub In-dedup_targets :
    (sort : List String → List String) (x : String) (ts : List String)
    → ((y : String) (us : List String) → In y (sort us) ↔ In y us)
    → x ≢ ""
    → In x (dedup_targets sort ts) ↔ In x ts
unfolding dedup_targets
In-dedup_targets sort x [] kept named = ((λ h. h), λ h. h)
In-dedup_targets sort x (t ∷ ts) kept named = (
  (λ h. (kept x (t ∷ ts)).0 (In-drop_repeats x "" (sort (t ∷ ts)) h)),
  λ h. drop_repeats-keeps x "" (sort (t ∷ ts)) named ((kept x (t ∷ ts)).1 h),
)

-- If sorting orders the names and keeps them, then the names that get a method are strictly
-- increasing, so that none gets two, and a name that is not empty is one of them exactly if it
-- was found.
dedup_targets-Increasing :
    (le : String → String → Type 0) (sort : List String → List String) (x : String)
    (ts : List String)
    → Sorts le sort ts
    → x ≢ ""
    → Increasing le "" (dedup_targets sort ts) × (In x (dedup_targets sort ts) ↔ In x ts)
unfolding dedup_targets
dedup_targets-Increasing le sort x [] sorts named = (tt, ((λ h. h), λ h. h))
dedup_targets-Increasing le sort x (t ∷ ts) sorts named = (
  drop_repeats-Increasing le "" (sort (t ∷ ts)) sorts.sorted,
  (
    (λ h. (sorts.kept x).0 (In-drop_repeats x "" (sort (t ∷ ts)) h)),
    λ h. drop_repeats-keeps x "" (sort (t ∷ ts)) named ((sorts.kept x).1 h),
  ),
)
