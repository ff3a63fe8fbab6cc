-- ===== src/Reset/Declaring.antt =====
-- Which types a package declares that are to have a Reset method.
use metrify.Base.{String, true, List, [], ◌∷◌, ◌++◌, ◌⊎◌, inl, inr, ◌≡◌, ◌↔◌, refl, Bool-cases}
use metrify.Reset.Dedup.{In}
use metrify.Reset.Packages.{
  TypeSpec, GenDecl, Package, is_target, spec_targets, decl_targets, file_targets, package_targets,
}

-- One of a list has a property.
abbrev pub Any : {A : Type 0} → (A → Type 0) → List A → Type 0
Any P [] = ⊥
Any P (a ∷ rest) = P a ⊎ Any P rest

pub In-append : (x : String) (xs ys : List String) → In x (xs ++ ys) ↔ (In x xs ⊎ In x ys)
In-append x [] ys = ((λ h. inr h), λ h. elim h [ inl n ↦ absurd n | inr h' ↦ h' ])
In-append x (z ∷ xs) ys =
    let (front, back) = In-append x xs ys in
    (
      (λ h. elim h [
        | inl e ↦ inl (inl e)
        | inr h' ↦ elim (front h') [ inl a ↦ inl (inr a) | inr b ↦ inr b ]
      ]),
      λ h. elim h [
        | inl a ↦ elim a [ inl e ↦ inl e | inr a' ↦ inr (back (inl a')) ]
        | inr b ↦ inr (back (inr b))
      ],
    )

-- The struct types without type parameters that carry the marker, at their declaration or at
-- themselves.
abbrev pub Declares : String → GenDecl → Type 0
Declares x gen =
    (gen.is_type ≡ true)
    × Any (λ (spec : TypeSpec). (is_target gen spec ≡ true) × (x ≡ spec.name)) gen.specs

abbrev pub IsMarked : String → Package → Type 0
IsMarked x pkg = Any (Any (Declares x)) pkg.syntax

In-spec_targets :
    (x : String) (gen : GenDecl) (specs : List TypeSpec)
    → In x (spec_targets gen specs)
      ↔ Any (λ (spec : TypeSpec). (is_target gen spec ≡ true) × (x ≡ spec.name)) specs
unfolding spec_targets
In-spec_targets x gen [] = ((λ h. h), λ h. h)
In-spec_targets x gen (spec ∷ specs) =
    let (there, back) = In-spec_targets x gen specs in
    elim (Bool-cases (is_target gen spec)) [
      | inl wanted ↦
          rw (wanted, spec_targets)
            (
              (λ h. elim h [ inl e ↦ inl (refl, e) | inr h' ↦ inr (there h') ]),
              λ h. elim h [ inl (_, e) ↦ inl e | inr h' ↦ inr (back h') ],
            )
      | inr other ↦
          rw (other, spec_targets)
            (
              (λ h. inr (there h)),
              λ h. elim h [ inl (e, _) ↦ absurd (cc (e, other)) | inr h' ↦ back h' ],
            )
    ]

-- Either part of a list, each by what it stands for.
In-append_iff :
    {A B : Type 0} (x : String) (xs ys : List String)
    → In x xs ↔ A
    → In x ys ↔ B
    → In x (xs ++ ys) ↔ (A ⊎ B)
In-append_iff x xs ys (there, back) (there', back') =
    let (front, join) = In-append x xs ys in
    (
      (λ h. elim (front h) [ inl a ↦ inl (there a) | inr b ↦ inr (there' b) ]),
      λ h. join (elim h [ inl a ↦ inl (back a) | inr b ↦ inr (back' b) ]),
    )

In-decl_targets : (x : String) (gen : GenDecl) → In x (decl_targets gen) ↔ Declares x gen
unfolding decl_targets
In-decl_targets x gen =
    let (there, back) = In-spec_targets x gen gen.specs in
    elim (Bool-cases gen.is_type) [
      | inl type ↦ rw (type, decl_targets) ((λ h. (refl, there h)), λ (_, h). back h)
      | inr other ↦ rw (other, decl_targets) ((λ h. absurd h), λ (e, _). absurd (cc e))
    ]

In-file_targets :
    (x : String) (gens : List GenDecl) → In x (file_targets gens) ↔ Any (Declares x) gens
unfolding file_targets
In-file_targets x [] = ((λ h. h), λ h. h)
In-file_targets x (gen ∷ gens) =
    In-append_iff x (decl_targets gen) (file_targets gens) (In-decl_targets x gen)
      (In-file_targets x gens)

pub In-package_targets :
    (x : String) (files : List (List GenDecl))
    → In x (package_targets files) ↔ Any (Any (Declares x)) files
unfolding package_targets
In-package_targets x [] = ((λ h. h), λ h. h)
In-package_targets x (file ∷ files) =
    In-append_iff x (file_targets file) (package_targets files) (In-file_targets x file)
      (In-package_targets x files)
