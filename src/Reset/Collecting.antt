-- ===== src/Reset/Collecting.antt =====
-- Which types are found, by directory.
use metrify.Base.{
  String, false, some, List, [], ◌∷◌, ◌⊎◌, inl, inr, ◌≡◌, ◌↔◌, refl, sym, ap, ◌∙◌, arith, ◌==◌,
  eq_iff, Bool-cases, Option-cases,
}
use metrify.Reset.Dedup.{In}
use metrify.Reset.Packages.{
  Package, package_targets, is_skipped, PkgOut, add_out, add_found, add_package_at, add_package,
  collect,
}
use metrify.Reset.Declaring.{Any, In-append, IsMarked, In-package_targets}

-- The name is one of those that were found for the directory.
abbrev pub IsFound : String → String → List PkgOut → Type 0
IsFound x dir outs = Any (λ (po : PkgOut). (po.dir ≡ dir) × In x po.targets) outs

IsFound-add_out :
    (x dir at_dir name : String) (ts : List String) (outs : List PkgOut)
    → IsFound x dir (add_out at_dir name ts outs)
      ↔ (IsFound x dir outs ⊎ ((at_dir ≡ dir) × In x ts))
unfolding add_out
IsFound-add_out x dir at_dir name ts [] = (
  (λ h. elim h [ inl a ↦ inr a | inr n ↦ absurd n ]),
  λ h. elim h [ inl n ↦ absurd n | inr a ↦ inl a ],
)
IsFound-add_out x dir at_dir name ts (po ∷ outs) = elim (Bool-cases (po.dir == at_dir)) [
  | inl same ↦
      let e = (eq_iff po.dir at_dir).0 same in
      let (front, join) = In-append x po.targets ts in
      rw (same, add_out)
        (
          (λ h. elim h [
            | inl (d, i) ↦ elim (front i) [ inl a ↦ inl (inl (d, a)) | inr b ↦ inr (sym e ∙ d, b) ]
            | inr later ↦ inl (inr later)
          ]),
          λ h. elim h [
            | inl old ↦ elim old [ inl (d, a) ↦ inl (d, join (inl a)) | inr later ↦ inr later ]
            | inr (d, b) ↦ inl (e ∙ d, join (inr b))
          ],
        )
  | inr other ↦
      let (there, back) = IsFound-add_out x dir at_dir name ts outs in
      rw (other, add_out)
        (
          (λ h. elim h [
            | inl a ↦ inl (inl a)
            | inr h' ↦ elim (there h') [ inl old ↦ inl (inr old) | inr new ↦ inr new ]
          ]),
          λ h. elim h [
            | inl old ↦ elim old [ inl a ↦ inl a | inr later ↦ inr (back (inl later)) ]
            | inr new ↦ inr (back (inr new))
          ],
        )
]

-- A package of the directory that is not passed over and has the type.
abbrev pub Provides : String → String → Package → Type 0
Provides x dir pkg = (is_skipped pkg ≡ false) × (pkg.dir ≡ some dir) × IsMarked x pkg

module _ (sort : List String → List String)
    (kept : (x : String) (ts : List String) → In x (sort ts) ↔ In x ts) where
  IsFound-add_found :
      (x dir at_dir : String) (pkg : Package) (ts : List String) (outs : List PkgOut)
      → IsFound x dir (add_found sort pkg at_dir ts outs)
        ↔ (IsFound x dir outs ⊎ ((at_dir ≡ dir) × In x ts))
  unfolding add_found
  IsFound-add_found x dir at_dir pkg [] outs =
      ((λ h. inl h), λ h. elim h [ inl old ↦ old | inr (d, n) ↦ absurd n ])
  IsFound-add_found x dir at_dir pkg (t ∷ ts) outs =
      let (there, back) = IsFound-add_out x dir at_dir pkg.name (sort (t ∷ ts)) outs in
      let (sorted_in, in_sorted) = kept x (t ∷ ts) in
      (
        (λ h. elim (there h) [ inl old ↦ inl old | inr (d, i) ↦ inr (d, sorted_in i) ]),
        λ h. back (elim h [ inl old ↦ inl old | inr (d, i) ↦ inr (d, in_sorted i) ]),
      )

  IsFound-add_package :
      (x dir : String) (pkg : Package) (outs : List PkgOut)
      → IsFound x dir (add_package sort pkg outs) ↔ (IsFound x dir outs ⊎ Provides x dir pkg)
  unfolding add_package add_package_at
  IsFound-add_package x dir pkg outs = elim (Bool-cases (is_skipped pkg)) [
    | inl skipped ↦
        rw (skipped, add_package)
          ((λ h. inl h), λ h. elim h [ inl old ↦ old | inr (e, _, _) ↦ absurd (cc e) ])
    | inr seen ↦ elim (Option-cases pkg.dir) [
      | inl missing ↦
          rw (seen, add_package)
            (rw missing
              ((λ h. inl h), λ h. elim h [ inl old ↦ old | inr (_, e, _) ↦ absurd (cc e) ]))
      | inr (at_dir, placed) ↦
          let (there, back) =
            IsFound-add_found x dir at_dir pkg (package_targets pkg.syntax) outs in
          let (marked, in_targets) = In-package_targets x pkg.syntax in
          rw (seen, add_package)
            (rw placed (
              (λ h. elim (there h) [
                | inl old ↦ inl old
                | inr (d, i) ↦ inr (refl, ap some d, marked i)
              ]),
              λ h.
                  back (elim h [
                    | inl old ↦ inl old
                    | inr (_, e, m) ↦ inr (ground arith, in_targets m)
                  ]),
            ))
    ]
  ]

  collect_from :
      (x dir : String) (pkgs : List Package) (outs : List PkgOut)
      → IsFound x dir (collect sort pkgs outs) ↔ (IsFound x dir outs ⊎ Any (Provides x dir) pkgs)
  unfolding collect
  collect_from x dir [] outs = ((λ h. inl h), λ h. elim h [ inl old ↦ old | inr n ↦ absurd n ])
  collect_from x dir (pkg ∷ pkgs) outs =
      let (there, back) = collect_from x dir pkgs (add_package sort pkg outs) in
      let (added, add) = IsFound-add_package x dir pkg outs in
      (
        (λ h. elim (there h) [
          | inl now ↦ elim (added now) [ inl old ↦ inl old | inr new ↦ inr (inl new) ]
          | inr later ↦ inr (inr later)
        ]),
        λ h. back (elim h [
          | inl old ↦ inl (add (inl old))
          | inr found ↦ elim found [ inl new ↦ inl (add (inr new)) | inr later ↦ inr later ]
        ]),
      )

  -- If sorting keeps the names, then after the loop over the packages a name is one of those found
  -- for a directory exactly if a package of that directory, which is neither without syntax nor
  -- the generator itself, declares a struct type of that name that has no type parameters and
  -- carries the marker in the comment of its declaration or of itself.
  pub collect-Provides :
      (x dir : String) (pkgs : List Package)
      → IsFound x dir (collect sort pkgs []) ↔ Any (Provides x dir) pkgs
  collect-Provides x dir pkgs =
      let (there, back) = collect_from x dir pkgs [] in
      ((λ h. elim (there h) [ inl n ↦ absurd n | inr found ↦ found ]), λ h. back (inr h))
