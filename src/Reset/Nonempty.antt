-- ===== src/Reset/Nonempty.antt =====
-- The entries of outByDir: no two for a directory, and none without a type.
use metrify.Base.{
  String, List, [], ◌∷◌, inl, inr, ◌≡◌, ◌≢◌, ◌↔◌, refl, sym, ap, ◌∙◌, ◌∙◌, Bool-cases, Option-cases,
  All, ◌==◌, eq_iff,
}
use metrify.Reset.Dedup.{In}
use metrify.Reset.Declaring.{Any, In-append}
use metrify.Reset.Packages.{
  Package, package_targets, PkgOut, add_out, add_found, add_package_at, add_package, collect,
  is_skipped,
}
use metrify.Reset.Collecting.{IsFound}

-- One of the list that has a property, if all have another.
pub Any-pick :
    {A : Type 0} (P Q : A → Type 0) (xs : List A)
    → All Q xs
    → Any P xs
    → (a : A) × P a × Q a × Any (λ b. b ≡ a) xs
Any-pick P Q [] all n = absurd n
Any-pick P Q (a ∷ xs) (q, all) (inl p) = (a, p, q, inl refl)
Any-pick P Q (a ∷ xs) (q, all) (inr later) =
    let (b, p, q', i) = Any-pick P Q xs all later in (b, p, q', inr i)

pub Any-at :
    {A : Type 0} (P : A → Type 0) (a : A) (xs : List A) → P a → Any (λ b. b ≡ a) xs → Any P xs
Any-at P a [] p n = n
Any-at P a (b ∷ xs) p (inl e) = inl (rw e p)
Any-at P a (b ∷ xs) p (inr later) = inr (Any-at P a xs p later)

-- There is a type in the entry.
abbrev pub HasTarget : PkgOut → Type 0
HasTarget po = (x : String) × In x po.targets

abbrev pub Distinct : List PkgOut → Type 0
Distinct [] = Unit
Distinct (po ∷ outs) = All (λ (q : PkgOut). q.dir ≢ po.dir) outs × Distinct outs

-- No directory has two entries, and none is empty.
abbrev pub IsProper : List PkgOut → Type 0
IsProper outs = Distinct outs × All HasTarget outs

add_out-HasTarget :
    (dir name x : String) (ts : List String) (outs : List PkgOut)
    → In x ts
    → All HasTarget outs
    → All HasTarget (add_out dir name ts outs)
unfolding add_out
add_out-HasTarget dir name x ts [] h all = ((x, h), tt)
add_out-HasTarget dir name x ts (po ∷ outs) h (has, all) = elim (Bool-cases (po.dir == dir)) [
  | inl same ↦ rw (same, add_out) ((x, (In-append x po.targets ts).1 (inr h)), all)
  | inr other ↦ rw (other, add_out) (has, add_out-HasTarget dir name x ts outs h all)
]

add_out-apart :
    (d dir name : String) (ts : List String) (outs : List PkgOut)
    → dir ≢ d
    → All (λ (q : PkgOut). q.dir ≢ d) outs
    → All (λ (q : PkgOut). q.dir ≢ d) (add_out dir name ts outs)
unfolding add_out
add_out-apart d dir name ts [] apart all = (apart, tt)
add_out-apart d dir name ts (po ∷ outs) apart (ne, all) = elim (Bool-cases (po.dir == dir)) [
  | inl same ↦ rw (same, add_out) (ne, all)
  | inr other ↦ rw (other, add_out) (ne, add_out-apart d dir name ts outs apart all)
]

add_out-Distinct :
    (dir name : String) (ts : List String) (outs : List PkgOut)
    → Distinct outs
    → Distinct (add_out dir name ts outs)
unfolding add_out
add_out-Distinct dir name ts [] d = (tt, tt)
add_out-Distinct dir name ts (po ∷ outs) (apart, d) = elim (Bool-cases (po.dir == dir)) [
  | inl same ↦ rw (same, add_out) (apart, d)
  | inr other ↦
      rw (other, add_out)
        (
          add_out-apart po.dir dir name ts outs (λ e. cc ((eq_iff po.dir dir).1 (sym e), other))
              apart,
          add_out-Distinct dir name ts outs d,
        )
]

module _ (sort : List String → List String)
    (kept : (x : String) (ts : List String) → In x (sort ts) ↔ In x ts) where
  add_found-IsProper :
      (pkg : Package) (dir : String) (ts : List String) (outs : List PkgOut)
      → IsProper outs
      → IsProper (add_found sort pkg dir ts outs)
  unfolding add_found
  add_found-IsProper pkg dir [] outs proper = proper
  add_found-IsProper pkg dir (t ∷ ts) outs (d, all) = (
    add_out-Distinct dir pkg.name (sort (t ∷ ts)) outs d,
    add_out-HasTarget dir pkg.name t (sort (t ∷ ts)) outs ((kept t (t ∷ ts)).1 (inl refl)) all,
  )

  add_package-IsProper :
      (pkg : Package) (outs : List PkgOut) → IsProper outs → IsProper (add_package sort pkg outs)
  unfolding add_package add_package_at
  add_package-IsProper pkg outs proper = elim (Bool-cases (is_skipped pkg)) [
    | inl skipped ↦ rw (skipped, add_package) proper
    | inr seen ↦ elim (Option-cases pkg.dir) [
      | inl missing ↦ rw (seen, add_package) (rw missing proper)
      | inr (dir, placed) ↦
          rw (seen, add_package)
            (rw placed (add_found-IsProper pkg dir (package_targets pkg.syntax) outs proper))
    ]
  ]

  pub collect-IsProper :
      (pkgs : List Package) (outs : List PkgOut) → IsProper outs → IsProper (collect sort pkgs outs)
  unfolding collect
  collect-IsProper [] outs proper = proper
  collect-IsProper (pkg ∷ pkgs) outs proper =
      collect-IsProper pkgs (add_package sort pkg outs) (add_package-IsProper pkg outs proper)

none-at :
    (x d : String) (outs : List PkgOut)
    → All (λ (q : PkgOut). q.dir ≢ d) outs
    → IsFound x d outs
    → ⊥
none-at x d [] all n = n
none-at x d (q ∷ outs) (ne, all) (inl (e, i)) = ne e
none-at x d (q ∷ outs) (ne, all) (inr later) = none-at x d outs all later

-- An entry.
abbrev pub Among : List PkgOut → PkgOut → Type 0
Among outs po = Any (λ q. q ≡ po) outs

apart-Among :
    (d : String) (po : PkgOut) (outs : List PkgOut)
    → All (λ (q : PkgOut). q.dir ≢ d) outs
    → Among outs po
    → po.dir ≢ d
apart-Among d po [] all n = absurd n
apart-Among d po (q ∷ outs) (ne, all) (inl e) = λ h. ne (ap (λ (r : PkgOut). r.dir) e ∙ h)
apart-Among d po (q ∷ outs) (ne, all) (inr later) = apart-Among d po outs all later

pub IsFound-entry :
    (x : String) (po : PkgOut) (outs : List PkgOut)
    → Distinct outs
    → Among outs po
    → IsFound x po.dir outs ↔ In x po.targets
IsFound-entry x po [] d n = absurd n
IsFound-entry x po (q ∷ outs) (apart, d) (inl e) = (
  (λ h. elim h [
    | inl (_, i) ↦ rw (ap (λ (r : PkgOut). r.targets) e) at i
    | inr later ↦
        absurd (none-at x q.dir outs apart (rw (sym (ap (λ (r : PkgOut). r.dir) e)) at later))
  ]),
  λ i. inl (ap (λ (r : PkgOut). r.dir) e, rw (sym (ap (λ (r : PkgOut). r.targets) e)) at i),
)
IsFound-entry x po (q ∷ outs) (apart, d) (inr later) =
    let (there, back) = IsFound-entry x po outs d later in
    (
      (λ h. elim h [
        | inl (e, _) ↦ absurd (apart-Among q.dir po outs apart later (sym e))
        | inr h' ↦ there h'
      ]),
      λ i. inr (back i),
    )
