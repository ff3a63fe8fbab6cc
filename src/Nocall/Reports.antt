-- ===== src/Nocall/Reports.antt =====
-- Which calls are reported.
use metrify.Base.{
  ℕ, Bytes, true, Option, none, some, List, [], ◌∷◌, ◌++◌, inl, inr, ◌⊎◌, ◌≡◌, ◌≢◌, ◌↔◌, refl,
  arith, ap, ◌∙◌, sym, is_empty-cases, Bool-cases,
}
use metrify.Nocall.{
  Node, Nodes, ident, selector, call, other, nil, cons, split, contains, name_of, Report, visit,
  inspect, inspect_all, inspect_files, run, report_named,
}

-- A call that stands somewhere in a node, with its position and what it calls.
mutual
  pub data Calls (pos : ℕ) (fun : Node) : Node → Type 0 where
    here : (args : Nodes) → Calls pos fun (call pos fun args)
    in_selector : (x : Node) (sel : Bytes) → Calls pos fun x → Calls pos fun (selector x sel)
    in_fun : (p : ℕ) (g : Node) (args : Nodes) → Calls pos fun g → Calls pos fun (call p g args)
    in_args :
        (p : ℕ) (g : Node) (args : Nodes) → CallsIn pos fun args → Calls pos fun (call p g args)
    in_other : (xs : Nodes) → CallsIn pos fun xs → Calls pos fun (other xs)

  pub data CallsIn (pos : ℕ) (fun : Node) : Nodes → Type 0 where
    in_first : (x : Node) (xs : Nodes) → Calls pos fun x → CallsIn pos fun (cons x xs)
    in_rest : (x : Node) (xs : Nodes) → CallsIn pos fun xs → CallsIn pos fun (cons x xs)

-- A report, or a file, among others.
abbrev pub Among : {A : Type 0} → A → List A → Type 0
Among a [] = ⊥
Among a (b ∷ bs) = (b ≡ a) ⊎ Among a bs

module _ {A : Type 0} (r : A) where
  Among-append_left : (ps qs : List A) → Among r ps → Among r (ps ++ qs)
  Among-append_left [] qs a = absurd a
  Among-append_left (p ∷ ps) qs (inl e) = inl e
  Among-append_left (p ∷ ps) qs (inr a) = inr (Among-append_left ps qs a)

  Among-append_right : (ps qs : List A) → Among r qs → Among r (ps ++ qs)
  Among-append_right [] qs a = a
  Among-append_right (p ∷ ps) qs a = inr (Among-append_right ps qs a)

  Among-append_cases : (ps qs : List A) → Among r (ps ++ qs) → Among r ps ⊎ Among r qs
  Among-append_cases [] qs a = inr a
  Among-append_cases (p ∷ ps) qs (inl e) = inl (inl e)
  Among-append_cases (p ∷ ps) qs (inr a) = elim (Among-append_cases ps qs a) [
    | inl b ↦ inl (inr b)
    | inr b ↦ inr b
  ]

module _ (names : List Bytes) (pos : ℕ) (name : Bytes) where
  -- The name that a call is looked up by is restricted.
  abbrev pub IsRestricted : Node → Type 0
  IsRestricted fun = (name_of fun ≡ some name) × (contains names name ≡ true)

  abbrev Found : Node → Type 0
  Found n = (fun : Node) × Calls pos fun n × IsRestricted fun

  abbrev FoundIn : Nodes → Type 0
  FoundIn xs = (fun : Node) × CallsIn pos fun xs × IsRestricted fun

  report_named-Among :
      (p : ℕ) (o : Option Bytes)
      → Among (pos, name) (report_named names p o)
      → (p ≡ pos) × (o ≡ some name) × (contains names name ≡ true)
  report_named-Among p none a = absurd a
  report_named-Among p (some n) a = elim (Bool-cases (contains names n)) [
    | inl e ↦
        let same : (p, n) ≡ (pos, name) = ground arith in
        (
          ap (λ (r : Report). r.0) same,
          ap (λ (r : Report). some r.1) same,
          ap (λ (r : Report). contains names r.1) (sym same) ∙ e,
        )
    | inr e ↦ absurd (ground arith)
  ]

  Among-report_named :
      (fun : Node) → IsRestricted fun → Among (pos, name) (report_named names pos (name_of fun))
  Among-report_named fun (named, wanted) = rw (named, wanted) (inl refl)

  mutual
    unfolding inspect visit

    Among-inspect : (n : Node) → Among (pos, name) (inspect names n) → Found n
    Among-inspect (ident m) a = absurd a
    Among-inspect (selector x sel) a =
        let (fun, c, w) = Among-inspect x a in (fun, in_selector x sel c, w)
    Among-inspect (call p g args) a =
        elim (Among-append_cases (pos, name) (report_named names p (name_of g))
          (inspect names g ++ inspect_all names args) a) [
            | inl b ↦
                let (at, named, wanted) = report_named-Among p (name_of g) b in
                (g, rw at (here args), (named, wanted))
            | inr b ↦
                elim (Among-append_cases (pos, name) (inspect names g) (inspect_all names args) b) [
                  | inl c ↦ let (fun, d, w) = Among-inspect g c in (fun, in_fun p g args d, w)
                  | inr c ↦
                      let (fun, d, w) = Among-inspect_all args c in (fun, in_args p g args d, w)
                ]
          ]
    Among-inspect (other xs) a = let (fun, c, w) = Among-inspect_all xs a in (fun, in_other xs c, w)

    Among-inspect_all : (xs : Nodes) → Among (pos, name) (inspect_all names xs) → FoundIn xs
    Among-inspect_all nil a = absurd a
    Among-inspect_all (cons x xs) a =
        elim (Among-append_cases (pos, name) (inspect names x) (inspect_all names xs) a) [
          | inl b ↦ let (fun, c, w) = Among-inspect x b in (fun, in_first x xs c, w)
          | inr b ↦ let (fun, c, w) = Among-inspect_all xs b in (fun, in_rest x xs c, w)
        ]

  mutual
    unfolding inspect visit

    inspect-Among :
        (fun n : Node) → IsRestricted fun → Calls pos fun n → Among (pos, name) (inspect names n)
    inspect-Among fun _ w (here args) =
        Among-append_left (pos, name) (report_named names pos (name_of fun))
          (inspect names fun ++ inspect_all names args) (Among-report_named fun w)
    inspect-Among fun _ w (in_selector x sel c) = inspect-Among fun x w c
    inspect-Among fun _ w (in_fun p g args c) =
        Among-append_right (pos, name) (report_named names p (name_of g))
          (inspect names g ++ inspect_all names args)
          (Among-append_left (pos, name) (inspect names g) (inspect_all names args)
            (inspect-Among fun g w c))
    inspect-Among fun _ w (in_args p g args c) =
        Among-append_right (pos, name) (report_named names p (name_of g))
          (inspect names g ++ inspect_all names args)
          (Among-append_right (pos, name) (inspect names g) (inspect_all names args)
            (inspect_all-Among fun args w c))
    inspect-Among fun _ w (in_other xs c) = inspect_all-Among fun xs w c

    inspect_all-Among :
        (fun : Node) (xs : Nodes)
        → IsRestricted fun
        → CallsIn pos fun xs
        → Among (pos, name) (inspect_all names xs)
    inspect_all-Among fun _ w (in_first x xs c) =
        Among-append_left (pos, name) (inspect names x) (inspect_all names xs)
          (inspect-Among fun x w c)
    inspect_all-Among fun _ w (in_rest x xs c) =
        Among-append_right (pos, name) (inspect names x) (inspect_all names xs)
          (inspect_all-Among fun xs w c)

  Among-inspect_files :
      (files : List Node)
      → Among (pos, name) (inspect_files names files)
      → (file : Node) × Among file files × Found file
  unfolding inspect_files
  Among-inspect_files [] a = absurd a
  Among-inspect_files (file ∷ files) a =
      elim (Among-append_cases (pos, name) (inspect names file) (inspect_files names files) a) [
        | inl b ↦ (file, inl refl, Among-inspect file b)
        | inr b ↦
            let (other_file, c, found) = Among-inspect_files files b in (other_file, inr c, found)
      ]

  inspect_files-Among :
      (file : Node) (files : List Node)
      → Among file files
      → Found file
      → Among (pos, name) (inspect_files names files)
  unfolding inspect_files
  inspect_files-Among file [] a found = absurd a
  inspect_files-Among file (g ∷ files) (inl e) (fun, c, w) =
      Among-append_left (pos, name) (inspect names g) (inspect_files names files)
        (inspect-Among fun g w (rw e c))
  inspect_files-Among file (g ∷ files) (inr a) found =
      Among-append_right (pos, name) (inspect names g) (inspect_files names files)
        (inspect_files-Among file files a found)

-- With a list of functions that is not empty, a position is reported under a name exactly if one
-- of the files has a call there whose function is looked up by that name, and the name is one of
-- the parts of the list between its commas: "f" for f(), "p.F" for p.F(), and the empty name,
-- which a list with a comma at its end has among its parts, for every call whose function is
-- neither an identifier nor a selector. With an empty list nothing is reported.
pub run-reports :
    (flag_functions : Bytes) (files : List Node) (pos : ℕ) (name : Bytes)
    → Among (pos, name) (run flag_functions files) ↔ (
        (flag_functions ≢ [])
        × ((file : Node) × (fun : Node) × Among file files
            × Calls pos fun file
            × (name_of fun ≡ some name)
            × (contains (split flag_functions) name ≡ true)))
unfolding run
run-reports flag_functions files pos name = elim (is_empty-cases flag_functions) [
  | inl none_given ↦ rw (none_given, run) ((λ a. absurd a), λ (given, rest). absurd (given refl))
  | inr (given, some_given) ↦
      let names = split flag_functions in
      rw (some_given, run)
        (
          (λ a.
              let (file, among, (fun, c, (named, wanted))) =
                Among-inspect_files names pos name files a in
              (given, (file, fun, among, c, named, wanted))),
          λ (_, (file, fun, among, c, named, wanted)).
              inspect_files-Among names pos name file files among (fun, c, (named, wanted)),
        )
]
