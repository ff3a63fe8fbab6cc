-- ===== src/Reset/Packages.antt =====
-- main of cmd/reset/main.go: the types that it finds in the packages, by directory, and the files
-- that it writes. packages.Load gives the packages with their syntax trees, of which the
-- declarations are here in the order in which ast.Inspect meets them.
use metrify.Base.{
  ℕ, String, Bytes, Bool, true, false, ◌&&◌, ◌||◌, Option, none, some, List, [], ◌∷◌, ◌++◌, codes,
  nat_eq, ◌==◌, if◌then◌else◌,
}
use mathlib.Core.List.{reverse}
use metrify.Middleware.{contains, has_prefix}
use metrify.Reset.{has_marker}

-- *ast.TypeSpec: whether its type is a struct, the number of its type parameters, and its doc.
pub record TypeSpec : Type 0 where
  pub name : String
  pub is_struct : Bool
  pub type_params : ℕ
  pub doc : Option (List Bytes)

-- *ast.GenDecl; `is_type` is whether it declares types, `specs` its specs that are TypeSpecs.
pub record GenDecl : Type 0 where
  pub is_type : Bool
  pub doc : Option (List Bytes)
  pub specs : List TypeSpec

-- *packages.Package; `dir` is the directory of its first Go file, if it has one.
pub record Package : Type 0 where
  pub pkg_path : Bytes
  pub name : String
  pub dir : Option String
  pub syntax : List (List GenDecl)

-- The three tests on a spec.
unfoldable pub is_target : GenDecl → TypeSpec → Bool
unfolding has_marker
is_target gen spec =
    spec.is_struct && nat_eq spec.type_params 0 && (has_marker gen.doc || has_marker spec.doc)

unfoldable pub spec_targets : GenDecl → List TypeSpec → List String
unfolding is_target
spec_targets gen [] = []
spec_targets gen (spec ∷ specs) =
    let rest = spec_targets gen specs in if is_target gen spec then spec.name ∷ rest else rest

unfoldable pub decl_targets : GenDecl → List String
unfolding spec_targets
decl_targets gen = if gen.is_type then spec_targets gen gen.specs else []

unfoldable pub file_targets : List GenDecl → List String
unfolding decl_targets
file_targets [] = []
file_targets (gen ∷ gens) = decl_targets gen ++ file_targets gens

unfoldable pub package_targets : List (List GenDecl) → List String
unfolding file_targets
package_targets [] = []
package_targets (file ∷ files) = file_targets file ++ package_targets files

abbrev is_nil_list : {A : Type 0} → List A → Bool
is_nil_list [] = true
is_nil_list (a ∷ rest) = false

-- strings.HasSuffix
abbrev has_suffix : Bytes → Bytes → Bool
has_suffix p s = has_prefix (reverse p) (reverse s)

-- The packages that the loop passes over whatever types they have, but for those with no Go file.
unfoldable pub is_skipped : Package → Bool
is_skipped pkg =
    is_nil_list pkg.syntax
    || contains (codes "/cmd/reset") pkg.pkg_path
    || has_suffix (codes "cmd/reset") pkg.pkg_path

-- pkgOut, under its directory, in the order in which the map got them.
pub record PkgOut : Type 0 where
  pub dir : String
  pub pkg_name : String
  pub targets : List String

unfoldable pub add_out : String → String → List String → List PkgOut → List PkgOut
add_out dir name targets [] = record { dir = dir; pkg_name = name; targets = targets } ∷ []
add_out dir name targets (po ∷ outs) =
    let rest = add_out dir name targets outs in
    if po.dir == dir then record po { targets = po.targets ++ targets } ∷ outs else po ∷ rest

-- `sort` is the sort.Slice by names.
module _ (sort : List String → List String) where
  unfoldable pub add_found : Package → String → List String → List PkgOut → List PkgOut
  unfolding add_out
  add_found pkg dir [] outs = outs
  add_found pkg dir (t ∷ ts) outs = add_out dir pkg.name (sort (t ∷ ts)) outs

  unfoldable pub add_package_at : Package → Option String → List PkgOut → List PkgOut
  unfolding add_found package_targets
  add_package_at pkg none outs = outs
  add_package_at pkg (some dir) outs = add_found pkg dir (package_targets pkg.syntax) outs

  -- One round of the loop over the packages.
  unfoldable pub add_package : Package → List PkgOut → List PkgOut
  unfolding is_skipped add_package_at
  add_package pkg outs = if is_skipped pkg then outs else add_package_at pkg pkg.dir outs

  unfoldable pub collect : List Package → List PkgOut → List PkgOut
  unfolding add_package
  collect [] outs = outs
  collect (pkg ∷ pkgs) outs = collect pkgs (add_package pkg outs)
