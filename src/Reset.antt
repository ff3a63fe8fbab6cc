-- ===== src/Reset.antt =====
-- cmd/reset/main.go: the generator of Reset methods, from the types that it found. Loading the
-- packages, sorting and formatting are parameters.
pub mod Dedup
pub mod Packages
pub mod Declaring
pub mod Collecting
pub mod Program
pub mod Nonempty
pub mod Written
pub mod Running
use metrify.Base.{
  String, Bytes, Bool, true, false, ◌||◌, ◌&&◌, Option, none, some, List, [], ◌∷◌, ◌++◌, ◌⊎◌, inl,
  inr, codes, ◌==◌, nat_eq, bytes_eq, if◌then◌else◌,
}
use mathlib.Core.List.{reverse}
use metrify.Failure.{Failure}
use metrify.Address.{trim_space}
use metrify.Middleware.{contains, has_prefix}

abbrev marker : Bytes
marker = codes "generate:reset"

-- strings.TrimPrefix and strings.TrimSuffix
abbrev drop_front : Bytes → Bytes → Bytes
drop_front [] s = s
drop_front (p ∷ ps) [] = []
drop_front (p ∷ ps) (a ∷ s) = drop_front ps s

abbrev trim_prefix : Bytes → Bytes → Bytes
trim_prefix p s = if has_prefix p s then drop_front p s else s

abbrev trim_suffix : Bytes → Bytes → Bytes
trim_suffix p s = reverse (trim_prefix (reverse p) (reverse s))

abbrev marked_comment : Bytes → Bool
marked_comment text =
    let line = trim_space (trim_prefix (codes "//") text) in
    contains marker (trim_space (trim_suffix (codes "*/") (trim_prefix (codes "/*") line)))

-- A comment group is the texts of its comments, or nil.
unfoldable pub has_marker : Option (List Bytes) → Bool
unfolding trim_space
has_marker none = false
has_marker (some []) = false
has_marker (some (c ∷ cs)) = marked_comment c || has_marker (some cs)

-- The loop of dedupTargets, after `prev`. A target is its name.
unfoldable pub drop_repeats : String → List String → List String
drop_repeats prev [] = []
drop_repeats prev (t ∷ ts) = elim (t == prev) [
  | true ↦ drop_repeats prev ts
  | false ↦ t ∷ drop_repeats t ts
]

-- `sort` is the sort.Slice by names.
unfoldable pub dedup_targets : (List String → List String) → List String → List String
unfolding drop_repeats
dedup_targets sort [] = []
dedup_targets sort (t ∷ ts) = drop_repeats "" (sort (t ∷ ts))

abbrev reset_method : String → Bytes
reset_method name =
    codes "func (x *"
    ++ (codes name
        ++ (codes ") Reset() {\n"
            ++ (codes "\tif x == nil {\n\t\treturn\n\t}\n"
                ++ (codes "\t*x = " ++ (codes name ++ codes "{}\n}\n\n")))))

abbrev reset_methods : List String → Bytes
reset_methods [] = []
reset_methods (t ∷ ts) = reset_method t ++ reset_methods ts

-- `format` is format.Source. On its error the text comes back beside the error, and is not written.
unfoldable pub render : (Bytes → Failure ⊎ Bytes) → String → List String → Failure ⊎ Bytes
render format pkg_name targets = format (
    codes "// Code generated by cmd/reset; DO NOT EDIT.\n\npackage "
    ++ (codes pkg_name ++ (codes "\n\n" ++ reset_methods targets)))
