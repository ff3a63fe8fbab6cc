-- ===== src/Nocall.antt =====
-- internal/service/nocall.go: the check that reports calls of restricted functions.
pub mod Reports
use metrify.Base.{
  ℕ, Bytes, Bool, true, false, ◌||◌, Option, none, some, List, [], ◌∷◌, ◌++◌, bytes_eq, nat_eq,
  is_empty, if◌then◌else◌,
}

-- go/ast, as far as the check looks into it: identifiers, selectors, calls with their position,
-- and every other node, each with its children in the order of ast.Inspect.
mutual
  pub data Node : Type 0 where
    ident : Bytes → Node
    selector : Node → Bytes → Node
    call : ℕ → Node → Nodes → Node
    other : Nodes → Node

  pub data Nodes : Type 0 where
    nil : Nodes
    cons : Node → Nodes → Nodes

-- strings.Split(s, ",")
abbrev begin_with : ℕ → List Bytes → List Bytes
begin_with c [] = (c ∷ []) ∷ []
begin_with c (word ∷ words) = (c ∷ word) ∷ words

abbrev pub split : Bytes → List Bytes
split [] = [] ∷ []
split (c ∷ s) = let rest = split s in if nat_eq c b',' then [] ∷ rest else begin_with c rest

-- slices.Contains
abbrev pub contains : List Bytes → Bytes → Bool
contains [] name = false
contains (n ∷ ns) name = bytes_eq n name || contains ns name

-- The name that a call is looked up by: "pkg.F" for a selector of an identifier, and "" for what
-- is neither an identifier nor a selector. There is none for a selector of anything else.
unfoldable pub name_of : Node → Option Bytes
name_of (ident name) = some name
name_of (selector (ident pkg) sel) = some (pkg ++ b'.' ∷ sel)
name_of (selector (selector x s) sel) = none
name_of (selector (call pos fun args) sel) = none
name_of (selector (other xs) sel) = none
name_of (call pos fun args) = some []
name_of (other xs) = some []

-- pass.Reportf: the position and the name.
abbrev pub Report : Type 0
Report = ℕ × Bytes

module _ (names : List Bytes) where
  abbrev report_named : ℕ → Option Bytes → List Report
  report_named pos none = []
  report_named pos (some name) = if contains names name then (pos, name) ∷ [] else []

  -- The function of ast.Inspect at one node; it always goes on with the children.
  unfoldable pub visit : Node → List Report
  unfolding name_of
  visit (ident name) = []
  visit (selector x sel) = []
  visit (call pos fun args) = report_named pos (name_of fun)
  visit (other xs) = []

  unfoldable mutual
    unfolding visit

    pub inspect : Node → List Report
    inspect (ident name) = visit (ident name)
    inspect (selector x sel) = visit (selector x sel) ++ inspect x
    inspect (call pos fun args) = visit (call pos fun args) ++ (inspect fun ++ inspect_all args)
    inspect (other xs) = visit (other xs) ++ inspect_all xs

    pub inspect_all : Nodes → List Report
    inspect_all nil = []
    inspect_all (cons x xs) = inspect x ++ inspect_all xs

unfoldable pub inspect_files : List Bytes → List Node → List Report
unfolding inspect
inspect_files names [] = []
inspect_files names (file ∷ files) = inspect names file ++ inspect_files names files

-- `flag_functions` is the flag -functions, `files` the files of the pass.
unfoldable pub run : Bytes → List Node → List Report
unfolding inspect_files
run flag_functions files =
    if is_empty flag_functions then [] else inspect_files (split flag_functions) files
