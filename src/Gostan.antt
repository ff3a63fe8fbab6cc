-- ===== src/Gostan.antt =====
-- cmd/gostan/gostan.go, and SetupAnalyzer of internal/service/nocall.go: the static checks that run
-- together, of which the analyzers of other modules are told apart by their packages.
use metrify.Base.{String, Bytes, List, [], ◌∷◌, ◌++◌}
use metrify.Flags.{Var, string_var}

-- service.Analyzer, which is Nocall, an analyzer of another module by its package, or one of
-- staticcheck by its name.
pub data Analyzer : Type 0 where
  own : Analyzer
  pass staticcheck : String → Analyzer

-- SetupAnalyzer: the flag of service.Analyzer, whose struct is flagFunctions.
unfoldable pub setup_analyzer : List (Var Bytes)
unfolding string_var
setup_analyzer = string_var (λ f v. v) "functions" (λ f. []) ∷ []

abbrev pub listed : List Analyzer
listed =
    own
    ∷ pass "nilerr"
    ∷ pass "elseless"
    ∷ pass "appends"
    ∷ pass "asmdecl"
    ∷ pass "assign"
    ∷ pass "atomic"
    ∷ pass "atomicalign"
    ∷ pass "bools"
    ∷ pass "buildssa"
    ∷ pass "buildtag"
    ∷ pass "cgocall"
    ∷ pass "composite"
    ∷ pass "copylock"
    ∷ pass "ctrlflow"
    ∷ pass "deepequalerrors"
    ∷ pass "defers"
    ∷ pass "directive"
    ∷ pass "errorsas"
    ∷ pass "findcall"
    ∷ pass "framepointer"
    ∷ pass "httpmux"
    ∷ pass "httpresponse"
    ∷ pass "ifaceassert"
    ∷ pass "inspect"
    ∷ pass "loopclosure"
    ∷ pass "lostcancel"
    ∷ pass "nilfunc"
    ∷ pass "nilness"
    ∷ pass "pkgfact"
    ∷ pass "printf"
    ∷ pass "reflectvaluecompare"
    ∷ pass "shadow"
    ∷ pass "shift"
    ∷ pass "sigchanyzer"
    ∷ pass "slog"
    ∷ pass "sortslice"
    ∷ pass "stdmethods"
    ∷ pass "stdversion"
    ∷ pass "stringintconv"
    ∷ pass "structtag"
    ∷ pass "testinggoroutine"
    ∷ pass "tests"
    ∷ pass "timeformat"
    ∷ pass "unmarshal"
    ∷ pass "unreachable"
    ∷ pass "unsafeptr"
    ∷ pass "unusedresult"
    ∷ pass "unusedwrite"
    ∷ pass "usesgenerics"
    ∷ []

-- The loop over staticcheck.Analyzers, which appends each.
unfoldable pub append_all : List Analyzer → List String → List Analyzer
append_all analyzers [] = analyzers
append_all analyzers (name ∷ names) = append_all (analyzers ++ staticcheck name ∷ []) names

-- `staticchecks` is staticcheck.Analyzers, `multichecker` is multichecker.Main, which parses the
-- flags and runs the analyzers.
module _ {W : Type 0} (staticchecks : List String)
    (multichecker : List (Var Bytes) → List Analyzer → W → W) where
  unfoldable pub main : W → W
  unfolding setup_analyzer append_all
  main w = multichecker setup_analyzer (append_all listed staticchecks) w
