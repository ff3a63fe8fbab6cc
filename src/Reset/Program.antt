-- ===== src/Reset/Program.antt =====
-- main of cmd/reset/main.go: its flags, the packages that it loads, and the loop that writes the
-- files.
use metrify.Base.{
  ℕ, String, Bytes, Bool, false, Option, none, some, List, [], ◌∷◌, ◌⊎◌, inl, inr, codes, leb,
  length, if◌then◌else◌,
}
use metrify.Failure.{Failure}
use metrify.Flags.{Var, string_var, bool_var}
use metrify.Config.{Exit, exit_code, parse_or_exit}
use metrify.Reset.{dedup_targets, render}
use metrify.Reset.Packages.{Package, PkgOut, collect}

pub record Settings : Type 0 where
  pub root : Bytes
  pub pattern : Bytes
  pub verbose : Bool

abbrev pub zero_settings : Settings
zero_settings = record { root = []; pattern = []; verbose = false }

unfoldable pub vars : List (Var Settings)
unfolding string_var bool_var
vars =
    string_var (λ f v. record f { root = v }) "root" (λ f. codes ".")
    ∷ string_var (λ f v. record f { pattern = v }) "pattern" (λ f. codes "./...")
    ∷ bool_var (λ f v. record f { verbose = v }) "v" (λ f. false)
    ∷ []

-- packages.Load in a directory, packages.PrintErrors, sort.Slice by names, the entries of outByDir
-- in the order that sort.Strings gives their directories, format.Source, filepath.Join with
-- "reset.gen.go", os.WriteFile, and fmt.Printf of a path and a number of types.
pub record Tools (W : Type 0) : Type 0 where
  pub load : Bytes → Bytes → W → Failure ⊎ List Package
  pub print_errors : List Package → ℕ
  pub sort : List String → List String
  pub sort_outs : List PkgOut → List PkgOut
  pub format : Bytes → Failure ⊎ Bytes
  pub out_path : String → String
  pub write_file : String → Bytes → W → Option Failure × W
  pub printf : String → ℕ → W → W

module _ {W : Type 0} (tools : Tools W) where
  abbrev pub names_of : PkgOut → List String
  names_of po = dedup_targets tools.sort po.targets

  abbrev pub render_out : PkgOut → Failure ⊎ Bytes
  render_out po = render tools.format po.pkg_name (names_of po)

  abbrev pub write_rendered : String → Failure ⊎ Bytes → W → Option Failure × W
  write_rendered dir (inl e) w = (some e, w)
  write_rendered dir (inr src) w = tools.write_file (tools.out_path dir) src w

  abbrev pub report : Bool → PkgOut → W → W
  report verbose po w =
      if verbose then tools.printf (tools.out_path po.dir) (length (names_of po)) w else w

  -- The loop over the directories, which are sorted before: it dies at the first error.
  unfoldable pub generate : Bool → List PkgOut → W → Option Failure × W
  unfolding dedup_targets render
  generate verbose [] w = (none, w)
  generate verbose (po ∷ outs) w =
      let (e, w') = write_rendered po.dir (render_out po) w in
      let rest = generate verbose outs (report verbose po w') in
      elim e [ some failed ↦ (some failed, w') | none ↦ rest ]

  -- die is os.Exit(1), as is the end after PrintErrors; their texts are output.
  abbrev pub die_at : Option Failure × W → (Exit ⊎ Unit {0}) × W
  die_at (none, w) = (inr tt, w)
  die_at (some e, w) = (inl (exit_code 1), w)

  abbrev pub with_packages : Settings → Failure ⊎ List Package → W → (Exit ⊎ Unit {0}) × W
  with_packages f (inl e) w = (inl (exit_code 1), w)
  with_packages f (inr pkgs) w =
      if leb 1 (tools.print_errors pkgs)
      then (inl (exit_code 1), w)
      else die_at (generate f.verbose (tools.sort_outs (collect tools.sort pkgs [])) w)

  abbrev pub with_settings : Exit ⊎ Settings → W → (Exit ⊎ Unit {0}) × W
  with_settings (inl e) w = (inl e, w)
  with_settings (inr f) w = with_packages f (tools.load f.root f.pattern w) w

  unfoldable pub main : List Bytes → W → (Exit ⊎ Unit {0}) × W
  unfolding parse_or_exit vars collect generate
  main args w = with_settings (parse_or_exit vars args zero_settings) w
