-- ===== src/Tests/Generating.antt =====
-- The generator of Reset methods at a concrete input: reversing three names sorts this list of
-- them.
use Prim.Native.Nat.{Ordering}
use Prim.Native.String.{compare}
use metrify.Base.{
  some, none, codes, Bool, false, inl, inr, String, Bytes, true, List, [], ◌∷◌, ◌⊎◌, ◌≡◌, refl, sym,
  ap,
}
use metrify.Failure.{message}
use metrify.Flags.{parse}
use metrify.Config.{exit_code, parse_or_exit}
use metrify.Reset.{dedup_targets, render}
use metrify.Reset.Program.{Settings, zero_settings, vars, Tools, generate, main}
use metrify.Reset.Written.{Keeps, Wrote}
use metrify.Reset.Running.{Generated, main-Generated}
use metrify.Reset.Packages.{GenDecl, Package, collect, add_out}
use metrify.Reset.Declaring.{Any}
use metrify.Reset.Collecting.{Provides}
use metrify.Reset.Dedup.{In, Sorts}

-- The order of the texts.
abbrev not_after : String → String → Bool
not_after a b = elim (compare a b) [ Ordering.gt ↦ false | _ ↦ true ]

abbrev le : String → String → Type 0
le a b = not_after a b ≡ true

abbrev found : List String
found = "Metrics" ∷ "Event" ∷ "Event" ∷ []

abbrev sort : List String → List String
sort (a ∷ b ∷ c ∷ []) = c ∷ b ∷ a ∷ []
sort ts = ts

sorts : Sorts le sort found
sorts = record { sorted = (refl, (refl, (refl, tt))); kept = λ x. (turned x, turned_back x) }
  where
    turned : (x : String) → In x (sort found) → In x found
    turned x (inl p) = inr (inr (inl p))
    turned x (inr (inl p)) = inr (inl p)
    turned x (inr (inr (inl p))) = inl p
    turned x (inr (inr (inr none_left))) = elim none_left [ ]

    turned_back : (x : String) → In x found → In x (sort found)
    turned_back x (inl p) = inr (inr (inl p))
    turned_back x (inr (inl p)) = inr (inl p)
    turned_back x (inr (inr (inl p))) = inl p
    turned_back x (inr (inr (inr none_left))) = elim none_left [ ]

deduped : dedup_targets sort found ≡ "Event" ∷ "Metrics" ∷ []
unfolding dedup_targets
deduped = refl

-- // generate:reset type Event struct, and a generic type beside it
abbrev declaration : GenDecl
declaration = record {
  is_type = true;
  doc = some (codes "// generate:reset" ∷ []);
  specs =
      record { name = "Event"; is_struct = true; type_params = 0; doc = none }
      ∷ record { name = "Pool"; is_struct = true; type_params = 1; doc = none }
      ∷ [];
}

abbrev audit : Package
audit = record {
  pkg_path = codes "metrify/internal/audit";
  name = "audit";
  dir = some "internal/audit";
  syntax = (declaration ∷ []) ∷ [];
}

abbrev generator : Package
generator = record audit { pkg_path = codes "metrify/cmd/reset"; dir = some "cmd/reset" }

abbrev as_found : List String → List String
as_found ts = ts

abbrev Disk : Type 0
Disk = List (String × Bytes)

-- A disk that keeps what is written, and loads two packages.
abbrev tools : Tools Disk
tools = record {
  load = λ root pattern w. inr (audit ∷ generator ∷ []);
  print_errors = λ pkgs. 0;
  sort = as_found;
  sort_outs = λ outs. outs;
  format = λ text. inr text;
  out_path = λ dir. dir;
  write_file = λ p src w. (none, (p, src) ∷ w);
  printf = λ p n w. w;
}

abbrev log : Disk → Disk
log w = w

keeps : Keeps tools log
keeps = record { writes = λ p src w w' h. sym (ap (λ r. r.1) h); prints = λ p n w. refl }

abbrev verbose_run : List Bytes
verbose_run = codes "-v" ∷ codes "-root=../.." ∷ []

abbrev generated_text : Bytes
generated_text = elim (render (λ text. inr text) "audit" ("Event" ∷ [])) [
  | inl e ↦ []
  | inr text ↦ text
]

runs : main tools verbose_run [] ≡ (inr tt, ("internal/audit", generated_text) ∷ [])
unfolding main generate collect add_out render dedup_targets parse vars
runs = refl

main-Generated_example :
    (f : Settings) × (pkgs : List Package) × (parse_or_exit vars verbose_run zero_settings ≡ inr f)
    × (tools.load f.root f.pattern [] ≡ inr pkgs)
    × ((p : String) (src : Bytes)
        → Wrote log p src (("internal/audit", generated_text) ∷ [])
        → Wrote log p src [] ⊎ ((dir : String) × Generated tools pkgs dir p src))
    × ((x dir : String)
        → Any (Provides x dir) pkgs
        → (src : Bytes) × Wrote log
            (tools.out_path dir)
            src
            (("internal/audit", generated_text) ∷ [])
          × Generated tools pkgs dir (tools.out_path dir) src)
main-Generated_example =
    main-Generated tools log keeps (λ x ts. ((λ h. h), λ h. h)) (λ P outs. ((λ h. h), λ h. h))
      verbose_run [] (("internal/audit", generated_text) ∷ []) runs

-- packages.Load that fails ends the run with status 1, and a flag that is not known with 2.
load_fails :
    main (record tools { load = λ root pattern w. inl (message (codes "no module")) }) [] []
    ≡ (inl (exit_code 1), [])
unfolding main generate collect parse vars
load_fails = refl

wrong_flag : main tools (codes "-w" ∷ []) [] ≡ (inl (exit_code 2), [])
unfolding main generate collect parse vars
wrong_flag = refl
