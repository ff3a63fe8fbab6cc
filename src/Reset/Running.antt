-- ===== src/Reset/Running.antt =====
-- What a whole run of the generator writes, against the packages that it loaded.
use metrify.Base.{
  String, Bytes, Option, none, some, List, [], ◌⊎◌, inl, inr, ◌≡◌, ◌≢◌, ◌↔◌, refl, sym, ap, ◌∙◌,
  leb, Bool-cases,
}
use metrify.Failure.{Failure}
use metrify.Config.{Exit, parse_or_exit}
use metrify.Reset.{render}
use metrify.Reset.Dedup.{In, In-dedup_targets}
use metrify.Reset.Declaring.{Any}
use metrify.Reset.Packages.{Package, PkgOut, collect}
use metrify.Reset.Collecting.{Provides, collect-Provides}
use metrify.Reset.Nonempty.{
  Any-pick, Any-at, HasTarget, Among, IsProper, collect-IsProper, IsFound-entry,
}
use metrify.Reset.Written.{Keeps, Wrote, Renders, generate-log, generate-rendered}
use metrify.Reset.Program.{
  Settings, zero_settings, vars, Tools, names_of, render_out, generate, die_at, with_packages,
  with_settings, main,
}

module _ {W : Type 0} (tools : Tools W) where
  die_at-returned :
      (r : Option Failure × W) (w' : W) → die_at tools r ≡ (inr tt, w') → r ≡ (none, w')
  die_at-returned (none, w) w' h = ap (λ r. (none, r.1)) h
  die_at-returned (some e, w) w' h = absurd (cc (ap (λ r. r.0) h))

  -- The loop over the directories at the end of a run that loaded the packages.
  abbrev generated : Settings → List Package → W → Option Failure × W
  generated f pkgs w = generate tools f.verbose (tools.sort_outs (collect tools.sort pkgs [])) w

  with_packages-returned :
      (f : Settings) (r : Failure ⊎ List Package) (w w' : W)
      → with_packages tools f r w ≡ (inr tt, w')
      → (pkgs : List Package) × (r ≡ inr pkgs) × (generated f pkgs w ≡ (none, w'))
  with_packages-returned f (inl e) w w' h = absurd (cc (ap (λ r. r.0) h))
  with_packages-returned f (inr pkgs) w w' h = elim (Bool-cases (leb 1 (tools.print_errors pkgs))) [
    | inl wrong ↦ absurd (cc (ap (λ r. r.0) (rw wrong at h)))
    | inr fine ↦ (pkgs, refl, die_at-returned _ w' (rw fine at h))
  ]

  with_settings-returned :
      (r : Exit ⊎ Settings) (w w' : W)
      → with_settings tools r w ≡ (inr tt, w')
      → (f : Settings) × (pkgs : List Package) × (r ≡ inr f)
        × (tools.load f.root f.pattern w ≡ inr pkgs)
        × (generated f pkgs w ≡ (none, w'))
  with_settings-returned (inl e) w w' h = absurd (cc (ap (λ r. r.0) h))
  with_settings-returned (inr f) w w' h =
      let (pkgs, loaded, rest) = with_packages-returned f (tools.load f.root f.pattern w) w w' h in
      (f, pkgs, refl, loaded, rest)

  -- A file at `p` with the text `src`, for a directory of the packages: formatted from the names of
  -- exactly the types that the directory provides, of which there is one.
  pub record Generated (pkgs : List Package) (dir p : String) (src : Bytes) : Type 0 where
    pub pkg_name : String
    pub names : List String
    pub at : tools.out_path dir ≡ p
    pub rendered : render tools.format pkg_name names ≡ inr src
    pub exactly : (x : String) → x ≢ "" → In x names ↔ Any (Provides x dir) pkgs
    pub provides_one : (x : String) × Any (Provides x dir) pkgs

  module _ (kept : (x : String) (ts : List String) → In x (tools.sort ts) ↔ In x ts) where
    -- An entry of outByDir whose file was written.
    entry-Generated :
        (pkgs : List Package) (po : PkgOut) (p : String) (src : Bytes)
        → Among (collect tools.sort pkgs []) po
        → HasTarget po
        → Renders tools p src po
        → Generated pkgs po.dir p src
    entry-Generated pkgs po p src among (x, i) (at, rendered) = record {
      pkg_name = po.pkg_name;
      names = names_of tools po;
      at = at;
      rendered = rendered;
      exactly = λ y named. (
        (λ h. found y ((In-dedup_targets tools.sort y po.targets kept named).0 h)),
        λ h. (In-dedup_targets tools.sort y po.targets kept named).1 (listed y h),
      );
      provides_one = (x, found x i);
    }
      where
        proper : IsProper (collect tools.sort pkgs [])
        proper = collect-IsProper tools.sort kept pkgs [] (tt, tt)

        found : (y : String) → In y po.targets → Any (Provides y po.dir) pkgs
        found y h =
            (collect-Provides tools.sort kept y po.dir pkgs).0
              ((IsFound-entry y po (collect tools.sort pkgs []) proper.0 among).1 h)

        listed : (y : String) → Any (Provides y po.dir) pkgs → In y po.targets
        listed y h =
            (IsFound-entry y po (collect tools.sort pkgs []) proper.0 among).0
              ((collect-Provides tools.sort kept y po.dir pkgs).1 h)

  module _ (log : W → List (String × Bytes)) (keeps : Keeps tools log)
      (kept : (x : String) (ts : List String) → In x (tools.sort ts) ↔ In x ts)
      (kept_outs : (P : PkgOut → Type 0) (outs : List PkgOut)
        → Any P (tools.sort_outs outs) ↔ Any P outs) where
    generated-Generated :
        (f : Settings) (pkgs : List Package) (w w' : W) (p : String) (src : Bytes)
        → generated f pkgs w ≡ (none, w')
        → Wrote log p src w'
        → Wrote log p src w ⊎ ((dir : String) × Generated pkgs dir p src)
    generated-Generated f pkgs w w' p src h wrote =
        let outs = collect tools.sort pkgs [] in
        elim ((generate-log tools log keeps f.verbose _ w w' p src h).0 wrote) [
          | inl old ↦ inl old
          | inr new ↦
              (let (po, renders, has, among) =
                  Any-pick (Renders tools p src) HasTarget outs
                    (collect-IsProper tools.sort kept pkgs [] (tt, tt)).1
                    ((kept_outs _ outs).0 new) in
                inr (po.dir, entry-Generated kept pkgs po p src among has renders))
        ]

    provided-Generated :
        (f : Settings) (pkgs : List Package) (w w' : W) (x dir : String)
        → generated f pkgs w ≡ (none, w')
        → Any (Provides x dir) pkgs
        → (src : Bytes) × Wrote log (tools.out_path dir) src w'
          × Generated pkgs dir (tools.out_path dir) src
    provided-Generated f pkgs w w' x dir h provided =
        let outs = collect tools.sort pkgs [] in
        let (po, (at, _), has, among) =
          Any-pick _ HasTarget outs (collect-IsProper tools.sort kept pkgs [] (tt, tt)).1
            ((collect-Provides tools.sort kept x dir pkgs).1 provided) in
        let (q, same, (src, rendered), _) =
          Any-pick _ _ (tools.sort_outs outs) (generate-rendered tools log keeps f.verbose _ w w' h)
            ((kept_outs _ outs).1 among) in
        let renders : Renders tools (tools.out_path dir) src po =
          (ap tools.out_path at, ap (render_out tools) (sym same) ∙ rendered) in
        (
          src,
          (generate-log tools log keeps f.verbose _ w w' _ src h).1
              (inr ((kept_outs _ outs).1 (Any-at _ po outs renders among))),
          rw at at (entry-Generated kept pkgs po (tools.out_path dir) src among has renders),
        )

    -- A run of the generator that ends well (its world keeps a log of the files that are written,
    -- and sorting keeps names and entries) has parsed its flags and loaded packages. Every file
    -- that it wrote is formatted from the names of exactly the types that a directory provides,
    -- but for an empty name, and every directory that provides a type has such a file at its
    -- path.
    pub main-Generated :
        (args : List Bytes) (w w' : W)
        → main tools args w ≡ (inr tt, w')
        → (f : Settings) × (pkgs : List Package) × (parse_or_exit vars args zero_settings ≡ inr f)
          × (tools.load f.root f.pattern w ≡ inr pkgs)
          × ((p : String) (src : Bytes)
              → Wrote log p src w'
              → Wrote log p src w ⊎ ((dir : String) × Generated pkgs dir p src))
          × ((x dir : String)
              → Any (Provides x dir) pkgs
              → (src : Bytes) × Wrote log (tools.out_path dir) src w'
                × Generated pkgs dir (tools.out_path dir) src)
    unfolding main
    main-Generated args w w' h =
        let (f, pkgs, parsed, loaded, rest) =
          with_settings-returned (parse_or_exit vars args zero_settings) w w' h in
        (
          f,
          pkgs,
          parsed,
          loaded,
          (λ p src wrote. generated-Generated f pkgs w w' p src rest wrote),
          λ x dir provided. provided-Generated f pkgs w w' x dir rest provided,
        )
