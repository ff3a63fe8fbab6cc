-- ===== src/Reset/Written.antt =====
-- What a run of the generator has written.
use metrify.Base.{
  ℕ, String, Bytes, Bool, true, false, none, some, List, [], ◌∷◌, ◌⊎◌, inl, inr, ◌≡◌, ◌↔◌, refl,
  sym, ap, ◌∙◌, length, Option-cases, All,
}
use metrify.Failure.{Failure}
use metrify.Reset.Declaring.{Any}
use metrify.Reset.Packages.{PkgOut}
use metrify.Reset.Program.{Tools, names_of, render_out, write_rendered, report, generate}

-- The files that a world has got since it began, the last one first: os.WriteFile without an error
-- adds one, and printing none.
pub record Keeps {W : Type 0} (tools : Tools W) (log : W → List (String × Bytes)) : Type 0 where
  pub writes :
      (p : String) (src : Bytes) (w w' : W)
      → tools.write_file p src w ≡ (none, w')
      → log w' ≡ (p, src) ∷ log w
  pub prints : (p : String) (n : ℕ) (w : W) → log (tools.printf p n w) ≡ log w

-- The file is in the log.
abbrev pub Wrote : {W : Type 0} → (W → List (String × Bytes)) → String → Bytes → W → Type 0
Wrote log p src w = Any (λ e. (e.0 ≡ p) × (e.1 ≡ src)) (log w)

-- The file that an entry asks for.
abbrev pub Renders : {W : Type 0} → Tools W → String → Bytes → PkgOut → Type 0
Renders tools p src po = (tools.out_path po.dir ≡ p) × (render_out tools po ≡ inr src)

module _ {W : Type 0} (tools : Tools W) (log : W → List (String × Bytes))
    (keeps : Keeps tools log) where
  log-report : (verbose : Bool) (po : PkgOut) (w : W) → log (report tools verbose po w) ≡ log w
  log-report true po w = keeps.prints (tools.out_path po.dir) (length (names_of tools po)) w
  log-report false po w = refl

  write_rendered-none :
      (dir : String) (r : Failure ⊎ Bytes) (w w' : W)
      → write_rendered tools dir r w ≡ (none, w')
      → (src : Bytes) × (r ≡ inr src) × (log w' ≡ (tools.out_path dir, src) ∷ log w)
  write_rendered-none dir (inl e) w w' h = absurd (cc (ap (λ r. r.0) h))
  write_rendered-none dir (inr src) w w' h = (src, refl, keeps.writes _ src w w' h)

  generate-next :
      (verbose : Bool) (po : PkgOut) (outs : List PkgOut) (w : W)
      → (write_rendered tools po.dir (render_out tools po) w).0 ≡ none
      → generate tools verbose (po ∷ outs) w
        ≡ generate tools verbose outs
            (report tools verbose po (write_rendered tools po.dir (render_out tools po) w).1)
  unfolding generate
  generate-next verbose po outs w written = rw (written, generate) refl

  generate-dies :
      (verbose : Bool) (po : PkgOut) (outs : List PkgOut) (w : W) (e : Failure)
      → (write_rendered tools po.dir (render_out tools po) w).0 ≡ some e
      → (generate tools verbose (po ∷ outs) w).0 ≡ some e
  unfolding generate
  generate-dies verbose po outs w e failed = rw (failed, generate) refl

  -- One file of a directory, and what the rest of the loop writes.
  Wrote-first :
      (verbose : Bool) (po : PkgOut) (w : W) (p : String) (src : Bytes)
      → (write_rendered tools po.dir (render_out tools po) w).0 ≡ none
      → Wrote log p src
          (report tools verbose po (write_rendered tools po.dir (render_out tools po) w).1)
        ↔ (Renders tools p src po ⊎ Wrote log p src w)
  Wrote-first verbose po w p src written =
      let first = write_rendered tools po.dir (render_out tools po) w in
      let (src', rendered, logged) =
        write_rendered-none po.dir (render_out tools po) w first.1
          (ap (λ e. (e, first.1)) written) in
      rw (log-report verbose po first.1, logged)
        (
          (λ i. elim i [ inl (at, same) ↦ inl (at, rendered ∙ ap inr same) | inr old ↦ inr old ]),
          λ i. elim i [ inl (at, r) ↦ inl (at, cc (rendered, r)) | inr old ↦ inr old ],
        )

  pub generate-log :
      (verbose : Bool) (outs : List PkgOut) (w w' : W) (p : String) (src : Bytes)
      → generate tools verbose outs w ≡ (none, w')
      → Wrote log p src w' ↔ (Wrote log p src w ⊎ Any (Renders tools p src) outs)
  unfolding generate
  generate-log verbose [] w w' p src h =
      rw (sym (ap (λ r. r.1) h)) ((λ i. inl i), λ i. elim i [ inl old ↦ old | inr n ↦ absurd n ])
  generate-log verbose (po ∷ outs) w w' p src h =
      let first = write_rendered tools po.dir (render_out tools po) w in
      elim (Option-cases first.0) [
        | inl written ↦
            let (there, back) =
              generate-log verbose outs (report tools verbose po first.1) w' p src
                (sym (generate-next verbose po outs w written) ∙ h) in
            let (before, after) = Wrote-first verbose po w p src written in
            (
              (λ i. elim (there i) [
                | inl early ↦ elim (before early) [ inl r ↦ inr (inl r) | inr old ↦ inl old ]
                | inr late ↦ inr (inr late)
              ]),
              λ i. back (elim i [
                | inl old ↦ inl (after (inr old))
                | inr found ↦ elim found [ inl r ↦ inl (after (inl r)) | inr late ↦ inr late ]
              ]),
            )
        | inr (e, failed) ↦ absurd (cc (generate-dies verbose po outs w e failed, ap (λ r. r.0) h))
      ]

  -- A run that ends well has rendered every entry.
  pub generate-rendered :
      (verbose : Bool) (outs : List PkgOut) (w w' : W)
      → generate tools verbose outs w ≡ (none, w')
      → All (λ po. (src : Bytes) × (render_out tools po ≡ inr src)) outs
  generate-rendered verbose [] w w' h = tt
  generate-rendered verbose (po ∷ outs) w w' h =
      let first = write_rendered tools po.dir (render_out tools po) w in
      elim (Option-cases first.0) [
        | inl written ↦
            let (src, rendered, _) =
              write_rendered-none po.dir (render_out tools po) w first.1
                (ap (λ e. (e, first.1)) written) in
            (
              (src, rendered),
              generate-rendered verbose outs (report tools verbose po first.1) w'
                  (sym (generate-next verbose po outs w written) ∙ h),
            )
        | inr (e, failed) ↦ absurd (cc (generate-dies verbose po outs w e failed, ap (λ r. r.0) h))
      ]
