-- ===== src/Router/Requests.antt =====
-- What holds of a server after any requests.
use metrify.Base.{
  String, Bytes, List, [], ◌∷◌, ◌++◌, map, inl, ◌≡◌, ◌≢◌, refl, ap, sym, ◌∙◌, Outcome, returned,
  panicked, All,
}
use mathlib.Core.List.{append-nil, append_assoc}
use metrify.External.{External}
use metrify.Http.{Request, new_conn}
use metrify.Serving.{Handler, LogLine, State}
use metrify.Router.{Chi, metric, serve_all}
use metrify.Storage.Kept.{Kept, Kept-refl, Kept-trans}
use metrify.Router.Serving.{MuxLaws, IsLogged, metric-keeps}

-- What a line of the log tells of its request.
abbrev pub line_key : LogLine → Bytes × String
line_key l = (l.uri, l.method)

abbrev pub request_key : Request → Bytes × String
request_key r = (r.uri, r.method)

abbrev pub with_answered : Outcome (Unit {0}) → Request → List Request → List Request
with_answered (returned u) r rs = r ∷ rs
with_answered panicked r rs = rs

module _ {F W : Type 0} (x : External F W) (chi : Chi) (handler : Handler) where
  abbrev fresh_conn : State F W → State F W
  fresh_conn s = record s { conn = new_conn }

  -- The requests at which no handler panics.
  abbrev pub answered : List Request → State F W → List Request
  answered [] s = []
  answered (r ∷ rs) s =
      let (o, t) = metric x chi handler [] r (fresh_conn s) in with_answered o r (answered rs t)

  abbrev pub Log : List Request → List LogLine → List LogLine → Type 0
  Log rs before after =
      (ls : List LogLine) × (after ≡ before ++ ls) × (map line_key ls ≡ map request_key rs)

  Log-cons :
      (r : Request) (rs : List Request) (before middle after : List LogLine)
      (o : Outcome (Unit {0}))
      → IsLogged x chi handler r before o middle
      → Log rs middle after
      → Log (with_answered o r rs) before after
  Log-cons r rs before middle after panicked same (ls, e, rest) =
      (ls, e ∙ ap (λ (p : List LogLine). p ++ ls) same, rest)
  Log-cons r rs before middle after (returned u) (l, more, uri, method) (ls, e, rest) = (
    l ∷ ls,
    e ∙ ap (λ (p : List LogLine). p ++ ls) more ∙ append_assoc before (l ∷ []) ls,
    rw (uri, method, rest) refl,
  )

  -- After any requests, of whatever kind and whatever other code answers: the storage keeps its
  -- maps if it had both, so that no update panics on them, and its database, file and number of
  -- retries; the log has grown by one line for each request at which no handler panicked, with
  -- its URI and method, in the order of the requests. If no request's method is POST, the storage
  -- is as it was.
  pub serve_all-keeps :
      (rs : List Request) (s : State F W)
      → MuxLaws chi
      → Kept s.machine.ms (serve_all x chi handler rs s).machine.ms
        × Log (answered rs s) s.lines (serve_all x chi handler rs s).lines
        × (All (λ r. r.method ≢ "POST") rs
            → (serve_all x chi handler rs s).machine.ms ≡ s.machine.ms)
  unfolding serve_all
  serve_all-keeps [] s laws = (Kept-refl _, ([], sym (append-nil s.lines), refl), λ all. refl)
  serve_all-keeps (r ∷ rs) s laws =
      let (o, t) = metric x chi handler [] r (fresh_conn s) in
      let (kept, line, same) = metric-keeps x chi handler [] r (fresh_conn s) laws in
      let (kept', log, same') = serve_all-keeps rs t laws in
      (
        Kept-trans _ _ _ kept kept',
        Log-cons r (answered rs t) s.lines t.lines _ o line log,
        λ all. same' all.1 ∙ same (inl all.0),
      )
