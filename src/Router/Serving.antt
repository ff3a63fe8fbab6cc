-- ===== src/Router/Serving.antt =====
-- What a request does that goes through the whole chain of middleware to its route.
use metrify.Base.{
  ℕ, String, Bytes, Option, none, some, List, [], ◌∷◌, ◌++◌, map, inl, inr, ◌⊎◌, ◌≡◌, ◌≢◌, refl, ap,
  sym, ◌∙◌, Outcome, returned, panicked, continue, Bool-cases, Option-cases,
}
use metrify.External.{External}
use metrify.Storage.{MemStorage}
use metrify.Http.{Request, Layer, logging}
use metrify.Serving.{Handler, LogLine, State, Serve}
use metrify.Middleware.{with_logging, log_request, metric_chain}
use metrify.Router.{
  Chi, Choice, matched, unmatched, Route, nth, routes, key_of, allow, serve_choice, dispatch,
  metric,
}
use metrify.Router.Keeping.{Keeps, IsQuiet, inner_chain, inner_chain-Guards}
use metrify.Storage.Kept.{Kept, Kept-refl}
use metrify.Router.Reading.{nth-All, nth-map, Keeping, Quiet, routes-Keeping, routes-Quiet}

-- chi: what the mux chooses was registered for the method of the request.
pub record MuxLaws (chi : Chi) : Type 0 where
  pub same_method :
      (keys : List (String × String)) (method : String) (uri : Bytes) (i : ℕ)
      (params : List (String × String)) (key : String × String)
      → chi.choose keys method uri ≡ matched i params
      → nth i keys ≡ some key
      → key.0 ≡ method

module _ {F W : Type 0} (x : External F W) (chi : Chi) (handler : Handler) where
  -- What the mux chooses for a method and a URI.
  abbrev pub chosen : String → Bytes → Choice
  chosen method uri = chi.choose (map key_of (routes x chi handler)) method uri

  allow-Keeps :
      (R : MemStorage F → MemStorage F → Type 0) (t : Option Bytes) (h : Serve F W)
      (ws : List Layer) (r : Request)
      → ((m : MemStorage F) → R m m)
      → Keeps R (h ws r)
      → Keeps R (allow x chi t h ws r)
  allow-Keeps R none h ws r keeps k s = k s
  allow-Keeps R (some t) h ws r keeps k s = elim (Bool-cases (chi.accepts t r)) [
    | inl good ↦ rw good (k s)
    | inr bad ↦ rw bad (keeps _, refl)
  ]

  serve_choice-Keeps :
      (R : MemStorage F → MemStorage F → Type 0) (choice : Choice) (ws : List Layer) (r : Request)
      → ((m : MemStorage F) → R m m)
      → ((i : ℕ) (params : List (String × String)) (route : Route F W)
          → choice ≡ matched i params
          → nth i (routes x chi handler) ≡ some route
          → (ws : List Layer) (r : Request) → Keeps R (route.serve ws r))
      → Keeps R (serve_choice x chi (routes x chi handler) choice ws r)
  serve_choice-Keeps R unmatched ws r keeps k s = (keeps _, refl)
  serve_choice-Keeps R (matched i params) ws r keeps k s =
      elim (Option-cases (nth i (routes x chi handler))) [
        | inl missing ↦ rw missing (keeps _, refl)
        | inr (route, found) ↦ rw found (
            allow-Keeps R route.allowed route.serve ws (record r { params = params }) keeps
              (k i params route refl found ws (record r { params = params })) s)
      ]

  -- What the middleware below the logging, with the routes behind it, does to the storage.
  abbrev inner : Serve F W
  inner = inner_chain x handler (dispatch x chi handler)

  inner-Keeps :
      (R : MemStorage F → MemStorage F → Type 0) (ws : List Layer) (r : Request)
      → ((m : MemStorage F) → R m m)
      → ((i : ℕ) (params : List (String × String)) (route : Route F W)
          → chosen r.method r.uri ≡ matched i params
          → nth i (routes x chi handler) ≡ some route
          → (ws : List Layer) (r : Request) → Keeps R (route.serve ws r))
      → Keeps R (inner ws r)
  inner-Keeps R ws r keeps k =
      inner_chain-Guards x handler R keeps r.method r.uri (dispatch x chi handler)
        (λ ws' r' m u.
          unfold dispatch in
          serve_choice-Keeps R (chosen r'.method r'.uri) ws' r' keeps
            (λ i params route e. k i params route (rw⁻¹ (m, u) e)))
        ws r refl refl

  -- The log lines of one request.
  abbrev pub IsLogged : Request → List LogLine → Outcome (Unit {0}) → List LogLine → Type 0
  IsLogged r before panicked after = after ≡ before
  IsLogged r before (returned u) after =
      (line : LogLine) × (after ≡ before ++ line ∷ [])
      × (line.uri ≡ r.uri)
      × (line.method ≡ r.method)

  with_logging_lem :
      (h : Serve F W) (R : MemStorage F → MemStorage F → Type 0) (ws : List Layer) (r : Request)
      (s : State F W)
      → Keeps R (h (logging ∷ ws) r)
      → R s.machine.ms (with_logging x h ws r s).1.machine.ms
        × IsLogged r s.lines (with_logging x h ws r s).0 (with_logging x h ws r s).1.lines
  unfolding with_logging
  with_logging_lem h R ws r s k = go (h (logging ∷ ws) r s).0 (h (logging ∷ ws) r s).1 (k s)
    where
      go :
          (o : Outcome (Unit {0})) (t : State F W)
          → R s.machine.ms t.machine.ms × (t.lines ≡ s.lines)
          → R s.machine.ms (continue o (λ _. log_request x r) t).1.machine.ms
            × IsLogged r s.lines
                (continue o (λ _. log_request x r) t).0
                (continue o (λ _. log_request x r) t).1.lines
      go panicked t h = h
      go (returned u) t (kept, same) =
          let line : LogLine = record {
            uri = r.uri;
            method = r.method;
            size = t.conn.log_size;
            status = t.conn.log_status;
          } in
          (kept, (line, ap (λ (ls : List LogLine). ls ++ line ∷ []) same, refl, refl))

  metric_lem :
      (R : MemStorage F → MemStorage F → Type 0) (ws : List Layer) (r : Request) (s : State F W)
      → ((m : MemStorage F) → R m m)
      → ((i : ℕ) (params : List (String × String)) (route : Route F W)
          → chosen r.method r.uri ≡ matched i params
          → nth i (routes x chi handler) ≡ some route
          → (ws : List Layer) (r : Request) → Keeps R (route.serve ws r))
      → R s.machine.ms (metric x chi handler ws r s).1.machine.ms
        × IsLogged r s.lines (metric x chi handler ws r s).0 (metric x chi handler ws r s).1.lines
  unfolding metric metric_chain
  metric_lem R ws r s keeps k =
      with_logging_lem inner R ws r s (inner-Keeps R (logging ∷ ws) r keeps k)

  -- A request that comes in through all the middleware, whatever it is and whatever the calls of
  -- other code answer: the storage keeps its maps if it had both, and its database, file and
  -- number of retries; a request that is answered is logged by one line, with its URI and method,
  -- and one at which the handler panics by none. If the request's method is not POST, or its
  -- route is /value/, then the storage is as it was.
  pub metric-keeps :
      (ws : List Layer) (r : Request) (s : State F W)
      → MuxLaws chi
      → Kept s.machine.ms (metric x chi handler ws r s).1.machine.ms
        × IsLogged r s.lines (metric x chi handler ws r s).0 (metric x chi handler ws r s).1.lines
        × ((r.method ≢ "POST")
              ⊎ ((i : ℕ) (params : List (String × String)) (route : Route F W)
                  → chosen r.method r.uri ≡ matched i params
                  → nth i (routes x chi handler) ≡ some route
                  → route.pattern ≡ "/value/")
            → (metric x chi handler ws r s).1.machine.ms ≡ s.machine.ms)
  metric-keeps ws r s laws =
      let (kept, logged) = metric_lem Kept ws r s Kept-refl (λ i params route e found.
        nth-All Keeping i _ route (routes-Keeping x chi handler) found) in
      (kept, logged, λ reading. (metric_lem (λ m m'. m' ≡ m) ws r s (λ m. refl) (go reading)).0)
    where
      go :
          (r.method ≢ "POST")
            ⊎ ((i : ℕ) (params : List (String × String)) (route : Route F W)
                → chosen r.method r.uri ≡ matched i params
                → nth i (routes x chi handler) ≡ some route
                → route.pattern ≡ "/value/")
          → (i : ℕ) (params : List (String × String)) (route : Route F W)
          → chosen r.method r.uri ≡ matched i params
          → nth i (routes x chi handler) ≡ some route
          → (ws : List Layer) (r : Request) → IsQuiet (route.serve ws r)
      go (inl h) i params route e found =
          let same =
            laws.same_method _ _ _ i params (key_of route) e (nth-map key_of i _ route found) in
          nth-All Quiet i _ route (routes-Quiet x chi handler) found (inl (λ p. h (sym same ∙ p)))
      go (inr h) i params route e found =
          nth-All Quiet i _ route (routes-Quiet x chi handler) found
            (inr (h i params route e found))
