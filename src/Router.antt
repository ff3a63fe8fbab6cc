-- ===== src/Router.antt =====
-- internal/router/metric.go: the routes of the service, and a request that is served by them. The
-- mux of chi with its AllowContentType, and the Swagger handler, are parameters.
pub mod Keeping
pub mod Requests
pub mod Encrypted
pub mod Reading
pub mod Serving
pub mod Routes
use metrify.Base.{
  ℕ, zero, suc, String, Bytes, Bool, true, false, Option, none, some, List, [], ◌∷◌, ◌++◌, map, ◌≡◌,
  ◌≢◌, codes, Prog, All, ◌<◌, ◌≤◌, ◌⊎◌, if◌then◌else◌,
}
use metrify.External.{External}
use metrify.Http.{Request, Layer, Conn, new_conn}
use metrify.Serving.{Handler, State, Serve, on_conn}
use metrify.Handler.{
  get_gauge, get_counter, get_metrics, update_metrics, update_metrics_batch, update_gauge,
  update_counter, invalid_metric_handler, get_info, ping,
}
use metrify.Middleware.{metric_chain}

-- What the mux finds for a method and a path among the methods and patterns that were registered:
-- the place of one of these, with the values of the path's parameters.
pub data Choice : Type 0 where
  matched : ℕ → List (String × String) → Choice
  unmatched : Choice

-- `accepts` is whether AllowContentType lets a request through, `refuse` what it replies
-- otherwise; `not_found` is the reply to what has no route, and `swagger` the handler of
-- http-swagger. None of them gets hold of the storage.
pub record Chi : Type 0 where
  pub choose : List (String × String) → String → Bytes → Choice
  pub accepts : Bytes → Request → Bool
  pub refuse : List Layer → Request → Conn → Conn
  pub not_found : List Layer → Request → Conn → Conn
  pub swagger : List Layer → Request → Conn → Conn

-- A registered endpoint, with the content type that AllowContentType was given for it.
pub record Route (F W : Type 0) : Type 0 where
  pub method : String
  pub pattern : String
  pub allowed : Option Bytes
  pub serve : Serve F W

abbrev pub nth {ℓ} : {A : Type ℓ} → ℕ → List A → Option A
nth n [] = none
nth zero (a ∷ rest) = some a
nth (suc n) (a ∷ rest) = nth n rest

abbrev pub key_of : {F W : Type 0} → Route F W → String × String
key_of route = (route.method, route.pattern)

module _ {F W : Type 0} (x : External F W) (chi : Chi) where
  -- r.With(middleware.AllowContentType(t)).Post(pattern, serve)
  unfoldable pub post_of : Bytes → String → Serve F W → Route F W
  post_of t pattern serve = record {
    method = "POST";
    pattern = pattern;
    allowed = some t;
    serve = serve;
  }

  unfoldable pub get_of : Option Bytes → String → Serve F W → Route F W
  get_of t pattern serve = record { method = "GET"; pattern = pattern; allowed = t; serve = serve }

  abbrev application_json : Bytes
  application_json = codes "application/json"

  unfoldable pub update : Handler → List (Route F W)
  unfolding post_of
  update handler =
      post_of application_json "/updates/" (update_metrics_batch x handler)
      ∷ post_of application_json "/update/" (update_metrics x handler)
      ∷ post_of handler.allowed_content_type "/update/counter/{name}/{value}" (update_counter x)
      ∷ post_of handler.allowed_content_type "/update/gauge/{name}/{value}" (update_gauge x)
      ∷ post_of handler.allowed_content_type "/update/{type}/{name}/{value}"
          (invalid_metric_handler x)
      ∷ []

  unfoldable pub get : Handler → List (Route F W)
  unfolding get_of post_of
  get handler =
      get_of none "/" (get_info x)
      ∷ get_of none "/ping" (ping x handler)
      ∷ post_of application_json "/value/" (get_metrics x)
      ∷ get_of (some handler.allowed_content_type) "/value/counter/{name}" (get_counter x)
      ∷ get_of (some handler.allowed_content_type) "/value/gauge/{name}" (get_gauge x)
      ∷ get_of (some handler.allowed_content_type) "/value/{type}/{name}" (invalid_metric_handler x)
      ∷ []

  unfoldable pub routes : Handler → List (Route F W)
  unfolding get_of update get
  routes handler =
      get_of none "/swagger/*" (λ ws r. on_conn (chi.swagger ws r)) ∷ update handler ++ get handler

  -- middleware.AllowContentType around a handler
  abbrev pub allow : Option Bytes → Serve F W → Serve F W
  allow none h ws r = h ws r
  allow (some t) h ws r = if chi.accepts t r then h ws r else on_conn (chi.refuse ws r)

  abbrev pub serve_route : Option (Route F W) → List (String × String) → Serve F W
  serve_route none params ws r = on_conn (chi.not_found ws r)
  serve_route (some route) params ws r =
      allow route.allowed route.serve ws (record r { params = params })

  abbrev pub serve_choice : List (Route F W) → Choice → Serve F W
  serve_choice rs unmatched ws r = on_conn (chi.not_found ws r)
  serve_choice rs (matched i params) ws r = serve_route (nth i rs) params ws r

  -- What the mux does behind the middleware.
  unfoldable pub dispatch : Handler → Serve F W
  unfolding routes
  dispatch handler ws r =
      serve_choice (routes handler) (chi.choose (map key_of (routes handler)) r.method r.uri) ws r

  unfoldable pub metric : Handler → Serve F W
  unfolding metric_chain dispatch
  metric handler = metric_chain x handler (dispatch handler)

  -- The http.Server of the router: each request has a connection of its own, and a panic of its
  -- handler ends that request only. Here requests follow one another.
  unfoldable pub serve_all : Handler → List Request → State F W → State F W
  unfolding metric
  serve_all handler [] s = s
  serve_all handler (r ∷ rs) s =
      serve_all handler rs (metric handler [] r (record s { conn = new_conn })).1
