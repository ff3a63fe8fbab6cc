-- ===== src/Tests/Routing.antt =====
-- The router at concrete requests.
use metrify.Base.{
  ℕ, String, Bytes, Bool, ◌&&◌, ◌||◌, Bool-cases, Option, some, List, [], ◌∷◌, All, inl, inr, ◌≡◌,
  ◌≢◌, arith, codes, bytes_eq, is_empty, ◌==◌, eq_iff, suc, if◌then◌else◌,
}
use metrify.Http.{Request, header_get, write_header}
use metrify.Router.{Chi, Choice, matched, unmatched, Route, nth, routes, serve_all}
use metrify.Storage.Kept.{Kept}
use metrify.Router.Serving.{MuxLaws}
use metrify.Router.Requests.{answered, Log, serve_all-keeps}
use metrify.Tests.Example.{Files, example}
use metrify.Tests.Serving.{state, body, server}
use metrify.Tests.Sending.{decrypting}

-- A mux that knows the paths without parameters.
abbrev shift : Choice → Choice
shift unmatched = unmatched
shift (matched i params) = matched (suc i) params

abbrev choose_in : List (String × String) → String → Bytes → Choice
choose_in [] method uri = unmatched
choose_in ((m, p) ∷ keys) method uri =
    let later = choose_in keys method uri in
    if m == method && bytes_eq (codes p) uri then matched 0 [] else shift later

abbrev accepts_type : Bytes → Request → Bool
accepts_type t r = is_empty r.body.content || bytes_eq (header_get r.header "Content-Type") t

abbrev pub mux : Chi
mux = record {
  choose = choose_in;
  accepts = accepts_type;
  refuse = λ ws r c. write_header ws 415 c;
  not_found = λ ws r c. write_header ws 404 c;
  swagger = λ ws r c. write_header ws 200 c;
}

shift-matched :
    (c : Choice) (i : ℕ) (params : List (String × String))
    → shift c ≡ matched i params
    → (j : ℕ) × (c ≡ matched j params) × (i ≡ suc j)
shift-matched unmatched i params h = cc
shift-matched (matched j params') i params h = (j, ground arith, ground arith)

choose_in_lem :
    (keys : List (String × String)) (method : String) (uri : Bytes) (i : ℕ)
    (params : List (String × String)) (key : String × String)
    → choose_in keys method uri ≡ matched i params
    → nth i keys ≡ some key
    → key.0 ≡ method
choose_in_lem [] method uri i params key chose found = cc
choose_in_lem ((m, p) ∷ keys) method uri i params key chose found =
    elim (Bool-cases (m == method && bytes_eq (codes p) uri)) [
      | inl hit ↦
          let first : i ≡ 0 = ground arith in
          let here : key ≡ (m, p) = ground arith in
          let right : m ≡ method = ground (arith, eq_iff m method) in ground arith
      | inr miss ↦
          let (j, later, next) =
            shift-matched (choose_in keys method uri) i params (ground arith) in
          choose_in_lem keys method uri j params key later (ground arith)
    ]

pub mux_laws : MuxLaws mux
mux_laws = record { same_method = choose_in_lem }

abbrev asking : Request
asking = record (body []) { method = "GET"; uri = codes "/ping" }

abbrev pub requests : List Request
requests = body (3 ∷ 4 ∷ []) ∷ asking ∷ []

serve_all-keeps_example :
    Kept state.machine.ms (serve_all example mux server requests state).machine.ms
    × Log example mux server
        (answered example mux server requests state)
        state.lines
        (serve_all example mux server requests state).lines
    × (All (λ (r : Request). r.method ≢ "POST") requests
        → (serve_all example mux server requests state).machine.ms ≡ state.machine.ms)
serve_all-keeps_example = serve_all-keeps example mux server requests state mux_laws

-- The encrypted request, at /updates/.
abbrev at_updates : Option (Route ℕ Files)
at_updates = nth 1 (routes example mux decrypting)
