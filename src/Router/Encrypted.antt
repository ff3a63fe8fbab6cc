-- ===== src/Router/Encrypted.antt =====
-- An encrypted request of the agent's HTTP client at the routes of JSON.
use metrify.Base.{Bytes, Bool, true, false, List, [], ◌∷◌, ◌≡◌, ◌≢◌, ◌&&◌, ◌||◌, nat_eq, leb}
use metrify.External.{External}
use metrify.Http.{Request, Layer, Conn, header_get, write_header}
use metrify.Agent.HttpClient.{HttpClient}
use metrify.Router.{Chi}

-- A media type as it is registered: in small letters, with no space and no parameter.
abbrev pub is_plain : Bytes → Bool
is_plain [] = true
is_plain (c ∷ t) = (leb 97 c && leb c 122 || nat_eq c b'/' || nat_eq c b'-') && is_plain t

-- AllowContentType: a request with a body and another Content-Type is answered by status 415.
pub record ContentTypeLaws (chi : Chi) : Type 0 where
  pub rejects :
      (allowed given : Bytes) (r : Request)
      → header_get r.header "Content-Type" ≡ given
      → is_plain given ≡ true
      → given ≢ allowed
      → r.body.content ≢ []
      → chi.accepts allowed r ≡ false
  pub refuses :
      (ws : List Layer) (r : Request) (c : Conn) → chi.refuse ws r c ≡ write_header ws 415 c
