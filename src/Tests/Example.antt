-- ===== src/Tests/Example.antt =====
-- External calls that stand for the real ones in the tests: a float64 is a natural number with
-- its decimal form, the world is the files by their paths, and codecs are simple injective
-- encodings.
use metrify.Base.{
  ℕ, ◌+◌, String, Bytes, ◌&&◌, Option, none, some, List, [], ◌∷◌, ◌++◌, ◌⊎◌, inl, inr, ◌≡◌, refl,
  codes, ◌==◌, eq_iff, if◌then◌else◌, arith, ap, sym, ◌∙◌,
}
use metrify.Base.GoMap.{GoMap, nil, made, lookup, insert, lookup-insert}
use metrify.Int64.{format_int, parse_uint}
use metrify.Failure.{Failure, message}
use metrify.Model.{Metrics, gauge, counter, zero_metric}
use metrify.External.{Dto, Formats, Json, Database, System, AuditClient, Codecs, External}
use metrify.External.Laws.{JsonLaws, FileLaws}

abbrev pub Files : Type 0
Files = List (String × Bytes)

abbrev formats : Formats ℕ
formats = record {
  zero_float = 0;
  format_float = format_int;
  parse_float = parse_uint;
  quote = codes;
  error_text = λ e. codes "error";
}

-- The JSON of a storage with one gauge and one counter, both named "a".
abbrev marshal_entries : List (String × ℕ) → List (String × ℕ) → Failure ⊎ Bytes
marshal_entries ((k, g) ∷ []) ((j, c) ∷ []) =
    if k == "a" && j == "a" then inr (g ∷ c ∷ []) else inl (message (codes "unsupported"))
marshal_entries _ _ = inl (message (codes "unsupported"))

abbrev marshal_maps : GoMap ℕ → GoMap ℕ → Failure ⊎ Bytes
marshal_maps (made g) (made c) = marshal_entries g c
marshal_maps _ _ = inl (message (codes "unsupported"))

-- Any other text is read as one with no counters.
abbrev unmarshal_maps : Bytes → Dto ℕ × Option Failure
unmarshal_maps (g ∷ c ∷ []) =
    (record { gauges = made (("a", g) ∷ []); counters = made (("a", c) ∷ []) }, none)
unmarshal_maps _ = (record { gauges = made []; counters = nil }, none)

-- A body of one byte is a counter "c", of two bytes a gauge "g", of any other length no metric.
abbrev decode_one : Bytes → Metrics ℕ × Option Failure
decode_one (d ∷ []) =
    (record { id = "c"; mtype = counter; delta = some d; value = none; hash = "" }, none)
decode_one (v ∷ w ∷ []) =
    (record { id = "g"; mtype = gauge; delta = none; value = some (v + w); hash = "" }, none)
decode_one _ = (zero_metric, some (message (codes "unexpected end of JSON input")))

abbrev decode_many : Bytes → List (Metrics ℕ)
decode_many [] = []
decode_many (d ∷ ds) =
    record { id = "c"; mtype = counter; delta = some d; value = none; hash = "" } ∷ decode_many ds

abbrev json : Json ℕ
json = record {
  marshal_dto = λ d. marshal_maps d.gauges d.counters;
  unmarshal_dto = unmarshal_maps;
  check_valid = λ text. none;
  indent = λ text. text;
  decode_metric = λ b. decode_one b.content;
  decode_metrics = λ b. (decode_many b.content, b.failure);
  encode_metric = λ m. inr (codes m.id);
  encode_failures = λ es. codes "errors";
  marshal_metric = λ m. inr (codes m.id);
  marshal_metrics = λ ms. inr (codes "metrics");
  marshal_event = λ ts names ip. inr (ts ∷ ip);
}

abbrev or_missing : Option Bytes → Failure ⊎ Bytes
or_missing none = inl (message (codes "no such file"))
or_missing (some text) = inr text

abbrev or_new : Option Bytes → Bytes
or_new none = []
or_new (some text) = text

abbrev database : Database Files
database = record { exec = λ name v w. (none, w); ping = λ w. (none, w) }

abbrev system : System Files
system = record {
  read_file = λ path w. or_missing (lookup path w);
  write_file = λ path text w. (none, insert path text w);
  open_append = λ path w. (none, w);
  write_append = λ path line w. (none, insert path (or_new (lookup path w) ++ line) w);
  now = λ w. 7;
  sleep = λ d w. w;
  ctx_err = λ w. (none, w);
}

abbrev client : AuditClient Files
client = record {
  new_request = λ url. none;
  post_event = λ url b w. (inr (200, codes "200 OK"), w);
}

-- A cipher is the text after a key of one byte.
abbrev without_first : Bytes → Failure ⊎ Bytes
without_first [] = inl (message (codes "decryption error"))
without_first (k ∷ text) = inr text

abbrev pub codecs : Codecs
codecs = record {
  gzip_head = 31 ∷ 139 ∷ [];
  gzip_rest = λ text. text ++ 0 ∷ [];
  open_gzip = λ b. inr b;
  hmac_sha256 = λ key value. key ++ value;
  encode_hex = λ b. b;
  encode_base64 = λ b. b;
  decode_base64 = λ b. inr b;
  decrypt = λ key b. without_first b;
}

abbrev pub example : External ℕ Files
example = record {
  formats = formats;
  json = json;
  database = database;
  system = system;
  audit_client = client;
  codecs = codecs;
}

-- Only the maps above have a text, and it is read back as those maps.
marshalled_entries :
    (g c : List (String × ℕ)) (b : Bytes)
    → marshal_entries g c ≡ inr b
    → unmarshal_maps b ≡ (record { gauges = made g; counters = made c }, none)
marshalled_entries [] c b h = cc
marshalled_entries (p ∷ q ∷ g) c b h = cc
marshalled_entries ((k, n) ∷ []) [] b h = cc
marshalled_entries ((k, n) ∷ []) (p ∷ q ∷ c) b h = cc
marshalled_entries ((k, n) ∷ []) ((j, m) ∷ []) b h = ground (arith, eq_iff k "a", eq_iff j "a")

marshalled :
    (g c : GoMap ℕ) (b : Bytes)
    → marshal_maps g c ≡ inr b
    → unmarshal_maps b ≡ (record { gauges = g; counters = c }, none)
marshalled nil c b h = cc
marshalled (made g) nil b h = cc
marshalled (made g) (made c) b h = marshalled_entries g c b h

pub json_laws : JsonLaws example.json
json_laws = record {
  valid_text = λ d b h. refl;
  no_error = λ d b h. ap (λ (r : Dto ℕ × Option Failure). r.1) (marshalled d.gauges d.counters b h);
  same_gauges = λ d b h.
      rw (marshalled d.gauges d.counters b h) (record { entries = λ k. refl; made_if = λ e. e });
  same_counters = λ d b h.
      rw (marshalled d.gauges d.counters b h) (record { entries = λ k. refl; made_if = λ e. e });
}

pub file_laws : FileLaws example.system
file_laws = record {
  read_back = λ path text w w' h.
      let at_path : lookup path (insert path text w) ≡ some text =
        lookup-insert w path path text ∙ rw (eq_iff path path).1 refl in
      ap (λ (r : Option Failure × Files). or_missing (lookup path r.1)) (sym h) ∙ rw at_path;
}
