-- ===== src/External/Laws.antt =====
-- Documented behaviour of the external calls that some theorems rest on, as named hypotheses.
use metrify.Base.{String, Bytes, none, ◌≡◌, inr}
use metrify.Base.GoMap.{GoMap, nil, get}
use metrify.External.{Dto, Json, System}

-- Two maps with the same entries, in whatever order they are kept.
pub record SameMap {ℓ} {V : Type ℓ} (a b : GoMap V) : Type ℓ where
  pub entries : (k : String) → get a k ≡ get b k
  pub made_if : b ≡ nil → a ≡ nil

-- encoding/json: the text of a value decodes, indented too, to an equal value.
pub record JsonLaws {F : Type 0} (j : Json F) : Type 0 where
  pub valid_text :
      (d : Dto F) (b : Bytes) → j.marshal_dto d ≡ inr b → j.check_valid (j.indent b) ≡ none
  pub no_error :
      (d : Dto F) (b : Bytes) → j.marshal_dto d ≡ inr b → (j.unmarshal_dto (j.indent b)).1 ≡ none
  pub same_gauges :
      (d : Dto F) (b : Bytes)
      → j.marshal_dto d ≡ inr b
      → SameMap d.gauges (j.unmarshal_dto (j.indent b)).0.gauges
  pub same_counters :
      (d : Dto F) (b : Bytes)
      → j.marshal_dto d ≡ inr b
      → SameMap d.counters (j.unmarshal_dto (j.indent b)).0.counters

-- os: a file that was written without an error is read back.
pub record FileLaws {W : Type 0} (s : System W) : Type 0 where
  pub read_back :
      (path : String) (text : Bytes) (w w' : W)
      → s.write_file path text w ≡ (none, w')
      → s.read_file path w' ≡ inr text
