-- ===== src/Model.antt =====
-- internal/model: the metric that agent and server exchange.
use metrify.Base.{ℕ, String, Option, none}

-- const Counter, Gauge
abbrev pub counter : String
counter = "counter"

abbrev pub gauge : String
gauge = "gauge"

-- Delta and Value are pointers, which tell a zero from a value that is not given.
-- `F` stands for float64; an int64 is its bit pattern.
pub record Metrics (F : Type 0) : Type 0 where
  pub id : String
  pub mtype : String
  pub delta : Option ℕ
  pub value : Option F
  pub hash : String

-- The zero value, which (*Metrics).Reset assigns.
abbrev pub zero_metric : {F : Type 0} → Metrics F
zero_metric = record { id = ""; mtype = ""; delta = none; value = none; hash = "" }
