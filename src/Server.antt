-- ===== src/Server.antt =====
-- Parts of cmd/server/main.go: which connection texts give a database, and the loop that dumps
-- the storage.
pub mod Dumper
pub mod Start
pub mod Running
pub mod Shutdown
use metrify.Base.{
  ℕ, String, Bytes, Bool, true, false, ◌&&◌, ◌||◌, not, Option, none, some, List, [], ◌∷◌, codes,
  is_empty, bytes_eq, leb, if◌then◌else◌, Prog, Outcome, returned, pure, ◌>>=◌, ◌>>◌,
}
use metrify.Failure.{Failure}
use metrify.External.{External}
use metrify.Storage.{Machine, flush_to_file}
use metrify.Address.{trim_space}

-- The fields that are read of a *url.URL.
pub record Url : Type 0 where
  pub scheme : Bytes
  pub host : Bytes
  pub path : Bytes

abbrev is_postgres : Option Url → Bool
is_postgres none = false
is_postgres (some u) =
    (bytes_eq u.scheme (codes "postgres") || bytes_eq u.scheme (codes "postgresql"))
    && not (is_empty u.host)
    && not (is_empty u.path || bytes_eq u.path (codes "/"))

-- `parse` is url.Parse.
unfoldable pub is_valid_postgres_dsn : (Bytes → Option Url) → Bytes → Bool
unfolding trim_space
is_valid_postgres_dsn parse dsn =
    if is_empty (trim_space dsn) then false else is_postgres (parse (trim_space dsn))

-- What the select of runMetricDumper meets.
pub data DumpEvent : Type 0 where
  ticked done : DumpEvent

module _ {F W : Type 0} (x : External F W) where
  -- A dump whose error is only logged, or dropped.
  abbrev pub try_flush : Prog (Machine F W) (Unit {0})
  try_flush = do _ ← flush_to_file x; pure tt

  -- The loop over the events, in the order that select takes them: whether it has ended.
  unfoldable pub dump_loop : List DumpEvent → Prog (Machine F W) Bool
  unfolding flush_to_file
  dump_loop [] = pure false
  dump_loop (ticked ∷ es) = do try_flush; dump_loop es
  dump_loop (done ∷ es) = do try_flush; pure true

  -- The interval is an int, negative ones included: `positive` is whether it is above 0.
  unfoldable pub run_metric_dumper : Bool → List DumpEvent → Prog (Machine F W) Bool
  unfolding dump_loop
  run_metric_dumper positive es = if positive then dump_loop es else pure true
