-- ===== src/Tests/Metering.antt =====
-- A database that is always busy, in a world that counts statements and nanoseconds.
use metrify.Base.{
  ℕ, suc, ◌+◌, ◌*◌, true, false, none, some, List, [], ◌∷◌, inr, ◌≡◌, refl, codes, length,
}
use metrify.Failure.{pg_error}
use metrify.External.{External, Database, System, AuditClient}
use metrify.Storage.History.{Update, set_gauge, add_counter, run, fresh}
use metrify.Storage.Bounds.{Meter, Within, run-bounded}
use metrify.Tests.Example.{example}

abbrev Counts : Type 0
Counts = ℕ × ℕ

abbrev busy : Database Counts
busy = record {
  exec = λ name v (n, t). (some (pg_error "53300"), (suc n, t));
  ping = λ w. (none, w);
}

abbrev system : System Counts
system = record {
  read_file = λ path w. inr [];
  write_file = λ path text w. (none, w);
  open_append = λ path w. (none, w);
  write_append = λ path line w. (none, w);
  now = λ w. 7;
  sleep = λ d (n, t). (n, t + d);
  ctx_err = λ w. (none, w);
}

abbrev client : AuditClient Counts
client = record {
  new_request = λ url. none;
  post_event = λ url b w. (inr (200, codes "200 OK"), w);
}

abbrev metered : External ℕ Counts
metered = record {
  formats = example.formats;
  json = example.json;
  database = busy;
  system = system;
  audit_client = client;
  codecs = example.codecs;
}

meter : Meter metered
meter = record {
  calls = λ (n, t). n;
  slept = λ (n, t). t;
  calls_exec = λ name v w. refl;
  slept_exec = λ name v w. refl;
  calls_sleep = λ d w. refl;
  slept_sleep = λ d w. refl;
}

abbrev updates : List (Update ℕ)
updates = set_gauge "load" 3 ∷ add_counter "hits" 1 ∷ []

run-bounded_example :
    Within metered meter
      (2 * length updates)
      (4000000000 * length updates)
      (0, 0)
      (run metered updates (fresh metered "dump" true (0, 0))).1.world
    × (true ≡ false → (run metered updates (fresh metered "dump" true (0, 0))).1.world ≡ (0, 0))
run-bounded_example = run-bounded metered meter "dump" true (0, 0) updates
