-- ===== src/Handler/Values.antt =====
-- The handlers of counters in the path of a request: an update, and a read after it.
use metrify.Base.{
  ℕ, ◌<◌, Option, List, ◌≡◌, ◌≢◌, refl, codes, Outcome, returned, panicked, continue, eq_iff,
}
use metrify.Failure.{Failure}
use metrify.Int64.{add64, format_int, modulus}
use metrify.Int64.Decimal.{parse_int-format_int}
use metrify.External.{External}
use metrify.Storage
use metrify.Storage.{or_zero}
use metrify.Storage.Updates.{IsLive, get_counter-update_counter}
use metrify.Storage.History.{add_counter, perform-ne-panicked}
use metrify.Http.{Request, Layer, Conn, url_param, write_header, write}
use metrify.Handler.{get_counter, update_counter}
use metrify.Serving.{State}

module _ {F W : Type 0} (x : External F W) where
  update_counter-parsed :
      (d : ℕ) (ws : List Layer) (r : Request) (s : State F W)
      → d < modulus
      → codes (url_param r "value") ≡ format_int d
      → IsLive s.machine.ms
      → update_counter x ws r s ≡ (
        returned tt,
        record s {
          machine = (Storage.update_counter x (url_param r "name") d s.machine).1;
          conn = write_header ws 200 s.conn;
        },
      )
  unfolding update_counter
  update_counter-parsed d ws r s h given l =
      rw (given, parse_int-format_int d h, update_counter)
        (continue_on (Storage.update_counter x (url_param r "name") d s.machine).0
          (perform-ne-panicked x (add_counter (url_param r "name") d) s.machine l))
    where
      continue_on :
          (o : Outcome (Option Failure))
          → o ≢ panicked
          → continue o
              (λ _ s'. (returned tt, record s' { conn = write_header ws 200 s'.conn }))
              (record s { machine = (Storage.update_counter x (url_param r "name") d s.machine).1 })
            ≡ (
              returned tt,
              record s {
                machine = (Storage.update_counter x (url_param r "name") d s.machine).1;
                conn = write_header ws 200 s.conn;
              },
            )
      continue_on (returned e) h = refl
      continue_on panicked h = absurd (h refl)

  -- On a storage whose maps are not nil, a delta in the path that is the decimal form of an int64
  -- is added to the counter of that name, with wrap-around, where a counter with no value counts
  -- as 0, and the reply is 200, whatever the database answers. A read of that name from the
  -- storage so left, over another connection, replies 200 with the decimal form of the sum.
  pub get_counter-update_counter_lem :
      (d : ℕ) (ws ws' : List Layer) (r r' : Request) (s : State F W) (c : Conn)
      → d < modulus
      → codes (url_param r "value") ≡ format_int d
      → url_param r' "name" ≡ url_param r "name"
      → IsLive s.machine.ms
      → ((update_counter x ws r s).0 ≡ returned tt)
        × ((update_counter x ws r s).1.conn ≡ write_header ws 200 s.conn)
        × ((get_counter x ws' r' (record (update_counter x ws r s).1 { conn = c })).1.conn
            ≡ (write x.codecs ws'
                (format_int
                  (add64 (or_zero (Storage.get_counter x (url_param r "name") s.machine)) d))
                (write_header ws' 200 c)).0)
  unfolding get_counter
  get_counter-update_counter_lem d ws ws' r r' s c h given same l =
      let name = url_param r "name" in
      rw (update_counter-parsed d ws r s h given l, same)
        (
          refl,
          refl,
          rw (get_counter-update_counter x name name d s.machine l, (eq_iff name name).1 refl),
        )
