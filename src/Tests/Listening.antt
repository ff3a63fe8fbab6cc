-- ===== src/Tests/Listening.antt =====
-- RunGRPCServer, getOutboundIP and CompressReader at concrete inputs.
use metrify.Base.{
  ◌+◌, ℕ, String, none, some, [], ◌∷◌, inl, inr, ◌≡◌, refl, codes, returned, ◌>>◌, pure,
}
use metrify.Base.GoMap.{lookup, get, insert}
use metrify.Failure.{message}
use metrify.Storage.{new_mem_storage, get_counter, save_db, update_counter, update_gauge}
use metrify.Proto.{gauge_type, counter_type, UpdateMetricsRequest}
use metrify.Rpc.Listening.{Listening, run_grpc_server}
use metrify.Http.Reading.{Readers, CompressReader, new_compress_reader, read, close}
use metrify.Agent.Outbound.{LocalAddr, udp_addr, other_addr, Dialer, get_outbound_ip}
use metrify.Tests.Example.{Files, example}
use metrify.Tests.Serving.{started}

-- A metric of each type.
abbrev request : UpdateMetricsRequest ℕ
request = record {
  metrics =
      some (record { id = "hits"; type = counter_type; delta = 3; value = 0 })
      ∷ some (record { id = "load"; type = gauge_type; delta = 0; value = 8 })
      ∷ [];
}

-- A listener that gets one request twice, and is then closed.
abbrev twice : Listening ℕ Files String
twice = record {
  listen = λ addr w. (inr "tcp", w);
  serve = λ method lis.
      method (some request) >> (method (some request) >> pure (some (message (codes "closed"))));
}

abbrev refused : Listening ℕ Files String
refused = record twice { listen = λ addr w. (inl (message (codes "in use")), w) }

served :
    (run_grpc_server example twice (codes ":3200") started).0
    ≡ returned (some (message (codes "closed")))
unfolding run_grpc_server new_mem_storage update_counter save_db update_gauge
served = refl

stored :
    get_counter example "hits" (run_grpc_server example twice (codes ":3200") started).1 ≡ some 6
unfolding run_grpc_server new_mem_storage get_counter get insert lookup update_counter save_db
    update_gauge
stored = refl

not_served :
    run_grpc_server example refused (codes ":3200") started
    ≡ (returned (some (message (codes "in use"))), started)
unfolding run_grpc_server
not_served = refl

abbrev dialer : LocalAddr → Dialer ℕ
dialer addr = record { dial = λ w. (inr addr, 1); close_conn = λ w. 2 }

-- The connection is closed whatever its local address is.
closes : get_outbound_ip (dialer (udp_addr (codes "10.0.0.1"))) 0 ≡ (inr (codes "10.0.0.1"), 2)
unfolding get_outbound_ip
closes = refl

closes_other :
    get_outbound_ip (dialer other_addr) 0 ≡ (inl (message (codes "local address is not UDP")), 2)
unfolding get_outbound_ip
closes_other = refl

-- Bodies, gzip readers and the state are numbers. A body that its gzip reader cannot end is left
-- open.
abbrev cut_short : Readers ℕ ℕ ℕ
cut_short = record {
  new_reader = λ r w. (inr (r + 1), w);
  read_gzip = λ zr n w. ((zr ∷ n ∷ [], none), w);
  close_gzip = λ zr w. (some (message (codes "unexpected EOF")), zr);
  close_body = λ r w. (none, w + r);
}

abbrev reader : CompressReader ℕ ℕ
reader = record { body = 5; gz = 6 }

opened : new_compress_reader cut_short 5 0 ≡ (inr reader, 0)
unfolding new_compress_reader
opened = refl

read_on : read cut_short reader 9 0 ≡ ((6 ∷ 9 ∷ [], none), 0)
unfolding read
read_on = refl

left_open : close cut_short reader 0 ≡ (some (message (codes "unexpected EOF")), 6)
unfolding close
left_open = refl

closed : close (record cut_short { close_gzip = λ zr w. (none, zr) }) reader 0 ≡ (none, 11)
unfolding close
closed = refl
