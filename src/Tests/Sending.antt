-- ===== src/Tests/Sending.antt =====
-- The clients and the loops of the agent at concrete inputs.
use metrify.Base.{
  ℕ, ◌+◌, ◌*◌, String, true, false, All, Option, none, some, List, [], ◌∷◌, ◌++◌, inl, inr, ◌≡◌,
  ◌≢◌, ◌↔◌, refl, codes, returned, arith,
}
use metrify.Failure.{Failure, message}
use metrify.Model.{Metrics, gauge, counter}
use metrify.Proto.{Metric}
use metrify.Storage.History.{run}
use metrify.Rpc
use metrify.Http.{Request, header_del}
use metrify.Handler.{get_info}
use metrify.Serving.{Handler, new_handler, send_error}
use metrify.Handler.Store.{served}
use metrify.Middleware.{sign_data, with_hashed_request, with_decrypt}
use metrify.Agent.RoundTrip.{IsSendable}
use metrify.Agent.HttpClient.{HttpClient, new_http_client, Network, Outgoing, prepare, send_request}
use metrify.Agent.HttpClient.Sending.{Delivered, send_request-Delivered}
use metrify.Agent.HttpClient.Encryption.{PairLaws, prepare-with_decrypt}
use metrify.Agent.HttpClient.Delivery.{prepare-with_hashed_request}
use metrify.Agent.Outbound.{udp_addr}
use metrify.Agent.GrpcClient
use metrify.Agent.GrpcClient.{Transport, call_with}
use metrify.Agent.GrpcClient.Delivery.{update_metrics-call_with}
use metrify.Agent.Loop.{Agent}
use metrify.Agent.Loop.PollCount.{poll_total, rounds, rounds-poll_total}
use metrify.Tests.Example.{Files, example, codecs}
use metrify.Tests.Serving.{body, started, started-IsLive, started_without_db}

-- A network that answers every post by 200; a cipher is the text after the key.
abbrev pub network : Network Files
network = record {
  encrypt = λ key plain w. (inr (key ++ plain), w);
  dialer = record { dial = λ w. (inr (udp_addr (codes "10.0.0.1")), w); close_conn = λ w. w };
  post = λ req w. (inr (record { status = 200; text = [] }), w);
}

abbrev pub http_client : HttpClient
http_client = new_http_client (codes "localhost:8080") (9 ∷ []) (some (4 ∷ []))

abbrev pub world : Files
world = []

send_request-Delivered_example :
    (send_request example network http_client (codes "/update") (1 ∷ []) 3 world
      ≡ (returned none, world))
    ↔ Delivered example network http_client (codes "/update") (1 ∷ []) 3 world world
send_request-Delivered_example =
    send_request-Delivered example network http_client (codes "/update") (1 ∷ []) 3 world world

abbrev key_holder : Handler
key_holder = new_handler false none false (9 ∷ []) none []

abbrev pub made : Outgoing
made = record {
  url = [];
  header =
      ("Content-Type", codes "application/octet-stream")
      ∷ ("HashSHA256", 9 ∷ 1 ∷ [])
      ∷ ("Content-Encryption", codes "RSA-PKCS1v15")
      ∷ [];
  body = 4 ∷ 1 ∷ [];
}

abbrev pub arrived : Request
arrived = record (body made.body) { header = made.header }

pub made-prepare :
    prepare example network http_client (1 ∷ []) world ≡ (inr (made.header, made.body), world)
unfolding prepare new_http_client
made-prepare = refl

http_client-keyed : http_client.hash_key ≢ []
unfolding new_http_client
http_client-keyed p = cc

same_key : key_holder.key ≡ http_client.hash_key
unfolding new_http_client new_handler
same_key = refl

long : sign_data example (1 ∷ []) http_client.hash_key ≢ []
unfolding sign_data new_http_client
long p = cc

prepare-with_hashed_request_example :
    (http_client.public_key ≡ none
      → with_hashed_request example key_holder (get_info example) [] arrived
        ≡ get_info example []
            (record arrived { body = record { content = 1 ∷ []; failure = none } }))
    × (http_client.public_key ≢ none
        → sign_data example (4 ∷ 1 ∷ []) http_client.hash_key
          ≢ sign_data example (1 ∷ []) http_client.hash_key
        → with_hashed_request example key_holder (get_info example) [] arrived
          ≡ send_error example [] [] 401)
prepare-with_hashed_request_example =
    prepare-with_hashed_request example network http_client key_holder (get_info example) [] arrived
      (1 ∷ []) made.body made.header world world http_client-keyed same_key made-prepare refl refl
      long

abbrev transport : Transport ℕ Files
transport = record {
  dialer = record { dial = λ w. (inl (message (codes "no route")), w); close_conn = λ w. w };
  call = λ req ip w. (none, w);
}

abbrev batch : List (Metrics ℕ)
batch =
    record { id = "load"; mtype = gauge; delta = none; value = some 8; hash = "" }
    ∷ record { id = "hits"; mtype = counter; delta = some 2; value = none; hash = "" }
    ∷ []

update_metrics-call_with_example :
    (All IsSendable batch
      → (ps : List (Option (Metric ℕ))) × (GrpcClient.update_metrics example.formats transport batch
            world
          ≡ call_with example.formats transport (inr ps) world)
        × (Rpc.update_metrics example (some (record { metrics = ps })) started
            ≡ (returned none, (run example (served batch) started).1)))
    × (¬ All IsSendable batch
        → (e : Failure) × (GrpcClient.update_metrics example.formats transport batch world
            ≡ (some e, world)))
update_metrics-call_with_example =
    update_metrics-call_with example.formats transport example started batch world started-IsLive
      started_without_db ((λ p. cc), ((λ p. cc), tt))

abbrev new_agent : Agent ℕ (List (Metrics ℕ))
new_agent = record { queue = []; closed = false; poll_counter = 0; world = [] }

abbrev polls : List (List (String × ℕ))
polls = (("Alloc", 5) ∷ []) ∷ (("Alloc", 6) ∷ ("Sys", 7) ∷ []) ∷ [] ∷ []

rounds-poll_total_example : 2 * poll_total (rounds true polls new_agent).world ≡ 3 * (3 + 1)
rounds-poll_total_example = rounds-poll_total true polls new_agent refl refl refl (omega arith)

pub pair : PairLaws codecs network (4 ∷ []) (5 ∷ [])
pair = record {
  decode_encode = λ b. refl;
  decrypt_encrypt =
      λ plain cipher w w' h. let same : cipher ≡ 4 ∷ plain = ground arith in rw same refl;
}

abbrev pub decrypting : Handler
decrypting = new_handler false none false [] (some (5 ∷ [])) []

pub http_client-encrypts : http_client.public_key ≡ some (4 ∷ [])
unfolding new_http_client
http_client-encrypts = refl

pub decrypting-key : decrypting.priv_key ≡ some (5 ∷ [])
unfolding new_handler
decrypting-key = refl

prepare-with_decrypt_example :
    with_decrypt example decrypting (get_info example) [] arrived
    ≡ get_info example [] (record arrived {
      body = record { content = 1 ∷ []; failure = none };
      header = header_del "Content-Encryption" made.header;
    })
prepare-with_decrypt_example =
    prepare-with_decrypt example network http_client decrypting (get_info example) [] arrived
      (4 ∷ []) (5 ∷ []) (1 ∷ []) made.body made.header world world pair http_client-encrypts
      decrypting-key made-prepare refl refl
