-- ===== src/Agent/Start.antt =====
-- The start of cmd/agent/main.go: main up to its wait for a signal, getPublicKey, and what the
-- goroutines that main starts do on the channel.
pub mod Senders
use mathlib.Core.List.{Memᴰ}
use metrify.Base.{
  ℕ, zero, suc, ◌*◌, ◌%◌, Bytes, Bool, Option, none, some, List, [], ◌∷◌, ◌++◌, ◌⊎◌, inl, inr,
  codes, is_empty, ltb, if◌then◌else◌, String, Outcome, returned, false,
}
use metrify.Failure.{Failure, message}
use metrify.Int64.{modulus, half, is_positive}
use metrify.Model.{Metrics}
use metrify.External.{External}
use metrify.Address.{normalize_host}
use metrify.Agent.HttpClient.{HttpClient, new_http_client, Network}
use metrify.Agent.HttpClient
use metrify.Agent.GrpcClient.{Transport}
use metrify.Agent.GrpcClient
use metrify.Agent.Loop.{Sender, new_sender, Agent, poll, poll_gauges, tick}
use metrify.Config.{Exit, fatal, or_fatal, and_then}
use metrify.Config.Agent

-- os.ReadFile, pem.Decode and x509.ParsePKIXPublicKey, where a key that is no *rsa.PublicKey is
-- none; `dial` is grpc.NewClient, and `quote` prints under %q.
pub record Resources (F W : Type 0) : Type 0 where
  pub read_file : Bytes → Failure ⊎ Bytes
  pub decode_pem : Bytes → Option Bytes
  pub parse_pkix : Bytes → Failure ⊎ Option Bytes
  pub dial : Bytes → Failure ⊎ Transport F W
  pub quote : Bytes → Bytes

pub data Role : Type 0 where
  runtime_collector : Role
  gopsutil_collector : Role
  sender : Role

-- A goroutine of main, with the nanoseconds between its ticks. time.NewTicker panics unless they
-- are more than 0, and with it the whole agent.
pub data Goroutine : Type 0 where
  ticking : Role → ℕ → Goroutine
  panicking : Role → Goroutine

-- time.Duration(n) * time.Second
abbrev pub seconds : ℕ → ℕ
seconds n = (n * 1000000000) % modulus

unfoldable pub new_goroutine : Role → ℕ → Goroutine
new_goroutine role n = if is_positive (seconds n) then ticking role (seconds n) else panicking role

-- The rounds of `for i := 0; i < n; i++`.
abbrev pub rounds_of : ℕ → ℕ
rounds_of n = if ltb n half then n else 0

unfoldable pub go_senders : ℕ → ℕ → List Goroutine
unfolding new_goroutine
go_senders zero interval = []
go_senders (suc n) interval = new_goroutine sender interval ∷ go_senders n interval

pub record Launched (F W : Type 0) : Type 0 where
  pub client : Sender F W
  pub goroutines : List Goroutine
  pub batch_update : Bool
  pub agent : Agent F W

unfoldable pub launch : {F W : Type 0} → Agent.Flags → W → Sender F W → Launched F W
unfolding go_senders
launch f w client = record {
  client = client;
  goroutines =
      new_goroutine runtime_collector f.poll_interval
      ∷ new_goroutine gopsutil_collector f.poll_interval
      ∷ go_senders (rounds_of f.rate_limit) f.report_interval;
  batch_update = f.batch_update;
  agent = record { queue = []; closed = false; poll_counter = 0; world = w };
}

module _ {F W : Type 0} (x : External F W) (net : Network W) (res : Resources F W) where
  abbrev rsa_key : Failure ⊎ Option Bytes → Failure ⊎ Bytes
  rsa_key (inl e) = inl e
  rsa_key (inr none) = inl (message (codes "failed to parse RSA public key"))
  rsa_key (inr (some key)) = inr key

  abbrev parse_block : Option Bytes → Failure ⊎ Bytes
  parse_block none = inl (message (codes "failed to parse PEM block"))
  parse_block (some block) = rsa_key (res.parse_pkix block)

  abbrev decode_key : Failure ⊎ Bytes → Failure ⊎ Bytes
  decode_key (inl e) = inl e
  decode_key (inr key) = parse_block (res.decode_pem key)

  unfoldable pub get_public_key : Bytes → Failure ⊎ Bytes
  get_public_key path = decode_key (res.read_file path)

  abbrev set_key : Bytes → Exit ⊎ Option Bytes
  set_key key = inr (some key)

  unfoldable pub public_key : Bytes → Exit ⊎ Option Bytes
  unfolding get_public_key
  public_key path =
      if is_empty path then inr none else and_then (or_fatal (get_public_key path)) set_key

  abbrev http_sender : HttpClient → Sender F W
  http_sender client = record {
    update_metric = HttpClient.update_metric x net client;
    update_metrics = HttpClient.update_metrics x net client;
  }

  abbrev returning : Option Failure × W → Outcome (Option Failure) × W
  returning (e, w) = (returned e, w)

  abbrev grpc_sender : Transport F W → Exit ⊎ Sender F W
  grpc_sender transport = inr (record {
    update_metric = λ m w. returning (GrpcClient.update_metric x.formats transport m w);
    update_metrics = λ ms w. returning (GrpcClient.update_metrics x.formats transport ms w);
  })

  -- NewGRPCClient, which makes no use of the two keys.
  unfoldable pub new_grpc_client : Bytes → Exit ⊎ Sender F W
  unfolding GrpcClient.update_metric GrpcClient.update_metrics
  new_grpc_client host = and_then (or_fatal (res.dial host)) grpc_sender

  -- agent.NewSender, where an error ends the agent.
  unfoldable pub client_of : Agent.Flags → Option Bytes → Exit ⊎ Sender F W
  unfolding new_sender normalize_host new_http_client new_grpc_client HttpClient.update_metric
      HttpClient.update_metrics
  client_of f key =
      let host = normalize_host f.host in
      and_then
        (or_fatal (
          new_sender res.quote (inr (http_sender (new_http_client host f.key key)))
            (new_grpc_client host) f.protocol))
        (λ made. made)

  -- main, from the settings on
  unfoldable pub main : Agent.Flags → W → Exit ⊎ Launched F W
  unfolding public_key client_of launch
  main f w =
      and_then (public_key f.crypto_key)
        (λ key. and_then (client_of f key) (λ client. inr (launch f w client)))

-- The ticks of the goroutines that have not panicked, in any order.
pub data Ticks {F W : Type 0} (l : Launched F W) : Agent F W → Agent F W → Type 0 where
  idle : {a : Agent F W} → Ticks l a a
  runtime_tick :
      {a b : Agent F W} {interval : ℕ} (collected : List (String × F))
      → Memᴰ (ticking runtime_collector interval) l.goroutines
      → Ticks l (poll collected a) b
      → Ticks l a b
  gopsutil_tick :
      {a b : Agent F W} {interval : ℕ} (collected : List (String × F))
      → Memᴰ (ticking gopsutil_collector interval) l.goroutines
      → Ticks l (poll_gauges collected a) b
      → Ticks l a b
  sender_tick :
      {a b : Agent F W} {interval : ℕ}
      → Memᴰ (ticking sender interval) l.goroutines
      → Ticks l (tick l.client l.batch_update a).1 b
      → Ticks l a b
