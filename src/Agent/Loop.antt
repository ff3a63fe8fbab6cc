-- ===== src/Agent/Loop.antt =====
-- cmd/agent/main.go: what a collector puts on the channel at a tick, and what a sender takes off
-- it at a tick, each as one step on the channel, the poll counter of runRuntimeCollector, and the
-- world. The capacity of the channel, at which a collector waits, is not modelled.
pub mod PollCount
use metrify.Base.{
  ℕ, String, Bytes, Bool, true, false, not, Option, none, some, List, [], ◌∷◌, ◌++◌, ◌⊎◌, inl, inr,
  codes, is_empty, bytes_eq, map, ◌||◌, if◌then◌else◌, Prog, returned, pure, continue, ◌>>=◌,
}
use metrify.Failure.{Failure, message}
use metrify.Int64.{add64}
use metrify.Model.{Metrics, gauge, counter}

-- agent.Sender of internal/agent/sender.go, without Close
pub record Sender (F W : Type 0) : Type 0 where
  pub update_metric : Metrics F → Prog W (Option Failure)
  pub update_metrics : List (Metrics F) → Prog W (Option Failure)

-- NewSender: what making each of the two clients gives is given, and `quote` prints under %q.
unfoldable pub new_sender : {A : Type 0} → (Bytes → Bytes) → A → A → Bytes → Failure ⊎ A
new_sender quote http grpc protocol =
    if is_empty protocol || bytes_eq protocol (codes "http")
    then inr http
    else if bytes_eq protocol (codes "grpc")
    then inr grpc
    else inl (message (codes "unknown protocol " ++ quote protocol))

-- A metric on the channel. Its value is its own; its delta, if it has one, is the address of the
-- collector's poll counter, so that it reads as what the counter is when the metric is sent.
pub record Queued (F : Type 0) : Type 0 where
  pub id : String
  pub mtype : String
  pub value : Option F
  pub counts : Bool

pub record Agent (F W : Type 0) : Type 0 where
  pub queue : List (Queued F)
  pub closed : Bool
  pub poll_counter : ℕ
  pub world : W

abbrev pub load : {F : Type 0} → ℕ → Queued F → Metrics F
load n q = record {
  id = q.id;
  mtype = q.mtype;
  delta = if q.counts then some n else none;
  value = q.value;
  hash = "";
}

abbrev pub queued_gauge : {F : Type 0} → String × F → Queued F
queued_gauge (name, value) = record { id = name; mtype = gauge; value = some value; counts = false }

abbrev pub queued_count : {F : Type 0} → Queued F
queued_count = record { id = "PollCount"; mtype = counter; value = none; counts = true }

module _ {F W : Type 0} where
  -- A tick of runGopsutilCollector, with what was collected in the order that the map gave it.
  unfoldable pub poll_gauges : List (String × F) → Agent F W → Agent F W
  poll_gauges collected a = record a { queue = a.queue ++ map queued_gauge collected }

  -- A tick of runRuntimeCollector.
  unfoldable pub poll : List (String × F) → Agent F W → Agent F W
  unfolding poll_gauges
  poll collected a =
      let a₁ = poll_gauges collected a in
      let a₂ = record a₁ { poll_counter = add64 a₁.poll_counter 1 } in
      record a₂ { queue = a₂.queue ++ queued_count ∷ [] }

module _ {F W : Type 0} (sender : Sender F W) where
  abbrev pub send_batch : List (Metrics F) → Prog W (Unit {0})
  send_batch [] = pure tt
  send_batch (m ∷ ms) = do _ ← sender.update_metrics (m ∷ ms); pure tt

  abbrev pub send_each : List (Metrics F) → Prog W (Unit {0})
  send_each [] = pure tt
  send_each (m ∷ ms) = do _ ← sender.update_metric m; send_each ms

  -- A tick of runSender: whether it goes on, which it does unless the channel is closed.
  unfoldable pub tick : Bool → Prog (Agent F W) Bool
  tick batch_update a =
      let ms = map (load a.poll_counter) a.queue in
      let (o, w) = (if batch_update then send_batch ms else send_each ms) a.world in
      continue o (λ _. pure (not a.closed)) (record a { queue = []; world = w })
