-- ===== src/Agent/Loop/PollCount.antt =====
-- What the server is told of the number of polls.
use mathlib.Core.List.{append-nil, append_assoc}
use metrify.Base.{
  ℕ, suc, ◌+◌, ◌*◌, ◌<◌, String, Bool, true, false, none, List, [], ◌∷◌, ◌++◌, ◌≡◌, refl, ap, ◌∙◌,
  arith, map, length, ◌&&◌, if◌then◌else◌, returned, ◌==◌, eq_iff,
}
use metrify.Int64.{add64, modulus}
use metrify.Storage.{or_zero}
use metrify.Model.{Metrics, gauge, counter}
use metrify.Agent.Loop.{
  Sender, Agent, Queued, load, queued_gauge, queued_count, poll, tick, send_batch, send_each,
}

next_sum :
    (t t' p c n : ℕ)
    → t' ≡ t + (p + 1)
    → c ≡ p + 1
    → 2 * t' + n * (2 * c + n + 1) ≡ 2 * t + suc n * (2 * p + suc n + 1)
next_sum t t' p c n et ec = rw (et, ec) (omega arith)

module _ {F : Type 0} where
  -- A sender that keeps what it is given.
  abbrev pub recorder : Sender F (List (Metrics F))
  recorder = record {
    update_metric = λ m w. (returned none, w ++ m ∷ []);
    update_metrics = λ ms w. (returned none, w ++ ms);
  }

  -- The sum of the deltas of PollCount: what a server counts.
  abbrev pub poll_total : List (Metrics F) → ℕ
  poll_total [] = 0
  poll_total (m ∷ ms) =
      (if m.id == "PollCount" && m.mtype == counter then or_zero m.delta else 0) + poll_total ms

  poll_total-append :
      (ms ns : List (Metrics F)) → poll_total (ms ++ ns) ≡ poll_total ms + poll_total ns
  poll_total-append [] ns = omega arith
  poll_total-append (m ∷ ms) ns = omega (arith, poll_total-append ms ns)

  pub send_each-recorder :
      (ms w : List (Metrics F)) → send_each recorder ms w ≡ (returned tt, w ++ ms)
  send_each-recorder [] w = rw (append-nil w) refl
  send_each-recorder (m ∷ ms) w =
      send_each-recorder ms (w ++ m ∷ []) ∙ ap (λ v. (returned tt, v)) (append_assoc w (m ∷ []) ms)

  pub send_batch-recorder :
      (ms w : List (Metrics F)) → send_batch recorder ms w ≡ (returned tt, w ++ ms)
  send_batch-recorder [] w = rw (append-nil w) refl
  send_batch-recorder (m ∷ ms) w = refl

  tick-recorder :
      (b : Bool) (a : Agent F (List (Metrics F)))
      → (tick recorder b a).1
        ≡ record a { queue = []; world = a.world ++ map (load a.poll_counter) a.queue }
  unfolding tick
  tick-recorder true a = rw (send_batch-recorder (map (load a.poll_counter) a.queue) a.world) refl
  tick-recorder false a = rw (send_each-recorder (map (load a.poll_counter) a.queue) a.world) refl

  poll_total-gauges :
      (n : ℕ) (collected : List (String × F)) (qs : List (Queued F))
      → poll_total (map (load n) (map queued_gauge collected ++ qs)) ≡ poll_total (map (load n) qs)
  poll_total-gauges n [] qs = refl
  poll_total-gauges n ((name, v) ∷ rest) qs =
      ground (arith, poll_total-gauges n rest qs, eq_iff gauge counter)

  round_lem :
      (b : Bool) (g : List (String × F)) (a : Agent F (List (Metrics F)))
      → a.queue ≡ []
      → ((tick recorder b (poll g a)).1.queue ≡ [])
        × ((tick recorder b (poll g a)).1.poll_counter ≡ add64 a.poll_counter 1)
        × (poll_total (tick recorder b (poll g a)).1.world
            ≡ poll_total a.world + add64 a.poll_counter 1)
  round_lem b g a empty =
      let n = add64 a.poll_counter 1 in
      let sent = map (load n) (map queued_gauge g ++ queued_count ∷ []) in
      let total : poll_total sent ≡ n = poll_total-gauges n g (queued_count ∷ []) ∙ omega arith in
      rw (tick-recorder b (poll g a)) (
        unfold poll in
        rw empty
          (refl, refl, poll_total-append a.world sent ∙ ap (λ k. poll_total a.world + k) total))

  -- Polls that are each followed by a tick of a sender.
  unfoldable pub rounds :
      Bool → List (List (String × F)) → Agent F (List (Metrics F)) → Agent F (List (Metrics F))
  rounds b [] a = a
  rounds b (g ∷ gs) a = rounds b gs (tick recorder b (poll g a)).1

  rounds_total :
      (b : Bool) (gs : List (List (String × F))) (a : Agent F (List (Metrics F)))
      → a.queue ≡ []
      → a.poll_counter + length gs < modulus
      → 2 * poll_total (rounds b gs a).world
        ≡ 2 * poll_total a.world + length gs * (2 * a.poll_counter + length gs + 1)
  unfolding rounds
  rounds_total b [] a empty fits = omega arith
  rounds_total b (g ∷ gs) a empty fits =
      let (empty', next, total) = round_lem b g a empty in
      let one_more : add64 a.poll_counter 1 ≡ a.poll_counter + 1 = unfold add64 in omega arith in
      rounds_total b gs (tick recorder b (poll g a)).1 empty' (omega (arith, next, one_more, fits))
      ∙ next_sum (poll_total a.world) _ a.poll_counter _ (length gs)
          (total ∙ ap (λ k. poll_total a.world + k) one_more) (next ∙ one_more)

  -- If each of n polls of runRuntimeCollector, n below 2 ^ 64, from a new agent on, is followed
  -- by a tick of a sender, batches or not, then the sum of the deltas of PollCount that are sent
  -- is 1 + 2 + … + n: each delta that is sent is the number of polls so far.
  pub rounds-poll_total :
      (b : Bool) (gs : List (List (String × F))) (a : Agent F (List (Metrics F)))
      → a.queue ≡ []
      → a.poll_counter ≡ 0
      → a.world ≡ []
      → length gs < modulus
      → 2 * poll_total (rounds b gs a).world ≡ length gs * (length gs + 1)
  rounds-poll_total b gs a empty zero_count unsent fits =
      rounds_total b gs a empty (omega (arith, zero_count, fits))
      ∙ rw (unsent, zero_count) (omega arith)
