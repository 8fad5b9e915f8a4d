-- ===== src/Mqtt/Worker.antt =====
-- `hasQueuedMessages` and `run` of src/mqtt_client.cpp: the thread that sends what is queued. The topics are
-- listed in the order of the map.
pub mod Delivers
pub mod Spins
use fronius_bridge.Prelude.{
  ℕ, ◌≡◌, String, Bool, true, false, List, [], ◌∷◌, ◌||◌, ◌&&◌, not, if◌then◌else◌,
}
use fronius_bridge.Mqtt.{Topic, Topics, Drained, Broker, drain_queue}

abbrev pub is_empty : {A : Type 0} → List A → Bool
is_empty [] = true
is_empty (x ∷ xs) = false

unfoldable pub has_queued_messages : Topics → Bool
has_queued_messages [] = false
has_queued_messages ((name, t) ∷ m) =
    let rest = has_queued_messages m in not (is_empty t.queue) || rest

-- A topic after the loop over its queue: each message that is out sets its count of drops to 0.
abbrev pub drained_topic : Drained → Topic → Topic
drained_topic d t = record t {
  queue = d.left;
  dropped_count = if is_empty d.out then t.dropped_count else 0;
}

-- What the loop over all topics comes to.
pub record Sweep : Type 0 where
  -- the messages that are out, by topic
  pub out : List (String × List String)
  pub topics : Topics
  pub connected : Bool
  pub calls : ℕ

unfoldable pub drain_topics :
    (broker : String → Broker) → (calls : ℕ) (connected : Bool) → Topics → Sweep
drain_topics broker calls connected [] = record {
  out = [];
  topics = [];
  connected = connected;
  calls = calls;
}
drain_topics broker calls connected ((name, t) ∷ m) =
    let d = drain_queue (broker name) calls connected t.queue in
    let rest = drain_topics broker d.calls d.connected m in
    record rest { out = (name, d.out) ∷ rest.out; topics = (name, drained_topic d t) ∷ rest.topics }

pub record Worker : Type 0 where
  pub topics : Topics
  -- what has been sent, sweep by sweep
  pub sent : List (List (String × List String))
  pub calls : ℕ
  pub stopped : Bool

-- What the worker meets where it waits: what `publish` has made of the map, whether the client is connected
-- and whether the program runs, then and when the loop is at its head again.
pub record Wake : Type 0 where
  pub arrive : Topics → Topics
  pub connected : Bool
  pub is_running : Bool
  pub runs_on : Bool

-- The condition of `cv_.wait`.
unfoldable pub is_due : Wake → Topics → Bool
is_due w m = (w.connected && has_queued_messages m) || not w.is_running

module _ (broker : String → Broker) where
  abbrev pub swept : Wake → Sweep → Worker → Worker
  swept w d s = record s {
    topics = d.topics;
    sent = d.out ∷ s.sent;
    calls = d.calls;
    stopped = not (w.is_running && w.runs_on);
  }

  abbrev pub sweep : Wake → Worker → Worker
  sweep w s = swept w (drain_topics broker s.calls w.connected s.topics) s

  -- What follows `cv_.wait`, once it is through.
  abbrev pub woken : Wake → Worker → Worker
  woken w s = if w.is_running || w.connected then sweep w s else record s { stopped = true }

  unfoldable pub run_turn : Wake → Worker → Worker
  run_turn w s =
      let s' : Worker = record s { topics = w.arrive s.topics } in
      if is_due w s'.topics then woken w s' else s'

  -- `MqttClient::run`
  unfoldable pub run : List Wake → Worker → Worker
  run [] s = s
  run (w ∷ ws) s = let rest = run ws (run_turn w s) in if s.stopped then s else rest
