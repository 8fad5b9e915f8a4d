-- ===== src/Mqtt.antt =====
-- The MQTT consumer, src/mqtt_client.cpp: `publish`, and the loop of `run` over a topic's queue. `hash` stands
-- for `std::hash`. The broker is a parameter: the answer of libmosquitto to each message.
pub mod Callbacks
pub mod Delivery
pub mod Network
pub mod Setup
pub mod Worker
use fronius_bridge.Prelude.{
  ℕ, suc, ◌+◌, String, Bool, true, false, Option, none, some, List, [], ◌∷◌, ◌++◌, length, leb,
  ◌==◌, nat_eq, text_eq, option_eq, find, put, if◌then◌else◌,
}
use fronius_bridge.Pg.Queue.{pop}

-- The entries of the maps `lastPayloadHashes_`, `topicQueues_` and `droppedCount_` for one topic.
pub record Topic : Type 0 where
  pub last_payload_hash : Option ℕ
  pub queue : List String
  pub dropped_count : ℕ

abbrev pub no_topic : Topic
no_topic = record { last_payload_hash = none; queue = []; dropped_count = 0 }

abbrev pub Topics : Type 0
Topics = List (String × Topic)

abbrev pub or_empty : Option Topic → Topic
or_empty none = no_topic
or_empty (some t) = t

-- `operator[]` of the three maps
abbrev pub topic_of : String → Topics → Topic
topic_of name m = or_empty (find name m)

module _ (hash : String → ℕ) (queue_size : ℕ) where
  abbrev pub is_duplicate : String → Topic → Bool
  is_duplicate payload t = t.last_payload_hash == some (hash payload)

  abbrev pub make_room : Topic → Topic
  make_room t = record t { queue = pop t.queue; dropped_count = suc t.dropped_count }

  abbrev pub push : String → Topic → Topic
  push payload t =
      let t' = if leb queue_size (length t.queue) then make_room t else t in
      record t' { last_payload_hash = some (hash payload); queue = t'.queue ++ payload ∷ [] }

  unfoldable pub accept : String → Topic → Topic
  accept payload t = if is_duplicate payload t then t else push payload t

  -- `MqttClient::publish`
  unfoldable pub publish : String → (topic : String) → Topics → Topics
  unfolding accept
  publish payload topic m = put topic (accept payload (topic_of topic m)) m

-- What a call of `mosquitto_publish` comes to: whether it succeeds, and whether the client is connected
-- after it.
pub record Answer : Type 0 where
  pub success : Bool
  pub still_connected : Bool

-- `q.pop()` and `droppedCount_[topic] = 0` after a message is out. Between the call and this the lock is
-- open, so that `publish` may have changed the queue.
unfoldable pub settle : Topic → Topic
settle t = record t { queue = pop t.queue; dropped_count = 0 }

-- What the loop over a topic's queue comes to: the messages that are out and those that are left, whether
-- the client is connected, and the calls of `mosquitto_publish` so far.
pub record Drained : Type 0 where
  pub out : List String
  pub left : List String
  pub connected : Bool
  pub calls : ℕ

-- `broker` gives the answer to a message, after so many calls before.
abbrev pub Broker : Type 0
Broker = ℕ → String → Answer

-- The loop of `run` over the queue of a topic, with no `publish` between.
unfoldable pub drain_queue : Broker → (calls : ℕ) (connected : Bool) → List String → Drained
drain_queue broker calls connected [] = record {
  out = [];
  left = [];
  connected = connected;
  calls = calls;
}
drain_queue broker calls false (x ∷ q) = record {
  out = [];
  left = x ∷ q;
  connected = false;
  calls = calls;
}
drain_queue broker calls true (x ∷ q) =
    let rest = drain_queue broker (suc calls) (broker calls x).still_connected q in
    let stopped : Drained = record {
      out = [];
      left = x ∷ q;
      connected = (broker calls x).still_connected;
      calls = suc calls;
    } in
    if (broker calls x).success then record rest { out = x ∷ rest.out } else stopped
