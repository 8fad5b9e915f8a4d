-- ===== src/Examples/Streams.antt =====
-- Queues, delays, telegrams and messages.
use fronius_bridge.Prelude.{
  ◌≡◌, inl, inr, refl, ℕ, ◌+◌, ◌*◌, ◌^◌, min, pos, String, true, false, some, List, [], ◌∷◌, ◌++◌,
  ok, map, ltb, text_eq, find, arith,
}
use fronius_bridge.Pg.Queue.{EventQueue, drop, enqueue_all, enqueue_all-queue}
use fronius_bridge.Pg.Time.{Civil, time_from_millis}
use fronius_bridge.Pg.Time.Instant.{IsCivil, instant, days_before}
use fronius_bridge.Pg.Time.Text.{read_timestamp, time_from_millis-read}
use fronius_bridge.Backoff.{delays}
use fronius_bridge.EasyMeter.Telegram.{received, read_telegram}
use fronius_bridge.EasyMeter.Telegram.Framing.{telegram, read_telegram-telegram}
use fronius_bridge.Mqtt.{Topic, Topics, topic_of, Answer, drain_queue, accept, settle}
use fronius_bridge.Mqtt.Network.{LoopTurn, success, other, network_loop, network_loop-retried}
use fronius_bridge.Mqtt.Delivery.{settle-overtaken}
use fronius_bridge.Mqtt.Delivery.Newest.{
  Message, on_topic, publish_all, fresh, HoldsNewest, publish_all-HoldsNewest,
}

abbrev full : EventQueue ℕ
full = record { queue = 1 ∷ 2 ∷ []; dropped_since_last_log = 0; reported = 0 }

enqueue_all-queue_example :
    (enqueue_all 3 2 (3 ∷ 4 ∷ 5 ∷ []) full).queue ≡ drop 3 (1 ∷ 2 ∷ 3 ∷ 4 ∷ 5 ∷ [])
enqueue_all-queue_example = enqueue_all-queue 3 2 (3 ∷ 4 ∷ 5 ∷ []) full (omega arith) (omega arith)

-- The telegram "/12!34" after a stray byte, in two reads.
abbrev reads : List (ℕ × List ℕ)
reads = (b'9', b'/' ∷ b'1' ∷ []) ∷ (b'2', b'!' ∷ b'3' ∷ b'4' ∷ b'/' ∷ []) ∷ []

read_telegram-telegram_example :
    read_telegram true true (map received reads) ≡ some (ok (telegram (b'1' ∷ b'2' ∷ []) b'3' b'4'))
read_telegram-telegram_example =
    read_telegram-telegram reads (b'9' ∷ []) (b'1' ∷ b'2' ∷ []) (b'/' ∷ []) b'3' b'4' refl
      (ground arith, tt) (ground arith, (ground arith, tt)) (omega arith)

abbrev constant_hash : String → ℕ
constant_hash String.[] = 0
constant_hash (String.◌∷◌ c s) = 1

abbrev one_message : Topics
one_message = ("a", record { last_payload_hash = some 0; queue = "" ∷ []; dropped_count = 0 }) ∷ []

-- Two messages of the same hash on "a", and one on another topic between them.
abbrev messages : List Message
messages = ("x", "a") ∷ ("x", "b") ∷ ("x", "a") ∷ []

publish_all-HoldsNewest_example :
    HoldsNewest constant_hash 1
      ((topic_of "a" one_message).queue
        ++ fresh constant_hash 1
            (topic_of "a" one_message).last_payload_hash
            (on_topic "a" messages))
      (topic_of "a" one_message).dropped_count
      (topic_of "a" (publish_all constant_hash 1 messages one_message))
unfolding find
publish_all-HoldsNewest_example =
    publish_all-HoldsNewest constant_hash 1 messages "a" one_message (omega arith) (omega arith)

abbrev backlog : Topic
backlog = record { last_payload_hash = some 0; queue = "1" ∷ "2" ∷ []; dropped_count = 0 }

settle-overtaken_example :
    ((settle (accept constant_hash 2 "x" backlog)).queue ≡ "x" ∷ [])
    × ((settle (accept constant_hash 2 "x" backlog)).dropped_count ≡ 0)
settle-overtaken_example =
    settle-overtaken constant_hash 2 "x" "1" "2" [] backlog refl (omega arith) (ground arith)

-- A broker that takes two messages.
abbrev takes_two : ℕ → String → Answer
takes_two n m = record { success = ltb n 2; still_connected = true }

takes : (drain_queue takes_two 0 true ("a" ∷ "b" ∷ "c" ∷ [])).left ≡ "c" ∷ []
unfolding drain_queue
takes = refl

-- The broker refuses two connections.
abbrev refusal : LoopTurn
refusal = record {
  code = other;
  is_eproto = false;
  connected = false;
  runs_after_loop = true;
  runs_after_wait = true;
}

-- A turn that meets a connection.
abbrev connection : LoopTurn
connection = record refusal { code = success; connected = true }

network_loop-retried_example :
    network_loop
      (delays 5 320 true)
      (refusal ∷ connection ∷ refusal ∷ refusal ∷ [])
      (record { looping = true; failed = false; backoff = pos 80; reconnects = 0 })
    ≡ record { looping = true; failed = false; backoff = pos (min (5 * 2 ^ 2) 320); reconnects = 3 }
network_loop-retried_example =
    network_loop-retried 5 320 true (refusal ∷ []) (refusal ∷ refusal ∷ []) connection (pos 80) 0
      (omega arith) ((inr (inl refl), refl, refl), tt) (refl, refl)
      ((inr (inl refl), refl, refl), ((inr (inl refl), refl, refl), tt)) (inr refl, (inr refl, tt))

time_from_millis-read_example :
    (c : Civil) × (read_timestamp (time_from_millis 1_709_210_096_007) ≡ some c)
    × IsCivil c
    × (instant c ≡ days_before 1970 * 86_400_000 + 1_709_210_096_007)
time_from_millis-read_example = time_from_millis-read 1_709_210_096_007 (omega arith)

prints : time_from_millis 1_709_210_096_007 ≡ "2024-02-29 12:34:56.007+00"
unfolding time_from_millis
prints = refl
