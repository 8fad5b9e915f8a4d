-- ===== src/Mqtt/Delivery.antt =====
-- What becomes of the messages that are published.
pub mod Newest
use fronius_bridge.Prelude.{
  ℕ, suc, ◌+◌, ◌≤◌, ◌≡◌, ◌≢◌, refl, ap, ◌∙◌, String, Bool, true, false, Bool-cases, inl, inr, some,
  List, [], ◌∷◌, ◌++◌, length, length-append, nat_eq, text_eq, option_eq, option_beq_iff, find-put,
  find-put-other, if◌then◌else◌, if-elim, arith,
}
use fronius_bridge.Pg.Queue.{pop}
use fronius_bridge.Mqtt.{
  Topic, Topics, topic_of, or_empty, is_duplicate, push, accept, publish, Broker, Drained, settle,
  drain_queue,
}

module _ (hash : String → ℕ) (queue_size : ℕ) where
  pub publish-same :
      (p t : String) (m : Topics)
      → topic_of t (publish hash queue_size p t m) ≡ accept hash queue_size p (topic_of t m)
  unfolding publish
  publish-same p t m = ap or_empty (find-put t (accept hash queue_size p (topic_of t m)) m)

  -- A message leaves the other topics as they are.
  pub publish-other :
      (payload topic other : String) (m : Topics)
      → other ≢ topic
      → topic_of other (publish hash queue_size payload topic m) ≡ topic_of other m
  unfolding publish
  publish-other p t u m n =
      ap or_empty (find-put-other u t (accept hash queue_size p (topic_of t m)) m n)

  accept-hash :
      (p : String) (t : Topic) → (accept hash queue_size p t).last_payload_hash ≡ some (hash p)
  unfolding accept
  accept-hash p t = ground (arith, option_beq_iff nat_eq t.last_payload_hash (some (hash p)))

  pub accept-duplicate :
      (p : String) (t : Topic)
      → t.last_payload_hash ≡ some (hash p)
      → accept hash queue_size p t ≡ t
  unfolding accept
  accept-duplicate p t h =
      ap (λ b. if b then t else push hash queue_size p t)
        ((option_beq_iff nat_eq t.last_payload_hash (some (hash p))).1 h)

  -- A message that repeats the last one of its topic changes nothing there, whatever has been published
  -- on other topics in between.
  pub publish-repeated :
      (payload topic : String) (m n : Topics)
      → topic_of topic n ≡ topic_of topic (publish hash queue_size payload topic m)
      → topic_of topic (publish hash queue_size payload topic n) ≡ topic_of topic n
  publish-repeated p t m n same =
      publish-same p t n
      ∙ accept-duplicate p (topic_of t n)
          (ap (λ x. x.last_payload_hash) (same ∙ publish-same p t m) ∙ accept-hash p (topic_of t m))

  pub accept-new :
      (p : String) (t : Topic)
      → t.last_payload_hash ≢ some (hash p)
      → accept hash queue_size p t ≡ push hash queue_size p t
  unfolding accept
  accept-new p t h = elim (Bool-cases (is_duplicate hash queue_size p t)) [
    | inl e ↦ absurd (h ((option_beq_iff nat_eq t.last_payload_hash (some (hash p))).0 e))
    | inr e ↦ ap (λ b. if b then t else push hash queue_size p t) e
  ]

  pub push-full :
      (p : String) (t : Topic)
      → queue_size ≤ length t.queue
      → (push hash queue_size p t).queue ≡ pop t.queue ++ p ∷ []
  push-full p t h = ground arith

  -- If a message arrives while the front of a full queue is on its way to the broker, then the message
  -- behind the front is neither sent nor counted: the queue has lost it, and no drop is on record.
  pub settle-overtaken :
      (payload x y : String) (rest : List String) (t : Topic)
      → t.queue ≡ x ∷ y ∷ rest
      → queue_size ≤ length t.queue
      → t.last_payload_hash ≢ some (hash payload)
      → ((settle (accept hash queue_size payload t)).queue ≡ rest ++ payload ∷ [])
        × ((settle (accept hash queue_size payload t)).dropped_count ≡ 0)
  unfolding settle
  settle-overtaken p x y rest t q h n =
      rw (accept-new p t n)
        (ap (λ l. pop l) (push-full p t h) ∙ ap (λ l. pop (pop l ++ p ∷ [])) q, refl)

-- No message is lost and none is out of order: those that are out and those that are left are those that
-- the queue held.
pub drain_queue-append :
    (broker : Broker) (calls : ℕ) (connected : Bool) (q : List String)
    → (drain_queue broker calls connected q).out ++ (drain_queue broker calls connected q).left ≡ q
unfolding drain_queue
drain_queue-append broker calls connected [] = refl
drain_queue-append broker calls false (x ∷ q) = refl
drain_queue-append broker calls true (x ∷ q) =
    if-elim {A = Drained} (λ d. d.out ++ d.left ≡ x ∷ q) (broker calls x).success
      (ap (λ l. x ∷ l) (drain_queue-append broker (suc calls) (broker calls x).still_connected q))
      refl
