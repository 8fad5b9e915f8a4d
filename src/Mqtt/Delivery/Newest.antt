-- ===== src/Mqtt/Delivery/Newest.antt =====
-- Which messages a topic's queue holds after any messages on any topics.
use mathlib.Core.Path.{subst}
use mathlib.Core.List.{append_assoc, append-nil}
use fronius_bridge.Prelude.{
  ℕ, suc, ◌+◌, ◌-◌, ◌≤◌, ◌<◌, ◌≡◌, refl, sym, ap, ◌∙◌, String, Bool, true, false, Bool-cases, inl,
  inr, Option, some, List, [], ◌∷◌, ◌++◌, length, length-append, ◌==◌, nat_eq, text_eq, option_eq,
  option_beq_iff, if◌then◌else◌, arith,
}
use fronius_bridge.Pg.Queue.{pop, drop, drop-pop, length-pop, full-cases}
use fronius_bridge.Mqtt.{Topic, Topics, topic_of, accept, publish, push}
use fronius_bridge.Mqtt.Delivery.{
  publish-same, publish-other, accept-duplicate, accept-new, push-full,
}

-- A message and its topic.
abbrev pub Message : Type 0
Message = String × String

-- The messages on a topic.
abbrev pub on_topic : (topic : String) → List Message → List String
on_topic topic [] = []
on_topic topic ((payload, t) ∷ ms) =
    let rest = on_topic topic ms in if topic == t then payload ∷ rest else rest

module _ (hash : String → ℕ) (queue_size : ℕ) where
  abbrev pub publish_all : List Message → Topics → Topics
  publish_all [] m = m
  publish_all ((payload, t) ∷ ms) m = publish_all ms (publish hash queue_size payload t m)

  -- The messages whose hash is not that of the message before them.
  abbrev pub fresh : (last : Option ℕ) → List String → List String
  fresh last [] = []
  fresh last (p ∷ ps) =
      let rest = fresh (some (hash p)) ps in if last == some (hash p) then rest else p ∷ rest

  abbrev accept_all : List String → Topic → Topic
  accept_all [] t = t
  accept_all (p ∷ ps) t = accept_all ps (accept hash queue_size p t)

  publish-on :
      (p topic t : String) (m : Topics)
      → topic ≡ t
      → topic_of topic (publish hash queue_size p t m) ≡ accept hash queue_size p (topic_of topic m)
  publish-on p topic t m h =
      subst
        (λ u.
          topic_of topic (publish hash queue_size p u m)
          ≡ accept hash queue_size p (topic_of topic m))
        h (publish-same hash queue_size p topic m)

  publish_all-topic :
      (topic : String) (ms : List Message) (m : Topics)
      → topic_of topic (publish_all ms m) ≡ accept_all (on_topic topic ms) (topic_of topic m)
  publish_all-topic topic [] m = refl
  publish_all-topic topic ((p, t) ∷ ms) m =
      publish_all-topic topic ms (publish hash queue_size p t m) ∙ elim (Bool-cases (topic == t)) [
        | inl e ↦
            ap (accept_all (on_topic topic ms))
              (publish-on p topic t m ((text_eq.beq_iff topic t).0 e))
            ∙ sym (ap (λ b. accept_all (kept b) (topic_of topic m)) e)
        | inr e ↦
            ap (accept_all (on_topic topic ms))
              (publish-other hash queue_size p t topic m (λ h. differ topic t h e))
            ∙ sym (ap (λ b. accept_all (kept b) (topic_of topic m)) e)
      ]
    where
      kept : Bool → List String
      kept b = if b then p ∷ on_topic topic ms else on_topic topic ms

      differ : (x y : String) → x ≡ y → (x == y) ≡ false → ⊥
      differ x y h e = ground (arith, text_eq.beq_iff x y, h, e)

  push-room :
      (p : String) (t : Topic)
      → length t.queue < queue_size
      → push hash queue_size p t
        ≡ record t { last_payload_hash = some (hash p); queue = t.queue ++ p ∷ [] }
  push-room p t h = ground arith

  push-length :
      (p : String) (t : Topic)
      → 1 ≤ queue_size
      → length t.queue ≤ queue_size
      → (length (push hash queue_size p t).queue ≤ queue_size)
        × (length (push hash queue_size p t).queue + (push hash queue_size p t).dropped_count
            ≡ suc (length t.queue + t.dropped_count))
  push-length p t one h = ground (
    arith,
    length-append t.queue (p ∷ []),
    length-append (pop t.queue) (p ∷ []),
    length-pop 0 queue_size t.queue,
  )

  abbrev newest : List String → List String
  newest all = drop (length all - queue_size) all

  push-drop :
      (p : String) (ps : List String) (t : Topic)
      → 1 ≤ queue_size
      → length t.queue ≤ queue_size
      → drop
          (length ((push hash queue_size p t).queue ++ ps) - queue_size)
          ((push hash queue_size p t).queue ++ ps)
        ≡ drop (length (t.queue ++ p ∷ ps) - queue_size) (t.queue ++ p ∷ ps)
  push-drop p ps t one h = elim (full-cases queue_size (length t.queue)) [
    | inl full ↦
        ap (λ q. newest (q ++ ps)) (push-full hash queue_size p t full)
        ∙ ap newest (append_assoc (pop t.queue) (p ∷ []) ps)
        ∙ drop-pop 0 queue_size t.queue p ps full one h
    | inr room ↦
        ap (λ (x : Topic). newest (x.queue ++ ps)) (push-room p t room)
        ∙ ap newest (append_assoc t.queue (p ∷ []) ps)
  ]

  -- A queue that holds the newest of so many messages, and a count of the others.
  abbrev pub HoldsNewest : List String → (dropped_before : ℕ) → Topic → Type 0
  HoldsNewest all dropped_before t =
      (t.queue ≡ drop (length all - queue_size) all)
      × (length t.queue + t.dropped_count ≡ length all + dropped_before)

  moved :
      (all all' : List String) (d : ℕ) (t t' : Topic)
      → all ≡ all'
      → t ≡ t'
      → HoldsNewest all d t
      → HoldsNewest all' d t'
  moved all all' d t t' e f h =
      subst (λ l. HoldsNewest l d t') e (subst (λ x. HoldsNewest all d x) f h)

  accept_all-HoldsNewest :
      (ps : List String) (t : Topic)
      → 1 ≤ queue_size
      → length t.queue ≤ queue_size
      → HoldsNewest (t.queue ++ fresh t.last_payload_hash ps) t.dropped_count (accept_all ps t)
  accept_all-HoldsNewest [] t one h =
      rw (append-nil t.queue) (ap (λ n. drop n t.queue) {x = 0} (omega arith), refl)
  accept_all-HoldsNewest (p ∷ ps) t one h =
      let same = option_beq_iff nat_eq t.last_payload_hash (some (hash p)) in
      let rest = fresh (some (hash p)) ps in
      elim (Bool-cases (t.last_payload_hash == some (hash p))) [
        | inl e ↦
            moved _ _ t.dropped_count _ _
              (ap (λ k. t.queue ++ fresh k ps) (same.0 e)
                ∙ sym (ap (λ b. t.queue ++ (if b then rest else p ∷ rest)) e))
              (ap (accept_all ps) (sym (accept-duplicate hash queue_size p t (same.0 e))))
              (accept_all-HoldsNewest ps t one h)
        | inr e ↦
            let t' = push hash queue_size p t in
            let (le, count) = push-length p t one h in
            let (held, counted) = accept_all-HoldsNewest ps t' one le in
            moved _ _ t.dropped_count _ _
              (sym (ap (λ b. t.queue ++ (if b then rest else p ∷ rest)) e))
              (ap (accept_all ps) (
                sym (
                  accept-new hash queue_size p t
                    (λ k. unequal (t.last_payload_hash == some (hash p)) (same.1 k) e))))
              (
                held ∙ push-drop p rest t one h,
                omega (
                  arith,
                  counted,
                  count,
                  length-append t'.queue rest,
                  length-append t.queue (p ∷ rest),
                ),
              )
      ]
    where
      unequal : (b : Bool) → b ≡ true → b ≡ false → ⊥
      unequal b x y = cc

  -- After any messages on any topics: of what a topic's queue held and of the messages that came on that topic,
  -- without those whose hash is that of the topic's message before them, the queue holds the newest
  -- `queue_size`, in the order of their arrival, and each of the others has been counted as dropped.
  pub publish_all-HoldsNewest :
      (ms : List Message) (topic : String) (m : Topics)
      → 1 ≤ queue_size
      → length (topic_of topic m).queue ≤ queue_size
      → HoldsNewest
          ((topic_of topic m).queue
            ++ fresh (topic_of topic m).last_payload_hash (on_topic topic ms))
          (topic_of topic m).dropped_count
          (topic_of topic (publish_all ms m))
  publish_all-HoldsNewest ms topic m one h =
      let t = topic_of topic m in
      subst (HoldsNewest (t.queue ++ fresh t.last_payload_hash (on_topic topic ms)) t.dropped_count)
        (sym (publish_all-topic topic ms m)) (accept_all-HoldsNewest (on_topic topic ms) t one h)
