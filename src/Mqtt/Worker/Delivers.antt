-- ===== src/Mqtt/Worker/Delivers.antt =====
-- What the worker does with the queues while it is connected, and when the program ends.
use fronius_bridge.Prelude.{
  ℕ, suc, ◌≡◌, refl, ap, ◌∙◌, String, Bool, true, false, List, [], ◌∷◌, ◌||◌, ◌&&◌, not,
  if◌then◌else◌, if-split, taken, Bool-cases, inl, inr, arith,
}
use fronius_bridge.Mqtt.{Topics, Answer, Broker, drain_queue}
use fronius_bridge.Mqtt.Worker.{
  has_queued_messages, drain_topics, Worker, Wake, is_due, sweep, woken, run_turn, run,
}

-- The messages of each topic.
abbrev pub queues : Topics → List (String × List String)
queues [] = []
queues ((name, t) ∷ m) = (name, t.queue) ∷ queues m

abbrev pub accepted : Answer
accepted = record { success = true; still_connected = true }

abbrev pub refused : Answer
refused = record { success = false; still_connected = true }

abbrev pub Gives : Answer → (String → Broker) → Type 0
Gives a broker = (name : String) (calls : ℕ) (payload : String) → broker name calls payload ≡ a

-- What one turn comes to that leaves nothing in the queues.
abbrev pub AllSent : Wake → Worker → Worker → Type 0
AllSent w s s' =
    (has_queued_messages s'.topics ≡ false)
    × (s'.sent
        ≡ (if is_due w (w.arrive s.topics) then queues (w.arrive s.topics) ∷ s.sent else s.sent))
    × (s'.stopped
        ≡ (if is_due w (w.arrive s.topics) then not (w.is_running && w.runs_on) else s.stopped))

-- How the worker ends, by whether the client is connected.
abbrev pub Ended : Wake → Worker → Worker → Type 0
Ended w s s' =
    (s'.stopped ≡ true)
    × (s'.sent ≡ (if w.connected then queues (w.arrive s.topics) ∷ s.sent else s.sent))
    × (has_queued_messages s'.topics
        ≡ (if w.connected then false else has_queued_messages (w.arrive s.topics)))

module _ (broker : String → Broker) where
  drain_queue-accepted :
      (name : String) (calls : ℕ) (q : List String)
      → Gives accepted broker
      → (drain_queue (broker name) calls true q).out ≡ q
        × (drain_queue (broker name) calls true q).left ≡ []
        × (drain_queue (broker name) calls true q).connected ≡ true
  unfolding drain_queue
  drain_queue-accepted name calls [] agree = (refl, refl, refl)
  drain_queue-accepted name calls (x ∷ q) agree =
      let (a, b, c) = drain_queue-accepted name (suc calls) q agree in
      rw (agree name calls x) (ap (λ l. x ∷ l) a, b, c)

  drain_topics-accepted :
      (calls : ℕ) (m : Topics)
      → Gives accepted broker
      → ((drain_topics broker calls true m).out ≡ queues m)
        × (has_queued_messages (drain_topics broker calls true m).topics ≡ false)
  unfolding drain_topics has_queued_messages
  drain_topics-accepted calls [] agree = (refl, refl)
  drain_topics-accepted calls ((name, t) ∷ m) agree =
      let d = drain_queue (broker name) calls true t.queue in
      let (a, b, c) = drain_queue-accepted name calls t.queue agree in
      let (e, f) = drain_topics-accepted d.calls m agree in
      rw (a, b, c) (ap (λ l. (name, t.queue) ∷ l) e, f)

  woken-sweep : (w : Wake) (s : Worker) → w.connected ≡ true → woken broker w s ≡ sweep broker w s
  woken-sweep w s up =
      taken (λ r. r ≡ sweep broker w s) (w.is_running || w.connected) (sweep broker w s)
        (record s { stopped = true }) (or_true w.is_running w.connected up) refl
    where
      or_true : (a b : Bool) → b ≡ true → (a || b) ≡ true
      or_true a b e = ground arith

  not_due :
      (w : Wake) (m : Topics)
      → w.connected ≡ true
      → is_due w m ≡ false
      → has_queued_messages m ≡ false
  unfolding is_due
  not_due w m up h = ground arith

  -- One turn of the worker while the client is connected and every message is accepted: nothing is left in
  -- any queue, and if anything was there, all of it has been sent, each topic's messages in their order. If
  -- the program is over, the worker stops after that.
  pub run_turn-AllSent :
      (w : Wake) (s : Worker)
      → Gives accepted broker
      → w.connected ≡ true
      → AllSent w s (run_turn broker w s)
  unfolding run_turn
  run_turn-AllSent w s agree up =
      let m = w.arrive s.topics in
      let s' : Worker = record s { topics = m } in
      let (a, b) = drain_topics-accepted s.calls m agree in
      if-split {A = Worker} (AllSent w s) (is_due w m) (woken broker w s') s'
        (λ due. rw (due, woken-sweep w s' up, up) (b, ap (λ l. l ∷ s.sent) a, refl))
        (λ idle. rw idle (not_due w m up idle, refl, refl))

  run-last :
      (w : Wake) (ws : List Wake) (s : Worker)
      → (run_turn broker w s).stopped ≡ true
      → s.stopped ≡ false
      → run broker (w ∷ ws) s ≡ run_turn broker w s
  unfolding run
  run-last w ws s last go =
      ap (λ b. if b then s else run broker ws (run_turn broker w s)) go ∙ run-stopped ws last
    where
      run-stopped : (vs : List Wake) {r : Worker} → r.stopped ≡ true → run broker vs r ≡ r
      run-stopped [] h = refl
      run-stopped (v ∷ vs) {r} h = ap (λ b. if b then r else run broker vs (run_turn broker v r)) h

  due_over : (w : Wake) (m : Topics) → w.is_running ≡ false → is_due w m ≡ true
  unfolding is_due
  due_over w m over = ground arith

  run_turn-Ended :
      (w : Wake) (s : Worker)
      → Gives accepted broker
      → w.is_running ≡ false
      → Ended w s (run_turn broker w s)
  unfolding run_turn
  run_turn-Ended w s agree over =
      let m = w.arrive s.topics in
      let s' : Worker = record s { topics = m } in
      let due = due_over w m over in
      let (a, b) = drain_topics-accepted s.calls m agree in
      taken {A = Worker} (Ended w s) (is_due w m) (woken broker w s') s' due
        (elim (Bool-cases w.connected) [
          | inl up ↦ rw (woken-sweep w s' up, up, over) (refl, ap (λ l. l ∷ s.sent) a, b)
          | inr down ↦ rw (over, down) (refl, refl, refl)
        ])

  -- When the program is over where the worker waits, that turn is its last. If the client is connected and
  -- every message is accepted, all that is queued has been sent; if it is not connected, nothing is sent
  -- and the queues keep what they hold.
  pub run-Ended :
      (w : Wake) (ws : List Wake) (s : Worker)
      → Gives accepted broker
      → w.is_running ≡ false
      → s.stopped ≡ false
      → Ended w s (run broker (w ∷ ws) s)
  run-Ended w ws s agree over go =
      let h = run_turn-Ended w s agree over in rw (run-last w ws s h.0 go) h
