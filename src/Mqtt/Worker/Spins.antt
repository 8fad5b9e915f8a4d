-- ===== src/Mqtt/Worker/Spins.antt =====
-- What the worker does with messages that libmosquitto refuses while the client stays connected, such as those
-- of a topic that is not valid.
use fronius_bridge.Prelude.{
  ℕ, suc, ◌+◌, ◌≤◌, ◌≡◌, refl, ap, ◌∙◌, String, Bool, true, false, List, [], ◌∷◌, ◌||◌, not, length,
  All, if-split, arith,
}
use fronius_bridge.Mqtt.{Topics, Broker, drain_queue}
use fronius_bridge.Mqtt.Worker.{
  is_empty, has_queued_messages, drain_topics, Worker, Wake, is_due, run_turn, run,
}
use fronius_bridge.Mqtt.Worker.Delivers.{refused, Gives}

-- Nothing arrives, the client is connected and the program runs.
abbrev pub IsQuiet : Wake → Type 0
IsQuiet w =
    ((m : Topics) → w.arrive m ≡ m)
    × (w.connected ≡ true)
    × (w.is_running ≡ true)
    × (w.runs_on ≡ true)

abbrev count : Bool → ℕ
count true = 1
count false = 0

-- What stays and what grows over some turns.
abbrev pub Spun : ℕ → Worker → Worker → Type 0
Spun turns s s' = (s'.topics ≡ s.topics) × (s'.stopped ≡ false) × (turns + s.calls ≤ s'.calls)

module _ (broker : String → Broker) (no : Gives refused broker) where
  drain_queue-refused :
      (name : String) (calls : ℕ) (q : List String)
      → ((drain_queue (broker name) calls true q).out ≡ [])
        × ((drain_queue (broker name) calls true q).left ≡ q)
        × ((drain_queue (broker name) calls true q).connected ≡ true)
        × ((drain_queue (broker name) calls true q).calls ≡ count (not (is_empty q)) + calls)
  unfolding drain_queue
  drain_queue-refused name calls [] = (refl, refl, refl, omega arith)
  drain_queue-refused name calls (x ∷ q) = rw (no name calls x) (refl, refl, refl, omega arith)

  drain_topics-refused :
      (calls : ℕ) (m : Topics)
      → ((drain_topics broker calls true m).topics ≡ m)
        × (count (has_queued_messages m) + calls ≤ (drain_topics broker calls true m).calls)
  unfolding drain_topics has_queued_messages
  drain_topics-refused calls [] = (refl, omega arith)
  drain_topics-refused calls ((name, t) ∷ m) =
      let d = drain_queue (broker name) calls true t.queue in
      let (a, b, c, e) = drain_queue-refused name calls t.queue in
      let (f, g) = drain_topics-refused d.calls m in
      (
        rw (a, b, c) (ap (λ l. (name, t) ∷ l) f),
        rw c (counted (not (is_empty t.queue)) (has_queued_messages m) calls d.calls _ e g),
      )
    where
      counted :
          (a b : Bool) (k l n : ℕ) → l ≡ count a + k → count b + l ≤ n → count (a || b) + k ≤ n
      counted true b k l n e h = omega arith
      counted false true k l n e h = omega arith
      counted false false k l n e h = omega arith

  run_turn-Spun :
      (w : Wake) (s : Worker)
      → IsQuiet w
      → has_queued_messages s.topics ≡ true
      → Spun 1 s (run_turn broker w s)
  unfolding run_turn is_due
  run_turn-Spun w s (same, up, runs, on) held =
      let (f, g) = drain_topics-refused s.calls s.topics in
      rw (same s.topics, up, runs, on, held)
        (f, refl, one (has_queued_messages s.topics) s.calls _ held g)
    where
      one : (b : Bool) (k n : ℕ) → b ≡ true → count b + k ≤ n → 1 + k ≤ n
      one b k n e h = ground arith

  -- While the library refuses every message, a worker with a message to send is woken at once in every turn:
  -- it calls the library again each time, the queues stay as they are, and it does not stop.
  pub run-Spun :
      (ws : List Wake) (s : Worker)
      → All IsQuiet ws
      → has_queued_messages s.topics ≡ true
      → s.stopped ≡ false
      → Spun (length ws) s (run broker ws s)
  unfolding run
  run-Spun [] s quiet held go = (refl, go, omega arith)
  run-Spun (w ∷ ws) s (q, quiet) held go =
      let (a, b, c) = run_turn-Spun w s q held in
      let (d, e, f) = run-Spun ws (run_turn broker w s) quiet (ap has_queued_messages a ∙ held) b in
      if-split {A = Worker} (Spun (suc (length ws)) s) s.stopped s
        (run broker ws (run_turn broker w s)) (λ h. absurd (ground arith))
        (λ h. (d ∙ a, e, omega arith))
