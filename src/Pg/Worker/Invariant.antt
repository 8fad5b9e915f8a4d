-- ===== src/Pg/Worker/Invariant.antt =====
-- What holds in every state that the worker can reach.
use mathlib.Core.Path.{subst}
use fronius_bridge.Prelude.{
  ℕ, ◌≤◌, ◌*◌, min, min_ℤ, ℤ, pos, Bool, true, false, List, [], ◌∷◌, length, Result, ok, err,
  if-elim, ◌≡◌, refl, sym, ◌∙◌, arith,
}
use fronius_bridge.Config.Types.{ReconnectDelayConfig}
use fronius_bridge.Backoff.{delays, next_backoff}
use fronius_bridge.Db.Errors.{DbError}
use fronius_bridge.Db.Conn.{Server}
use fronius_bridge.Db.Migrator.Steps.{is_protocol}
use fronius_bridge.Doubles.{Doubles}
use fronius_bridge.Pg.Statements.{Sql}
use fronius_bridge.Pg.Queue.{enqueue-length}
use fronius_bridge.Pg.Client.{Client, Setup, Event}
use fronius_bridge.Pg.Events.{process_event}
use fronius_bridge.Pg.Session.{connect_and_prepare}
use fronius_bridge.Pg.Recovery.{Keeps, process_payload-Keeps}
use fronius_bridge.Pg.Recovery.Reconnect.{connect_and_prepare-connected}
use fronius_bridge.Pg.Worker.{
  Place, connecting, draining, waiting, stopped, World, after_setup, after_event, take_event,
  work_at, Next, works, arrives, signalled, failed_elsewhere, Reaches, here, there, is_fatal,
}

-- A worker that drains the queue has an open connection.
abbrev pub Connected : Place → Bool → Type 0
Connected draining c = c ≡ true
Connected waiting c = c ≡ true
Connected connecting c = Unit
Connected stopped c = Unit

abbrev pub Within : ℕ → ℕ → ℤ → Type 0
Within lo hi d = (n : ℕ) × (d ≡ pos n) × (lo ≤ n) × (n ≤ hi)

-- The worker drains on an open connection only, a failure stops the process, the queue keeps within its
-- bound and the delay within the schedule's.
abbrev pub IsSoundAt : {F : Type 0} → (lo hi queue_size : ℕ) → Place → World F → Type 0
IsSoundAt lo hi queue_size p w =
    Connected p w.client.connected
    × (w.failed ≡ true → w.running ≡ false)
    × (length w.events.queue ≤ queue_size)
    × Within lo hi w.backoff

abbrev pub IsSound : {F : Type 0} → (lo hi queue_size : ℕ) → World F → Type 0
IsSound lo hi queue_size w = IsSoundAt lo hi queue_size w.place w

doubled : (n hi : ℕ) → min_ℤ (pos (n * 2)) (pos hi) ≡ pos (min (n * 2) hi)
doubled n hi = ground arith

next_backoff-Within :
    (lo hi : ℕ) (e : Bool) (d : ℤ)
    → lo ≤ hi
    → Within lo hi d
    → Within lo hi (next_backoff (delays lo hi e) d)
unfolding next_backoff
next_backoff-Within lo hi true d h (n, same, a, b) =
    rw same (min (n * 2) hi, doubled n hi, omega arith, omega arith)
next_backoff-Within lo hi false d h w = (lo, refl, omega arith, h)

module _ {F : Type 0} (srv : Server (Sql F)) (dbl : Doubles F) (setup : Setup F) (lo hi : ℕ)
    (e : Bool) (queue_size : ℕ) where
  abbrev delay : ReconnectDelayConfig
  delay = delays lo hi e

  after_setup-IsSound :
      (w : World F) (z : Client F × Result DbError (Unit {0}))
      → (z.1 ≡ ok tt → z.0.connected ≡ true)
      → lo ≤ hi
      → IsSoundAt lo hi queue_size connecting w
      → IsSound lo hi queue_size (after_setup srv dbl setup delay w z)
  unfolding after_setup
  after_setup-IsSound w (c, ok tt) h le (_, f, q, b) = (h refl, f, q, (lo, refl, omega arith, le))
  after_setup-IsSound w (c, err x) h le (_, f, q, b) =
      if-elim (IsSound lo hi queue_size) (is_fatal x.severity) (tt, λ _. refl, q, b)
        (tt, f, q, next_backoff-Within lo hi e w.backoff le b)

  after_event-IsSound :
      (w : World F) (z : Client F × Result DbError (Unit {0}))
      → z.0.connected ≡ true
      → IsSoundAt lo hi queue_size waiting w
      → IsSound lo hi queue_size (after_event srv dbl setup delay w z)
  unfolding after_event
  after_event-IsSound w (c, ok u) h (_, f, q, b) = (h, f, q, b)
  after_event-IsSound w (c, err x) h (_, f, q, b) =
      if-elim (IsSound lo hi queue_size) (is_fatal x.severity) (tt, λ _. refl, q, b)
        (if-elim (IsSound lo hi queue_size) (is_protocol x.kind) (tt, f, q, b) (h, f, q, b))

  process_event-connected :
      (ev : Event F) (c : Client F)
      → c.connected ≡ true
      → (process_event srv dbl setup ev c).0.connected ≡ true
  unfolding Keeps
  process_event-connected ev c h =
      process_payload-Keeps srv dbl setup ev.device_name ev.payload c ∙ h

  take_event-IsSound :
      (w : World F) (l : List (Event F))
      → length l ≤ queue_size
      → w.place ≡ waiting
      → IsSoundAt lo hi queue_size waiting w
      → IsSound lo hi queue_size (take_event srv dbl setup delay w l)
  unfolding take_event
  take_event-IsSound w [] le at (p, f, q, b) =
      if-elim (IsSound lo hi queue_size) w.running
        (subst (λ z. Connected z w.client.connected) (sym at) p, f, q, b) (tt, f, q, b)
  take_event-IsSound w (ev ∷ rest) le at (p, f, q, b) =
      after_event-IsSound (record w { events = record w.events { queue = rest } })
        (process_event srv dbl setup ev w.client) (process_event-connected ev w.client p)
        (p, f, omega arith, b)

  work_at-IsSound :
      (p : Place) (w : World F)
      → w.place ≡ p
      → lo ≤ hi
      → IsSoundAt lo hi queue_size p w
      → IsSound lo hi queue_size (work_at srv dbl setup delay p w)
  unfolding work_at
  work_at-IsSound connecting w at le (p, f, q, b) =
      if-elim (IsSound lo hi queue_size) w.running
        (after_setup-IsSound w (connect_and_prepare srv dbl setup w.client)
          (connect_and_prepare-connected srv dbl setup w.client) le (p, f, q, b))
        (tt, f, q, b)
  work_at-IsSound draining w at le (p, f, q, b) =
      if-elim (IsSound lo hi queue_size) w.running (p, f, q, b) (tt, f, q, b)
  work_at-IsSound waiting w at le (p, f, q, b) =
      take_event-IsSound w w.events.queue q at (p, f, q, b)
  work_at-IsSound stopped w at le (p, f, q, b) =
      (subst (λ z. Connected z w.client.connected) (sym at) p, f, q, b)

  Next-IsSound :
      (threshold : ℕ) (w v : World F)
      → 1 ≤ queue_size
      → lo ≤ hi
      → Next srv dbl setup delay threshold queue_size w v
      → IsSound lo hi queue_size w
      → IsSound lo hi queue_size v
  Next-IsSound threshold w v one le works s = work_at-IsSound w.place w refl le s
  Next-IsSound threshold w v one le (arrives ev) (p, f, q, b) =
      (p, f, enqueue-length threshold queue_size ev w.events one q, b)
  Next-IsSound threshold w v one le signalled (p, f, q, b) = (p, λ _. refl, q, b)
  Next-IsSound threshold w v one le failed_elsewhere (p, f, q, b) = (p, λ _. refl, q, b)

  -- Whatever the server answers and however events and shutdowns fall between the worker's steps: the worker
  -- takes an event only on an open connection, a failure has stopped the process, the queue is within its bound and
  -- the delay within the schedule's, if this is so at the start.
  pub Reaches-IsSound :
      (threshold : ℕ) (w v : World F)
      → 1 ≤ queue_size
      → lo ≤ hi
      → IsSound lo hi queue_size w
      → Reaches srv dbl setup delay threshold queue_size w v
      → IsSound lo hi queue_size v
  Reaches-IsSound threshold w v one le s here = s
  Reaches-IsSound threshold w v one le s (there {u = u} r n) =
      Next-IsSound threshold u v one le n (Reaches-IsSound threshold w u one le s r)
