-- ===== src/Pg/Worker.antt =====
-- `PostgresClient::run` as a machine: one step of the worker thread at a time, with the events and the
-- shutdowns of other threads between its steps.
pub mod Invariant
use fronius_bridge.Prelude.{ℕ, ℤ, Bool, true, false, List, [], ◌∷◌, Result, ok, err, if◌then◌else◌}
use fronius_bridge.Config.Types.{ReconnectDelayConfig}
use fronius_bridge.Backoff.{next_backoff}
use fronius_bridge.Db.Errors.{Kind, protocol, Severity, transient, fatal, DbError}
use fronius_bridge.Db.Conn.{Server}
use fronius_bridge.Db.Migrator.Steps.{is_protocol}
use fronius_bridge.Doubles.{Doubles}
use fronius_bridge.Pg.Statements.{Sql}
use fronius_bridge.Pg.Queue.{EventQueue, enqueue}
use fronius_bridge.Pg.Client.{Client, Setup, Event}
use fronius_bridge.Pg.Events.{process_event}
use fronius_bridge.Pg.Session.{connect_and_prepare}

-- Where the worker stands: at the head of the outer loop, at the head of the inner loop, in the wait for
-- an event, or past the loops.
pub data Place : Type 0 where
  connecting draining waiting stopped : Place

-- `running` and `failed` are the flags of the signal handler.
pub record World (F : Type 0) : Type 0 where
  pub place : Place
  pub running : Bool
  pub failed : Bool
  pub backoff : ℤ
  pub client : Client F
  pub events : EventQueue (Event F)

abbrev pub is_fatal : Severity → Bool
is_fatal fatal = true
is_fatal transient = false

-- `shutdown(true, ...)`
abbrev pub shutdown_failure : {F : Type 0} → World F → World F
shutdown_failure w = record w { running = false; failed = true }

module _ {F : Type 0} (srv : Server (Sql F)) (dbl : Doubles F) (setup : Setup F)
    (delay : ReconnectDelayConfig) where
  unfoldable pub after_setup : World F → Client F × Result DbError (Unit {0}) → World F
  after_setup w (c, ok u) = record w { client = c; backoff = delay.min; place = draining }
  after_setup w (c, err e) =
      if is_fatal e.severity
      then record w { client = c; running = false; failed = true; place = stopped }
      else record w { client = c; backoff = next_backoff delay w.backoff; place = connecting }

  -- The three outcomes of a failed event: shut down, reconnect, or go on without it.
  unfoldable pub after_event : World F → Client F × Result DbError (Unit {0}) → World F
  after_event w (c, ok u) = record w { client = c; place = draining }
  after_event w (c, err e) =
      if is_fatal e.severity
      then record w { client = c; running = false; failed = true; place = connecting }
      else if is_protocol e.kind
      then record w { client = record c { connected = false }; place = connecting }
      else record w { client = c; place = draining }

  unfoldable pub take_event : World F → List (Event F) → World F
  unfolding after_event
  take_event w [] = if w.running then w else record w { place = connecting }
  take_event w (ev ∷ rest) =
      after_event (record w { events = record w.events { queue = rest } })
        (process_event srv dbl setup ev w.client)

  unfoldable pub work_at : Place → World F → World F
  unfolding after_setup take_event
  work_at connecting w =
      if w.running
      then after_setup w (connect_and_prepare srv dbl setup w.client)
      else record w { place = stopped }
  work_at draining w =
      if w.running then record w { place = waiting } else record w { place = connecting }
  work_at waiting w = take_event w w.events.queue
  work_at stopped w = w

  abbrev pub work : World F → World F
  work w = work_at w.place w

  -- What can happen next: the worker goes on, an event arrives, or the process is told to stop, by a
  -- signal or by the failure of another part.
  pub data Next (threshold queue_size : ℕ) (w : World F) : World F → Type 0 where
    works : Next threshold queue_size w (work w)
    arrives :
        (ev : Event F)
        → Next threshold queue_size w
            (record w { events = enqueue threshold queue_size ev w.events })
    signalled : Next threshold queue_size w (record w { running = false })
    failed_elsewhere : Next threshold queue_size w (shutdown_failure w)

  pub data Reaches (threshold queue_size : ℕ) (w : World F) : World F → Type 0 where
    here : Reaches threshold queue_size w w
    there :
        {u v : World F}
        → Reaches threshold queue_size w u
        → Next threshold queue_size u v
        → Reaches threshold queue_size w v
