-- ===== src/Slave/Serve/Tcp.antt =====
-- MeterSlave::tcpClientWorker: the loop that serves one client.
use fronius_bridge.Prelude.{
  ℕ, ◌+◌, Bool, true, false, ltb, List, [], ◌∷◌, Result, ok, err, if◌then◌else◌,
}
use fronius_bridge.Modbus.{Errno, enomem, Errors}
use fronius_bridge.Slave.Serve.{
  Received, request, nothing, failed, ReceiveTurn, is_timeout, is_interrupted,
}

-- Why the loop ends; `waiting` is a loop that has had no further turn yet.
pub data Ended : Type 0 where
  waiting stopped no_mapping not_replied closed idle disconnected : Ended

-- How a turn goes on: with a new time of the last activity, or with the end.
pub data ClientNext : Type 0 where
  go_on : (last : ℕ) (replies : ℕ) → ClientNext
  leave : Ended → ClientNext

abbrev pub answer : (has_mapping is_replied : Bool) → (now : ℕ) → ClientNext
answer false is_replied now = leave no_mapping
answer true false now = leave not_replied
answer true true now = go_on now 1

abbrev pub on_failure : (idle_timeout last now : ℕ) → Errno → ClientNext
on_failure idle_timeout last now e =
    if is_timeout e
    then (if ltb (last + idle_timeout) now then leave idle else go_on last 0)
    else if is_interrupted e
    then go_on last 0
    else leave disconnected

abbrev pub on_received : (idle_timeout last : ℕ) → ReceiveTurn → Received → ClientNext
on_received idle_timeout last t (request length) = answer t.has_mapping t.is_replied t.now
on_received idle_timeout last t nothing = leave closed
on_received idle_timeout last t (failed e) = on_failure idle_timeout last t.now e

unfoldable pub next_of : (idle_timeout last : ℕ) → ReceiveTurn → ClientNext
next_of idle_timeout last t =
    if t.is_running then on_received idle_timeout last t t.received else leave stopped

-- The end of the loop and the number of replies.
abbrev pub client_next : (rest : (last : ℕ) → Ended × ℕ) → ClientNext → Ended × ℕ
client_next rest (leave e) = (e, 0)
client_next rest (go_on last replies) = let (e, n) = rest last in (e, replies + n)

unfoldable pub client_loop : (idle_timeout last : ℕ) → List ReceiveTurn → Ended × ℕ
unfolding next_of
client_loop idle_timeout last [] = (waiting, 0)
client_loop idle_timeout last (t ∷ ts) =
    client_next (λ l. client_loop idle_timeout l ts) (next_of idle_timeout last t)

-- The error that is handled at the end, if any.
module _ {E : Type 0} (errors : Errors E) where
  abbrev pub fault_of : Ended → Result E (Unit {0})
  fault_of no_mapping = err (errors.custom enomem)
  fault_of waiting = ok tt
  fault_of stopped = ok tt
  fault_of not_replied = ok tt
  fault_of closed = ok tt
  fault_of idle = ok tt
  fault_of disconnected = ok tt
