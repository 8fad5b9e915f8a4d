-- ===== src/Slave/Serve/Rtu.antt =====
-- MeterSlave::rtuClientHandler: the loop that serves the serial line.
use fronius_bridge.Prelude.{
  ◌≡◌, ◌≢◌, refl, ap, ℕ, ◌+◌, Bool, true, false, ◌&&◌, ltb, List, [], ◌∷◌, ◌++◌, if-elim, taken,
  if◌then◌else◌, All, Result, ok, err, arith,
}
use fronius_bridge.Modbus.{Errno, enomem, ebadf, eio, Errors}
use fronius_bridge.Slave.Serve.{
  Received, request, nothing, failed, ReceiveTurn, is_timeout, is_interrupted, is_serial_loss,
}

pub data RtuEnded : Type 0 where
  waiting stopped no_mapping : RtuEnded
  line_lost : Errno → RtuEnded

-- What the log says of the client.
pub data Presence : Type 0 where
  connected silent : Presence

pub record LineState : Type 0 where
  pub last : ℕ
  pub is_active : Bool

pub record Served : Type 0 where
  pub ended : RtuEnded
  pub replies : ℕ
  pub presence : List Presence

pub data RtuNext : Type 0 where
  go_on : LineState → (replies : ℕ) → List Presence → RtuNext
  leave : RtuEnded → List Presence → RtuNext

abbrev pub arrival : LineState → List Presence
arrival l = if l.is_active then [] else connected ∷ []

-- A reply that fails is logged, and the loop goes on.
abbrev pub rtu_answer : LineState → ReceiveTurn → RtuNext
rtu_answer l t =
    if t.has_mapping
    then go_on (record { last = t.now; is_active = true }) (if t.is_replied then 1 else 0)
        (arrival l)
    else leave no_mapping (arrival l)

abbrev pub on_timeout : (idle_timeout now : ℕ) → LineState → RtuNext
on_timeout idle_timeout now l =
    if ltb (l.last + idle_timeout) now && l.is_active
    then go_on (record { last = now; is_active = false }) 0 (silent ∷ [])
    else go_on l 0 []

abbrev pub rtu_failure : (idle_timeout now : ℕ) → LineState → Errno → RtuNext
rtu_failure idle_timeout now l e =
    if is_timeout e
    then on_timeout idle_timeout now l
    else if is_interrupted e
    then go_on l 0 []
    else if is_serial_loss e
    then leave (line_lost e) []
    else go_on l 0 []

abbrev pub rtu_received : (idle_timeout : ℕ) → LineState → ReceiveTurn → Received → RtuNext
rtu_received idle_timeout l t (request length) = rtu_answer l t
rtu_received idle_timeout l t nothing = go_on l 0 []
rtu_received idle_timeout l t (failed e) = rtu_failure idle_timeout t.now l e

unfoldable pub rtu_next_of : (idle_timeout : ℕ) → LineState → ReceiveTurn → RtuNext
rtu_next_of idle_timeout l t =
    if t.is_running then rtu_received idle_timeout l t t.received else leave stopped []

abbrev pub line_next : (rest : LineState → Served) → RtuNext → Served
line_next rest (leave e logged) = record { ended = e; replies = 0; presence = logged }
line_next rest (go_on l replies logged) =
    let s = rest l in
    record { ended = s.ended; replies = replies + s.replies; presence = logged ++ s.presence }

unfoldable pub line_loop : (idle_timeout : ℕ) → LineState → List ReceiveTurn → Served
unfolding rtu_next_of
line_loop idle_timeout l [] = record { ended = waiting; replies = 0; presence = [] }
line_loop idle_timeout l (t ∷ ts) =
    line_next (λ k. line_loop idle_timeout k ts) (rtu_next_of idle_timeout l t)

module _ {E : Type 0} (errors : Errors E) where
  abbrev pub rtu_fault_of : RtuEnded → Result E (Unit {0})
  rtu_fault_of waiting = ok tt
  rtu_fault_of stopped = ok tt
  rtu_fault_of no_mapping = err (errors.custom enomem)
  rtu_fault_of (line_lost e) = err (errors.from_errno e)

-- The log alternates: a client that is active falls silent next, and one that is not connects next.
abbrev pub Alternates : (is_active : Bool) → List Presence → Type 0
Alternates is_active [] = Unit
Alternates is_active (connected ∷ ps) = (is_active ≡ false) × Alternates true ps
Alternates is_active (silent ∷ ps) = (is_active ≡ true) × Alternates false ps

-- A turn in which the server can go on: a request needs a mapping, and the line is not lost.
abbrev pub Able : Received → ReceiveTurn → Type 0
Able (request n) t = t.has_mapping ≡ true
Able nothing t = Unit
Able (failed e) t = (e ≢ ebadf) × (e ≢ eio)

not_lost : (e : Errno) → (e ≢ ebadf) × (e ≢ eio) → is_serial_loss e ≡ false
not_lost e h = ground arith

abbrev pub IsAble : ReceiveTurn → Type 0
IsAble t = (t.is_running ≡ true) × Able t.received t

abbrev pub count_of : (is_replied : Bool) → Received → ℕ
count_of true (request n) = 1
count_of false (request n) = 0
count_of is_replied nothing = 0
count_of is_replied (failed e) = 0

-- How many of the turns bring a request whose reply libmodbus sends.
abbrev pub answerable : List ReceiveTurn → ℕ
answerable [] = 0
answerable (t ∷ ts) = count_of t.is_replied t.received + answerable ts

-- A turn that the log of a client permits, whatever the loop does next.
abbrev Permits : LineState → RtuNext → Type 0
Permits l n =
    (rest : LineState → Served)
    → ((k : LineState) → Alternates k.is_active (rest k).presence)
    → Alternates l.is_active (line_next rest n).presence

answer-Permits :
    (last : ℕ) (is_active : Bool) (t : ReceiveTurn)
    → let l : LineState = record { last = last; is_active = is_active } in
      Permits l (rtu_answer l t)
answer-Permits last true t =
    if-elim (Permits (record { last = last; is_active = true })) t.has_mapping
      (λ rest h. h (record { last = t.now; is_active = true })) (λ rest h. tt)
answer-Permits last false t =
    if-elim (Permits (record { last = last; is_active = false })) t.has_mapping
      (λ rest h. (refl, h (record { last = t.now; is_active = true }))) (λ rest h. (refl, tt))

timeout-Permits :
    (idle_timeout now last : ℕ) (is_active late : Bool)
    → let l : LineState = record { last = last; is_active = is_active } in
      Permits l (
        if late && l.is_active
        then go_on (record { last = now; is_active = false }) 0 (silent ∷ [])
        else go_on l 0 [])
timeout-Permits idle_timeout now last true true =
    λ rest h. (refl, h (record { last = now; is_active = false }))
timeout-Permits idle_timeout now last true false =
    λ rest h. h (record { last = last; is_active = true })
timeout-Permits idle_timeout now last false true =
    λ rest h. h (record { last = last; is_active = false })
timeout-Permits idle_timeout now last false false =
    λ rest h. h (record { last = last; is_active = false })

received-Permits :
    (idle_timeout : ℕ) (l : LineState) (t : ReceiveTurn) (r : Received)
    → Permits l (rtu_received idle_timeout l t r)
received-Permits idle_timeout l t (request n) = answer-Permits l.last l.is_active t
received-Permits idle_timeout l t nothing = λ rest h. h l
received-Permits idle_timeout l t (failed e) =
    if-elim (Permits l) (is_timeout e)
      (timeout-Permits idle_timeout t.now l.last l.is_active (ltb (l.last + idle_timeout) t.now))
      (if-elim (Permits l) (is_interrupted e) (λ rest h. h l)
        (if-elim (Permits l) (is_serial_loss e) (λ rest h. tt) (λ rest h. h l)))

-- The log of a serial line tells of a client that connects, falls silent and connects again, in turn.
pub line_loop-Alternates :
    (idle_timeout : ℕ) (l : LineState) (ts : List ReceiveTurn)
    → Alternates l.is_active (line_loop idle_timeout l ts).presence
unfolding line_loop rtu_next_of
line_loop-Alternates idle_timeout l [] = tt
line_loop-Alternates idle_timeout l (t ∷ ts) =
    if-elim (Permits l) t.is_running (received-Permits idle_timeout l t t.received) (λ rest h. tt)
      (λ k. line_loop idle_timeout k ts) (λ k. line_loop-Alternates idle_timeout k ts)

-- What is left of a turn in which the server can go on: another turn, with a reply to a request.
abbrev GoesOn : ℕ → RtuNext → Type 0
GoesOn n next =
    (rest : LineState → Served) (m : ℕ)
    → ((k : LineState) → ((rest k).ended ≡ waiting) × ((rest k).replies ≡ m))
    → ((line_next rest next).ended ≡ waiting) × ((line_next rest next).replies ≡ n + m)

go_on-GoesOn : (n : ℕ) (l : LineState) (ps : List Presence) → GoesOn n (go_on l n ps)
go_on-GoesOn n l ps rest m h = let (x, y) = h l in (x, ap (λ k. n + k) y)

rtu_received-GoesOn :
    (idle_timeout : ℕ) (l : LineState) (t : ReceiveTurn) (r : Received)
    → Able r t
    → GoesOn (count_of t.is_replied r) (rtu_received idle_timeout l t r)
rtu_received-GoesOn idle_timeout l t (request n) mapping = rw mapping (replied t.is_replied)
  where
    replied :
        (b : Bool)
        → GoesOn
            (count_of b (request n))
            (go_on (record { last = t.now; is_active = true }) (if b then 1 else 0) (arrival l))
    replied true = go_on-GoesOn 1 (record { last = t.now; is_active = true }) (arrival l)
    replied false = go_on-GoesOn 0 (record { last = t.now; is_active = true }) (arrival l)
rtu_received-GoesOn idle_timeout l t nothing h = go_on-GoesOn 0 l []
rtu_received-GoesOn idle_timeout l t (failed e) h =
    if-elim (GoesOn 0) (is_timeout e)
      (if-elim (GoesOn 0) (ltb (l.last + idle_timeout) t.now && l.is_active)
        (go_on-GoesOn 0 _ (silent ∷ [])) (go_on-GoesOn 0 l []))
      (if-elim (GoesOn 0) (is_interrupted e) (go_on-GoesOn 0 l [])
        (rw (not_lost e h) (go_on-GoesOn 0 l [])))

-- While the process runs, and there is a mapping at every request: the serial server goes on, through timeouts,
-- interrupts, frames for others, replies that fail and line errors other than EBADF and EIO, and the replies
-- that are sent are as many as the requests whose reply libmodbus sends.
pub line_loop-serves :
    (idle_timeout : ℕ) (l : LineState) (ts : List ReceiveTurn)
    → All IsAble ts
    → ((line_loop idle_timeout l ts).ended ≡ waiting)
      × ((line_loop idle_timeout l ts).replies ≡ answerable ts)
unfolding line_loop rtu_next_of
line_loop-serves idle_timeout l [] h = (refl, refl)
line_loop-serves idle_timeout l (t ∷ ts) ((run, able), more) =
    taken (GoesOn (count_of t.is_replied t.received)) t.is_running _ _ run
      (rtu_received-GoesOn idle_timeout l t t.received able) (λ k. line_loop idle_timeout k ts)
      (answerable ts) (λ k. line_loop-serves idle_timeout k ts more)
