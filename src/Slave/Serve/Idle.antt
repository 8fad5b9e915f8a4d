-- ===== src/Slave/Serve/Idle.antt =====
-- When a client of the TCP server is dropped for idleness.
use fronius_bridge.Prelude.{
  ◌≡◌, refl, ap, ℕ, ◌+◌, ◌<◌, Bool, true, false, ltb, List, [], ◌∷◌, ◌++◌, if◌then◌else◌, inl, inr,
  Bool-cases, All, if-elim, taken, sym, ◌∙◌, ◌||◌, arith,
}
use mathlib.Core.Path.{subst}
use fronius_bridge.Modbus.{Errno}
use fronius_bridge.Slave.Serve.{
  Received, request, nothing, failed, ReceiveTurn, is_timeout, is_interrupted,
}
use fronius_bridge.Slave.Serve.Tcp.{
  Ended, waiting, idle, ClientNext, go_on, leave, next_of, client_loop, client_next, answer,
  on_failure, on_received,
}

abbrev time_after : (last now : ℕ) → Received → ℕ
time_after last now (request n) = now
time_after last now nothing = last
time_after last now (failed e) = last

-- The time of the last request in the turns, if one came, and else the time before them.
abbrev pub last_request : ℕ → List ReceiveTurn → ℕ
last_request last [] = last
last_request last (t ∷ ts) = last_request (time_after last t.now t.received) ts

-- A turn that timed out.
abbrev pub TimedOut : Received → Type 0
TimedOut (request n) = ⊥
TimedOut nothing = ⊥
TimedOut (failed e) = is_timeout e ≡ true

pub record DroppedIdle (idle_timeout last : ℕ) (ts : List ReceiveTurn) : Type 0 where
  pub before : List ReceiveTurn
  pub turn : ReceiveTurn
  pub after : List ReceiveTurn
  pub turns : ts ≡ before ++ (turn ∷ after)
  pub timed_out : TimedOut turn.received
  pub late : last_request last before + idle_timeout < turn.now

-- A turn goes on from the time of its own request, or from the time before.
abbrev Goes : (idle_timeout last now : ℕ) → Received → ClientNext → Type 0
Goes idle_timeout last now r (go_on l n) = time_after last now r ≡ l
Goes idle_timeout last now r (leave e) = e ≡ idle → TimedOut r × (last + idle_timeout < now)

answer-Goes :
    (idle_timeout last now n : ℕ) (mapping replied : Bool)
    → Goes idle_timeout last now (request n) (answer mapping replied now)
answer-Goes idle_timeout last now n false replied = λ e. cc
answer-Goes idle_timeout last now n true false = λ e. cc
answer-Goes idle_timeout last now n true true = refl

late-Goes :
    (idle_timeout last now : ℕ) (e : Errno)
    → is_timeout e ≡ true
    → (b : Bool) → (b ≡ true → last + idle_timeout < now)
    → Goes idle_timeout last now (failed e) (if b then leave idle else go_on last 0)
late-Goes idle_timeout last now e t true late = λ _. (t, late refl)
late-Goes idle_timeout last now e t false late = refl

on_failure-Goes :
    (idle_timeout last now : ℕ) (e : Errno)
    → Goes idle_timeout last now (failed e) (on_failure idle_timeout last now e)
on_failure-Goes idle_timeout last now e = elim (Bool-cases (is_timeout e)) [
  | inl t ↦
      rw t (late-Goes idle_timeout last now e t (ltb (last + idle_timeout) now) (λ h. ground arith))
  | inr f ↦ rw f (if-elim (Goes idle_timeout last now (failed e)) (is_interrupted e) refl (λ h. cc))
]

on_received-Goes :
    (idle_timeout last : ℕ) (t : ReceiveTurn) (r : Received)
    → Goes idle_timeout last t.now r (on_received idle_timeout last t r)
on_received-Goes idle_timeout last t (request n) =
    answer-Goes idle_timeout last t.now n t.has_mapping t.is_replied
on_received-Goes idle_timeout last t nothing = λ e. cc
on_received-Goes idle_timeout last t (failed e) = on_failure-Goes idle_timeout last t.now e

next_of-Goes :
    (idle_timeout last : ℕ) (t : ReceiveTurn)
    → Goes idle_timeout last t.now t.received (next_of idle_timeout last t)
unfolding next_of
next_of-Goes idle_timeout last t =
    if-elim (Goes idle_timeout last t.now t.received) t.is_running
      (on_received-Goes idle_timeout last t t.received) (λ e. cc)

client_next-DroppedIdle :
    (idle_timeout last : ℕ) (t : ReceiveTurn) (ts : List ReceiveTurn) (n : ClientNext)
    → ((l : ℕ) → (client_loop idle_timeout l ts).0 ≡ idle → DroppedIdle idle_timeout l ts)
    → Goes idle_timeout last t.now t.received n
    → (client_next (λ l. client_loop idle_timeout l ts) n).0 ≡ idle
    → DroppedIdle idle_timeout last (t ∷ ts)
unfolding client_loop
client_next-DroppedIdle idle_timeout last t ts (leave e) more g h =
    let (a, b) = g h in
    record { before = []; turn = t; after = ts; turns = refl; timed_out = a; late = b }
client_next-DroppedIdle idle_timeout last t ts (go_on l n) more g h =
    let d = more l h in
    record {
      before = t ∷ d.before;
      turn = d.turn;
      after = d.after;
      turns = ap (λ us. t ∷ us) d.turns;
      timed_out = d.timed_out;
      late = subst (λ k. last_request k d.before + idle_timeout < d.turn.now) (sym g) d.late;
    }

-- A client of the TCP server is dropped for idleness only at a timeout, and only if the idle timeout has passed
-- since its last request, or since it connected if it sent none.
pub client_loop-DroppedIdle :
    (idle_timeout last : ℕ) (ts : List ReceiveTurn)
    → (client_loop idle_timeout last ts).0 ≡ idle
    → DroppedIdle idle_timeout last ts
unfolding client_loop
client_loop-DroppedIdle idle_timeout last [] h = cc
client_loop-DroppedIdle idle_timeout last (t ∷ ts) h =
    client_next-DroppedIdle idle_timeout last t ts (next_of idle_timeout last t)
      (λ l. client_loop-DroppedIdle idle_timeout l ts) (next_of-Goes idle_timeout last t) h

-- A turn in which a client that is still there says nothing.
abbrev pub IsSilent : ReceiveTurn → Type 0
IsSilent t = (t.is_running ≡ true) × TimedOut t.received

abbrev pub any_late : (deadline : ℕ) → List ReceiveTurn → Bool
any_late deadline [] = false
any_late deadline (t ∷ ts) = ltb deadline t.now || any_late deadline ts

silent_next :
    (idle_timeout last : ℕ) (t : ReceiveTurn) (r : Received) (rest : ℕ → Ended × ℕ)
    → TimedOut r
    → (client_next rest (on_received idle_timeout last t r)).0
      ≡ (if ltb (last + idle_timeout) t.now then idle else (rest last).0)
silent_next idle_timeout last t (request n) rest h = absurd h
silent_next idle_timeout last t nothing rest h = absurd h
silent_next idle_timeout last t (failed e) rest h =
    rw h (at_deadline (ltb (last + idle_timeout) t.now))
  where
    at_deadline :
        (b : Bool)
        → (client_next rest (if b then leave idle else go_on last 0)).0
          ≡ (if b then idle else (rest last).0)
    at_deadline true = refl
    at_deadline false = refl

-- The loop of a client that sends nothing ends, as idle, as soon as a wait ends after its deadline, and not
-- before; a running server does not keep it longer.
pub client_loop-silent :
    (idle_timeout last : ℕ) (ts : List ReceiveTurn)
    → All IsSilent ts
    → (client_loop idle_timeout last ts).0
      ≡ (if any_late (last + idle_timeout) ts then idle else waiting)
unfolding client_loop next_of
client_loop-silent idle_timeout last [] h = refl
client_loop-silent idle_timeout last (t ∷ ts) ((run, silent), more) =
    taken
      (λ n. (client_next (λ l. client_loop idle_timeout l ts) n).0 ≡ (
        if ltb (last + idle_timeout) t.now || any_late (last + idle_timeout) ts
        then idle
        else waiting))
      t.is_running _ _ run
      (silent_next idle_timeout last t t.received _ silent
        ∙ ap (λ e. if ltb (last + idle_timeout) t.now then idle else e)
            (client_loop-silent idle_timeout last ts more)
        ∙ either (ltb (last + idle_timeout) t.now) (any_late (last + idle_timeout) ts))
  where
    either :
        (b c : Bool)
        → Path Ended
            (if b then idle else (if c then idle else waiting))
            (if b || c then idle else waiting)
    either b c = ground arith
