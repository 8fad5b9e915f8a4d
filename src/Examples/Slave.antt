-- ===== src/Examples/Slave.antt =====
-- A meter slave whose mapping is a function from registers to numbers, and turns of its threads.
use fronius_bridge.Prelude.{
  ◌≡◌, ◌≢◌, refl, ℕ, true, false, some, String, List, [], ◌∷◌, ok, err, leb, ◌≤◌, nat_beq,
  nat_beq_iff, if◌then◌else◌, arith,
}
use fronius_bridge.Shutdown.{fresh_handler}
use fronius_bridge.Modbus.{etimedout, eagain, other_errno, transient}
use fronius_bridge.Devices.{MeterValues}
use fronius_bridge.Slave.Registers.{Pack, aphb}
use fronius_bridge.Slave.Registers.Meaning.{meant}
use fronius_bridge.Slave.Compatible.{code, code-injective}
use fronius_bridge.Slave.Update.{Packing, update_values}
use fronius_bridge.Slave.Update.Shown.{IsPacking, update_values-ShownIn, ShownIn}
use fronius_bridge.Slave.Serve.{ReceiveTurn, Received, request, failed}
use fronius_bridge.Slave.Serve.Tcp.{client_loop, idle, next_of}
use fronius_bridge.Slave.Serve.Idle.{DroppedIdle, client_loop-DroppedIdle, client_loop-silent}
use fronius_bridge.Slave.Serve.Rtu.{LineState, line_loop, waiting, line_loop-serves}
use fronius_bridge.Slave.Serve.Accept.{
  Accepted, client, refused, poll_timeout, poll_client, AcceptTurn, Handled, accept_loop,
  accept_loop-sockets,
}
use fronius_bridge.Slave.Serve.Accept
use fronius_bridge.Slave.Serve.Sockets.{frees, lifetime, lifetime-frees}
use fronius_bridge.Examples.Database.{meter_reading}

abbrev Mapping : Type 0
Mapping = ℕ → ℕ

abbrev put_at : ℕ → ℕ → Mapping → Mapping
put_at k x m j = if nat_beq k j then x else m j

abbrev packing : Packing String Mapping ℕ
packing = record {
  errors = record { severity = λ e. transient; custom = λ e. "custom"; from_errno = λ e. "errno" };
  pack = λ p m.
      if leb p.value 1000 then (put_at (code p.register) p.value m, ok tt) else (m, err "range");
  pack_text = λ p m. (m, ok tt);
}

kept_at : (j k x : ℕ) (m : Mapping) {y : ℕ} → j ≢ k → m k ≡ y → put_at j x m k ≡ y
kept_at j k x m n s = ground (arith, nat_beq_iff j k)

written_at :
    (p : Pack ℕ) (m : Mapping) → p.value ≤ 1000 → (packing.pack p m).0 (code p.register) ≡ p.value
written_at p m h = ground (arith, nat_beq_iff (code p.register) (code p.register))

kept_by :
    (p q : Pack ℕ) (m : Mapping)
    → code q.register ≢ code p.register
    → m (code p.register) ≡ p.value
    → (packing.pack q m).0 (code p.register) ≡ p.value
kept_by p q m n s = ground (arith, kept_at (code q.register) (code p.register) q.value m n s)

-- Registers that hold numbers up to 1000.
abbrev law : IsPacking packing
law = record {
  Fits = λ m. Unit;
  Shows = λ p m. m (code p.register) ≡ p.value;
  Holds = λ p. p.value ≤ 1000;
  fits = λ p m f. tt;
  written = λ p m f h. written_at p m h;
  kept = λ p q m c f s. kept_by p q m (λ h. c.0 (code-injective q.register p.register h)) s;
}

-- One phase's current is more than its register holds.
abbrev surge : MeterValues ℕ
surge = record meter_reading { phase1 = record meter_reading.phase1 { current = 4000 } }

update_values-ShownIn_example :
    ShownIn packing law "house"
      (meant false surge aphb)
      (update_values packing "house" false true surge
        (record { regs = some (λ k. 0); is_device_updated = false })
        fresh_handler).0.regs
update_values-ShownIn_example =
    update_values-ShownIn packing law "house" false surge (λ k. 0) false fresh_handler aphb tt refl
      (omega arith)

abbrev turn_at : Received → ℕ → ReceiveTurn
turn_at r now = record {
  is_running = true;
  received = r;
  now = now;
  has_mapping = true;
  is_replied = true;
}

abbrev quiet : List ReceiveTurn
quiet = turn_at (failed etimedout) 40 ∷ turn_at (failed eagain) 70 ∷ []

client_loop-silent_example : (client_loop 60 5 quiet).0 ≡ idle
client_loop-silent_example = client_loop-silent 60 5 quiet ((refl, refl), ((refl, refl), tt))

dropped : (client_loop 60 5 (turn_at (request 12) 7 ∷ quiet)).0 ≡ idle
unfolding client_loop next_of
dropped = refl

client_loop-DroppedIdle_example : DroppedIdle 60 5 (turn_at (request 12) 7 ∷ quiet)
client_loop-DroppedIdle_example =
    client_loop-DroppedIdle 60 5 (turn_at (request 12) 7 ∷ quiet) dropped

abbrev line : LineState
line = record { last = 5; is_active = false }

-- A request whose reply is not sent, one whose reply is, and two timeouts.
abbrev on_line : List ReceiveTurn
on_line = record (turn_at (request 8) 6) { is_replied = false } ∷ turn_at (request 8) 7 ∷ quiet

line_loop-serves_example :
    ((line_loop 60 line on_line).ended ≡ waiting) × ((line_loop 60 line on_line).replies ≡ 1)
line_loop-serves_example = line_loop-serves 60 line on_line (
  (refl, refl),
  (
    (refl, refl),
    ((refl, (ground arith, ground arith)), ((refl, (ground arith, ground arith)), tt)),
  ),
)

abbrev arrivals : List AcceptTurn
arrivals =
    record { is_running = true; polled = poll_client (client 9) false }
    ∷ record { is_running = true; polled = poll_client (refused (other_errno 24) true) false }
    ∷ record { is_running = true; polled = poll_client (client 11) false }
    ∷ []

accept_loop-sockets_example :
    ((accept_loop arrivals).ended ≡ Accept.waiting) × ((accept_loop arrivals).clients ≡ 9 ∷ 11 ∷ [])
accept_loop-sockets_example =
    accept_loop-sockets arrivals ((refl, refl), ((refl, refl), ((refl, refl), tt)))

-- A serial line whose slave id is refused.
lifetime-frees_example :
    frees (lifetime false false 3 (record { has_context = true; is_listening = true })) ≡ 2
lifetime-frees_example =
    lifetime-frees false false 3 (record { has_context = true; is_listening = true })
