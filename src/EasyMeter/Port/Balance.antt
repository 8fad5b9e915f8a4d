-- ===== src/EasyMeter/Port/Balance.antt =====
-- That the port is opened and closed in turn, and that the availability messages follow it.
use fronius_bridge.Prelude.{
  ℕ, ◌≡◌, refl, ap, ◌∙◌, Bool, true, false, Option, none, some, List, [], ◌∷◌, ◌++◌, has_value,
  nat_beq, nat_beq_iff, ◌==◌, text_eq, ◌&&◌, not, if◌then◌else◌, if-elim,
}
use fronius_bridge.Config.Types.{ModbusRtuConfig}
use fronius_bridge.EasyMeter.Port.{
  Termios, Speed, CharSize, Attempt, PortEvent, open_device, close, tcsetattr, tcflush,
  availability, Tried, baud_to_speed, data_bits_to_flag, line_settings, apply_settings, with_speed,
  with_attributes, open_port, connect_port, try_connect, disconnect, PortOp, op_connect,
  op_disconnect, run_op, run_ops,
}

-- The descriptor that is open, and whether "connected" was the last message.
abbrev pub Seen : Type 0
Seen = Option ℕ × Bool

abbrev is_open : ℕ → Option ℕ → Bool
is_open fd none = false
is_open fd (some n) = nat_beq fd n

abbrev allow : Bool → Seen → Option Seen
allow true s = some s
allow false s = none

see_next : (Seen → Option Seen) → Option Seen → Option Seen
see_next rest none = none
see_next rest (some s) = rest s

see_next-append :
    (f g : Seen → Option Seen) (r : Option Seen) (o : Option Seen) (t : Seen)
    → ((s : Seen) → f s ≡ some t → g s ≡ r)
    → see_next f o ≡ some t
    → see_next g o ≡ r
unfolding see_next
see_next-append f g r none t k h = cc
see_next-append f g r (some s) t k h = k s h

module _ {O : Type 0} where
  -- An event that does not fit what has been seen has no result: a second port, a call on a port that is
  -- not open, a message that repeats the last one or that the port belies.
  abbrev pub see_one : PortEvent O → Seen → Option Seen
  see_one (open_device fd) (port, told) = allow (not (has_value port)) (some fd, told)
  see_one (close fd) (port, told) = allow (is_open fd port) (none, told)
  see_one (tcsetattr fd t) (port, told) = allow (is_open fd port) (port, told)
  see_one (tcflush fd) (port, told) = allow (is_open fd port) (port, told)
  see_one (availability text) (port, told) =
      if text == "connected"
      then allow (has_value port && not told) (port, true)
      else allow (not (has_value port) && told) (port, false)

  unfoldable pub see : List (PortEvent O) → Seen → Option Seen
  unfolding see_next
  see [] s = some s
  see (e ∷ es) s = see_next (see es) (see_one e s)

  see-append :
      (es fs : List (PortEvent O)) (s t : Seen) → see es s ≡ some t → see (es ++ fs) s ≡ see fs t
  unfolding see
  see-append [] fs s t h =
      ap (λ (o : Option Seen). elim o [ none ↦ see fs s | some x ↦ see fs x ]) h
  see-append (e ∷ es) fs s t h =
      see_next-append (see es) (see (es ++ fs)) (see fs t) (see_one e s) t
        (λ r. see-append es fs r t) h

-- What has been seen of a port, where the callback tells of it.
abbrev pub seen_at : (has_callback : Bool) → Option ℕ → Seen
seen_at has_callback port = (port, has_callback && has_value port)

same : (fd : ℕ) → nat_beq fd fd ≡ true
same fd = (nat_beq_iff fd fd).1 refl

closed-seen :
    (O : Type 0) (cb : Bool) (fd : ℕ)
    → see {O = O} (close fd ∷ []) (some fd, false) ≡ some (seen_at cb none)
unfolding see see_next
closed-seen O true fd = rw (same fd) refl
closed-seen O false fd = rw (same fd) refl

disconnect-seen :
    (O : Type 0) (cb : Bool) (port : Option ℕ)
    → see {O = O} (disconnect cb port) (seen_at cb port) ≡ some (seen_at cb none)
unfolding see see_next disconnect
disconnect-seen O true none = refl
disconnect-seen O false none = refl
disconnect-seen O true (some fd) = rw (same fd) refl
disconnect-seen O false (some fd) = rw (same fd) refl

unheard : (b : Bool) → (b && false) ≡ false
unheard true = refl
unheard false = refl

module _ {O : Type 0} where
  abbrev Good : (has_callback : Bool) → Option ℕ → Tried O → Type 0
  Good cb port t = see t.events (port, false) ≡ some (seen_at cb t.port)

  apply-Good :
      (cb : Bool) (a : Attempt O) (fd : ℕ) (t : Termios O)
      → Good cb (some fd) (apply_settings a cb fd t)
  unfolding see see_next
  apply-Good true a fd t =
      if-elim (Good true (some fd)) a.attributes_set (rw (same fd, same fd) refl)
        (closed-seen O true fd)
  apply-Good false a fd t =
      if-elim (Good false (some fd)) a.attributes_set (rw (same fd, same fd) refl)
        (closed-seen O false fd)

module _ {O : Type 0} (make_raw : Termios O → Termios O) (rtu : ModbusRtuConfig) (cb : Bool)
    (speed : Speed) (size : CharSize) (speed_lem : baud_to_speed rtu.baud ≡ some speed)
    (size_lem : data_bits_to_flag rtu.data_bits ≡ some size) where
  with_speed-Good :
      (a : Attempt O) (fd : ℕ) (t : Termios O)
      → Good cb (some fd) (with_speed rtu a cb fd t (baud_to_speed rtu.baud))
  with_speed-Good a fd t =
      rw (speed_lem, size_lem)
        (if-elim (Good cb (some fd)) a.speed_set
          (apply-Good cb a fd (line_settings rtu speed size t)) (closed-seen O cb fd))

  attributes-Good :
      (a : Attempt O) (fd : ℕ) (t : Option (Termios O))
      → Good cb (some fd) (with_attributes make_raw rtu a cb fd t)
  attributes-Good a fd none = closed-seen O cb fd
  attributes-Good a fd (some t) = with_speed-Good a fd (make_raw t)

  open-Good : (a : Attempt O) (o : Option ℕ) → Good cb none (open_port make_raw rtu a cb o)
  unfolding see see_next
  open-Good a (some fd) =
      if-elim (Good cb (some fd)) a.is_tty
        (if-elim (Good cb (some fd)) a.locked
          (if-elim (Good cb (some fd)) a.exclusive (attributes-Good a fd a.attributes)
            (closed-seen O cb fd))
          (closed-seen O cb fd))
        (closed-seen O cb fd)
  open-Good a none = rw (unheard cb) refl

  connect-Good :
      (a : Attempt O) (port : Option ℕ)
      → see (connect_port make_raw rtu a cb port).events (seen_at cb port)
        ≡ some (seen_at cb (connect_port make_raw rtu a cb port).port)
  unfolding see
  connect-Good a (some fd) = refl
  connect-Good a none = rw (unheard cb) (open-Good a a.opened)

  op-Good :
      (o : PortOp O) (port : Option ℕ)
      → see (run_op make_raw rtu cb o port).1 (seen_at cb port)
        ≡ some (seen_at cb (run_op make_raw rtu cb o port).0)
  unfolding run_op try_connect see
  op-Good op_disconnect port = disconnect-seen O cb port
  op-Good (op_connect a) port =
      if-elim {A = Tried O} (λ t. see t.events (seen_at cb port) ≡ some (seen_at cb t.port))
        a.is_running (connect-Good a port) refl

  -- For a line whose baud rate and data bits are in the tables: over any run of `tryConnect` and `disconnect`,
  -- with whatever the system's calls return, the port is opened only when none is open, closed exactly once
  -- before it is opened again, and set up only while it is open. The availability messages tell "connected"
  -- and "disconnected" in turn, and the last of them is "connected" exactly if a port is open.
  pub run_ops-seen :
      (ops : List (PortOp O)) (port : Option ℕ)
      → see (run_ops make_raw rtu cb ops port).1 (seen_at cb port)
        ≡ some (seen_at cb (run_ops make_raw rtu cb ops port).0)
  unfolding run_ops see
  run_ops-seen [] port = refl
  run_ops-seen (o ∷ os) port =
      let one = run_op make_raw rtu cb o port in
      see-append one.1 (run_ops make_raw rtu cb os one.0).1 (seen_at cb port) (seen_at cb one.0)
        (op-Good o port)
      ∙ run_ops-seen os one.0
