-- ===== src/EasyMeter/Port.antt =====
-- `tryConnect` and `disconnect` of src/easy_meter.cpp, with the line settings of src/config_yaml.cpp that they
-- use. What the system's calls return is an input; `other` is what the driver keeps besides the line.
pub mod Balance
pub mod Settings
use fronius_bridge.Prelude.{
  ℕ, ℤ, pos, String, Bool, true, false, Option, none, some, List, [], ◌∷◌, ◌++◌, find, ◌==◌, int_eq,
  ◌||◌, not, if◌then◌else◌,
}
use fronius_bridge.Config.Types.{ModbusRtuConfig, Parity, no_parity, even, odd}

pub data Speed : Type 0 where
  b1200 b2400 b4800 b9600 b19200 b38400 b57600 b115200 b230400 b460800 : Speed

pub data CharSize : Type 0 where
  cs5 cs6 cs7 cs8 : CharSize

abbrev pub speeds : List (ℤ × Speed)
speeds =
    (pos 1200, b1200)
    ∷ (pos 2400, b2400)
    ∷ (pos 4800, b4800)
    ∷ (pos 9600, b9600)
    ∷ (pos 19200, b19200)
    ∷ (pos 38400, b38400)
    ∷ (pos 57600, b57600)
    ∷ (pos 115200, b115200)
    ∷ (pos 230400, b230400)
    ∷ (pos 460800, b460800)
    ∷ []

-- `lookupBaud`; no speed stands for the exception of `baudToSpeed`.
unfoldable pub baud_to_speed : ℤ → Option Speed
baud_to_speed baud = find baud speeds

abbrev pub sizes : List (ℤ × CharSize)
sizes = (pos 5, cs5) ∷ (pos 6, cs6) ∷ (pos 7, cs7) ∷ (pos 8, cs8) ∷ []

-- No flag stands for the exception.
unfoldable pub data_bits_to_flag : ℤ → Option CharSize
data_bits_to_flag data_bits = find data_bits sizes

-- The parts of `termios` that the program sets by name.
pub record Termios (O : Type 0) : Type 0 where
  pub ispeed : Speed
  pub ospeed : Speed
  pub size : CharSize
  pub clocal : Bool
  pub cread : Bool
  pub parenb : Bool
  pub parodd : Bool
  pub cstopb : Bool
  pub crtscts : Bool
  pub vmin : ℕ
  pub vtime : ℕ
  pub other : O

abbrev pub buffer_size : ℕ
buffer_size = 64

-- What the calls of one attempt return: the descriptor, and whether a call succeeds. `cfsetispeed` and
-- `cfsetospeed` are one answer, that they both return 0.
pub record Attempt (O : Type 0) : Type 0 where
  pub is_running : Bool
  pub opened : Option ℕ
  pub is_tty : Bool
  pub locked : Bool
  pub exclusive : Bool
  pub attributes : Option (Termios O)
  pub speed_set : Bool
  pub attributes_set : Bool

pub data PortEvent (O : Type 0) : Type 0 where
  open_device close : (fd : ℕ) → PortEvent O
  tcsetattr : (fd : ℕ) → Termios O → PortEvent O
  tcflush : (fd : ℕ) → PortEvent O
  -- the availability callback
  availability : String → PortEvent O

-- `thrown` is the `std::logic_error` of a baud rate or of data bits that no table has.
pub data Connected : Type 0 where
  connected interrupted thrown : Connected
  failed : (what : String) → Connected

-- What a call of `tryConnect` comes to: what it returns, `serialPort_` after it, and what it has done.
pub record Tried (O : Type 0) : Type 0 where
  pub result : Connected
  pub port : Option ℕ
  pub events : List (PortEvent O)

module _ {O : Type 0} where
  abbrev pub stopped : Connected → Option ℕ → Tried O
  stopped r port = record { result = r; port = port; events = [] }

  -- An error after `open`: the port is closed, with errno kept.
  abbrev pub fail : (fd : ℕ) → (what : String) → Tried O
  fail fd what = record { result = failed what; port = none; events = close fd ∷ [] }

  abbrev pub set_parity : Parity → Termios O → Termios O
  set_parity even t = record t { parenb = true; parodd = false }
  set_parity odd t = record t { parenb = true; parodd = true }
  set_parity no_parity t = t

  abbrev pub set_stop_bits : ℤ → Termios O → Termios O
  set_stop_bits stop_bits t = if stop_bits == pos 2 then record t { cstopb = true } else t

  -- The flags are set after those of size, parity, stop bits and flow control are cleared.
  unfoldable pub line_settings : ModbusRtuConfig → Speed → CharSize → Termios O → Termios O
  line_settings rtu speed size t =
      let cleared : Termios O = record t {
        ispeed = speed;
        ospeed = speed;
        size = size;
        clocal = true;
        cread = true;
        parenb = false;
        parodd = false;
        cstopb = false;
        crtscts = false;
      } in
      record (set_stop_bits rtu.stop_bits (set_parity rtu.parity cleared)) {
        vmin = buffer_size;
        vtime = 5;
      }

  -- What follows when the descriptor has its settings.
  abbrev pub apply_settings : Attempt O → (has_callback : Bool) → (fd : ℕ) → Termios O → Tried O
  apply_settings a has_callback fd t =
      if a.attributes_set
      then record {
        result = connected;
        port = some fd;
        events =
            tcsetattr fd t
            ∷ tcflush fd
            ∷ (if has_callback then availability "connected" ∷ [] else []);
      }
      else fail fd "Failed to set serial port attributes"

  abbrev pub with_flag :
      ModbusRtuConfig → Attempt O → Bool → ℕ → Termios O → Speed → Option CharSize → Tried O
  with_flag rtu a has_callback fd t speed none = stopped thrown (some fd)
  with_flag rtu a has_callback fd t speed (some size) =
      apply_settings a has_callback fd (line_settings rtu speed size t)

  abbrev pub with_speed :
      ModbusRtuConfig → Attempt O → Bool → ℕ → Termios O → Option Speed → Tried O
  with_speed rtu a has_callback fd t none = stopped thrown (some fd)
  with_speed rtu a has_callback fd t (some speed) =
      if a.speed_set
      then with_flag rtu a has_callback fd t speed (data_bits_to_flag rtu.data_bits)
      else fail fd "Failed to set serial port speed"

  -- `make_raw` is `cfmakeraw`.
  module _ (make_raw : Termios O → Termios O) where
    abbrev pub with_attributes :
        ModbusRtuConfig → Attempt O → Bool → ℕ → Option (Termios O) → Tried O
    with_attributes rtu a has_callback fd none = fail fd "Failed to get serial port attributes"
    with_attributes rtu a has_callback fd (some t) =
        with_speed rtu a has_callback fd (make_raw t) (baud_to_speed rtu.baud)

    abbrev pub set_up_port : ModbusRtuConfig → Attempt O → Bool → ℕ → Tried O
    set_up_port rtu a has_callback fd =
        if a.is_tty
        then (if a.locked
            then (if a.exclusive
                then with_attributes rtu a has_callback fd a.attributes
                else fail fd "Failed to set exclusive lock")
            else fail fd "Failed to lock serial device")
        else fail fd "Device is not a tty"

    abbrev pub open_port : ModbusRtuConfig → Attempt O → Bool → Option ℕ → Tried O
    open_port rtu a has_callback none = stopped (failed "Opening serial device failed") none
    open_port rtu a has_callback (some fd) =
        let set_up = set_up_port rtu a has_callback fd in
        record set_up { events = open_device fd ∷ set_up.events }

    -- A port that is open stays as it is.
    abbrev pub connect_port : ModbusRtuConfig → Attempt O → Bool → Option ℕ → Tried O
    connect_port rtu a has_callback (some fd) = stopped connected (some fd)
    connect_port rtu a has_callback none = open_port rtu a has_callback a.opened

    -- `EasyMeter::tryConnect`
    unfoldable pub try_connect : ModbusRtuConfig → Attempt O → Bool → Option ℕ → Tried O
    try_connect rtu a has_callback port =
        if a.is_running then connect_port rtu a has_callback port else stopped interrupted port

  -- `EasyMeter::disconnect`, but for its wait: what it does. It leaves no port.
  unfoldable pub disconnect : (has_callback : Bool) → Option ℕ → List (PortEvent O)
  disconnect has_callback none = []
  disconnect has_callback (some fd) =
      close fd ∷ (if has_callback then availability "disconnected" ∷ [] else [])

-- The calls that the loop and the destructor make on the port.
pub data PortOp (O : Type 0) : Type 0 where
  op_connect : Attempt O → PortOp O
  op_disconnect : PortOp O

module _ {O : Type 0} (make_raw : Termios O → Termios O) (rtu : ModbusRtuConfig)
    (has_callback : Bool) where
  unfoldable pub run_op : PortOp O → Option ℕ → Option ℕ × List (PortEvent O)
  run_op (op_connect a) port =
      let tried = try_connect make_raw rtu a has_callback port in (tried.port, tried.events)
  run_op op_disconnect port = (none, disconnect has_callback port)

  unfoldable pub run_ops : List (PortOp O) → Option ℕ → Option ℕ × List (PortEvent O)
  run_ops [] port = (port, [])
  run_ops (o ∷ os) port =
      let (port1, done) = run_op o port in
      let (port2, rest) = run_ops os port1 in (port2, done ++ rest)
