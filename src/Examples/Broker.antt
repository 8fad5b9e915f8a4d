-- ===== src/Examples/Broker.antt =====
-- The broker's client, the start of the program and the serial port at concrete configurations.
use fronius_bridge.Prelude.{
  ℕ, pos, ◌≡◌, refl, String, Bool, true, false, Option, none, some, List, [], ◌∷◌, ◌++◌, text_eq,
  ok, find, arith,
}
use fronius_bridge.Config.Types.{MqttConfig}
use fronius_bridge.Config.Parse.{default_reconnect_delay}
use fronius_bridge.Config.Load.{AppConfig}
use fronius_bridge.Main.Start.{
  Options, Action, start_mqtt, start_slaves, plan, start, run_main, exit_code,
}
use fronius_bridge.Main.Start.Fails.{run_main-failed}
use fronius_bridge.Shutdown.{raised}
use fronius_bridge.Config.Types.{ModbusRtuConfig, even, info}
use fronius_bridge.Config.Parse.{is_supported}
use fronius_bridge.EasyMeter.Port.{
  b9600, cs7, Termios, Attempt, PortOp, op_connect, op_disconnect, baud_to_speed, data_bits_to_flag,
  try_connect, run_ops,
}
use fronius_bridge.EasyMeter.Port.Balance.{see, seen_at, run_ops-seen}
use fronius_bridge.EasyMeter.Port.Settings.{Ends, try_connect-Ends}
use fronius_bridge.Db.Handles.{Objects, Step, make, move_construct, move_assign, destroy, steps}
use fronius_bridge.Db.Handles.Freed.{count, handed_out, steps-freed}
use fronius_bridge.Readers.Registration.{
  BusCall, register_device, add_error_callback, Reader, attach, detach,
}
use fronius_bridge.Readers.Registration.Detached.{OnBus, calls, detach-Absent}
use fronius_bridge.Mqtt.{Topics, Broker}
use fronius_bridge.Mqtt.Setup.{Call, tls_use_os_certs}
use fronius_bridge.Mqtt.Setup.Released.{Follows, set_up-Follows}
use fronius_bridge.Mqtt.Worker.{Wake, Worker, has_queued_messages, run_turn, run}
use fronius_bridge.Mqtt.Worker.Delivers.{
  accepted, refused, AllSent, run_turn-AllSent, Ended, run-Ended,
}
use fronius_bridge.Mqtt.Worker.Spins.{Spun, run-Spun}

abbrev public_broker : MqttConfig
public_broker = record {
  broker = "broker.example";
  port = pos 8883;
  topic = "fronius-bridge";
  user = some "bridge";
  password = none;
  queue_size = pos 100;
  reconnect_delay = default_reconnect_delay;
  tls = some (record {
    ca_file = none;
    ca_path = none;
    cert_file = some "/etc/bridge.pem";
    key_file = none;
    tls_version = none;
    ciphers = none;
    insecure = true;
  });
}

-- The trust store of the system cannot be used.
abbrev no_os_certs : Call → Bool
no_os_certs tls_use_os_certs = false
no_os_certs _ = true

set_up-Follows_example : Follows (λ path. true) no_os_certs public_broker
set_up-Follows_example = set_up-Follows (λ path. true) no_os_certs public_broker

abbrev two_topics : Topics
two_topics =
    ("a", record { last_payload_hash = some 0; queue = "1" ∷ "2" ∷ []; dropped_count = 3 })
    ∷ ("b", record { last_payload_hash = none; queue = "3" ∷ []; dropped_count = 0 })
    ∷ []

abbrev idle : Worker
idle = record { topics = []; sent = []; calls = 0; stopped = false }

abbrev busy : Worker
busy = record idle { topics = two_topics }

abbrev wake : Bool → Wake
wake runs = record { arrive = λ m. two_topics; connected = true; is_running = runs; runs_on = runs }

abbrev quiet : Wake
quiet = record { arrive = λ m. m; connected = true; is_running = true; runs_on = true }

abbrev accepting : String → Broker
accepting name calls payload = accepted

abbrev refusing : String → Broker
refusing name calls payload = refused

run_turn-AllSent_example : AllSent (wake true) idle (run_turn accepting (wake true) idle)
run_turn-AllSent_example =
    run_turn-AllSent accepting (wake true) idle (λ name calls payload. refl) refl

run-Ended_example : Ended (wake false) idle (run accepting (wake false ∷ quiet ∷ []) idle)
run-Ended_example =
    run-Ended accepting (wake false) (quiet ∷ []) idle (λ name calls payload. refl) refl refl

run-Spun_example : Spun 2 busy (run refusing (quiet ∷ quiet ∷ []) busy)
unfolding has_queued_messages
run-Spun_example =
    run-Spun refusing (λ name calls payload. refl) (quiet ∷ quiet ∷ []) busy
      ((λ m. refl, refl, refl, refl), ((λ m. refl, refl, refl, refl), tt)) refl refl

abbrev no_devices : AppConfig ℕ
no_devices = record {
  devices = record { inverters = []; meters = [] };
  mqtt = public_broker;
  postgres = none;
  logger = record { global_level = info; module_levels = [] };
  site = none;
  buses = [];
  device_registry = [];
}

abbrev as_user : Options
as_user = record { run_user = ""; run_group = ""; no_migrate = false }

abbrev mqtt_throws : Action → Option String
mqtt_throws start_mqtt = some "Failed to create mosquitto client"
mqtt_throws a = none

run_main-failed_example :
    exit_code (
      run_main mqtt_throws "map::at" {E = String} false as_user (ok no_devices) [] (raised 15 ∷ []))
    ≡ 1
unfolding start plan start_slaves
run_main-failed_example =
    run_main-failed mqtt_throws "map::at" false as_user no_devices
      "Failed to create mosquitto client" [] (raised 15 ∷ []) refl

abbrev line : ModbusRtuConfig
line = record {
  device = "/dev/ttyUSB0";
  baud = pos 9600;
  data_bits = pos 7;
  stop_bits = pos 1;
  parity = even;
}

abbrev cooked : Termios (Unit {0})
cooked = record {
  ispeed = b9600;
  ospeed = b9600;
  size = cs7;
  clocal = false;
  cread = false;
  parenb = false;
  parodd = true;
  cstopb = true;
  crtscts = true;
  vmin = 1;
  vtime = 0;
  other = tt;
}

abbrev attempt : Bool → Attempt (Unit {0})
attempt locked = record {
  is_running = true;
  opened = some 7;
  is_tty = true;
  locked = locked;
  exclusive = true;
  attributes = some cooked;
  speed_set = true;
  attributes_set = true;
}

abbrev ops : List (PortOp (Unit {0}))
ops = op_connect (attempt false) ∷ op_connect (attempt true) ∷ op_disconnect ∷ op_disconnect ∷ []

run_ops-seen_example :
    see (run_ops (λ t. t) line true ops none).1 (seen_at true none)
    ≡ some (seen_at true (run_ops (λ t. t) line true ops none).0)
unfolding baud_to_speed data_bits_to_flag find
run_ops-seen_example = run_ops-seen (λ t. t) line true b9600 cs7 refl refl ops none

try_connect-Ends_example :
    Ends line []
      (try_connect (λ t. t) line (attempt true) true none).result
      (try_connect (λ t. t) line (attempt true) true none).port
      (try_connect (λ t. t) line (attempt true) true none).events
unfolding is_supported
try_connect-Ends_example =
    try_connect-Ends (λ t. t) line true (refl, omega arith, omega arith, omega arith, omega arith)
      (attempt true)

-- Two results: one is assigned over the other, and to itself, and both objects go.
abbrev moves : List Step
moves =
    make 0 (some 11)
    ∷ make 1 (some 12)
    ∷ move_assign 0 1
    ∷ move_assign 0 0
    ∷ move_construct 1 0
    ∷ destroy 1
    ∷ destroy 0
    ∷ []

abbrev none_owned : Objects
none_owned = record { handles = none ∷ none ∷ []; freed = [] }

steps-freed_example : count 12 (steps moves none_owned).freed ≡ handed_out 12 moves
unfolding steps
steps-freed_example =
    steps-freed 12 moves none_owned (refl, (refl, tt)) refl
      (
        omega arith,
        (
          omega arith,
          (
            (omega arith, omega arith),
            (
              (omega arith, omega arith),
              ((omega arith, omega arith), (omega arith, (omega arith, tt))),
            ),
          ),
        ),
      )
      (refl, (refl, tt))

-- A bus with another reader, and one that joins meanwhile.
abbrev shared_bus : OnBus
shared_bus = record { devices = 1 ∷ []; callbacks = 3 ∷ 2 ∷ 1 ∷ [] }

abbrev roof : Reader
roof = record { device = 2; on_connect = 4; on_disconnect = 5; on_error = 6 }

abbrev joins : List BusCall
joins = register_device 3 ∷ add_error_callback 7 ∷ []

detach-Absent_example :
    calls (attach roof ++ (joins ++ detach roof true)) shared_bus ≡ calls joins shared_bus
detach-Absent_example =
    detach-Absent roof joins true shared_bus
      ((refl, tt), ((refl, refl, refl), ((refl, refl, refl), ((refl, refl, refl), tt))))
      (refl, ((refl, refl, refl), tt))
