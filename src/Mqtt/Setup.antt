-- ===== src/Mqtt/Setup.antt =====
-- `requireReadable`, the constructor and the destructor of src/mqtt_client.cpp: the calls of libmosquitto that
-- they make. Whether a file can be read and whether a call succeeds are parameters.

pub mod Released
use fronius_bridge.Prelude.{
  ℤ, String, Bool, true, false, Option, none, some, List, [], ◌∷◌, ◌++◌, ◌||◌, if◌then◌else◌,
  has_value,
}
use fronius_bridge.Config.Types.{MqttConfig, MqttTlsConfig}

pub data Call : Type 0 where
  lib_init new destroy lib_cleanup disconnect : Call
  username_pw_set : (user password : Option String) → Call
  tls_set : (ca_file ca_path cert_file key_file : Option String) → Call
  tls_use_os_certs : Call
  tls_opts_set : (verify_peer : Bool) → (tls_version ciphers : Option String) → Call
  tls_insecure_set : Call
  connect_callback_set disconnect_callback_set log_callback_set threaded_set : Call
  connect_async : (broker : String) → (port : ℤ) → Call
  -- `networkThread_` and `worker_`
  start_network start_worker join_network join_worker : Call

-- The exceptions of the constructor.
pub data SetupError : Type 0 where
  unreadable : (what path : String) → SetupError
  no_client tls_failed tls_opts_failed connect_failed : SetupError

-- The calls that were made, and the exception, if there is one.
abbrev pub Setup : Type 0
Setup = List Call × Option SetupError

abbrev pub then_do : List Call → Setup → Setup
then_do cs (ds, e) = (cs ++ ds, e)

-- `mosquitto_destroy`, `mosquitto_lib_cleanup`, and the exception
abbrev pub give_up : Call → SetupError → Setup
give_up c e = (c ∷ destroy ∷ lib_cleanup ∷ [], some e)

abbrev pub set_user : MqttConfig → Setup → Setup
set_user cfg rest =
    if has_value cfg.user then then_do (username_pw_set cfg.user cfg.password ∷ []) rest else rest

-- The trust store: the files of the configuration, or that of the system.
abbrev pub trust_call : MqttTlsConfig → Call
trust_call tls =
    if has_value tls.ca_file || has_value tls.ca_path
    then tls_set tls.ca_file tls.ca_path tls.cert_file tls.key_file
    else tls_use_os_certs

abbrev pub has_options : MqttTlsConfig → Bool
has_options tls = has_value tls.tls_version || (has_value tls.ciphers || tls.insecure)

abbrev pub verifies_peer : MqttTlsConfig → Bool
verifies_peer tls = if tls.insecure then false else true

abbrev pub set_insecure : MqttTlsConfig → Setup → Setup
set_insecure tls rest = if tls.insecure then then_do (tls_insecure_set ∷ []) rest else rest

module _ (can_read : String → Bool) where
  unfoldable pub require_readable : Option String → (what : String) → Setup → Setup
  require_readable none what rest = rest
  require_readable (some path) what rest =
      if can_read path then rest else ([], some (unreadable what path))

  unfoldable pub check_files : Option MqttTlsConfig → Setup → Setup
  unfolding require_readable
  check_files none rest = rest
  check_files (some tls) rest = require_readable tls.ca_file "ca_file" (
      require_readable tls.ca_path "ca_path" (
        require_readable tls.cert_file "cert_file" (require_readable tls.key_file "key_file" rest)))

module _ (succeeds : Call → Bool) where
  abbrev pub checked : Call → SetupError → Setup → Setup
  checked c e rest = if succeeds c then then_do (c ∷ []) rest else give_up c e

  abbrev pub set_options : MqttTlsConfig → Setup → Setup
  set_options tls rest =
      if has_options tls
      then checked (tls_opts_set (verifies_peer tls) tls.tls_version tls.ciphers) tls_opts_failed
          rest
      else rest

  abbrev pub set_tls : Option MqttTlsConfig → Setup → Setup
  set_tls none rest = rest
  set_tls (some tls) rest =
      checked (trust_call tls) tls_failed (set_options tls (set_insecure tls rest))

  abbrev pub connect : MqttConfig → Setup
  connect cfg =
      then_do
        (connect_callback_set ∷ disconnect_callback_set ∷ log_callback_set ∷ threaded_set ∷ [])
        (checked (connect_async cfg.broker cfg.port) connect_failed
          (start_network ∷ start_worker ∷ [], none))

  abbrev pub with_client : MqttConfig → Setup
  with_client cfg = set_user cfg (set_tls cfg.tls (connect cfg))

-- `MqttClient::MqttClient`
unfoldable pub set_up : (can_read : String → Bool) (succeeds : Call → Bool) → MqttConfig → Setup
set_up can_read succeeds cfg = check_files can_read cfg.tls (
    then_do (lib_init ∷ new ∷ [])
      (if succeeds new then with_client succeeds cfg else ([], some no_client)))

-- `MqttClient::~MqttClient`, for a client that was constructed.
unfoldable pub tear_down : List Call
tear_down = join_network ∷ join_worker ∷ disconnect ∷ destroy ∷ lib_cleanup ∷ []
