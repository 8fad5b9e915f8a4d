-- ===== src/Config/Services.antt =====
-- The parsers of the other sections: `parseMqtt`, `parseMqttTls`, `parsePostgres`, `parseLogger` and `parseSite`.
use fronius_bridge.Prelude.{
  String, append, Bool, true, false, ◌||◌, ◌&&◌, not, Option, none, some, List, [], ◌∷◌, ℤ, pos,
  leb_ℤ, ◌==◌, text_eq, put, if◌then◌else◌, has_value, Result, ok, err, ◌>>=◌, ◌>>◌, throw_if,
}
use fronius_bridge.Doubles.{Doubles}
use fronius_bridge.Config.Types.{
  MqttTlsConfig, MqttConfig, PostgresConfig, Level, off, error, warn, info, debug, trace,
  LoggerConfig, SiteConfig,
}
use fronius_bridge.Config.Yaml.{
  Yaml, ParseError, required, not_in_range, bad_conversion, unknown, set_together,
  ca_source_required, or_default, or_throw, int_of, text_of, flag_of, text_optional,
  text_or_empty_at,
}
use fronius_bridge.Config.Parse.{within, one_of, parse_reconnect_delay}

unfoldable pub parse_log_level : String → Result ParseError Level
parse_log_level s =
    if s == "off"
    then ok off
    else if s == "error"
    then ok error
    else if s == "warn"
    then ok warn
    else if s == "info"
    then ok info
    else if s == "debug"
    then ok debug
    else if s == "trace"
    then ok trace
    else err (unknown "level" s)

-- A client certificate has its key and a source of CA certificates.
abbrev pub check_tls : MqttTlsConfig → Result ParseError (Unit {0})
check_tls cfg = do
  throw_if (one_of (has_value cfg.cert_file) (has_value cfg.key_file)) set_together
  throw_if (has_value cfg.cert_file && not (has_value cfg.ca_file) && not (has_value cfg.ca_path))
      ca_source_required

module _ {N F : Type 0} (yaml : Yaml N F) where
  unfoldable pub parse_positive_size : N → String → (def : ℤ) → Result ParseError ℤ
  parse_positive_size node key def = do
    let value = or_default (int_of yaml node key) def
    throw_if (leb_ℤ value (pos 0)) (not_in_range key)
    ok value

  unfoldable pub parse_mqtt_tls : Option N → Result ParseError (Option MqttTlsConfig)
  parse_mqtt_tls none = ok none
  parse_mqtt_tls (some node) = do
    ca_file ← text_optional yaml (yaml.child node "ca_file")
    ca_path ← text_optional yaml (yaml.child node "ca_path")
    cert_file ← text_optional yaml (yaml.child node "cert_file")
    key_file ← text_optional yaml (yaml.child node "key_file")
    tls_version ← text_optional yaml (yaml.child node "tls_version")
    ciphers ← text_optional yaml (yaml.child node "ciphers")
    let cfg : MqttTlsConfig = record {
      ca_file = ca_file;
      ca_path = ca_path;
      cert_file = cert_file;
      key_file = key_file;
      tls_version = tls_version;
      ciphers = ciphers;
      insecure = or_default (flag_of yaml node "insecure") false;
    }
    check_tls cfg
    ok (some cfg)

  unfoldable pub parse_mqtt : Option N → Result ParseError MqttConfig
  unfolding parse_positive_size parse_mqtt_tls
  parse_mqtt none = err (required "mqtt")
  parse_mqtt (some node) = do
    let port = or_default (int_of yaml node "port") (pos 1883)
    queue_size ← parse_positive_size node "queue_size" (pos 100)
    user ← text_optional yaml (yaml.child node "user")
    password ← text_optional yaml (yaml.child node "password")
    reconnect_delay ← parse_reconnect_delay yaml (yaml.child node "reconnect_delay")
    tls ← parse_mqtt_tls (yaml.child node "tls")
    throw_if (not (within (pos 1) (pos 65535) port)) (not_in_range "mqtt.port")
    ok (record {
      broker = or_default (text_of yaml node "broker") "localhost";
      port = port;
      topic = or_default (text_of yaml node "topic") "fronius-bridge";
      user = user;
      password = password;
      queue_size = queue_size;
      reconnect_delay = reconnect_delay;
      tls = tls;
    })

  unfoldable pub parse_postgres : Option N → Result ParseError (Option PostgresConfig)
  unfolding parse_positive_size
  parse_postgres none = ok none
  parse_postgres (some node) = do
    let dsn = text_or_empty_at yaml (yaml.child node "dsn")
    throw_if (dsn == "") (required "postgres.dsn")
    queue_size ← parse_positive_size node "queue_size" (pos 10000)
    reconnect_delay ← parse_reconnect_delay yaml (yaml.child node "reconnect_delay")
    ok (
        some (record {
          dsn = dsn;
          queue_size = queue_size;
          reconnect_delay = reconnect_delay;
          auto_migrate = true;
        }))

  abbrev pub level_at : N → Result ParseError Level
  level_at node = or_throw bad_conversion (yaml.as_text node) >>= parse_log_level

  -- The entries of `modules`, where a map names the modules below its key.
  unfoldable pub parse_submodules :
      String → List (N × N) → List (String × Level) → Result ParseError (List (String × Level))
  unfolding parse_log_level
  parse_submodules key [] levels = ok levels
  parse_submodules key ((k, v) ∷ rest) levels = do
    subkey ← or_throw bad_conversion (yaml.as_text k)
    level ← level_at v
    parse_submodules key rest (put (append key (append "." subkey)) level levels)

  abbrev pub parse_module :
      String → N → List (String × Level) → Result ParseError (List (String × Level))
  parse_module key v levels =
      if yaml.is_map v
      then parse_submodules key (yaml.entries v) levels
      else (level_at v >>= λ level. ok (put key level levels))

  unfoldable pub parse_modules :
      List (N × N) → List (String × Level) → Result ParseError (List (String × Level))
  unfolding parse_submodules
  parse_modules [] levels = ok levels
  parse_modules ((k, v) ∷ rest) levels = do
    key ← or_throw bad_conversion (yaml.as_text k)
    levels' ← parse_module key v levels
    parse_modules rest levels'

  abbrev pub level_or_info : Option N → Result ParseError Level
  level_or_info none = ok info
  level_or_info (some n) = level_at n

  abbrev pub entries_at : Option N → List (N × N)
  entries_at none = []
  entries_at (some n) = yaml.entries n

  unfoldable pub parse_logger : Option N → Result ParseError LoggerConfig
  unfolding parse_modules parse_log_level
  parse_logger none = ok (record { global_level = info; module_levels = [] })
  parse_logger (some node) = do
    level ← level_or_info (yaml.child node "level")
    levels ← parse_modules (entries_at (yaml.child node "modules")) []
    ok (record { global_level = level; module_levels = levels })

  module _ (dbl : Doubles F) where
    abbrev pub outside : (lo hi : String) → F → Bool
    outside lo hi x = dbl.less x (dbl.literal lo) || dbl.less (dbl.literal hi) x

    unfoldable pub parse_degrees : (key lo hi : String) → Option N → Result ParseError F
    parse_degrees key lo hi none = err (required key)
    parse_degrees key lo hi (some node) = do
      x ← or_throw bad_conversion (yaml.as_number node)
      throw_if (outside lo hi x) (not_in_range key)
      ok x

    abbrev pub horizon_or_default : Option N → Result ParseError F
    horizon_or_default none = ok (dbl.literal "-0.833")
    horizon_or_default (some node) = parse_degrees "site.horizon" "-18.0" "20.0" (some node)

    unfoldable pub parse_site : N → Result ParseError (SiteConfig F)
    unfolding parse_degrees
    parse_site node = do
      latitude ← parse_degrees "site.latitude" "-90.0" "90.0" (yaml.child node "latitude")
      longitude ← parse_degrees "site.longitude" "-180.0" "180.0" (yaml.child node "longitude")
      horizon ← horizon_or_default (yaml.child node "horizon")
      ok (record { latitude = latitude; longitude = longitude; horizon = horizon })
