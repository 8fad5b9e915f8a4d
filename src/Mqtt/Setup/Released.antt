-- ===== src/Mqtt/Setup/Released.antt =====
-- What the client holds of libmosquitto over its life: a protocol that its calls follow, as the library's
-- documentation asks.
use fronius_bridge.Prelude.{
  String, Bool, true, false, ◌≡◌, refl, Option, none, some, List, [], ◌∷◌, ◌&&◌, ◌||◌, not,
  if◌then◌else◌, if-elim, has_value,
}
use fronius_bridge.Config.Types.{MqttConfig, MqttTlsConfig}
use fronius_bridge.Mqtt.Setup.{
  Call, lib_init, new, destroy, lib_cleanup, disconnect, username_pw_set, tls_set, tls_use_os_certs,
  tls_opts_set, tls_insecure_set, connect_callback_set, disconnect_callback_set, log_callback_set,
  threaded_set, connect_async, start_network, start_worker, join_network, join_worker, SetupError,
  no_client, tls_failed, tls_opts_failed, Setup, then_do, set_up, tear_down, checked, check_files,
  require_readable, set_user, set_tls, connect, with_client, trust_call, verifies_peer,
}

-- A client verifies its peer and the peer's name unless it is told not to.
pub record Held : Type 0 where
  pub lib : Bool
  pub client : Bool
  pub has_trust : Bool
  pub verify_peer : Bool
  pub verify_host : Bool
  pub connecting : Bool
  pub network : Bool
  pub worker : Bool

abbrev pub nothing : Held
nothing = record {
  lib = false;
  client = false;
  has_trust = false;
  verify_peer = true;
  verify_host = true;
  connecting = false;
  network = false;
  worker = false;
}

abbrev allow : Bool → Held → Option Held
allow ok h = if ok then some h else none

-- A client is configured before it connects.
abbrev configured : Held → Held → Option Held
configured h h' = allow (h.client && not h.connecting) h'

abbrev joined : Held → Bool
joined h = not h.network && not h.worker

module _ (succeeds : Call → Bool) where
  -- A call that does not fit what is held has no result.
  abbrev follow_one : Call → Held → Option Held
  follow_one lib_init h = allow (not h.lib) (record h { lib = true })
  follow_one new h = allow (h.lib && not h.client) (record h { client = succeeds new })
  follow_one destroy h = allow (h.client && joined h) (record nothing { lib = h.lib })
  follow_one lib_cleanup h = allow (h.lib && not h.client) (record h { lib = false })
  follow_one disconnect h = allow h.client h
  follow_one (username_pw_set u p) h = configured h h
  follow_one (tls_set a b c d) h = configured h (record h { has_trust = true })
  follow_one tls_use_os_certs h = configured h (record h { has_trust = true })
  follow_one (tls_opts_set v a b) h = configured h (record h { verify_peer = v })
  follow_one tls_insecure_set h = configured h (record h { verify_host = false })
  follow_one connect_callback_set h = configured h h
  follow_one disconnect_callback_set h = configured h h
  follow_one log_callback_set h = configured h h
  follow_one threaded_set h = configured h h
  follow_one (connect_async b p) h = configured h (record h { connecting = true })
  follow_one start_network h = allow h.connecting (record h { network = true })
  follow_one start_worker h = allow h.connecting (record h { worker = true })
  follow_one join_network h = allow h.network (record h { network = false })
  follow_one join_worker h = allow h.worker (record h { worker = false })

  follow_next : (Held → Option Held) → Option Held → Option Held
  follow_next rest none = none
  follow_next rest (some h) = rest h

  unfoldable pub follow : List Call → Held → Option Held
  unfolding follow_next
  follow [] h = some h
  follow (c ∷ cs) h = follow_next (follow cs) (follow_one c h)

abbrev strict : Option MqttTlsConfig → Bool
strict none = true
strict (some tls) = verifies_peer tls

abbrev unbound : (has_trust verify_peer verify_host : Bool) → Held
unbound t p v = record nothing {
  lib = true;
  client = true;
  has_trust = t;
  verify_peer = p;
  verify_host = v;
}

-- What is held once the constructor is through.
abbrev pub started : Option MqttTlsConfig → Held
started tls = record (unbound (has_value tls) (strict tls) (strict tls)) {
  connecting = true;
  network = true;
  worker = true;
}

unfoldable pub held_after : Option MqttTlsConfig → Option SetupError → Held
held_after tls none = started tls
held_after tls (some no_client) = record nothing { lib = true }
held_after tls (some _) = nothing

abbrev callbacks : List Call
callbacks = connect_callback_set ∷ disconnect_callback_set ∷ log_callback_set ∷ threaded_set ∷ []

module _ (succeeds : Call → Bool) (tls : Option MqttTlsConfig) where
  abbrev Ends : Held → Setup → Type 0
  Ends h r = follow succeeds r.0 h ≡ some (held_after tls r.1)

  -- A call that fails is followed by the release of all.
  checked-Ends :
      (t p v u q w : Bool) (c : Call) (e : SetupError) (rest : Setup)
      → follow_one succeeds c (unbound t p v) ≡ some (unbound u q w)
      → held_after tls (some e) ≡ nothing
      → Ends (unbound u q w) rest
      → Ends (unbound t p v) (checked succeeds c e rest)
  unfolding follow
  checked-Ends t p v u q w c e rest one gone h =
      if-elim (Ends (unbound t p v)) (succeeds c) (rw one h) (rw (one, gone) refl)

  connect-Ends :
      (cfg : MqttConfig)
      → Ends (unbound (has_value tls) (strict tls) (strict tls)) (connect succeeds cfg)
  unfolding follow held_after
  connect-Ends cfg =
      if-elim (λ r. Ends (unbound (has_value tls) (strict tls) (strict tls)) (then_do callbacks r))
        (succeeds (connect_async cfg.broker cfg.port)) refl refl

  insecure-Ends :
      (insecure p : Bool) (rest : Setup)
      → Ends (unbound true p (if insecure then false else true)) rest
      → Ends (unbound true p true) (if insecure then then_do (tls_insecure_set ∷ []) rest else rest)
  unfolding follow
  insecure-Ends true p rest h = h
  insecure-Ends false p rest h = h

  options-Ends :
      (a b insecure : Bool) (version ciphers : Option String) (rest : Setup)
      → Ends (unbound true (if insecure then false else true) true) rest
      → Ends (unbound true true true) (
          if a || (b || insecure)
          then checked succeeds
              (tls_opts_set (if insecure then false else true) version ciphers)
              tls_opts_failed
              rest
          else rest)
  unfolding follow held_after
  options-Ends false false false v c rest h = h
  options-Ends true b i v c rest h =
      checked-Ends true true true true (if i then false else true) true
        (tls_opts_set (if i then false else true) v c) tls_opts_failed rest refl refl h
  options-Ends false true i v c rest h =
      checked-Ends true true true true (if i then false else true) true
        (tls_opts_set (if i then false else true) v c) tls_opts_failed rest refl refl h
  options-Ends false false true v c rest h =
      checked-Ends true true true true false true (tls_opts_set false v c) tls_opts_failed rest refl
        refl h

  set_user-Ends :
      (cfg : MqttConfig) (rest : Setup)
      → Ends (unbound false true true) rest
      → Ends (unbound false true true) (set_user cfg rest)
  unfolding follow
  set_user-Ends cfg rest h = if-elim (Ends (unbound false true true)) (has_value cfg.user) h h

module _ (succeeds : Call → Bool) where
  trust_call-configured :
      (tls : MqttTlsConfig)
      → follow_one succeeds (trust_call tls) (unbound false true true)
        ≡ some (unbound true true true)
  trust_call-configured tls =
      if-elim (λ c. follow_one succeeds c (unbound false true true) ≡ some (unbound true true true))
        (has_value tls.ca_file || has_value tls.ca_path) refl refl

  set_tls-Ends :
      (tls : Option MqttTlsConfig) (cfg : MqttConfig)
      → Ends succeeds tls (unbound false true true) (set_tls succeeds tls (connect succeeds cfg))
  unfolding held_after
  set_tls-Ends none cfg = connect-Ends succeeds none cfg
  set_tls-Ends (some t) cfg =
      checked-Ends succeeds (some t) false true true true true true (trust_call t) tls_failed _
        (trust_call-configured t) refl
        (options-Ends succeeds (some t) (has_value t.tls_version) (has_value t.ciphers) t.insecure
          t.tls_version t.ciphers _
          (insecure-Ends succeeds (some t) t.insecure (if t.insecure then false else true) _
            (connect-Ends succeeds (some t) cfg)))

module _ (can_read : String → Bool) (succeeds : Call → Bool) where
  require_readable-Ends :
      (tls : Option MqttTlsConfig) (path : Option String) (what : String) (rest : Setup)
      → Ends succeeds tls nothing rest
      → Ends succeeds tls nothing (require_readable can_read path what rest)
  unfolding require_readable follow held_after
  require_readable-Ends tls none what rest h = h
  require_readable-Ends tls (some path) what rest h =
      if-elim (Ends succeeds tls nothing) (can_read path) h refl

  check_files-Ends :
      (tls : Option MqttTlsConfig) (rest : Setup)
      → Ends succeeds tls nothing rest
      → Ends succeeds tls nothing (check_files can_read tls rest)
  unfolding check_files
  check_files-Ends none rest h = h
  check_files-Ends (some t) rest h =
      let file = require_readable-Ends (some t) in
      file t.ca_file "ca_file" _ (
        file t.ca_path "ca_path" _
          (file t.cert_file "cert_file" _ (file t.key_file "key_file" rest h)))

  made-Ends :
      (b : Bool) (tls : Option MqttTlsConfig) (rest : Setup)
      → succeeds new ≡ b
      → Ends succeeds tls (unbound false true true) rest
      → Ends succeeds tls nothing
          (then_do (lib_init ∷ new ∷ []) (if b then rest else ([], some no_client)))
  unfolding follow held_after
  made-Ends true tls rest e h = rw e h
  made-Ends false tls rest e h = rw e refl

  -- What is held after the constructor is what it returns or throws says, and after the destructor of a
  -- client that was constructed it is nothing.
  abbrev pub Follows : MqttConfig → Type 0
  Follows cfg =
      (follow succeeds (set_up can_read succeeds cfg).0 nothing
        ≡ some (held_after cfg.tls (set_up can_read succeeds cfg).1))
      × (follow succeeds tear_down (started cfg.tls) ≡ some nothing)

  -- The constructor keeps to the library's protocol: each call finds what it needs, every TLS option is set
  -- before the client connects, and nothing is freed twice. If it throws, the client has been destroyed, no
  -- thread runs and the library has been cleaned up, except where no client could be made: then the library
  -- stays initialised. If it does not throw, a client with TLS has a trust store, and it verifies its peer
  -- and the peer's name unless the configuration says `insecure`; the two threads run, and after the
  -- destructor nothing is held.
  pub set_up-Follows : (cfg : MqttConfig) → Follows cfg
  unfolding set_up follow tear_down
  set_up-Follows cfg = (
    check_files-Ends cfg.tls _ (
        made-Ends (succeeds new) cfg.tls (with_client succeeds cfg) refl
          (set_user-Ends succeeds cfg.tls cfg _ (set_tls-Ends succeeds cfg.tls cfg))),
    refl,
  )
