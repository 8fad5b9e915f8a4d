-- ===== src/Mqtt/Callbacks.antt =====
-- `onConnect`, `onDisconnect` and `onLog` of src/mqtt_client.cpp. `reason` makes the text of a refusal from the
-- broker's code, as libmosquitto does. What is logged is left out, but for the level.
use fronius_bridge.Prelude.{
  ℤ, pos, ◌≡◌, refl, ◌∙◌, String, Bool, true, false, List, [], ◌∷◌, ◌==◌, int_eq, if◌then◌else◌,
}
use fronius_bridge.Config.Types.{Level, trace, info, warn, error}
use fronius_bridge.Shutdown.{SignalHandler, Occurrence, gave_up, shutdown, occur, occur_all}

-- `connected_`, and the program's flags.
pub record Link : Type 0 where
  pub connected : Bool
  pub handler : SignalHandler

-- The broker's codes for a connection that it accepts, and for one that it cannot serve now.
abbrev pub connack_accepted : ℤ
connack_accepted = pos 0

abbrev pub connack_server_unavailable : ℤ
connack_server_unavailable = pos 3

pub data Callback : Type 0 where
  connect disconnect : (rc : ℤ) → Callback

unfoldable pub on_disconnect : ℤ → Link → Link
on_disconnect rc l = record l { connected = false }

module _ (reason : ℤ → String) where
  unfoldable pub on_connect : ℤ → Link → Link
  unfolding shutdown
  on_connect rc l =
      let refused = shutdown true (reason rc) l.handler in
      record {
        connected = rc == connack_accepted;
        handler =
            if rc == connack_accepted
            then l.handler
            else if rc == connack_server_unavailable
            then l.handler
            else refused;
      }

  unfoldable pub call_back : Callback → Link → Link
  unfolding on_connect on_disconnect
  call_back (connect rc) l = on_connect rc l
  call_back (disconnect rc) l = on_disconnect rc l

  unfoldable pub call_back_all : List Callback → Link → Link
  call_back_all [] l = l
  call_back_all (c ∷ cs) l = call_back_all cs (call_back c l)

  -- The refusals that no wait can cure.
  abbrev pub refusals : List Callback → List Occurrence
  refusals [] = []
  refusals (connect rc ∷ cs) =
      let rest = refusals cs in
      if rc == connack_accepted
      then rest
      else if rc == connack_server_unavailable
      then rest
      else gave_up (reason rc) ∷ rest
  refusals (disconnect rc ∷ cs) = refusals cs

  -- Whether the last callback is that of a connection that was accepted.
  abbrev pub last_connected : Bool → List Callback → Bool
  last_connected b [] = b
  last_connected b (connect rc ∷ cs) = last_connected (rc == connack_accepted) cs
  last_connected b (disconnect rc ∷ cs) = last_connected false cs

  -- Over any run of the callbacks the client counts as connected exactly if the last of them told of an
  -- accepted connection, and the program is asked to end, with the broker's reason, at each refusal but that
  -- of a server that is unavailable, and at nothing else.
  pub call_back_all-refusals :
      (cs : List Callback) (l : Link)
      → ((call_back_all cs l).connected ≡ last_connected l.connected cs)
        × ((call_back_all cs l).handler ≡ occur_all (refusals cs) l.handler)
  unfolding call_back_all call_back on_connect on_disconnect occur_all occur
  call_back_all-refusals [] l = (refl, refl)
  call_back_all-refusals (disconnect rc ∷ cs) l =
      call_back_all-refusals cs (record l { connected = false })
  call_back_all-refusals (connect rc ∷ cs) l =
      let (a, b) = call_back_all-refusals cs (on_connect rc l) in
      (a, b ∙ refused_or_not (rc == connack_accepted) (rc == connack_server_unavailable))
    where
      refused_or_not :
          (x y : Bool)
          → occur_all (refusals cs) (
              if x then l.handler else if y then l.handler else shutdown true (reason rc) l.handler)
            ≡ occur_all
                (if x
                  then refusals cs
                  else if y
                  then refusals cs
                  else gave_up (reason rc) ∷ refusals cs)
                l.handler
      refused_or_not true y = refl
      refused_or_not false true = refl
      refused_or_not false false = refl

-- The levels of libmosquitto's messages.
pub data LogLevel : Type 0 where
  log_debug log_info log_notice log_warning log_err log_other : LogLevel

-- `onLog`: the level of spdlog for a message.
abbrev pub on_log : LogLevel → Level
on_log log_debug = trace
on_log log_info = info
on_log log_notice = info
on_log log_warning = warn
on_log log_err = error
on_log log_other = info
