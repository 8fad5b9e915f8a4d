-- ===== src/Modbus.antt =====
-- What the program reads off libfronius' `ModbusError` and off errno, and the reaction that all components
-- share. The constructors of the errors are parameters.
use fronius_bridge.Prelude.{ℕ, true, String, Result, ok, err}
use fronius_bridge.Shutdown.{SignalHandler, shutdown}

pub data Errno : Type 0 where
  enomem ebadf eio etimedout eagain ewouldblock eintr : Errno
  other_errno : ℕ → Errno

-- The severities that the handlers tell apart, and any other.
pub data ModbusSeverity : Type 0 where
  fatal transient cancelled unnamed : ModbusSeverity

pub record Errors (E : Type 0) : Type 0 where
  pub severity : E → ModbusSeverity
  pub custom : Errno → E
  pub from_errno : Errno → E

pub data ErrorAction : Type 0 where
  no_action reconnect end_of_run : ErrorAction

module _ {E : Type 0} (errors : Errors E) where
  abbrev pub on_severity :
      (reason : String) → ModbusSeverity → SignalHandler → SignalHandler × ErrorAction
  on_severity reason fatal h = (shutdown true reason h, end_of_run)
  on_severity reason transient h = (h, reconnect)
  on_severity reason cancelled h = (h, end_of_run)
  on_severity reason unnamed h = (h, no_action)

  -- `reason` is what the component gives for its end.
  unfoldable pub handle_result :
      (reason : String) → Result E (Unit {0}) → SignalHandler → SignalHandler × ErrorAction
  handle_result reason (ok _) h = (h, no_action)
  handle_result reason (err e) h = on_severity reason (errors.severity e) h
