-- ===== src/Pg/Client.antt =====
-- The members of `PostgresClient` that its worker thread uses, and work that changes them.
use fronius_bridge.Prelude.{
  ℤ, String, Bool, Option, none, some, List, text_eq, if◌then◌else◌, Result, ok, err,
}
use fronius_bridge.Devices.{InverterDevice, InverterValues, MeterDevice, MeterValues}
use fronius_bridge.Config.Types.{SiteConfig}
use fronius_bridge.Config.Buses.Derive.{DeviceRegistryEntry}
use fronius_bridge.Db.Errors.{internal, DbError, make}
use fronius_bridge.Db.Conn.{Command, Work}
use fronius_bridge.Db.Migrator.Steps.{Migration}
use fronius_bridge.Pg.Statements.{Param, null, number, Sql}

-- `CachedInverter` and `CachedMeter`, less their SQL, which is made from the name.
pub record CachedInverter (F : Type 0) : Type 0 where
  pub device : InverterDevice F
  pub is_hybrid : Bool
  pub phases : ℤ
  pub inputs : ℤ

pub record CachedMeter : Type 0 where
  pub device : MeterDevice
  pub phases : ℤ

-- The members that the worker thread alone uses. `sent` is what the connection has sent.
pub record Client (F : Type 0) : Type 0 where
  pub connected : Bool
  pub extensions_checked : Bool
  pub cached_inverters : List (String × CachedInverter F)
  pub cached_meters : List (String × CachedMeter)
  pub sent : List (Command (Sql F))

pub record Setup (F : Type 0) : Type 0 where
  pub auto_migrate : Bool
  pub public_migrations : List Migration
  pub inverter_migrations : List Migration
  pub meter_migrations : List Migration
  pub registry : List DeviceRegistryEntry
  pub site : Option (SiteConfig F)

pub data Payload (F : Type 0) : Type 0 where
  inverter_device : InverterDevice F → Payload F
  meter_device : MeterDevice → Payload F
  inverter_values : InverterValues F → Payload F
  meter_values : MeterValues F → Payload F

pub record Event (F : Type 0) : Type 0 where
  pub device_name : String
  pub payload : Payload F

-- Work that also changes the members.
abbrev pub Step : Type 0 → Type 0
Step F = Client F → Client F × Result DbError (Unit {0})

module _ {F : Type 0} where
  abbrev pub go_on :
      Step F → Client F × Result DbError (Unit {0}) → Client F × Result DbError (Unit {0})
  go_on k (c, ok u) = k c
  go_on k (c, err e) = (c, err e)

  infixl 5 ◌then◌
  unfoldable pub ◌then◌ : Step F → Step F → Step F
  (m then k) c = go_on k (m c)

  unfoldable pub done : Step F
  done c = (c, ok tt)

  unfoldable pub update : (Client F → Client F) → Step F
  update f c = (f c, ok tt)

  -- Work on the connection.
  unfoldable pub on_conn : Work (Sql F) (Unit {0}) → Step F
  on_conn w c = let (s, r) = w c.sent in (record c { sent = s }, r)

  -- `if (!conn_) return INTERNAL`
  unfoldable pub connected_only : Step F → Step F
  connected_only k c = if c.connected then k c else (c, err (make internal))

  abbrev pub nullable : Option F → Param F
  nullable none = null
  nullable (some x) = number x

  -- `if (!extensionsChecked_)`
  unfoldable pub unless_checked : Step F → Step F
  unless_checked k c = if c.extensions_checked then (c, ok tt) else k c
