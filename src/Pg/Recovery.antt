-- ===== src/Pg/Recovery.antt =====
-- What the worker's operations keep of the members, and what a setup that succeeds has brought about.
pub mod Reconnect
pub mod Device
use fronius_bridge.Prelude.{
  ◌≡◌, refl, sym, ap, ◌∙◌, String, Bool, true, false, Option, none, some, List, [], ◌∷◌, find,
  text_eq, ok, err, Result, Result-cases, Option-cases, inl, inr, if◌then◌else◌, if-elim,
}
use fronius_bridge.Devices.{InverterDevice, InverterValues, MeterDevice, MeterValues}
use fronius_bridge.Db.Errors.{DbError}
use fronius_bridge.Db.Conn.{Server, Work, Reply, completed, link_dropped, failed}
use fronius_bridge.Db.Migrator.Steps.{check_extensions}
use fronius_bridge.Doubles.{Doubles}
use fronius_bridge.Pg.Statements.{Sql, migrator}
use fronius_bridge.Pg.Client.{
  CachedInverter, CachedMeter, Client, Setup, Payload, inverter_device, meter_device,
  inverter_values, meter_values, Event, Step, go_on, ◌then◌, done, update, on_conn, connected_only,
  unless_checked,
}
use fronius_bridge.Pg.Events.{
  first_sight_inverter, upsert_inverter_device, first_sight_meter, upsert_meter_device,
  insert_inverter_cached, insert_meter_cached, process_payload, process_event,
}
use fronius_bridge.Pg.Session.{
  open_connection, prepare_public, replay_inverters, replay_meters, connect_and_prepare,
}

-- The step leaves a member, or what `f` makes of the members, as it was.
unfoldable pub Keeps : {F B : Type 0} → (Client F → B) → Step F → Type 0
Keeps {F} f k = (c : Client F) → f (k c).0 ≡ f c

module _ {F : Type 0} {B : Type 0} (f : Client F → B) where
  pub go_on-Keeps :
      (k : Step F) (z : Client F × Result DbError (Unit {0})) → Keeps f k → f (go_on k z).0 ≡ f z.0
  unfolding Keeps
  go_on-Keeps k (c, ok u) q = q c
  go_on-Keeps k (c, err e) q = refl

  pub then-Keeps : (m k : Step F) → Keeps f m → Keeps f k → Keeps f (m then k)
  unfolding Keeps ◌then◌
  then-Keeps m k p q c = go_on-Keeps k (m c) q ∙ p c

  done-Keeps : Keeps f done
  unfolding Keeps done
  done-Keeps c = refl

  connected_only-Keeps : (k : Step F) → Keeps f k → Keeps f (connected_only k)
  unfolding Keeps connected_only
  connected_only-Keeps k p c =
      if-elim {A = Client F × Result DbError (Unit {0})} (λ z. f z.0 ≡ f c) c.connected (p c) refl

  pub unless_checked-Keeps : (k : Step F) → Keeps f k → Keeps f (unless_checked k)
  unfolding Keeps unless_checked
  unless_checked-Keeps k p c =
      if-elim {A = Client F × Result DbError (Unit {0})} (λ z. f z.0 ≡ f c) c.extensions_checked
        refl (p c)

on_conn-connected :
    {F : Type 0} (w : Work (Sql F) (Unit {0})) → Keeps (λ c. c.connected) (on_conn w)
unfolding Keeps on_conn
on_conn-connected w c = refl

update-connected :
    {F : Type 0} (g : Client F → Client F)
    → ((c : Client F) → (g c).connected ≡ c.connected)
    → Keeps (λ c. c.connected) (update g)
unfolding Keeps update
update-connected g h c = h c

abbrev pub connection : {F : Type 0} → Client F → Bool
connection c = c.connected

module _ {F : Type 0} (srv : Server (Sql F)) (dbl : Doubles F) (setup : Setup F) where
  first_sight_inverter-Keeps :
      (name : String) → Keeps connection (first_sight_inverter srv dbl setup name)
  unfolding first_sight_inverter Keeps
  first_sight_inverter-Keeps name c = elim (Option-cases (find name c.cached_inverters)) [
    | inl e ↦
        rw (e, first_sight_inverter)
          (then-Keeps connection _ _ (on_conn-connected _) (update-connected _ (λ c. refl)) c)
    | inr (x, e) ↦ rw (e, first_sight_inverter) refl
  ]

  first_sight_meter-Keeps :
      (name : String) → Keeps connection (first_sight_meter srv dbl setup name)
  unfolding first_sight_meter Keeps
  first_sight_meter-Keeps name c = elim (Option-cases (find name c.cached_meters)) [
    | inl e ↦
        rw (e, first_sight_meter)
          (then-Keeps connection _ _ (on_conn-connected _) (update-connected _ (λ c. refl)) c)
    | inr (x, e) ↦ rw (e, first_sight_meter) refl
  ]

  pub upsert_inverter_device-Keeps :
      (name : String) (d : InverterDevice F)
      → Keeps connection (upsert_inverter_device srv dbl setup name d)
  unfolding upsert_inverter_device
  upsert_inverter_device-Keeps name d = connected_only-Keeps connection _ (
      then-Keeps connection _ _
        (then-Keeps connection _ _ (first_sight_inverter-Keeps name) (on_conn-connected _))
        (update-connected _ (λ c. refl)))

  upsert_meter_device-Keeps :
      (name : String) (d : MeterDevice)
      → Keeps connection (upsert_meter_device srv dbl setup name d)
  unfolding upsert_meter_device
  upsert_meter_device-Keeps name d = connected_only-Keeps connection _ (
      then-Keeps connection _ _
        (then-Keeps connection _ _ (first_sight_meter-Keeps name) (on_conn-connected _))
        (update-connected _ (λ c. refl)))

  insert_inverter_cached-Keeps :
      (name : String) (v : InverterValues F)
      → Keeps connection (insert_inverter_cached srv dbl setup name v)
  unfolding insert_inverter_cached Keeps
  insert_inverter_cached-Keeps name v c = elim (Option-cases (find name c.cached_inverters)) [
    | inl e ↦ rw (e, insert_inverter_cached) refl
    | inr (x, e) ↦ rw (e, insert_inverter_cached) (on_conn-connected _ c)
  ]

  insert_meter_cached-Keeps :
      (name : String) (v : MeterValues F)
      → Keeps connection (insert_meter_cached srv dbl setup name v)
  unfolding insert_meter_cached Keeps
  insert_meter_cached-Keeps name v c = elim (Option-cases (find name c.cached_meters)) [
    | inl e ↦ rw (e, insert_meter_cached) refl
    | inr (x, e) ↦ rw (e, insert_meter_cached) (on_conn-connected _ c)
  ]

  pub process_payload-Keeps :
      (name : String) (p : Payload F) → Keeps connection (process_payload srv dbl setup name p)
  unfolding process_payload
  process_payload-Keeps name (inverter_device d) = upsert_inverter_device-Keeps name d
  process_payload-Keeps name (meter_device d) = upsert_meter_device-Keeps name d
  process_payload-Keeps name (inverter_values v) =
      connected_only-Keeps connection _ (insert_inverter_cached-Keeps name v)
  process_payload-Keeps name (meter_values v) =
      connected_only-Keeps connection _ (insert_meter_cached-Keeps name v)

  pub replay_inverters-Keeps :
      (l : List (String × CachedInverter F)) → Keeps connection (replay_inverters srv dbl setup l)
  unfolding replay_inverters
  replay_inverters-Keeps [] = done-Keeps connection
  replay_inverters-Keeps ((name, cached) ∷ l) =
      then-Keeps connection _ _ (upsert_inverter_device-Keeps name cached.device)
        (replay_inverters-Keeps l)

  pub replay_meters-Keeps :
      (l : List (String × CachedMeter)) → Keeps connection (replay_meters srv dbl setup l)
  unfolding replay_meters
  replay_meters-Keeps [] = done-Keeps connection
  replay_meters-Keeps ((name, cached) ∷ l) =
      then-Keeps connection _ _ (upsert_meter_device-Keeps name cached.device)
        (replay_meters-Keeps l)

  pub prepare_public-Keeps : Keeps connection (prepare_public srv dbl setup)
  unfolding prepare_public
  prepare_public-Keeps =
      then-Keeps connection _ _
        (then-Keeps connection _ _
          (then-Keeps connection _ _ (on_conn-connected _) (on_conn-connected _))
          (on_conn-connected _))
        (update-connected _ (λ c. refl))
