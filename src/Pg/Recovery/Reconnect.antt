-- ===== src/Pg/Recovery/Reconnect.antt =====
-- What a setup that succeeds has brought about, and what keeps it from succeeding.
use fronius_bridge.Prelude.{
  ◌≡◌, ◌≢◌, refl, sym, ap, ◌∙◌, String, Bool, true, false, List, [], ◌∷◌, ◌++◌, text_eq, ok, err,
  Result, if◌then◌else◌,
}
use fronius_bridge.Devices.{InverterDevice}
use fronius_bridge.Db.Errors.{query, internal, make, DbError}
use fronius_bridge.Db.Conn.{
  Command, connect_db, statement, Server, Work, Reply, completed, link_dropped, failed, result_of,
  exec, send, ◌>>=◌,
}
use fronius_bridge.Doubles.{Doubles}
use fronius_bridge.Pg.Statements.{Sql, execute, upsert_inverter}
use fronius_bridge.Pg.Client.{
  CachedInverter, Client, Setup, Step, go_on, ◌then◌, update, on_conn, connected_only,
  unless_checked,
}
use fronius_bridge.Pg.Events.{
  inverter_row, remember_inverter, first_sight_inverter, upsert_inverter_device,
}
use fronius_bridge.Pg.Session.{
  opened, open_connection, prepare_public, replay_all_inverters, replay_all_meters,
  replay_inverters, connect_and_prepare,
}
use fronius_bridge.Pg.Recovery.{
  Keeps, then-Keeps, replay_inverters-Keeps, replay_meters-Keeps, unless_checked-Keeps,
  prepare_public-Keeps, connection,
}

module _ {F : Type 0} where
  go_on-ok :
      (k : Step F) (z : Client F × Result DbError (Unit {0}))
      → (go_on k z).1 ≡ ok tt
      → (z.1 ≡ ok tt) × (go_on k z ≡ k z.0)
  go_on-ok k (c, ok tt) h = (refl, refl)
  go_on-ok k (c, err e) h = cc

  -- Steps in a row succeed if each does.
  pub then-ok :
      (m k : Step F) (c : Client F)
      → ((m then k) c).1 ≡ ok tt
      → ((m c).1 ≡ ok tt) × ((m then k) c ≡ k (m c).0)
  unfolding ◌then◌
  then-ok m k c h = go_on-ok k (m c) h

  pub if-ok :
      (b : Bool) (x : Client F × Result DbError (Unit {0})) (c : Client F) (e : DbError)
      → (if b then x else (c, err e)).1 ≡ ok tt
      → x.1 ≡ ok tt
  if-ok true x c e h = h
  if-ok false x c e h = cc

  pub connected_only-ok :
      (k : Step F) (c : Client F) → (connected_only k c).1 ≡ ok tt → (k c).1 ≡ ok tt
  unfolding connected_only
  connected_only-ok k c h = if-ok c.connected (k c) c (make internal) h

module _ {F : Type 0} (srv : Server (Sql F)) (dbl : Doubles F) (setup : Setup F) where
  opened-ok :
      (c : Client F) (r : Reply)
      → (opened srv dbl setup c r).1 ≡ ok tt
      → (opened srv dbl setup c r).0.connected ≡ true
  opened-ok c (completed rows) h = refl
  opened-ok c link_dropped h = cc
  opened-ok c (failed s) h = cc

  -- A setup that succeeds leaves an open connection.
  pub connect_and_prepare-connected :
      (c : Client F)
      → (connect_and_prepare srv dbl setup c).1 ≡ ok tt
      → (connect_and_prepare srv dbl setup c).0.connected ≡ true
  unfolding connect_and_prepare open_connection Keeps
  connect_and_prepare-connected c h =
      let opening = open_connection srv dbl setup in
      let once = unless_checked (prepare_public srv dbl setup) in
      let inverters = replay_all_inverters srv dbl setup in
      let meters = replay_all_meters srv dbl setup in
      let (h2, e2) = then-ok (opening then once then inverters) meters c h in
      let (h1, e1) = then-ok (opening then once) inverters c h2 in
      let (h0, e0) = then-ok opening once c h1 in
      ap (λ z. z.0.connected) e2
      ∙ replay_meters-Keeps srv dbl setup _ ((opening then once then inverters) c).0
      ∙ ap (λ z. z.0.connected) e1
      ∙ replay_inverters-Keeps srv dbl setup _ ((opening then once) c).0
      ∙ ap (λ z. z.0.connected) e0
      ∙ unless_checked-Keeps connection _ (prepare_public-Keeps srv dbl setup) (opening c).0
      ∙ opened-ok c (srv.reply c.sent connect_db) h0

  -- The server refuses the row of this device whenever it is sent.
  abbrev pub Refuses : String → InverterDevice F → Type 0
  Refuses name d =
      (sent : List (Command (Sql F)))
      → (e : DbError) × (result_of query (
            srv.reply sent
              (statement (execute upsert_inverter name (inverter_row srv dbl setup d))))
          ≡ err e)

  exec-err :
      (s : Sql F) (sent : List (Command (Sql F))) (e : DbError)
      → result_of query (srv.reply sent (statement s)) ≡ err e
      → (exec srv query s sent).1 ≡ err e
  unfolding exec send
  exec-err s sent e r = rw (r, ◌>>=◌) refl

  refused-exec :
      (name : String) (d : InverterDevice F) (c : Client F)
      → Refuses name d
      → (on_conn (exec srv query (execute upsert_inverter name (inverter_row srv dbl setup d))) c).1
        ≢ ok tt
  unfolding on_conn
  refused-exec name d c h g =
      let (e, r) = h c.sent in
      cc (
        sym (exec-err (execute upsert_inverter name (inverter_row srv dbl setup d)) c.sent e r) ∙ g)

  refused-upsert :
      (name : String) (d : InverterDevice F) (c : Client F)
      → Refuses name d
      → (upsert_inverter_device srv dbl setup name d c).1 ≢ ok tt
  unfolding upsert_inverter_device
  refused-upsert name d c h g =
      let row = exec srv query (execute upsert_inverter name (inverter_row srv dbl setup d)) in
      let first = first_sight_inverter srv dbl setup name in
      let store = update (remember_inverter srv dbl setup name d) in
      let (h1, _) =
        then-ok (first then on_conn row) store c
          (connected_only-ok (first then on_conn row then store) c g) in
      let (_, e0) = then-ok first (on_conn row) c h1 in
      refused-exec name d (first c).0 h (ap (λ z. z.1) (sym e0) ∙ h1)

  refused-replay :
      (front back : List (String × CachedInverter F)) (name : String) (cached : CachedInverter F)
      (c : Client F)
      → Refuses name cached.device
      → (replay_inverters srv dbl setup (front ++ (name, cached) ∷ back) c).1 ≢ ok tt
  unfolding replay_inverters
  refused-replay [] back name cached c h g =
      let (h0, _) =
        then-ok (upsert_inverter_device srv dbl setup name cached.device)
          (replay_inverters srv dbl setup back) c g in
      refused-upsert name cached.device c h h0
  refused-replay ((n, other) ∷ front) back name cached c h g =
      let first = upsert_inverter_device srv dbl setup n other.device in
      let rest = replay_inverters srv dbl setup (front ++ (name, cached) ∷ back) in
      let (_, e0) = then-ok first rest c g in
      refused-replay front back name cached (first c).0 h (ap (λ z. z.1) (sym e0) ∙ g)

  abbrev pub inverters_of : Client F → List (String × CachedInverter F)
  inverters_of c = c.cached_inverters

  pub on_conn-inverters : (w : Work (Sql F) (Unit {0})) → Keeps inverters_of (on_conn w)
  unfolding Keeps on_conn
  on_conn-inverters w c = refl

  update-inverters :
      (g : Client F → Client F)
      → ((c : Client F) → inverters_of (g c) ≡ inverters_of c)
      → Keeps inverters_of (update g)
  unfolding Keeps update
  update-inverters g h c = h c

  prepare_public-inverters : Keeps inverters_of (prepare_public srv dbl setup)
  unfolding prepare_public
  prepare_public-inverters =
      then-Keeps inverters_of _ _
        (then-Keeps inverters_of _ _
          (then-Keeps inverters_of _ _ (on_conn-inverters _) (on_conn-inverters _))
          (on_conn-inverters _))
        (update-inverters (λ c. record c { extensions_checked = true }) (λ c. refl))

  opened-inverters :
      (c : Client F) (r : Reply)
      → (opened srv dbl setup c r).0.cached_inverters ≡ c.cached_inverters
  opened-inverters c (completed rows) = refl
  opened-inverters c link_dropped = refl
  opened-inverters c (failed s) = refl

  -- If the server refuses the row of a cached inverter whenever it is sent, then no setup succeeds.
  pub connect_and_prepare-refused :
      (front back : List (String × CachedInverter F)) (name : String) (cached : CachedInverter F)
      (c : Client F)
      → c.cached_inverters ≡ front ++ (name, cached) ∷ back
      → Refuses name cached.device
      → (connect_and_prepare srv dbl setup c).1 ≢ ok tt
  unfolding connect_and_prepare open_connection Keeps
  connect_and_prepare-refused front back name cached c e h g =
      let opening = open_connection srv dbl setup in
      let once = unless_checked (prepare_public srv dbl setup) in
      let inverters = replay_all_inverters srv dbl setup in
      let meters = replay_all_meters srv dbl setup in
      let (h2, _) = then-ok (opening then once then inverters) meters c g in
      let (h1, e1) = then-ok (opening then once) inverters c h2 in
      let (_, e0) = then-ok opening once c h1 in
      let same =
        ap (λ z. z.0.cached_inverters) e0
        ∙ unless_checked-Keeps inverters_of _ prepare_public-inverters (opening c).0
        ∙ opened-inverters c (srv.reply c.sent connect_db)
        ∙ e in
      refused-replay front back name cached ((opening then once) c).0 h (
        ap (λ l. (replay_inverters srv dbl setup l ((opening then once) c).0).1) (sym same)
        ∙ ap (λ z. z.1) (sym e1)
        ∙ h2)
