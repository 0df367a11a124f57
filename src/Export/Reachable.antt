-- ===== src/Export/Reachable.antt =====
-- What holds after any sequence of calls of the exported functions of go/pkg/driver.go.
use adbc_driver_mariadb.Base.{inr, Option, none, some, ◌+◌, ◌≡◌, ◌≢◌, refl, ap, ◌∙◌, true}
use adbc_driver_mariadb.Base.Text.{Bytes}
use adbc_driver_mariadb.Export.Error.{CError}
use adbc_driver_mariadb.ErrorInspector.{Status}
use adbc_driver_mariadb.Export.Driver.{Driver}
use adbc_driver_mariadb.Export.World.{World}
use adbc_driver_mariadb.Export.Calls.{
  Call, new_database, init_database, release_database, set_database_option,
  set_database_option_bytes, set_database_option_double, set_database_option_int, at_database,
  new_connection, init_connection, release_connection, set_connection_option, at_connection,
  new_statement, release_statement, at_statement, perform, Step, performs, Reachable, at_start,
  after, held_database, held_connection, held_statement, IsCounted,
}
use adbc_driver_mariadb.Export.Error.Filled.{given, Explained, MessageThere}
use adbc_driver_mariadb.Export.Told.{handles}
use adbc_driver_mariadb.Export.Good.Calls.{perform-IsGood}
use adbc_driver_mariadb.Export.Refused.Uses.{
  use_database-IsInvalidState, use_connection-IsInvalidState, use_statement-IsInvalidState,
}
use adbc_driver_mariadb.Export.Refused.Poisoned.{perform-IsRefused}

module _ (drv : Driver) where
  Step-IsCounted :
      {w w' : World drv} {s : Status}
      → Step drv w s w'
      → IsCounted drv (handles drv w)
      → IsCounted drv (handles drv w')
  Step-IsCounted (performs c w error out) h = (perform-IsGood drv c _).counted h

  -- After any sequence of calls, those that fail or panic included, the driver made as many databases,
  -- connections and statements as `Close` was called for them, and one more of a kind where the handle
  -- of that kind holds one.
  pub Reachable-Counted :
      {w : World drv}
      → Reachable drv w
      → (w.databases.made ≡ w.databases.closed + held_database drv w.database)
        × (w.connections.made ≡ w.connections.closed + held_connection drv w.connection)
        × (w.statements.made ≡ w.statements.closed + held_statement drv w.statement)
  Reachable-Counted r = let h = counted r in (h.databases, h.connections, h.statements)
    where
      counted : {w : World drv} → Reachable drv w → IsCounted drv (handles drv w)
      counted (at_start state error out) = record {
        databases = refl;
        connections = refl;
        statements = refl;
      }
      counted (after before step) = Step-IsCounted step (counted before)

  -- A call of a function at a database, a connection or a statement, in a poisoned driver, which a panic
  -- leaves behind, returns an error; the driver stays poisoned, its state is not touched, and the handles
  -- and the counts stay as they are.
  pub Step-poisoned :
      {w w' : World drv} {s : Status}
      → Step drv w s w'
      → w.poisoned ≡ true
      → (s ≢ Status.ok)
        × (w'.poisoned ≡ true)
        × (w'.state ≡ w.state)
        × (handles drv w' ≡ handles drv w)
  Step-poisoned (performs c w error out) h =
      let g = perform-IsRefused drv (record w { error = error; out = out }) h c in
      (
        g.error,
        ap (λ (v : World drv). v.poisoned) g.unchanged ∙ h,
        ap (λ (v : World drv). v.state) g.unchanged,
        ap (handles drv) g.unchanged,
      )

  message_in :
      (o : Option CError)
      → given o ≡ true
      → Explained o
      → (e : CError) × (m : Bytes) × (o ≡ some e) × (e.message ≡ some m)
  message_in none h x = cc
  message_in (some e) h x = with_message e.message refl x
    where
      with_message :
          (text : Option Bytes)
          → e.message ≡ text
          → MessageThere text
          → (e' : CError) × (m : Bytes) × (some e ≡ some e') × (e'.message ≡ some m)
      with_message none p x = absurd x
      with_message (some m) p x = (e, m, refl, p)

  -- A call of a function at a database, a connection or a statement that returns another status than OK leaves a message in the struct for the error, where the
  -- caller gave one.
  pub perform-explained :
      (c : Call drv) (w : World drv) (e : CError)
      → w.error ≡ some e
      → (perform drv c w).0 ≢ Status.ok
      → (e' : CError) × (m : Bytes) × ((perform drv c w).1.error ≡ some e') × (e'.message ≡ some m)
  perform-explained c w e h n =
      let t = (perform-IsGood drv c w).tells in message_in _ (t.kept ∙ ap given h) (t.told n)

  -- The calls that need a handle which is not ready: without an object, or before its `Init`.
  abbrev pub Unready : World drv → Call drv → Type 0
  Unready w (at_database u) = held_database drv w.database ≡ 0
  Unready w (at_connection u) = held_connection drv w.connection ≡ 0
  Unready w (at_statement u) = held_statement drv w.statement ≡ 0
  Unready w _ = ⊥

  -- Each of the 39 functions that use a database, a connection or a statement returns INVALID_STATE where
  -- its handle has no object or comes before its `Init`, and then changes nothing but the struct for the
  -- error; so the driver is not called.
  pub perform-invalid_state :
      (c : Call drv) (w : World drv)
      → Unready w c
      → ((perform drv c w).0 ≡ Status.invalid_state)
        × ((perform drv c w).1 ≡ record w { error = (perform drv c w).1.error })
  perform-invalid_state (at_database u) w h =
      let r = use_database-IsInvalidState drv u w (inr h) in (r.status, r.unchanged)
  perform-invalid_state (at_connection u) w h =
      let r = use_connection-IsInvalidState drv u w (inr h) in (r.status, r.unchanged)
  perform-invalid_state (at_statement u) w h =
      let r = use_statement-IsInvalidState drv u w (inr h) in (r.status, r.unchanged)
  perform-invalid_state new_database w h = absurd h
  perform-invalid_state init_database w h = absurd h
  perform-invalid_state release_database w h = absurd h
  perform-invalid_state (set_database_option key value) w h = absurd h
  perform-invalid_state (set_database_option_bytes key value len) w h = absurd h
  perform-invalid_state (set_database_option_double key value) w h = absurd h
  perform-invalid_state (set_database_option_int key value) w h = absurd h
  perform-invalid_state new_connection w h = absurd h
  perform-invalid_state init_connection w h = absurd h
  perform-invalid_state release_connection w h = absurd h
  perform-invalid_state (set_connection_option key value) w h = absurd h
  perform-invalid_state new_statement w h = absurd h
  perform-invalid_state release_statement w h = absurd h
