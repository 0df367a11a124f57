-- ===== src/Export/Good/Database.antt =====
-- The database functions of go/pkg/driver.go, each as Export.Good says.
use adbc_driver_mariadb.Base.{String, ℕ, ◌+◌, ◌≡◌, refl, ap, ◌∙◌, Option, none, some, arith}
use adbc_driver_mariadb.Base.Text.{Bytes}
use adbc_driver_mariadb.Base.Int.{ℤ}
use adbc_driver_mariadb.Export.Driver.{
  Outcome, returned, fails, panics, Unapplied, Driver, one_made, one_closed,
}
use adbc_driver_mariadb.Export.World.{CDatabase, World, just_done}
use adbc_driver_mariadb.Export.Database.{
  alloc_new, database_new, option_set, set_database, database_set_option, database_set_option_bytes,
  database_set_option_double, database_set_option_int, opened, init_object, database_init,
  close_replied, release_object, database_release,
}
use adbc_driver_mariadb.Export.Calls.{held, held_database}
use adbc_driver_mariadb.Export.Told.{
  handles, just_done-IsUse, refuse-IsUse, poison-IsUse, call-IsUse,
}
use adbc_driver_mariadb.Export.Told.Makes.{apply_options-IsUse}
use adbc_driver_mariadb.Export.Told.Rules.{if_rule}
use adbc_driver_mariadb.Export.Good.{
  IsGood, use-IsGood, moved-IsGood, ok-IsGood, databases_moved, check_db_alloc-IsGood, call-IsGood,
  with_bytes-IsGood,
}

module _ (drv : Driver) where
  alloc_new-IsGood :
      (o : Option (CDatabase drv)) (w : World drv)
      → w.database ≡ o
      → IsGood drv w (alloc_new drv o w)
  alloc_new-IsGood none w e = ok-IsGood drv w _ refl (
      databases_moved drv (handles drv w) _ w.databases
        λ c. c ∙ ap (λ o. w.databases.closed + held_database drv o) e)
  alloc_new-IsGood (some cdb) w e = use-IsGood drv _ w (refuse-IsUse drv _ _ _)

  pub database_new-IsGood : (w : World drv) → IsGood drv w (database_new drv w)
  unfolding database_new
  database_new-IsGood w =
      if_rule (IsGood drv w) w.poisoned _ _ (use-IsGood drv _ w (refuse-IsUse drv _ _ _))
        (alloc_new-IsGood w.database w refl)

  module _ (w : World drv) (cdb : CDatabase drv) (e : w.database ≡ some cdb) where
    -- What the handle holds.
    holds : (k : ℕ) → held drv cdb.db ≡ k → held_database drv w.database ≡ k
    holds k h = ap (held_database drv) e ∙ h

    option_set-IsGood :
        (name : String) (key : Bytes) (value : Unapplied) (db : Option drv.Database)
        → cdb.db ≡ db
        → IsGood drv w (option_set drv name key value db cdb w)
    option_set-IsGood name key value none f = ok-IsGood drv w _ refl (
        databases_moved drv (handles drv w) _ w.databases
          λ c. c ∙ ap (λ o. w.databases.closed + held_database drv o) e)
    option_set-IsGood name key value (some db) f =
        use-IsGood drv _ w (call-IsUse drv name (just_done drv) (just_done-IsUse drv) _)

    set_database-IsGood :
        (name : String) (key : Bytes) (value : Unapplied)
        → IsGood drv w (set_database drv name key value cdb w)
    set_database-IsGood name key value = option_set-IsGood name key value cdb.db refl

    opened-IsGood :
        cdb.db ≡ none
        → (db : drv.Database) (st : drv.State)
        → IsGood drv w (opened drv cdb db (record w { state = st }))
    opened-IsGood f db st =
        let h = holds 0 (ap (held drv) f) in
        moved-IsGood drv w _ _ refl
          (databases_moved drv (handles drv w) (some (record cdb { db = some db }))
            (one_made w.databases) λ c. omega (arith, h, c))
          (use-IsGood drv _ _ (apply_options-IsUse drv db cdb.opts))

    init_object-IsGood :
        (db : Option drv.Database) → cdb.db ≡ db → IsGood drv w (init_object drv db cdb w)
    init_object-IsGood none f = call-IsGood drv w _ (opened drv cdb) (opened-IsGood f) _
    init_object-IsGood (some db) f = use-IsGood drv _ w (refuse-IsUse drv _ _ _)

    -- The world after the handle has lost a database.
    abbrev gone : World drv
    gone = record w { database = none; databases = one_closed w.databases }

    close_replied-IsGood :
        (o : Outcome (Unit {0}) × drv.State) → IsGood drv gone (close_replied drv o gone)
    close_replied-IsGood (returned u, st) = ok-IsGood drv gone _ refl (λ c. c)
    close_replied-IsGood (fails t, st) = ok-IsGood drv gone _ refl (λ c. c)
    close_replied-IsGood (panics v, st) =
        let g =
          use-IsGood drv _ (record gone { state = st }) (poison-IsUse drv "AdbcDatabaseInit" v) in
        record { tells = g.tells; counted = g.counted }

    release_object-IsGood :
        (db : Option drv.Database) → cdb.db ≡ db → IsGood drv w (release_object drv db w)
    release_object-IsGood none f =
        let h = holds 0 (ap (held drv) f) in
        ok-IsGood drv w _ refl
          (databases_moved drv (handles drv w) none w.databases λ c. omega (arith, h, c))
    release_object-IsGood (some db) f =
        let h = holds 1 (ap (held drv) f) in
        moved-IsGood drv w gone _ refl
          (databases_moved drv (handles drv w) none (one_closed w.databases)
            λ c. omega (arith, h, c))
          (close_replied-IsGood _)

  pub database_set_option-IsGood :
      (key value : Bytes) (w : World drv) → IsGood drv w (database_set_option drv key value w)
  unfolding database_set_option
  database_set_option-IsGood key value w =
      check_db_alloc-IsGood drv w _ _ λ cdb e. set_database-IsGood w cdb e _ key _

  pub database_set_option_bytes-IsGood :
      (key value : Bytes) (len : ℕ) (w : World drv)
      → IsGood drv w (database_set_option_bytes drv key value len w)
  unfolding database_set_option_bytes
  database_set_option_bytes-IsGood key value len w =
      check_db_alloc-IsGood drv w _ _
        λ cdb e. with_bytes-IsGood drv w _ _ (λ v. set_database-IsGood w cdb e _ key _) value len

  pub database_set_option_double-IsGood :
      (key : Bytes) (value : ℕ) (w : World drv)
      → IsGood drv w (database_set_option_double drv key value w)
  unfolding database_set_option_double
  database_set_option_double-IsGood key value w =
      check_db_alloc-IsGood drv w _ _ λ cdb e. set_database-IsGood w cdb e _ key _

  pub database_set_option_int-IsGood :
      (key : Bytes) (value : ℤ) (w : World drv)
      → IsGood drv w (database_set_option_int drv key value w)
  unfolding database_set_option_int
  database_set_option_int-IsGood key value w =
      check_db_alloc-IsGood drv w _ _ λ cdb e. set_database-IsGood w cdb e _ key _

  pub database_init-IsGood : (w : World drv) → IsGood drv w (database_init drv w)
  unfolding database_init
  database_init-IsGood w =
      check_db_alloc-IsGood drv w _ _ λ cdb e. init_object-IsGood w cdb e cdb.db refl

  pub database_release-IsGood : (w : World drv) → IsGood drv w (database_release drv w)
  unfolding database_release
  database_release-IsGood w =
      check_db_alloc-IsGood drv w _ _ λ cdb e. release_object-IsGood w cdb e cdb.db refl
