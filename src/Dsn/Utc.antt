-- ===== src/Dsn/Utc.antt =====
-- The time zone of the databases that `CreateDB` of go/db_factory.go opens.
use adbc_driver_mariadb.Base.{◌≡◌, ◌≢◌, refl, ◌∙◌, inl, inr, some}
use adbc_driver_mariadb.Base.Text.{Bytes, codes, equal, equal_iff}
use adbc_driver_mariadb.Base.Dict.{lookup, store, lookup-store_self, lookup-store_ne}
use adbc_driver_mariadb.Base.Result.{ok, Result-cases}
use adbc_driver_mariadb.Dsn.Build.{
  DbOptions, DsnLibrary, Cfg, build_mariadb_dsn, in_utc, force_utc_timezone, create_db,
}

zone_apart : codes "time_zone" ≢ codes "loc"
unfolding equal
zone_apart e = cc ((equal_iff (codes "time_zone") (codes "loc")).1 e)

module _ (lib : DsnLibrary) where
  -- What the two time zone parameters do to a configuration.
  pub record IsUtc (from to : Cfg lib) : Type 0 where
    pub time_zone : lookup (codes "time_zone") to.params ≡ some (codes "'+00:00'")
    pub loc : lookup (codes "loc") to.params ≡ some (codes "UTC")
    pub others :
        (key : Bytes)
        → key ≢ codes "time_zone"
        → key ≢ codes "loc"
        → lookup key to.params ≡ lookup key from.params
    pub fields : record to { params = from.params } ≡ from

  in_utc-IsUtc : (cfg : Cfg lib) → IsUtc cfg (in_utc lib cfg)
  unfolding in_utc
  in_utc-IsUtc cfg =
      let zoned = store (codes "time_zone") (codes "'+00:00'") cfg.params in
      record {
        time_zone =
            lookup-store_ne (codes "time_zone") (codes "loc") (codes "UTC") zoned zone_apart
            ∙ lookup-store_self (codes "time_zone") (codes "'+00:00'") cfg.params;
        loc = lookup-store_self (codes "loc") (codes "UTC") zoned;
        others = λ key z l.
            lookup-store_ne key (codes "loc") (codes "UTC") zoned l
            ∙ lookup-store_ne key (codes "time_zone") (codes "'+00:00'") cfg.params z;
        fields = refl;
      }

  -- A database that is opened was opened at a DSN that was printed from a configuration whose
  -- parameters time_zone and loc are '+00:00' and UTC, and which is otherwise the one that the options'
  -- DSN parses to.
  pub create_db-IsUtc :
      (o : DbOptions) (db : lib.Db)
      → create_db lib o ≡ ok db
      → (dsn : Bytes) × (from to : Cfg lib) × (opened : lib.Db) × (build_mariadb_dsn lib o ≡ ok dsn)
        × (lib.parse_dsn dsn ≡ ok from)
        × IsUtc from to
        × (lib.sql_open (lib.format_dsn to) ≡ ok opened)
        × (db ≡ lib.set_max_idle_conns 0 opened)
  unfolding create_db force_utc_timezone
  create_db-IsUtc o db h = elim (Result-cases (build_mariadb_dsn lib o)) [
    | inr (e, b) ↦ cc
    | inl (dsn, b) ↦ elim (Result-cases (lib.parse_dsn dsn)) [
      | inr (e, p) ↦ cc
      | inl (cfg, p) ↦ elim (Result-cases (lib.sql_open (lib.format_dsn (in_utc lib cfg)))) [
        | inr (e, q) ↦ cc
        | inl (opened, q) ↦ (dsn, cfg, in_utc lib cfg, opened, b, p, in_utc-IsUtc cfg, q, cc)
      ]
    ]
  ]
