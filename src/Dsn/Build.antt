-- ===== src/Dsn/Build.antt =====
-- `CreateDB`, `BuildMariaDBDSN` and their helpers of go/db_factory.go. The URL parser, the DSN parser
-- and printer, and `sql.Open` are a parameter.
use adbc_driver_mariadb.Base.{ℕ, ◌&&◌, ◌||◌, List, [], ◌∷◌, ◌++◌, Option, none, some, if◌then◌else◌}
use adbc_driver_mariadb.Base.Text.{
  Bytes, codes, equal, cut_prefix, has_prefix, contains, split_at_byte,
}
use adbc_driver_mariadb.Base.Dict.{store}
use adbc_driver_mariadb.Base.Result.{Result, ok, err, ◌>>=◌}

-- The options that are read; a missing one is the empty text.
pub record DbOptions : Type 0 where
  pub uri : Bytes
  pub username : Bytes
  pub password : Bytes

-- `url.URL`: its fields, and what `Hostname` and `Port` return.
pub record Url : Type 0 where
  pub user : Option (Bytes × Option Bytes)
  pub host : Bytes
  pub hostname : Bytes
  pub port : Bytes
  pub path : Bytes
  pub raw_query : Bytes

-- `mysql.Config`; `others` are the fields that the driver neither reads nor writes. A nil map of
-- parameters is an empty one: the driver makes it before it writes.
pub record Config (Others : Type 0) : Type 0 where
  pub user : Bytes
  pub passwd : Bytes
  pub net : Bytes
  pub addr : Bytes
  pub db_name : Bytes
  pub params : List (Bytes × Bytes)
  pub others : Others

pub record DsnLibrary : Type 1 where
  pub Others : Type 0
  pub Db : Type 0
  pub parse_url : Bytes → Result Bytes Url
  pub new_config : Config Others
  pub parse_dsn : Bytes → Result Bytes (Config Others)
  pub format_dsn : Config Others → Bytes
  pub sql_open : Bytes → Result Bytes Db
  pub set_max_idle_conns : ℕ → Db → Db

pub data DsnError : Type 0 where
  missing_uri missing_hostname missing_parenthesis : DsnError
  unsupported_scheme invalid_uri invalid_dsn timezone_dsn not_opened : Bytes → DsnError

abbrev pub after_byte : ℕ → Option (Bytes × Bytes) → Option (Bytes × Bytes)
after_byte c none = none
after_byte c (some (before, after)) = some (c ∷ before, after)

-- `strings.Cut(s, sep)` for a separator that is not empty.
unfoldable pub cut : Bytes → Bytes → Option (Bytes × Bytes)
cut sep [] = none
cut sep (c ∷ cs) =
    let later = after_byte c (cut sep cs) in
    elim (cut_prefix (c ∷ cs) sep) [ some after ↦ some ([], after) | none ↦ later ]

-- `strings.TrimPrefix`
unfoldable pub trim_prefix : Bytes → Bytes → Bytes
trim_prefix s prefix = elim (cut_prefix s prefix) [ some after ↦ after | none ↦ s ]

module _ (lib : DsnLibrary) where
  abbrev pub Cfg : Type 0
  Cfg = Config lib.Others

  abbrev with_user : Bytes → Cfg → Cfg
  with_user username cfg = if equal username [] then cfg else record cfg { user = username }

  abbrev with_passwd : Bytes → Cfg → Cfg
  with_passwd password cfg = if equal password [] then cfg else record cfg { passwd = password }

  -- The credentials of the options, where they are given.
  unfoldable pub with_credentials : Bytes → Bytes → Cfg → Cfg
  with_credentials username password cfg = with_passwd password (with_user username cfg)

  -- The credentials of a URI.
  unfoldable pub with_url_user : Option (Bytes × Option Bytes) → Cfg → Cfg
  with_url_user none cfg = cfg
  with_url_user (some (name, none)) cfg = record cfg { user = name }
  with_url_user (some (name, some password)) cfg = record cfg { user = name; passwd = password }

  abbrev socket : Cfg → Option (Bytes × Bytes) → Result DsnError (Cfg × Bytes)
  socket cfg none = err missing_parenthesis
  socket cfg (some (path, from)) = ok (
    record cfg { net = codes "unix"; addr = path },
    elim from [ [] ↦ [] | c ∷ db_path ↦ db_path ],
  )

  -- The switch on the host name: the address, and the path that names the database.
  unfoldable pub address : Url → Cfg → Result DsnError (Cfg × Bytes)
  address u cfg =
      if equal u.hostname (codes "(")
      then socket cfg (split_at_byte b')' u.path)
      else if equal u.hostname []
      then err missing_hostname
      else ok (
        record cfg {
          net = codes "tcp";
          addr = if equal u.port [] then u.host ++ codes ":3306" else u.host;
        },
        u.path,
      )

  unfoldable pub with_database : Bytes → Cfg → Cfg
  unfolding trim_prefix
  with_database db_path cfg =
      if equal db_path [] || equal db_path (codes "/")
      then cfg
      else record cfg { db_name = trim_prefix db_path (codes "/") }

  -- The query of a URI, behind the formatted DSN.
  unfoldable pub query_suffix : Bytes → Bytes
  query_suffix raw_query = if equal raw_query [] then [] else b'?' ∷ raw_query

  abbrev uri_dsn : Url → Result DsnError (Cfg × Bytes) → Result DsnError Bytes
  uri_dsn u (err e) = err e
  uri_dsn u (ok (cfg, db_path)) =
      ok (lib.format_dsn (with_database db_path cfg) ++ query_suffix u.raw_query)

  abbrev url_dsn : Bytes → Bytes → Result Bytes Url → Result DsnError Bytes
  url_dsn username password (err e) = err (invalid_uri e)
  url_dsn username password (ok u) =
      uri_dsn u
        (address u (with_credentials username password (with_url_user u.user lib.new_config)))

  unfoldable pub parse_to_mariadb_dsn : Bytes → Bytes → Bytes → Result DsnError Bytes
  unfolding with_credentials with_url_user address with_database query_suffix
  parse_to_mariadb_dsn uri username password = url_dsn username password (lib.parse_url uri)

  abbrev pub native_config : Bytes → Result Bytes Cfg
  native_config uri =
      if contains uri (codes "@") || contains uri (codes "/")
      then lib.parse_dsn uri
      else ok (record lib.new_config { addr = uri; net = codes "tcp" })

  abbrev native_dsn : Bytes → Bytes → Result Bytes Cfg → Result DsnError Bytes
  native_dsn username password (err e) = err (invalid_dsn e)
  native_dsn username password (ok cfg) =
      ok (lib.format_dsn (with_credentials username password cfg))

  unfoldable pub build_from_native_dsn : Bytes → Bytes → Bytes → Result DsnError Bytes
  unfolding with_credentials
  build_from_native_dsn uri username password = native_dsn username password (native_config uri)

  -- What is no `mariadb://` URI.
  abbrev pub other_dsn : DbOptions → Option (Bytes × Bytes) → Result DsnError Bytes
  other_dsn o (some (scheme, rest)) = err (unsupported_scheme scheme)
  other_dsn o none =
      if equal o.username [] && equal o.password []
      then ok o.uri
      else build_from_native_dsn o.uri o.username o.password

  unfoldable pub build_mariadb_dsn : DbOptions → Result DsnError Bytes
  unfolding parse_to_mariadb_dsn build_from_native_dsn cut
  build_mariadb_dsn o =
      if equal o.uri []
      then err missing_uri
      else if has_prefix o.uri (codes "mariadb://")
      then parse_to_mariadb_dsn o.uri o.username o.password
      else other_dsn o (cut (codes "://") o.uri)

  unfoldable pub in_utc : Cfg → Cfg
  unfolding store
  in_utc cfg = record cfg {
    params =
        store (codes "loc") (codes "UTC") (store (codes "time_zone") (codes "'+00:00'") cfg.params);
  }

  abbrev utc_dsn : Result Bytes Cfg → Result DsnError Bytes
  utc_dsn (err e) = err (timezone_dsn e)
  utc_dsn (ok cfg) = ok (lib.format_dsn (in_utc cfg))

  -- `forceUTCTimezone`, less its warnings in the log.
  unfoldable pub force_utc_timezone : Bytes → Result DsnError Bytes
  unfolding in_utc
  force_utc_timezone dsn = utc_dsn (lib.parse_dsn dsn)

  abbrev opened : Result Bytes lib.Db → Result DsnError lib.Db
  opened (err e) = err (not_opened e)
  opened (ok db) = ok (lib.set_max_idle_conns 0 db)

  unfoldable pub create_db : DbOptions → Result DsnError lib.Db
  unfolding build_mariadb_dsn force_utc_timezone
  create_db o =
      build_mariadb_dsn o >>= (λ dsn. force_utc_timezone dsn >>= (λ utc. opened (lib.sql_open utc)))
