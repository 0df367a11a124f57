-- ===== src/Dsn/Tests.antt =====
-- Data source names over a small library for go/db_factory.go.
use adbc_driver_mariadb.Base.{◌≡◌, ◌≢◌, inl, refl, List, [], ◌++◌, some, ℕ}
use adbc_driver_mariadb.Base.Text.{Bytes, codes, equal, has_prefix}
use adbc_driver_mariadb.Base.Result.{ok, err}
use adbc_driver_mariadb.Dsn.Build.{
  DbOptions, Config, DsnLibrary, unsupported_scheme, build_mariadb_dsn, create_db, Cfg,
}
use adbc_driver_mariadb.Dsn.Credentials.{Carries, build_mariadb_dsn-Carries}
use adbc_driver_mariadb.Dsn.Utc.{IsUtc, create_db-IsUtc}

abbrev empty_config : Config (List ℕ)
empty_config = record {
  user = [];
  passwd = [];
  net = [];
  addr = [];
  db_name = [];
  params = [];
  others = [];
}

-- A URI is read as one that names a user and a database on the host "db"; a DSN is an address.
abbrev small_library : DsnLibrary
small_library = record {
  Others = List ℕ;
  Db = Bytes;
  parse_url = λ uri. ok (record {
    user = some (codes "root", some (codes "secret"));
    host = codes "db";
    hostname = codes "db";
    port = [];
    path = codes "/shop";
    raw_query = codes "tls=true";
  });
  new_config = empty_config;
  parse_dsn = λ dsn. ok (record empty_config { addr = dsn });
  format_dsn = λ cfg.
      cfg.user
      ++ (codes ":" ++ (cfg.passwd ++ (codes "@" ++ (cfg.addr ++ (codes "/" ++ cfg.db_name)))));
  sql_open = λ dsn. ok dsn;
  set_max_idle_conns = λ n db. db;
}

abbrev uri_options : DbOptions
uri_options = record {
  uri = codes "mariadb://root:secret@db/shop?tls=true";
  username = codes "alice";
  password = [];
}

build_uri :
    build_mariadb_dsn small_library uri_options ≡ ok (codes "alice:secret@db:3306/shop?tls=true")
unfolding build_mariadb_dsn equal has_prefix
build_uri = refl

build_other :
    build_mariadb_dsn small_library (record uri_options { uri = codes "mysql://db" })
    ≡ err (unsupported_scheme (codes "mysql"))
unfolding build_mariadb_dsn equal has_prefix
build_other = refl

alice : codes "alice" ≢ []
alice e = cc

build_mariadb_dsn-Carries_example :
    Carries small_library (codes "alice") [] (codes "alice:secret@db:3306/shop?tls=true")
build_mariadb_dsn-Carries_example =
    build_mariadb_dsn-Carries small_library uri_options (codes "alice:secret@db:3306/shop?tls=true")
      (inl alice) build_uri

abbrev plain_options : DbOptions
plain_options = record { uri = codes "db"; username = []; password = [] }

create_plain : create_db small_library plain_options ≡ ok (codes ":@db/")
unfolding create_db equal has_prefix
create_plain = refl

create_db-IsUtc_example :
    (dsn : Bytes) × (from to : Cfg small_library) × (opened : Bytes) × (build_mariadb_dsn
        small_library plain_options
      ≡ ok dsn)
    × (small_library.parse_dsn dsn ≡ ok from)
    × IsUtc small_library from to
    × (small_library.sql_open (small_library.format_dsn to) ≡ ok opened)
    × (codes ":@db/" ≡ small_library.set_max_idle_conns 0 opened)
create_db-IsUtc_example = create_db-IsUtc small_library plain_options (codes ":@db/") create_plain
