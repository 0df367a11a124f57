-- ===== src/Dsn/Credentials.antt =====
-- The credentials in the DSN that `BuildMariaDBDSN` of go/db_factory.go makes.
use adbc_driver_mariadb.Base.{
  ◌≡◌, ◌≢◌, sym, ◌∙◌, ◌⊎◌, inl, inr, false, ◌&&◌, Bool-cases, [], ◌++◌, append-nil, Option, none,
  some, arith,
}
use adbc_driver_mariadb.Base.Text.{Bytes, codes, equal, equal_iff, has_prefix}
use adbc_driver_mariadb.Base.Result.{ok, Result-cases}
use adbc_driver_mariadb.Dsn.Build.{
  DbOptions, Url, DsnLibrary, Cfg, with_credentials, with_url_user, address, with_database,
  query_suffix, parse_to_mariadb_dsn, build_from_native_dsn, build_mariadb_dsn, cut, native_config,
  other_dsn,
}

module _ (lib : DsnLibrary) where
  -- The credentials that the options give are those of the configuration.
  pub record HasCredentials (username password : Bytes) (cfg : Cfg lib) : Type 0 where
    pub user : username ≢ [] → cfg.user ≡ username
    pub passwd : password ≢ [] → cfg.passwd ≡ password

  -- A DSN printed from a configuration with these credentials, with the query of a URI behind it.
  abbrev pub Carries : Bytes → Bytes → Bytes → Type 0
  Carries username password dsn =
      (cfg : Cfg lib) × (query : Bytes) × (dsn ≡ lib.format_dsn cfg ++ query_suffix lib query)
      × HasCredentials username password cfg

  with_credentials-HasCredentials :
      (username password : Bytes) (cfg : Cfg lib)
      → HasCredentials username password (with_credentials lib username password cfg)
  unfolding with_credentials
  with_credentials-HasCredentials username password cfg = record {
    user = λ h. ground (arith, equal_iff username []);
    passwd = λ h. ground (arith, equal_iff password []);
  }

  keeps :
      {username password : Bytes} (cfg cfg' : Cfg lib)
      → HasCredentials username password cfg
      → cfg'.user ≡ cfg.user
      → cfg'.passwd ≡ cfg.passwd
      → HasCredentials username password cfg'
  keeps cfg cfg' h u p = record { user = λ n. u ∙ h.user n; passwd = λ n. p ∙ h.passwd n }

  with_database-user :
      (path : Bytes) (cfg : Cfg lib)
      → ((with_database lib path cfg).user ≡ cfg.user)
        × ((with_database lib path cfg).passwd ≡ cfg.passwd)
  unfolding with_database
  with_database-user path cfg = (ground arith, ground arith)

  address-user :
      (u : Url) (cfg cfg' : Cfg lib) (path : Bytes)
      → address lib u cfg ≡ ok (cfg', path)
      → (cfg'.user ≡ cfg.user) × (cfg'.passwd ≡ cfg.passwd)
  unfolding address
  address-user u cfg cfg' path h = (ground arith, ground arith)

  uri-Carries :
      (uri username password dsn : Bytes)
      → parse_to_mariadb_dsn lib uri username password ≡ ok dsn
      → Carries username password dsn
  unfolding parse_to_mariadb_dsn
  uri-Carries uri username password dsn h = elim (Result-cases (lib.parse_url uri)) [
    | inr (e, p) ↦ cc
    | inl (u, p) ↦
        let start =
          with_credentials lib username password (with_url_user lib u.user lib.new_config) in
        let has =
          with_credentials-HasCredentials username password
            (with_url_user lib u.user lib.new_config) in
        elim (Result-cases (address lib u start)) [
          | inr (e, q) ↦ cc
          | inl ((cfg, path), q) ↦
              let a = address-user u start cfg path q in
              let d = with_database-user path cfg in
              (
                with_database lib path cfg,
                u.raw_query,
                cc,
                keeps cfg (with_database lib path cfg) (keeps start cfg has a.0 a.1) d.0 d.1,
              )
        ]
  ]

  native-Carries :
      (uri username password dsn : Bytes)
      → build_from_native_dsn lib uri username password ≡ ok dsn
      → Carries username password dsn
  unfolding build_from_native_dsn query_suffix equal
  native-Carries uri username password dsn h = elim (Result-cases (native_config lib uri)) [
    | inr (e, p) ↦ cc
    | inl (cfg, p) ↦
        let same : dsn ≡ lib.format_dsn (with_credentials lib username password cfg) = cc in
        (
          with_credentials lib username password cfg,
          [],
          same ∙ sym (append-nil (lib.format_dsn (with_credentials lib username password cfg))),
          with_credentials-HasCredentials username password cfg,
        )
  ]

  some_credentials :
      (o : DbOptions)
      → (o.username ≢ []) ⊎ (o.password ≢ [])
      → (equal o.username [] && equal o.password []) ≡ false
  some_credentials o (inl h) = ground (arith, equal_iff o.username [])
  some_credentials o (inr h) = ground (arith, equal_iff o.password [])

  other-Carries :
      (o : DbOptions) (found : Option (Bytes × Bytes)) (dsn : Bytes)
      → (equal o.username [] && equal o.password []) ≡ false
      → other_dsn lib o found ≡ ok dsn
      → Carries o.username o.password dsn
  other-Carries o (some (scheme, rest)) dsn given h = cc
  other-Carries o none dsn given h =
      native-Carries o.uri o.username o.password dsn (ground (arith, h, given))

  -- Where the options give a user name or a password, every DSN that is built is printed from a
  -- configuration with those that are given, whatever credentials the URI or the DSN in the options
  -- has.
  pub build_mariadb_dsn-Carries :
      (o : DbOptions) (dsn : Bytes)
      → (o.username ≢ []) ⊎ (o.password ≢ [])
      → build_mariadb_dsn lib o ≡ ok dsn
      → Carries o.username o.password dsn
  unfolding build_mariadb_dsn
  build_mariadb_dsn-Carries o dsn given h = elim (Bool-cases (equal o.uri [])) [
    | inl e ↦ cc
    | inr e ↦ elim (Bool-cases (has_prefix o.uri (codes "mariadb://"))) [
      | inl p ↦ uri-Carries o.uri o.username o.password dsn cc
      | inr p ↦ other-Carries o (cut (codes "://") o.uri) dsn (some_credentials o given) cc
    ]
  ]
