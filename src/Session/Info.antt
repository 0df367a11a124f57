-- ===== src/Session/Info.antt =====
-- `PrepareDriverInfo`, `ListTableTypes` and `GetPlaceholder` of go/connection.go, and the names of
-- `GetStatisticNames` of go/connection_statistics.go.
use adbc_driver_mariadb.Base.{String, ℕ, List, [], ◌∷◌, ◌++◌, Option, none, some, if◌then◌else◌}
use adbc_driver_mariadb.Base.Text.{Bytes, codes, equal}
use adbc_driver_mariadb.Base.Result.{Result, ok}
use adbc_driver_mariadb.Arrow.{Field, get_value}
use adbc_driver_mariadb.Session.Server.{Exec, Done, pure, pass, wrap, ◌>>=◌, ◌>>◌, Server}

-- `fmt.Sprintf("%s (%s)", version, comment)`
abbrev pub version_text : Bytes → Bytes → Bytes
version_text version comment = version ++ (codes " (" ++ (comment ++ codes ")"))

-- The connection's `version`, and the session.
abbrev pub Versioned : Server → Type 0
Versioned srv = Bytes × srv.State

module _ (srv : Server) (query_version : srv.State → Result Bytes (Bytes × Bytes) × srv.State)
    (register_vendor_version : Bytes → srv.State → Result Bytes Done × srv.State) where
  abbrev pub on_session : {A : Type 0} → Exec srv.State A → Exec (Versioned srv) A
  on_session m (v, s) = let (r, s') = m s in (r, (v, s'))

  abbrev pub set_version : Bytes → Exec (Versioned srv) Done
  set_version v (v', s) = (ok tt, (v, s))

  abbrev pub get_version : Exec (Versioned srv) Bytes
  get_version (v, s) = (ok v, (v, s))

  -- `if c.version == ""`
  abbrev pub fetch_version : Bytes → Exec (Versioned srv) Done
  fetch_version [] = do
    found ← on_session (wrap "failed to get version" query_version)
    set_version (version_text found.0 found.1)
  fetch_version (c ∷ cs) = pure tt

  unfoldable pub prepare_driver_info : Exec (Versioned srv) Done
  prepare_driver_info = do
    on_session (pass srv.clear_pending)
    known ← get_version
    fetch_version known
    version ← get_version
    on_session (pass (register_vendor_version version))

abbrev pub list_table_types : List Bytes
list_table_types = codes "BASE TABLE" ∷ codes "VIEW" ∷ codes "SYSTEM VIEW" ∷ []

abbrev placeholder_at : Option Bytes → Bytes
placeholder_at none = codes "?"
placeholder_at (some logical_type) =
    if equal logical_type (codes "geoarrow.wkb")
    then codes "ST_GeomFromWKB(CAST(? AS BINARY))"
    else codes "?"

unfoldable pub get_placeholder : Field → Bytes
unfolding get_value equal
get_placeholder field = placeholder_at (get_value field.metadata "mariadb.logical_arrow_type")

abbrev pub statistic_names : List (String × ℕ)
statistic_names =
    ("mariadb.statistic.data_length", 1024)
    ∷ ("mariadb.statistic.index_length", 1025)
    ∷ ("mariadb.statistic.avg_row_length", 1026)
    ∷ []
