-- ===== src/Lib.antt =====
-- The Go part of the MariaDB driver for ADBC, under go/: what it sends to a server, what it reads back,
-- and how its database, connection and statement objects keep their state.
--
-- A text is the list of its bytes (Base.Text). strings.ToLower, strings.ToUpper and strings.EqualFold fold
-- the letters of ASCII only, where Go's fold those of Unicode. A Go error is a value of a Result. An int64 or int32 is
-- an integer of Base.Int, wrapped round where the source's arithmetic can overflow. A method that talks
-- to the server is a function over the server's state (Session.Server) that also says what happened to
-- that state when it fails. Code of other repositories is a parameter: the session with the server, the
-- base objects that the driver's objects embed, the URL and DSN libraries, the default type converter,
-- and the batched ingest.
--
--   Sql             quoteIdentifier, QuoteIdentifiers (go/connection.go), countPlaceholders
--                   (go/mariadb.go), and queries under construction with their arguments
--   Objects         GetObjects and addTableConstraints: their queries, how the rows are grouped,
--                   buildColumnInfo, and the constraints (go/connection_getobjects.go)
--   Statistics      GetStatistics: statisticsFilter, its queries, and the maps that the rows are
--                   collected into (go/connection_statistics.go)
--   Dsn             BuildMariaDBDSN, forceUTCTimezone and CreateDB (go/db_factory.go)
--   Schema          GetTableSchema, parseTypeDimension and parseMariaDBTypeValues (go/connection.go)
--   ErrorInspector  InspectError (go/error_inspector.go)
--   Arrow           the Arrow types, fields and metadata that the driver names
--   Temporal        parseMariaDBDuration, the duration inserter, and the text of a duration in
--                   ConvertArrowToGo (go/mariadb.go)
--   Convert         ConvertRawColumnType, CreateInserter and the inserters, and ConvertArrowToGo
--                   (go/mariadb.go)
--   Session         options, factories, transactions, namespaces, isolation levels, statements and
--                   PrepareDriverInfo (go/mariadb.go, go/connection.go), and the rows of a query
--   Ingest          ExecuteBulkIngest, createTableIfNeeded, createTable, dropTable and
--                   arrowToMariaDBType (go/connection.go)
--   Export          the C interface (go/pkg/driver.go): Error and Option are the C structs and buffers it
--                   fills in, Driver and World what it calls and works on, Database, Connection and
--                   Statement its functions, Stream the export of readers, Init its table of functions;
--                   Calls has sequences of calls, Told, Good and Refused the laws of each call
--   Base            numbers, integers, decimal texts, lists, maps and results
--
-- Statements use what Sql says of queries; Ingest writes its identifiers with Sql and runs its
-- statements through Session; Convert reads TIME values with Temporal; GetTableSchema converts its
-- columns with Convert. The rows that a query answers are a list of what Scan gives for each, with the
-- errors of the iteration and of closing them (Session.Rows). The tables of GetObjects are numbered in
-- their order, and the number stands for the pointer to a table.
--
-- Loops are recursion on the bytes or rows that are left. The outer loop of parseMariaDBTypeValues is
-- recursion on rounds, one more than the input has bytes; each round reads the two quotes of a value.
--
-- The exported functions work on one handle of each kind and on the caller's out-parameters, which are
-- parts of one record (Export.World); the driver behind them is a parameter with a state, and each of its
-- calls may return, fail or panic. Those at a database, a connection or a statement look first whether an
-- earlier call panicked; the callbacks of a stream and AdbcDriverMariadbInit do not. The options that a database or a connection is given before its Init
-- are applied in the order of a list, where the source's maps have none.
--
-- Not modelled: buildResult and NewDriver, which only call other libraries; the log messages and what a
-- panic prints; the handles of the Go runtime (createHandle, handleFromPtr, getFromHandle) and the casts
-- to the C data interface, which are identities here.
pub mod Base
pub mod Sql
pub mod Schema
pub mod ErrorInspector
pub mod Arrow
pub mod Temporal
pub mod Convert
pub mod Session
pub mod Ingest
pub mod Dsn
pub mod Statistics
pub mod Objects
pub mod Export
