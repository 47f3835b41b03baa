-- ===== src/Lib.antt =====
-- cubrid-go: a database/sql driver for CUBRID that speaks the CAS broker's binary protocol. This
-- library models the driver's protocol, its client-side SQL interpolation, the connections,
-- statements, result sets and transactions that use them, its data source names, and what its GORM
-- dialector decides by itself.
--
-- The program. `conn.go` opens a socket, shakes hands and sends requests; `stmt.go`, `rows.go` and
-- `tx.go` are database/sql's statements, result sets and transactions on it; `driver.go` reads a DSN;
-- `dialector/cubrid.go` plugs the driver into GORM. All of them build requests and read responses
-- through `protocol.go`, which is made of the primitives of `packet.go` and the numbers of
-- `constants.go`, turns the server's errors into the types of `errors.go`, and they print arguments
-- into SQL text with `types.go`.
--
-- Which file models what:
--   Constants        constants.go: function codes, statement types, sizes, CUBRID data types
--   Packet.Header    packet.go: buildProtocolHeader, parseProtocolHeader
--   Packet.Writer    packet.go: PacketWriter; a method maps a writer to a writer
--   Packet.Reader    packet.go: PacketReader; a method is a parser action on buffer and offset
--   Errors           errors.go: newError, containsCI, indexCI, toLower
--   Protocol.Types   protocol.go: the result structs
--   Protocol.Tables  protocol.go: raiseError, parseColumnMetadata, parseResultInfos
--   Protocol.Values  protocol.go: readValue, parseRowData
--   Protocol.Requests, Protocol.Bind      protocol.go: the Write functions, encodeBindParams
--   Protocol.Responses                    protocol.go: the Parse functions
--   Sql.Scanner      types.go: findBindPlaceholders
--   Sql.Literal      types.go: FormatValue, escapeString, hexEncode
--   Sql.Interpolate  types.go: InterpolateArgs
--   Conn.Socket, Conn.Helpers   conn.go: send, recv, sendAndRecv, closeQueryHandle, execSQL,
--                               fetchLastInsertID
--   Conn.Handshake   conn.go: connect
--   Conn.Session     conn.go: Begin, Prepare, Ping, ServerVersion, Close; tx.go: Commit, Rollback
--   Rows.Next        rows.go: Next, fillDest, Close, Columns; and the rows that QueryContext makes
--   Rows.TypeName    rows.go: ColumnTypeDatabaseTypeName
--   Stmt.Execute     stmt.go: Exec, Query, Close
--   Context.Deadline, Context.Query   conn.go: applyContextDeadline, namedValuesToValues, BeginTx,
--                                     QueryContext, ExecContext; types.go:
--                                     namedValueToValue
--   Watch            conn.go: watchContextCancel beside the method that started it
--   Driver.Dsn, Driver.Open           driver.go: parseDSN, Open
--   Dialector.Setup      dialector/cubrid.go: Open, OpenDB, Name, Initialize, ClauseBuilders
--   Dialector.Types      dialector/cubrid.go: DataTypeOf, DefaultValueOf
--   Dialector.Quote      dialector/cubrid.go: QuoteTo, BindVarTo
--   Dialector.Columns    dialector/cubrid.go: FullDataTypeOf
--   Dialector.Migrator   dialector/cubrid.go: CreateTable, HasTable, HasColumn, HasIndex, AutoMigrate,
--                        CurrentDatabase
--   Result, Runtime, Wire, Prelude   Go's errors and panics, values, encoding/binary, shared lemmas
-- Specifications that stand beside the code: Protocol.Grammar lays the responses out as bytes without
-- looking at the parsers, Protocol.Arguments lays a request out as a list of sized arguments,
-- Sql.Pass is interpolation as one pass. Packet.Reads is the calculus that proves a parser
-- right on the bytes that come next. Conn.Framing says when a peer
-- answers a request, Rows.Drain when it serves a result set FETCH by FETCH (Serves) and what reading
-- row by row gives (Delivers), Conn.Releases when it runs a text and closes its handle (RunsAndCloses).
-- Conn.Opening says what a broker and a CAS do that let a connection in (Redirects, Leads),
-- Dialector.Identifiers reads a quoted identifier as SQL does, Driver.Config writes a configuration as
-- a URL, Watch.Race says what a run must not lead to (LateRun).
--
-- How the code is modelled:
--   - Bytes and Go strings are lists of numbers below 256. Lengths, offsets and Go ints that come from
--     a byte are natural numbers, other Go ints are integers; a conversion to int32, int16 or byte
--     keeps its two's complement wrap-around.
--   - A Go function returns a value, an error or a run-time panic (Result). A slice out of bounds, a
--     negative `make`, an index out of range and a negative `strings.Repeat` are panics. The capacity
--     of a response buffer is its length, as `conn.recv` allocates it. Memory is not bounded.
--   - `raiseError` inside a parser ends it with that error.
--   - A float is its IEEE 754 bit pattern, a time its civil fields. Packages time and strconv are the
--     record Runtime: time.Date, UTC, float32 to float64, FormatFloat and Format are its functions.
--     What is asked of it is that time.Date keeps fields in their ranges (KeepsCivil).
--   - The socket is the record Socket of what packages net and io do on a state of their own; an
--     operation passes that state on. A byte stream is an instance of it. The connection's lock is held
--     by the callers, and no operation runs beside another. connect works on a record of a network, in
--     which sockets are told apart by numbers.
--   - A context is what Err and Deadline give, over the state of the socket: it may be cancelled
--     between any two calls. Deadlines are set by a call of the socket, which the theorems let succeed
--     and leave the traffic as it is (HasDeadlines).
--   - The watcher goroutine stands apart, in Watch: the method that started it, the goroutine and the
--     environment are three parties, and a run is any sequence of their steps (Move, Step). The body of
--     the method is a number of calls of the socket (at most 3 in QueryContext, 12 in ExecContext), each
--     of which blocks until the peer lets it end or the deadline has gone by.
--   - net/url, strconv.Atoi, strconv.ParseBool and time.ParseDuration are the record Parsers, GORM and
--     its own migrator the record Gorm, what Initialize calls the record Host.
--   - The row that Next fills is a list of values, given and returned. Where Next fails, its caller's
--     row is not returned.
--   - A counted loop recurs on the rounds left; the loops of types.go and errors.go recur on the text.
--     The decimal printer runs on fuel n + 1 for the number n, and a lemma shows that it is enough;
--     Watch.Finishes runs on fuel for the steps that are left, which each move makes fewer.
--
-- Not modelled: the registration of the driver with database/sql; Explain and Migrator of the dialector,
-- which hand their arguments to GORM; a connection without a socket, which Open never returns; several
-- watchers on one socket; the texts of `Error()` and of the errors of parseDSN; the tests.
pub mod Prelude
pub mod Result
pub mod Runtime
pub mod Wire
pub mod Constants
pub mod Packet
pub mod Errors
pub mod Protocol
pub mod Sql
pub mod Conn
pub mod Rows
pub mod Stmt
pub mod Dialector
pub mod Driver
pub mod Context
pub mod Watch
