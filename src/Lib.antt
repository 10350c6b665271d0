-- ===== src/Lib.antt =====
-- Verification of the i400 driver: a database/sql driver for Db2 for i that speaks the IBM i host
-- server protocol.
--
-- The modules and the code that they model (paths from the repository's root):
--   Prelude    shared names of the libraries, Boolean tests, lists over native numbers, int32
--   Errors     errors.go and the errors of the codecs, as a result type
--   Binary     Go's encoding/binary and slices, with a panic out of range
--   Wire       protocol.go and wire.go: packet headers, LLCP items, packets and replies
--   Text       the text functions that the driver takes from Go's strings, on bytes
--   Request    sql.go, package.go, tx.go, call_result_sets.go, clientinfo.go, sqlerror_text.go: the
--              attributes of a request body and the build functions
--   Decimal    sql.go: packed and zoned decimals
--   DateTime   datetime_format.go: TIME text and the reader of fixed fields
--   Dates      datetime_format.go: DATE text, over the calendar of the time package, a parameter
--   Options    dsn.go: parseEnumeratedOption and the options that are a number or a name
--   Names      sql.go: statement ids, descriptor handles and cursor names; maps are lists of keys, and
--              the search for an id makes a round for each of the 9998 ids
--   Parameters  sql.go: the format of parameter markers and its readers, the payloads that describe and
--              carry bound values, and the requests with them
--   Batches    batch.go: which statements may be sent in blocks, the cut of the rows into blocks, and
--              the payload of a block. The loop over the blocks makes no more rounds than there are rows
--   Execution  sql.go and batch.go: execPrepared, queryPreparedWithArgs, openAndDescribe and execBlock on
--              a connection with its names, and the batch operations above them
--   Describe   sql.go: parseDescribePayload with the parsers of both layouts of a description, and what
--              columnMeta says of a column. The loops over a section and over the variable fields make no
--              more rounds than these have bytes, which is enough
--   Payloads   reply_error.go, sql.go, sqlerror_text.go: readers of reply payloads, as rounds of the
--              loop Wire.Walk.scan; a payload needs no more rounds than it has bytes
--   Reader     sql.go: sliceReader, as the bytes from its position on
--   Blocks     sql.go: the result data of a fetch and the rows that are cut out of it
--   Sqlca      sql.go and sqlerror_text.go: the SQLCA of a reply with its tokens
--   Replies    reply_error.go, sqlerror_text.go, driver.go and sql.go: checkReply, the warnings of a
--              connection, fetchRows and the calls that close a cursor or a statement. Requests are sent
--              by the parameters of Replies.Network; Replies/Fetched makes them a Rows.Connection
--   Rows       sql.go: queryRows, over the interface Rows.Connection: Next in Rows/Reading, the scrolling
--              moves in Rows/Scrolling, NextResultSet in Rows/Sets. The loop of Next has a fuel of two
--              rounds, which is enough
--   Sql        stmt.go: countSQLPlaceholders and rewriteNamedParams. A scan makes no more rounds than its
--              text has bytes
--   GeneratedKeys  generatedkeys.go: isInsertStatement and the wrapping of an INSERT
--   Arguments  stmt.go: reorderNamedArgs
--   Statement  stmt.go: acquire, release, ExecContext, QueryContext and Close of a prepared statement.
--              Statement/Lifecycle has the interleavings of its calls as a step relation, with a
--              step for each place where a call holds the mutex
--   StatementCache  driver.go: cachedPreparedStatement and releaseCachedStatement, whose critical
--              sections are steps of a relation on caches, StatementCache/Traces
--   Transaction  tx.go, with the commitment control of dbconn.go and driver.go: BeginTx, Commit and
--              Rollback, over the interface Transaction.Host of requests that are checked, and ResetSession
--              in Transaction/Reset, over the interface Attributes of its further calls
--   Tests      runs on concrete data and the theorems at concrete inputs
--
-- A byte slice is a list of numbers below 256, an unsigned word a number, and an int32 the type ℤ.
-- A slice or an index out of range is the error `panic`, so that a theorem about a result also
-- excludes a panic.
--
-- The connection that a statement runs on is the record Statement.Connection: the statement's theorems
-- hold for every connection.
-- Likewise Rows.Connection is what the rows of a cursor call on their connection. Replies/Fetched fills
-- it with fetchRows and the closing calls, which send requests of Request, read replies through Wire and
-- hand their payloads to Blocks. The callback that rows run when they close is the release of Statement
-- or of StatementCache.
--
-- Execution fills what Statement.Connection calls execPrepared and queryPreparedWithArgs, over the calls of
-- Execution.Calls; its batches send the blocks of Batches, whose payloads Parameters lays out.
--
-- A loop over a list or a text is a recursion on it, or on a fuel that a lemma shows to be enough.
--
-- Not modelled: sockets, TLS, deadlines and contexts, which the interfaces hide behind the calls that
-- use them; the CCSID tables and the bidirectional text, whose conversions are parameters; the password
-- substitutes, which stand on the crypto packages; the texts that fmt prints for errors and warnings,
-- which are data; nil receivers; how much memory there is; and the parsing of a connection string as a
-- whole, signon, packages, the encoding of arguments and the decoding of the column types, apart from
-- decimals, dates and times.
pub mod Prelude
pub mod Errors
pub mod Binary
pub mod Text
pub mod Wire
pub mod Request
pub mod Decimal
pub mod DateTime
pub mod Dates
pub mod Names
pub mod Parameters
pub mod Batches
pub mod Describe
pub mod Options
pub mod Execution
pub mod Payloads
pub mod Reader
pub mod Blocks
pub mod Sqlca
pub mod Replies
pub mod Rows
pub mod Sql
pub mod GeneratedKeys
pub mod Arguments
pub mod Statement
pub mod StatementCache
pub mod Transaction
mod Tests
