-- ===== src/Lib.antt =====
-- Verification of jack-courier-driver-pglg, a courier driver that reads the rows of an outbox table
-- from PostgreSQL logical replication and submits them to jack-service.
--
-- The program. processWALStream (driver.go) is the loop of a session: it receives messages over the
-- replication connection (walConsumer, wal.go), parses them (wal_parser.go), collects the rows of
-- committed transactions, and flushes them in batches (flushBatch). A flush submits the jobs,
-- matches the results to the rows by correlation id (mapResults, dlq.go), writes the rejected rows
-- to the dead letter table and the commit LSN to the cursor table in one transaction (cursor.go,
-- persistFlushResult), and only then confirms the LSN to the server. When nothing is pending, a
-- standby tick persists and confirms the received position instead.
--
-- The model. State is passed explicitly and each call out of the process is an argument.
--   Prelude     shared names, Boolean tests, lists, integers, texts as lists of bytes
--   Errors      the errors of the driver and the result type
--   Strconv     strconv.FormatInt and strconv.ParseInt
--   Row         the row, message, job and dead letter types
--   Parser      wal_parser.go: parseInsertColumns and parseTimestamp; Parser/Message:
--               parseWALMessage; Parser/Bytea: decodeBytea; Parser/Columns: its properties
--   Wal         wal.go: the consumer's state and receiveMessage; Wal/Connect: connect and close;
--               Wal/Status, Wal/Receive
--   Dlq         dlq.go: mapResults, truncate, insertDLQRows; Dlq/Utf8: strings.ToValidUTF8;
--               Dlq/Matching, Dlq/Truncate, Dlq/Binding: their properties; Dlq/Cleanup: dlqCleanup
--   Cursor      cursor.go, and persistFlushResult of driver.go; Cursor/Persist
--   Flush       flushBatch of driver.go; Flush/Confirmed, Flush/Outcome, Flush/Settled
--   Stream      processWALStream of driver.go; Stream/Then, Stream/Both and Stream/Rules carry a
--               property through a round, and Stream/Safety, Stream/Conservation, Stream/Covered,
--               Stream/Order, Stream/Batch, Stream/Waiting and Stream/Standby state the properties
--               of the loop; Stream/Outbox is an abstract outbox, to which Stream/Refinement relates
--               the loop; Stream/Delivery, Stream/Restart, Stream/Arrivals, Stream/Carries and
--               Stream/Resend follow the transactions of the WAL
--   Config      the Config of driver.go; Config/Defaults, Config/Validate and Config/Environment state
--               what setDefaults, validate and ConfigFromEnv promise
--   Driver      runOnce, Run and the leader role of driver.go; Driver/Leadership, Driver/Sessions,
--               Driver/Roles; Driver/Pools: New; Driver/Lifetime: New and Run, with the pools;
--               Driver/Waits: the waits of Run; Driver/Restarts: the sessions over a WAL;
--               Driver/Heartbeat: leaderHeartbeat
--   Backoff     backoff.go; Backoff/Delays: the bounds of the delays
--   Partition   createPartitions of partition.go; Partition/Calendar: the layout of the names;
--               Partition/Parse: parsePartitionLower, which reads them; Partition/Expiry:
--               dropExpiredPartitions; Partition/Replica: the partitions of a replica;
--               Partition/Maintenance: the loop that runs them all, and the gauges;
--               Partition/Windows, Partition/Create, Partition/Removal, Partition/Retention and the
--               children of Partition/Replica and Partition/Maintenance: their properties
--   Setup       cmd/pglg-setup/main.go: the arguments; Setup/Privileges, Setup/Files, Setup/Text,
--               Setup/Create and Setup/Destroy: its functions and what they use of the package
--               strings; Setup/Arguments, Setup/Listed, Setup/Applied and Setup/Replica: their properties;
--               Setup/Handover: from the set-up to the maintenance of the driver
--   Bench       cmd/pglg-bench/main.go: the load, the reset and the stub of jack-service;
--               Bench/Flags, Bench/Jobs and Bench/Main: its other functions; Bench/Stats:
--               stats.go; Bench/Submit, Bench/Percentile, Bench/Load and Bench/Verdict: properties
--   Examples    a sample environment, and the theorems at it
--
-- Correspondence. `Stream` holds the local variables of processWALStream and the `Session` (consumer,
-- durable state, calls of submit so far); `round` is one round of its `for`, `run` the rounds over a
-- list of `Inputs`: the clock's readings, what the connection delivers by a deadline, the answers of
-- jack-service, and which database calls fail. A round that returns from the Go function gives an
-- error; a round that goes on gives `ok`. So `run` is no loop on fuel: any number of rounds is the
-- length of the list. `run_sessions` is Run over a list of sessions in the same way. The durable
-- state `Db` is the one row of the cursor table that belongs to the slot and the dead letter table.
-- The goroutines beside the loop, the maintenance of the partitions, the heartbeat and the clean-up,
-- run over lists of their wake-ups in the same way, each by itself; how their actions interleave is
-- not modelled, and a reading of the role is one action with the gauge or the run that follows it.
-- A commit whose answer is lost may have been applied.
--
-- Bounds. An LSN is a natural number, and the one addition on it is taken modulo 2^64; an id is an
-- int64. A time is the number of nanoseconds since the zero time, so that 0 is IsZero. A text is a
-- list of bytes. The digits of a number are printed with its successor as fuel, which is more than
-- its number of digits.
--
-- The jittered delay of the backoff is an exact quotient where the program multiplies float64s. The
-- windows of createPartitions are counted with one turn for each nanosecond of their range as fuel,
-- enough since an interval is positive. A partition name is read back for a lower bound at a full
-- minute before the year 10000, the years of four digits.
--
-- Arguments. What the code calls and does not define: pglogrepl.ParseV2, ParseLSN and the message
-- parsers, time.Parse but for the layout of the partition names, time.ParseDuration, os.Getenv, the
-- answers of jack-service and of PostgreSQL.
--
-- Not modelled: logging and what is printed; the metrics, but for those of the leader role, of the
-- errors and the gauges of the maintenance and of the clean-up; the texts of wrapped errors; the
-- parsing of the flags; schema.go, which returns the embedded files.
pub mod Prelude
pub mod Errors
pub mod Strconv
pub mod Row
pub mod Parser
pub mod Wal
pub mod Dlq
pub mod Cursor
pub mod Flush
pub mod Stream
pub mod Backoff
pub mod Config
pub mod Driver
pub mod Partition
pub mod Setup
pub mod Bench
pub mod Examples
