-- ===== src/Config.antt =====
-- The Config of driver.go: defaults, validation and the environment. Durations are nanoseconds, as
-- time.Duration. The logger and the metrics client are left out.
pub mod Validate
pub mod Defaults
pub mod Environment
use jack_courier_driver_pglg.Prelude.{
  ℕ, suc, ◌+◌, ◌*◌, List, [], ◌∷◌, ◌++◌, Bool, true, false, Option, none, some, Bytes, codes,
  contains, is_empty, ℤ, pos, negsuc, is_positive, if◌then◌else◌,
}
use jack_courier_driver_pglg.Errors.{
  Error, Result, ok, err, ◌>>=◌, no_conn_string, no_slot_name, no_publication_name, no_replica_name,
  no_replica_conn_string, no_replica_subscription, duplicate_replica, invalid_variable,
}
use jack_courier_driver_pglg.Strconv.{parse_int}
use jack_courier_driver_pglg.Stream.{Limits}

pub record ReplicaConfig : Type 0 where
  pub name : Bytes
  pub conn_string : Bytes
  pub subscription_name : Bytes

pub record Config : Type 0 where
  pub conn_string : Bytes
  pub slot_name : Bytes
  pub publication_name : Bytes
  pub schema : Bytes
  pub table_prefix : Bytes
  pub max_batch_size : ℤ
  pub batch_timeout : ℤ
  pub standby_interval : ℤ
  pub partition_interval : ℤ
  pub partition_look_ahead : ℤ
  pub partition_retention : ℤ
  pub partition_maint_interval : ℤ
  pub reconnect_initial_delay : ℤ
  pub reconnect_max_delay : ℤ
  pub slot_busy_retry_delay : ℤ
  pub slot_busy_retry_jitter : ℤ
  pub leader_heartbeat_interval : ℤ
  pub dlq_retention : ℤ
  pub dlq_cleanup_interval : ℤ
  pub replicas : List ReplicaConfig

-- time.Second, time.Minute and time.Hour
abbrev pub seconds : ℕ → ℤ
seconds n = pos (n * 1000000000)

abbrev pub minutes : ℕ → ℤ
minutes n = seconds (n * 60)

abbrev pub hours : ℕ → ℤ
hours n = minutes (n * 60)

-- `if c.X <= 0 { c.X = … }`
unfoldable pub positive_or : ℤ → ℤ → ℤ
positive_or default x = if is_positive x then x else default

-- `if c.X == "" { c.X = … }`
unfoldable pub text_or : Bytes → Bytes → Bytes
text_or default s = if is_empty s then default else s

unfoldable pub set_defaults : Config → Config
set_defaults c = record {
  conn_string = c.conn_string;
  slot_name = c.slot_name;
  publication_name = c.publication_name;
  schema = text_or (codes "public") c.schema;
  table_prefix = text_or (codes "outbox") c.table_prefix;
  max_batch_size = positive_or (pos 100) c.max_batch_size;
  batch_timeout = positive_or (seconds 1) c.batch_timeout;
  standby_interval = positive_or (seconds 10) c.standby_interval;
  partition_interval = positive_or (hours 1) c.partition_interval;
  partition_look_ahead = positive_or (hours 12) c.partition_look_ahead;
  partition_retention = positive_or (hours 3) c.partition_retention;
  partition_maint_interval = positive_or (minutes 5) c.partition_maint_interval;
  reconnect_initial_delay = positive_or (seconds 1) c.reconnect_initial_delay;
  reconnect_max_delay = positive_or (seconds 30) c.reconnect_max_delay;
  slot_busy_retry_delay = positive_or (seconds 5) c.slot_busy_retry_delay;
  slot_busy_retry_jitter = positive_or (seconds 1) c.slot_busy_retry_jitter;
  leader_heartbeat_interval = positive_or (seconds 15) c.leader_heartbeat_interval;
  dlq_retention = positive_or (hours (30 * 24)) c.dlq_retention;
  dlq_cleanup_interval = positive_or (hours 1) c.dlq_cleanup_interval;
  replicas = c.replicas;
}

-- The loop over the replicas, from index `i`; `seen` are the names so far.
unfoldable pub validate_replicas : ℕ → List Bytes → List ReplicaConfig → Result (Unit {0})
validate_replicas i seen [] = ok tt
validate_replicas i seen (r ∷ rs) =
    let rest = validate_replicas (suc i) (r.name ∷ seen) rs in
    if is_empty r.name
    then err (no_replica_name i)
    else if is_empty r.conn_string
    then err (no_replica_conn_string i r.name)
    else if is_empty r.subscription_name
    then err (no_replica_subscription i r.name)
    else if contains r.name seen
    then err (duplicate_replica r.name)
    else rest

unfoldable pub validate : Config → Result (Unit {0})
validate c =
    if is_empty c.conn_string
    then err no_conn_string
    else if is_empty c.slot_name
    then err no_slot_name
    else if is_empty c.publication_name
    then err no_publication_name
    else validate_replicas 0 [] c.replicas

-- fmt.Sprintf("%s.%s_…", c.Schema, c.TablePrefix)
unfoldable pub table_name : Bytes → Config → Bytes
table_name suffix c = c.schema ++ codes "." ++ c.table_prefix ++ suffix

abbrev pub jobs_table : Config → Bytes
jobs_table c = table_name (codes "_jobs") c

abbrev pub cursor_table : Config → Bytes
cursor_table c = table_name (codes "_cursor") c

abbrev pub partition_meta_table : Config → Bytes
partition_meta_table c = table_name (codes "_partition_meta") c

abbrev pub dlq_table : Config → Bytes
dlq_table c = table_name (codes "_dlq") c

-- A positive int or duration; the loop reads no others.
abbrev pub magnitude : ℤ → ℕ
magnitude (pos n) = n
magnitude (negsuc n) = 0

-- What the receive loop reads of a config.
abbrev pub limits : Config → Limits
limits c = record {
  max_batch_size = magnitude c.max_batch_size;
  batch_timeout = magnitude c.batch_timeout;
  standby_interval = magnitude c.standby_interval;
}

-- Config{}: the zero value
abbrev pub empty_config : Config
empty_config = record {
  conn_string = [];
  slot_name = [];
  publication_name = [];
  schema = [];
  table_prefix = [];
  max_batch_size = pos 0;
  batch_timeout = pos 0;
  standby_interval = pos 0;
  partition_interval = pos 0;
  partition_look_ahead = pos 0;
  partition_retention = pos 0;
  partition_maint_interval = pos 0;
  reconnect_initial_delay = pos 0;
  reconnect_max_delay = pos 0;
  slot_busy_retry_delay = pos 0;
  slot_busy_retry_jitter = pos 0;
  leader_heartbeat_interval = pos 0;
  dlq_retention = pos 0;
  dlq_cleanup_interval = pos 0;
  replicas = [];
}

-- `if v := os.Getenv(name); v != "" { … }`: the field that the variable sets, or an error. `getenv`
-- is os.Getenv, empty for a variable that is not set.
unfoldable pub variable : (Bytes → Option ℤ) → (Bytes → Bytes) → Bytes → Result ℤ
variable parse getenv name =
    if is_empty (getenv name)
    then ok (pos 0)
    else elim (parse (getenv name)) [ none ↦ err (invalid_variable name) | some n ↦ ok n ]

abbrev replicas_of : (Bytes → Bytes) → List ReplicaConfig
replicas_of getenv =
    if is_empty (getenv (codes "PGLG_REPLICA_CONN_STRING"))
    then []
    else record {
      name = getenv (codes "PGLG_REPLICA_NAME");
      conn_string = getenv (codes "PGLG_REPLICA_CONN_STRING");
      subscription_name = getenv (codes "PGLG_REPLICA_SUBSCRIPTION");
    }
      ∷ []

-- The fields that are read after the batch size; `parse_duration` is time.ParseDuration.
unfoldable pub after_batch : (Bytes → Option ℤ) → (Bytes → Bytes) → ℤ → Result Config
unfolding variable
after_batch parse_duration getenv batch = do
  timeout ← variable parse_duration getenv (codes "PGLG_BATCH_TIMEOUT")
  interval ← variable parse_duration getenv (codes "PGLG_STANDBY_INTERVAL")
  retention ← variable parse_duration getenv (codes "PGLG_DLQ_RETENTION")
  cleanup ← variable parse_duration getenv (codes "PGLG_DLQ_CLEANUP_INTERVAL")
  ok (record empty_config {
    conn_string = getenv (codes "PGLG_CONN_STRING");
    slot_name = getenv (codes "PGLG_SLOT_NAME");
    publication_name = getenv (codes "PGLG_PUBLICATION_NAME");
    schema = getenv (codes "PGLG_SCHEMA");
    table_prefix = getenv (codes "PGLG_TABLE_PREFIX");
    max_batch_size = batch;
    batch_timeout = timeout;
    standby_interval = interval;
    dlq_retention = retention;
    dlq_cleanup_interval = cleanup;
    replicas = replicas_of getenv;
  })

-- strconv.Atoi reads an int64.
unfoldable pub config_from_env : (Bytes → Option ℤ) → (Bytes → Bytes) → Result Config
config_from_env parse_duration getenv =
    variable parse_int getenv (codes "PGLG_MAX_BATCH_SIZE") >>= after_batch parse_duration getenv
