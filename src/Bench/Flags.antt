-- ===== src/Bench/Flags.antt =====
-- config and parseFlags of cmd/pglg-bench/main.go, over the values that package flag has read, and
-- the Config of the driver that main makes of them.
use jack_courier_driver_pglg.Prelude.{List, [], ◌∷◌, Bytes, codes, ℤ, pos}
use jack_courier_driver_pglg.Config.{Config, empty_config, seconds}

-- The durations are nanoseconds.
pub record BenchConfig : Type 0 where
  pub conn_string : Bytes
  pub schema : Bytes
  pub table_prefix : Bytes
  pub publication : Bytes
  pub slot : Bytes
  pub rate : ℤ
  pub duration : ℤ
  pub submit_latency : ℤ
  pub payload_size : ℤ
  pub batch_size : ℤ

-- A flag of the command line, with its value.
pub data Flag : Type 0 where
  conn_string schema prefix publication slot : Bytes → Flag
  rate duration submit_latency payload_size batch_size : ℤ → Flag

-- The defaults of the flags.
unfoldable pub default_flags : BenchConfig
default_flags = record {
  conn_string =
      codes "host=127.0.0.1 port=15434 user=pglg password=pglg dbname=pglg sslmode=disable";
  schema = codes "public";
  table_prefix = codes "bench";
  publication = codes "bench_pub";
  slot = codes "bench_slot";
  rate = pos 2000;
  duration = seconds 60;
  submit_latency = pos 0;
  payload_size = pos 256;
  batch_size = pos 100;
}

unfoldable pub set_flag : Flag → BenchConfig → BenchConfig
set_flag (conn_string s) c = record c { conn_string = s }
set_flag (schema s) c = record c { schema = s }
set_flag (prefix s) c = record c { table_prefix = s }
set_flag (publication s) c = record c { publication = s }
set_flag (slot s) c = record c { slot = s }
set_flag (rate n) c = record c { rate = n }
set_flag (duration n) c = record c { duration = n }
set_flag (submit_latency n) c = record c { submit_latency = n }
set_flag (payload_size n) c = record c { payload_size = n }
set_flag (batch_size n) c = record c { batch_size = n }

-- flag.Parse sets the flags in their order.
unfoldable pub set_flags : List Flag → BenchConfig → BenchConfig
unfolding set_flag
set_flags [] c = c
set_flags (f ∷ fs) c = set_flags fs (set_flag f c)

unfoldable pub parse_flags : List Flag → BenchConfig
unfolding set_flags default_flags
parse_flags fs = set_flags fs default_flags

-- The argument of pglg.New; what it leaves out is zero.
unfoldable pub driver_config : BenchConfig → Config
driver_config c = record empty_config {
  conn_string = c.conn_string;
  slot_name = c.slot;
  publication_name = c.publication;
  schema = c.schema;
  table_prefix = c.table_prefix;
  max_batch_size = c.batch_size;
}
