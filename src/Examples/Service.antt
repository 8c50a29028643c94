-- ===== src/Examples/Service.antt =====
-- The theorems on the configuration and the life cycle, at the sample.
use mathlib.Core.List.{Nodup}
use jack_courier_driver_pglg.Driver.{
  run_once, with_cursor, stream, cursor_answer, close_session, start_streaming, World,
  SessionInputs, refused, started, run_sessions, role,
}
use jack_courier_driver_pglg.Stream.{run, round}
use jack_courier_driver_pglg.Cursor.{read_cursor, cursor_lsn}
use jack_courier_driver_pglg.Wal.{map_start_replication_error, failure}
use jack_courier_driver_pglg.Prelude.{
  Bool, text_eq, refl, ◌≡◌, ◌≤◌, ◌↔◌, ◌||◌, [], ◌∷◌, true, false, some, none, codes, Bytes,
  is_empty, Option, ℤ, All, if◌then◌else◌,
}
use jack_courier_driver_pglg.Errors.{ok, err, slot_busy}
use jack_courier_driver_pglg.Row.{Lsn}
use jack_courier_driver_pglg.Strconv.{parse_int}
use jack_courier_driver_pglg.Config.{
  Config, ReplicaConfig, empty_config, set_defaults, validate, config_from_env, positive_or,
}
use jack_courier_driver_pglg.Config.Validate.{IsComplete, names, validate_iff}
use jack_courier_driver_pglg.Config.Environment.{Readable, config_from_env_iff}
use jack_courier_driver_pglg.Driver.Pools.{new_driver}
use jack_courier_driver_pglg.Driver.Lifetime.{Kept, serve, serve-Kept}
use jack_courier_driver_pglg.Driver.Waits.{Draws, run_waits}
use jack_courier_driver_pglg.Driver.Waits.Bounds.{InTurn, HasRoom, Drawn, run_waits-InTurn}
use jack_courier_driver_pglg.Prelude.{List, arith}
use jack_courier_driver_pglg.Driver.Leadership.{IsReported}
use jack_courier_driver_pglg.Driver.Sessions.{IsDurable, run_sessions-IsDurable}
use jack_courier_driver_pglg.Driver.Roles.{
  streams, is_busy, run_sessions-IsReported, role-run_sessions,
}
use jack_courier_driver_pglg.Examples.{sample_lib, sample_limits, sample_db, sample_round}

abbrev mirror : ReplicaConfig
mirror = record { name = codes "eu"; conn_string = codes "host"; subscription_name = codes "sub" }

abbrev mirrored : Config
mirrored = record empty_config { replicas = mirror ∷ mirror ∷ [] }

validate_iff_example : (validate mirrored ≡ ok tt) ↔ (
    (is_empty mirrored.conn_string ≡ false)
    × (is_empty mirrored.slot_name ≡ false)
    × (is_empty mirrored.publication_name ≡ false)
    × All IsComplete mirrored.replicas
    × Nodup (names mirrored.replicas))
validate_iff_example = validate_iff mirrored

abbrev no_duration : Bytes → Option ℤ
no_duration s = none

abbrev getenv : Bytes → Bytes
getenv name = codes "12"

config_from_env_iff_example : ((c : Config) × (config_from_env no_duration getenv ≡ ok c)) ↔ (
    Readable parse_int getenv (codes "PGLG_MAX_BATCH_SIZE")
    × Readable no_duration getenv (codes "PGLG_BATCH_TIMEOUT")
    × Readable no_duration getenv (codes "PGLG_STANDBY_INTERVAL")
    × Readable no_duration getenv (codes "PGLG_DLQ_RETENTION")
    × Readable no_duration getenv (codes "PGLG_DLQ_CLEANUP_INTERVAL"))
config_from_env_iff_example = config_from_env_iff no_duration getenv

-- an LSN as the one byte of its text
abbrev pub show_lsn : Lsn → Bytes
show_lsn l = l ∷ []

abbrev pub parse_lsn : Bytes → Option Lsn
parse_lsn (l ∷ []) = some l
parse_lsn _ = none

abbrev pub sample_world : World
sample_world = record {
  driver = record { is_leader = false; maint_wake = false; standby_logged = false; events = [] };
  db = sample_db;
  submitted = [];
  answered = [];
  attempt = 0;
  closed = [];
}

-- a session that streams the sample rounds and then loses its connection
abbrev pub streaming : SessionInputs
streaming = record {
  query_ok = true;
  connect_ok = true;
  starting = started;
  now = 20;
  rounds = record sample_round { arrives = λ deadline. failure } ∷ [];
  stopped = false;
  stopped_waiting = false;
}

-- a session that finds the slot taken
abbrev waiting : SessionInputs
waiting = record streaming { starting = refused true }

run_sessions-IsDurable_example :
    IsDurable
      (run_sessions sample_lib sample_limits show_lsn parse_lsn
        (streaming ∷ waiting ∷ [])
        sample_world).1
    × (cursor_lsn sample_world.db
        ≤ cursor_lsn
            (run_sessions sample_lib sample_limits show_lsn parse_lsn
              (streaming ∷ waiting ∷ [])
              sample_world).1.db)
run_sessions-IsDurable_example =
    run_sessions-IsDurable sample_lib sample_limits show_lsn parse_lsn (λ l. refl)
      (streaming ∷ waiting ∷ []) sample_world tt

run_sessions-IsReported_example :
    IsReported
      (run_sessions sample_lib sample_limits show_lsn parse_lsn
        (streaming ∷ waiting ∷ [])
        sample_world).1.driver
run_sessions-IsReported_example =
    run_sessions-IsReported sample_lib sample_limits show_lsn parse_lsn (streaming ∷ waiting ∷ [])
      sample_world (record { shown = refl; counted = refl })

slot_taken :
    (run_once sample_lib sample_limits show_lsn parse_lsn waiting sample_world).0 ≡ err slot_busy
unfolding run_once with_cursor stream cursor_answer close_session start_streaming run round
    read_cursor map_start_replication_error
slot_taken = refl

role-run_sessions_example :
    role
      (run_sessions sample_lib sample_limits show_lsn parse_lsn
        (waiting ∷ [])
        sample_world).1.driver
    ≡ (if waiting.stopped || is_busy slot_busy
        then false
        else (streams waiting || role sample_world.driver))
role-run_sessions_example =
    role-run_sessions sample_lib sample_limits show_lsn parse_lsn (λ l. refl) waiting sample_world
      slot_busy slot_taken

-- accepted, with a replica that cannot be reached
abbrev pub complete : Config
complete = record empty_config {
  conn_string = codes "main";
  slot_name = codes "slot";
  publication_name = codes "pub";
  replicas = mirror ∷ [];
}

abbrev pub reachable : Bytes → Bool
reachable s = text_eq s (codes "main")

-- a driver without replicas, whose session fails and which is then stopped
abbrev alone : Config
alone = record complete { replicas = [] }

serve-Kept_example : Kept (new_driver reachable alone).0 (
    serve sample_lib show_lsn parse_lsn reachable alone
      (streaming ∷ record streaming { stopped = true } ∷ [])
      sample_world)
serve-Kept_example =
    serve-Kept sample_lib show_lsn parse_lsn reachable alone
      (streaming ∷ record streaming { stopped = true } ∷ []) sample_world

-- a taken slot between two sessions that fail
abbrev drawn : List (SessionInputs × Draws)
drawn =
    (streaming, record { jitter = 0; fraction = 3 })
    ∷ (waiting, record { jitter = 1500; fraction = 0 })
    ∷ (streaming, record { jitter = 0; fraction = 9 })
    ∷ []

default-HasRoom : HasRoom (set_defaults empty_config)
unfolding set_defaults positive_or
default-HasRoom = record { jitter = omega arith; delay = omega arith }

draws_fit : All (λ (p : SessionInputs × Draws). Drawn (set_defaults empty_config) p.1) drawn
unfolding set_defaults positive_or
draws_fit = omega arith

run_waits-InTurn_example : InTurn (set_defaults empty_config) sample_world.attempt (
    run_waits sample_lib sample_limits show_lsn parse_lsn
      (set_defaults empty_config)
      drawn
      sample_world)
run_waits-InTurn_example =
    run_waits-InTurn sample_lib sample_limits show_lsn parse_lsn (set_defaults empty_config)
      default-HasRoom drawn sample_world draws_fit
