-- ===== src/Errors.antt =====
-- The errors that the driver makes, one constructor for each site of fmt.Errorf or errors.New; a
-- site that wraps an error of this library (%w) holds it. What a third-party error says is left out.
use jack_courier_driver_pglg.Prelude.{ℕ, Bytes, ◌≡◌, refl, arith}

pub data Error : Type 0 where
  -- wal_parser.go
  parse_message streaming_message column_count parse_id parse_created_at : Error
  decode_payload parse_run_at : Error
  -- dlq.go
  result_count duplicate_insert duplicate_result unknown_result insert_dlq : Error
  -- cursor.go
  read_cursor parse_cursor write_cursor : Error
  -- wal.go
  standby_timeout slot_busy receive_message parse_keepalive parse_xlog_data : Error
  connect invalid_connection identify_system start_replication send_status : Error
  -- driver.go
  cancelled begin_flush commit_flush submit_failed : Error
  inconsistent receive standby_status cursor_read : Error → Error
  no_conn_string no_slot_name no_publication_name : Error
  no_replica_name : ℕ → Error
  no_replica_conn_string no_replica_subscription : ℕ → Bytes → Error
  duplicate_replica invalid_variable create_replica_pool : Bytes → Error
  create_pool : Error
  -- partition.go
  check_partition begin_partition create_partition register_partition commit_partition : Error
  begin_drop query_expired detach_partition drop_partition delete_meta commit_drop : Error
  list_replica scan_replica iterate_replica create_replica : Error
  read_apply begin_replica_drop detach_replica drop_replica commit_replica_drop : Error

pub data Result {ℓ} (A : Type ℓ) : Type ℓ where
  ok : A → Result A
  err : Error → Result A

infixl 5 ◌>>=◌
abbrev pub ◌>>=◌ {ℓ κ} : {A : Type ℓ} {B : Type κ} → Result A → (A → Result B) → Result B
ok a >>= f = f a
err e >>= f = err e

-- A chain that succeeds has succeeded at each step.
pub ok_of_bind {ℓ κ} :
    {A : Type ℓ} {B : Type κ} (r : Result A) (f : A → Result B) (b : B)
    → (r >>= f) ≡ ok b
    → (a : A) × (r ≡ ok a) × (f a ≡ ok b)
ok_of_bind (ok a) f b h = (a, refl, h)
ok_of_bind (err e) f b h = absurd (ground arith)
