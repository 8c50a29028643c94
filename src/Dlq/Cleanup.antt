-- ===== src/Dlq/Cleanup.antt =====
-- dlqCleanup and runDLQCleanup of dlq.go. A row of the dead letter table has the time that the
-- database gave it; the retention goes to the database in whole microseconds.
pub mod Kept
use mathlib.Core.List.{Memᴰ}
use mathlib.Core.Path.{subst}
use jack_courier_driver_pglg.Prelude.{
  ℕ, suc, ◌+◌, ◌-◌, ◌*◌, ◌/◌, ◌≤◌, ◌<◌, ◌≡◌, refl, ◌↔◌, ◌||◌, List, [], ◌∷◌, ◌++◌, Bool, true,
  false, ltb, leb, length, arith, Bool-cases, inl, inr, if◌then◌else◌,
}
use jack_courier_driver_pglg.Row.{Time, DlqRow}

pub record DeadLetter : Type 0 where
  pub row : DlqRow
  pub dead_lettered_at : Time

pub data CleanupMetric : Type 0 where
  cleanup_error : CleanupMetric
  cleanup_deleted : ℕ → CleanupMetric

pub record DlqTable : Type 0 where
  pub rows : List DeadLetter
  pub metrics : List CleanupMetric

-- The database's clock and its answer. A statement that returns an error may have been applied.
pub record Cleanup : Type 0 where
  pub now : Time
  pub exec_ok : Bool
  pub exec_applied : Bool

-- pgtype.Interval
unfoldable pub microseconds : ℕ → ℕ
microseconds d = d / 1000 * 1000

-- DELETE … WHERE dead_lettered_at < now() - retention, where now() is later than the retention
unfoldable pub is_expired : ℕ → Time → DeadLetter → Bool
is_expired retention now r = ltb r.dead_lettered_at (now - microseconds retention)

unfoldable pub delete_expired : ℕ → Time → List DeadLetter → List DeadLetter
delete_expired retention now [] = []
delete_expired retention now (r ∷ rs) =
    let rest = delete_expired retention now rs in
    if is_expired retention now r then rest else r ∷ rest

unfoldable pub run_dlq_cleanup : ℕ → Cleanup → DlqTable → DlqTable
run_dlq_cleanup retention i t =
    let left = delete_expired retention i.now t.rows in
    let deleted = cleanup_deleted (length t.rows - length left) in
    record {
      rows = if i.exec_ok || i.exec_applied then left else t.rows;
      metrics = t.metrics ++ (if i.exec_ok then deleted else cleanup_error) ∷ [];
    }

-- A turn of the loop, with the role as it is read.
pub data CleanupTick : Type 0 where
  cleanup_stopped : CleanupTick
  cleanup_ticked : Bool → Cleanup → CleanupTick

unfoldable pub dlq_cleanup : ℕ → List CleanupTick → DlqTable → DlqTable
dlq_cleanup retention [] t = t
dlq_cleanup retention (cleanup_stopped ∷ ts) t = t
dlq_cleanup retention (cleanup_ticked is_leader i ∷ ts) t =
    dlq_cleanup retention ts (if is_leader then run_dlq_cleanup retention i t else t)
