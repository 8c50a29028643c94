-- ===== src/Wal/Status.antt =====
-- What PostgreSQL is told by a status update.
use jack_courier_driver_pglg.Prelude.{◌⊎◌, ◌<◌, max, ◌≤◌, ◌≡◌, ◌==◌, if◌then◌else◌, arith}
use jack_courier_driver_pglg.Row.{Time, Lsn}
use jack_courier_driver_pglg.Wal.{WalConsumer, StatusUpdate, standby_status_update, set_flush_lsn}

-- SendStandbyStatusUpdate replaces a zero flush or apply position by the write position.
abbrev pub or_write : Lsn → Lsn → Lsn
or_write write l = if l == 0 then write else l

abbrev pub heard_flush : StatusUpdate → Lsn
heard_flush u = or_write u.wal_write u.wal_flush

abbrev pub heard_apply : StatusUpdate → Lsn
heard_apply u = or_write u.wal_write u.wal_apply

-- The flush and apply positions that reach PostgreSQL, after pglogrepl has put the write position
-- for a zero, are exactly the consumer's flush position; the write position is the larger of it
-- and the received one, or 0 while nothing is flushed.
pub heard-standby_status_update :
    (w : WalConsumer) (now : Time)
    → let u = standby_status_update w now in
      (heard_flush u ≡ w.flush_lsn)
      × (heard_apply u ≡ w.flush_lsn)
      × (((w.flush_lsn ≡ 0) × (u.wal_write ≡ 0))
          ⊎ ((0 < w.flush_lsn) × (u.wal_write ≡ max w.flush_lsn w.client_pos)))
unfolding standby_status_update
heard-standby_status_update w now = ground arith

pub flush-set_flush_lsn :
    (l : Lsn) (w : WalConsumer)
    → (w.flush_lsn ≤ (set_flush_lsn l w).flush_lsn)
      × (l ≤ (set_flush_lsn l w).flush_lsn)
      × ((set_flush_lsn l w).client_pos ≡ w.client_pos)
      × ((set_flush_lsn l w).sent ≡ w.sent)
unfolding set_flush_lsn
flush-set_flush_lsn l w = ground arith
