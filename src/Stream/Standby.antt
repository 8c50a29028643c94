-- ===== src/Stream/Standby.antt =====
-- What a standby tick does to the durable and the confirmed position, and the deadline of a
-- receive.
use jack_courier_driver_pglg.Prelude.{◌≤◌, ◌<◌, ◌≡◌, refl, ◌⊎◌, [], ◌∷◌, arith, min}
use jack_courier_driver_pglg.Errors.{ok}
use jack_courier_driver_pglg.Row.{Time}
use jack_courier_driver_pglg.Wal.{
  WalConsumer, set_flush_lsn, send_standby_status, standby_status_update,
}
use jack_courier_driver_pglg.Cursor.Persist.{applied}
use jack_courier_driver_pglg.Stream.{Limits, Inputs, Stream, next_receive_deadline, standby_tick}
use jack_courier_driver_pglg.Stream.Rules.{Then-standby, IsIdle}
use jack_courier_driver_pglg.Stream.Then.{Then-ok}

-- The deadline of a receive is the standby deadline while no batch deadline is set, and else the
-- earlier of the two.
next_receive_deadline_lem :
    (batch_at standby_at : Time)
    → ((batch_at ≡ 0) × (next_receive_deadline batch_at standby_at ≡ standby_at))
      ⊎ ((0 < batch_at) × (next_receive_deadline batch_at standby_at ≡ min batch_at standby_at))
unfolding next_receive_deadline
next_receive_deadline_lem batch_at standby_at = ground arith

-- What a tick that goes on has done.
pub data Ticked (i : Inputs) (now : Time) (s s' : Stream) : Type 0 where
  early : now < s.next_standby_at → s' ≡ s → Ticked i now s s'
  busy :
      s.next_standby_at ≤ now
      → (IsIdle s → ⊥)
      → s'.db ≡ s.db
      → s'.wal.flush_lsn ≡ s.wal.flush_lsn
      → s'.wal.sent ≡ standby_status_update s.wal i.idle_sending.now ∷ s.wal.sent
      → Ticked i now s s'
  idle :
      s.next_standby_at ≤ now
      → IsIdle s
      → s'.db ≡ applied [] s.wal.client_pos s.db
      → s'.wal.flush_lsn ≡ s.wal.client_pos
      → s'.wal.sent
        ≡ standby_status_update (set_flush_lsn s.wal.client_pos s.wal) i.idle_sending.now
          ∷ s.wal.sent
      → Ticked i now s s'

set_flush_lsn-client_pos :
    (w : WalConsumer)
    → w.flush_lsn < w.client_pos
    → (set_flush_lsn w.client_pos w).flush_lsn ≡ w.client_pos
unfolding set_flush_lsn
set_flush_lsn-client_pos w h = ground arith

sent-idled :
    (i : Inputs) (w : WalConsumer)
    → (send_standby_status i.idle_sending (set_flush_lsn w.client_pos w)).1.sent
      ≡ standby_status_update (set_flush_lsn w.client_pos w) i.idle_sending.now ∷ w.sent
unfolding send_standby_status set_flush_lsn
sent-idled i w = ground arith

-- A standby tick that goes on does nothing before its deadline. After it, it sends one status update;
-- and when nothing is pending, buffered or open and something was received past the flush position,
-- it has first persisted the received position and made it the flush position, and has otherwise
-- left both alone.
pub standby_tick-Ticked :
    (cfg : Limits) (i : Inputs) (now : Time) (s s' : Stream)
    → standby_tick cfg i now s ≡ (ok tt, s')
    → Ticked i now s s'
unfolding send_standby_status
standby_tick-Ticked cfg i now s s' h =
    Then-ok {P = Ticked i now s}
      (Then-standby cfg i now s (λ not_due. early not_due refl)
        (λ due no_idle. busy due no_idle refl refl refl)
        (λ db due free e.
          idle due free e (set_flush_lsn-client_pos s.wal free.received) (sent-idled i s.wal)))
      h
