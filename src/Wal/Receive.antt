-- ===== src/Wal/Receive.antt =====
-- What receiveMessage does to the consumer.
use jack_courier_driver_pglg.Prelude.{
  ◌≡◌, ◌==◌, [], ◌∷◌, ◌⊎◌, Option, none, some, length, max, if◌then◌else◌, arith,
}
use jack_courier_driver_pglg.Row.{Lsn}
use jack_courier_driver_pglg.Wal.{
  Decoders, Received, Sending, WalConsumer, Keepalive, XLogData, timeout, failure, unrelated,
  copy_data, advance, add_lsn, standby_status_update, send_standby_status, receive_message,
}

-- The position that a message announces, 0 where it announces none.
told_by_keepalive : Option Keepalive → Lsn
told_by_keepalive none = 0
told_by_keepalive (some k) = k.server_wal_end

told_by_data : Option XLogData → Lsn
told_by_data none = 0
told_by_data (some x) = add_lsn x.wal_start (length x.wal_data)

unfoldable pub announced : Decoders → Received → Lsn
unfolding told_by_keepalive told_by_data
announced lib timeout = 0
announced lib failure = 0
announced lib unrelated = 0
announced lib (copy_data []) = 0
announced lib (copy_data (b ∷ rest)) =
    if b == b'k'
    then told_by_keepalive (lib.parse_keepalive rest)
    else if b == b'w'
    then told_by_data (lib.parse_xlog_data rest)
    else 0

-- What receiving a message has done.
pub record Receives (lib : Decoders) (r : Received) (w w' : WalConsumer) (s : Sending)
    : Type 0 where
  pub flush : w'.flush_lsn ≡ w.flush_lsn
  pub relations : w'.relations ≡ w.relations
  pub position : w'.client_pos ≡ max w.client_pos (announced lib r)
  pub updates : (w'.sent ≡ w.sent) ⊎ (w'.sent ≡ standby_status_update w' s.now ∷ w.sent)

-- On every branch, errors included, receiving leaves the flush position and the relations alone,
-- moves the received position up to the one that the message announces and never back, and sends at
-- most one update, made of the consumer as it is then.
pub receive_message-Receives :
    (lib : Decoders) (r : Received) (s : Sending) (w : WalConsumer)
    → Receives lib r w (receive_message lib r s w).1 s
unfolding receive_message advance send_standby_status announced
receive_message-Receives lib r s w = ground arith
