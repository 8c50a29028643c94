-- ===== src/Stream/Covered.antt =====
-- The rows that wait in memory belong to transactions past the durable cursor.
use jack_courier_driver_pglg.Prelude.{
  ◌≤◌, ◌<◌, ◌≡◌, refl, sym, ap, ◌∙◌, [], ◌∷◌, ◌++◌, List, Bool, true, false, arith, max, append-nil,
  append_assoc, not, ◌&&◌, if◌then◌else◌, All, All-append,
}
use jack_courier_driver_pglg.Row.{Time, Lsn, ParsedInsert}
use jack_courier_driver_pglg.Wal.{send_standby_status, set_flush_lsn}
use jack_courier_driver_pglg.Cursor.{Db, cursor_lsn}
use jack_courier_driver_pglg.Cursor.Persist.{applied, position-upsert_cursor}
use jack_courier_driver_pglg.Flush.{Session, FlushInputs}
use jack_courier_driver_pglg.Flush.Outcome.{Delivered}
use jack_courier_driver_pglg.Stream.{
  Limits, Stream, Inputs, is_nil, timed_flush, standby_tick, open_batch, close_tx, on_commit, start,
}
use jack_courier_driver_pglg.Stream.Rules.{
  flushed, told, idled, joined, IsIdle, Then-timed, Then-standby, Then-commit,
}
use jack_courier_driver_pglg.Stream.Then.{Then}

-- A committed transaction: the LSN of its end and its rows.
abbrev pub Tx : Type 0
Tx = Lsn × List ParsedInsert

abbrev pub rows_of : List Tx → List ParsedInsert
rows_of [] = []
rows_of ((l, rows) ∷ txs) = rows ++ rows_of txs

-- The pending rows are those of transactions that end past the durable cursor, so that the server
-- sends them again to a driver that starts from it; and the cursor is not past what the driver has
-- received or flushed.
pub record IsCovered (s : Stream) : Type 0 where
  pub open_txs : List Tx
  pub rows : s.pending_inserts ≡ rows_of open_txs
  pub ahead : All (λ t. cursor_lsn s.db < t.0) open_txs
  pub bound : cursor_lsn s.db ≤ max s.pending_commit_lsn s.wal.client_pos

pub rows_of-append : (xs ys : List Tx) → rows_of (xs ++ ys) ≡ rows_of xs ++ rows_of ys
rows_of-append [] ys = refl
rows_of-append ((l, rows) ∷ xs) ys =
    rw (rows_of-append xs ys) (sym (append_assoc rows (rows_of xs) (rows_of ys)))

either : (b : Bool) (s t : Stream) → IsCovered s → IsCovered t → IsCovered (if b then s else t)
either true s t hs ht = hs
either false s t hs ht = ht

closed-IsCovered :
    (s : Stream) → IsCovered s → s.pending_inserts ≡ [] → IsCovered (flushed s s.session)
closed-IsCovered s c e = record { open_txs = []; rows = refl; ahead = tt; bound = c.bound }

flushed-IsCovered :
    (i : FlushInputs) (s : Stream) (session : Session)
    → IsCovered s
    → Delivered i s.pending_inserts s.pending_commit_lsn s.session session
    → IsCovered (flushed s session)
flushed-IsCovered i s session c d = record {
  open_txs = [];
  rows = refl;
  ahead = tt;
  bound =
      rw (d.durable, d.received)
        (omega (arith, c.bound, position-upsert_cursor s.pending_commit_lsn s.db.cursor));
}

pub timed_flush-IsCovered :
    (i : Inputs) (s : Stream) → IsCovered s → Then IsCovered (timed_flush i s)
timed_flush-IsCovered i s c =
    Then-timed i s c (closed-IsCovered s c) (λ session d. flushed-IsCovered i.timed s session c d)

told-IsCovered : (cfg : Limits) (i : Inputs) (s : Stream) → IsCovered s → IsCovered (told cfg i s)
unfolding send_standby_status
told-IsCovered cfg i s c = record {
  open_txs = c.open_txs;
  rows = c.rows;
  ahead = c.ahead;
  bound = c.bound;
}

idled-IsCovered :
    (s : Stream) (db : Db)
    → IsIdle s
    → IsCovered s
    → db ≡ applied [] s.wal.client_pos s.db
    → IsCovered (idled s db)
unfolding set_flush_lsn
idled-IsCovered s db free c e = record {
  open_txs = [];
  rows = free.no_pending;
  ahead = tt;
  bound = rw e (ground (arith, position-upsert_cursor s.wal.client_pos s.db.cursor));
}

pub standby_tick-IsCovered :
    (cfg : Limits) (i : Inputs) (now : Time) (s : Stream)
    → IsCovered s
    → Then IsCovered (standby_tick cfg i now s)
standby_tick-IsCovered cfg i now s c =
    Then-standby cfg i now s (λ not_due. c) (λ due busy. told-IsCovered cfg i s c)
      (λ db due free e. told-IsCovered cfg i (idled s db) (idled-IsCovered s db free c e))

close_tx-IsCovered :
    (l : Lsn) (s : Stream) → cursor_lsn s.db < l → IsCovered s → IsCovered (close_tx l s)
unfolding close_tx
close_tx-IsCovered l s h c = record {
  open_txs = c.open_txs ++ (l, s.buf) ∷ [];
  rows =
      ap (λ rows. rows ++ s.buf) c.rows
      ∙ ap (◌++◌ (rows_of c.open_txs)) (sym (append-nil s.buf))
      ∙ sym (rows_of-append c.open_txs ((l, s.buf) ∷ []));
  ahead = All-append _ c.open_txs ((l, s.buf) ∷ []) c.ahead (h, tt);
  bound = ground (arith, c.bound);
}

joined-IsCovered :
    (cfg : Limits) (i : Inputs) (l : Lsn) (s : Stream)
    → cursor_lsn s.db < l
    → IsCovered s
    → IsCovered (joined cfg i l s)
unfolding open_batch
joined-IsCovered cfg i l s h c =
    either (is_nil s.pending_inserts && not (is_nil (close_tx l s).pending_inserts)) _ _
      (record { open_txs = d.open_txs; rows = d.rows; ahead = d.ahead; bound = d.bound }) d
  where
    d : IsCovered (close_tx l s)
    d = close_tx-IsCovered l s h c

pub on_commit-IsCovered :
    (cfg : Limits) (i : Inputs) (l : Lsn) (s : Stream)
    → cursor_lsn s.db < l
    → IsCovered s
    → Then IsCovered (on_commit cfg i l s)
on_commit-IsCovered cfg i l s h c =
    let t = joined cfg i l s in
    let d = joined-IsCovered cfg i l s h c in
    Then-commit cfg i l s (λ room. d) (closed-IsCovered t d)
      (λ session sent. flushed-IsCovered i.full t session d sent)

-- A stream that starts from the cursor has nothing pending.
pub start-IsCovered :
    (cfg : Limits) (now : Time) (session : Session)
    → IsCovered (start cfg now (cursor_lsn session.db) session)
unfolding start
start-IsCovered cfg now session = record {
  open_txs = [];
  rows = refl;
  ahead = tt;
  bound = omega arith;
}
