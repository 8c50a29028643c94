-- ===== src/Stream/Outbox.antt =====
-- An abstract outbox: the rows that are not committed yet, those that wait, what was handed over, the
-- dead letters and the positions. It forgets messages, relations, batch sizes, deadlines and calls.
use jack_courier_driver_pglg.Prelude.{
  ◌≡◌, refl, sym, [], ◌∷◌, ◌++◌, List, map, max, append-nil, arith,
}
use mathlib.Core.Path.{subst}
use jack_courier_driver_pglg.Errors.{ok}
use jack_courier_driver_pglg.Row.{Lsn, Job, ParsedInsert, SubmitResult, DlqRow, to_job}
use jack_courier_driver_pglg.Wal.{set_flush_lsn, send_standby_status}
use jack_courier_driver_pglg.Dlq.{map_results}
use jack_courier_driver_pglg.Cursor.{Db, cursor_lsn}
use jack_courier_driver_pglg.Cursor.Persist.{applied, position-upsert_cursor}
use jack_courier_driver_pglg.Flush.{Session, FlushInputs}
use jack_courier_driver_pglg.Flush.Outcome.{Delivered}
use jack_courier_driver_pglg.Stream.{Limits, Stream, Inputs}
use jack_courier_driver_pglg.Stream.Conservation.{flatten, flatten-snoc}
use jack_courier_driver_pglg.Stream.Rules.{flushed, told, idled, IsIdle}

pub record Outbox : Type 0 where
  pub open_rows : List ParsedInsert
  pub waiting : List ParsedInsert
  pub committed : Lsn
  pub received : Lsn
  pub handed_over : List Job
  pub dead_letters : List DlqRow
  pub cursor : Lsn
  pub confirmed : Lsn

-- What the outbox may do: take a row; hear of a later position; commit the open rows; hand over all
-- the rows that wait, of which there are some, with their dead letters, and move both positions up to
-- the committed one; or, while nothing waits or is open, move both up to the received one.
pub data Step (o : Outbox) : Outbox → Type 0 where
  take_row : (p : ParsedInsert) → Step o (record o { open_rows = o.open_rows ++ p ∷ [] })
  hear : (l : Lsn) → Step o (record o { received = max o.received l })
  close :
      (l : Lsn)
      → Step o (record o {
        open_rows = [];
        waiting = o.waiting ++ o.open_rows;
        committed = max o.committed l;
      })
  hand_over :
      (results : List SubmitResult) (rows : List DlqRow)
      → (o.waiting ≡ [] → ⊥)
      → map_results o.waiting results ≡ ok rows
      → Step o (record o {
        waiting = [];
        handed_over = o.handed_over ++ map to_job o.waiting;
        dead_letters = o.dead_letters ++ rows;
        cursor = max o.cursor o.committed;
        confirmed = max o.confirmed o.committed;
      })
  move_on :
      o.waiting ≡ []
      → o.open_rows ≡ []
      → Step o
          (record o { cursor = max o.cursor o.received; confirmed = max o.confirmed o.received })

pub data Steps (o : Outbox) : Outbox → Type 0 where
  stay : Steps o o
  then_step : {p q : Outbox} → Steps o p → Step p q → Steps o q

-- The outbox that a stream stands for.
unfoldable pub outbox : Stream → Outbox
outbox s = record {
  open_rows = s.buf;
  waiting = s.pending_inserts;
  committed = s.pending_commit_lsn;
  received = s.wal.client_pos;
  handed_over = flatten s.submitted;
  dead_letters = s.db.dlq;
  cursor = cursor_lsn s.db;
  confirmed = s.wal.flush_lsn;
}

pub outbox_eq :
    (p q : Outbox)
    → p.open_rows ≡ q.open_rows
    → p.waiting ≡ q.waiting
    → p.committed ≡ q.committed
    → p.received ≡ q.received
    → p.handed_over ≡ q.handed_over
    → p.dead_letters ≡ q.dead_letters
    → p.cursor ≡ q.cursor
    → p.confirmed ≡ q.confirmed
    → p ≡ q
outbox_eq p q a b c d e f g h = cc

unfoldable pub Reaches : Outbox → Stream → Type 0
Reaches o s = Steps o (outbox s)

pub extend :
    (o p : Outbox) (s s' : Stream) → Reaches o s → Step (outbox s) p → outbox s' ≡ p → Reaches o s'
unfolding Reaches
extend o p s s' h k e = subst (Steps o) (sym e) (then_step h k)

pub transfer : (o : Outbox) (s s' : Stream) → Reaches o s → outbox s' ≡ outbox s → Reaches o s'
unfolding Reaches
transfer o s s' h e = subst (Steps o) (sym e) h

pub flushed-Reaches :
    (o : Outbox) (i : FlushInputs) (s : Stream) (session : Session)
    → Reaches o s
    → Delivered i s.pending_inserts s.pending_commit_lsn s.session session
    → Reaches o (flushed s session)
unfolding outbox
flushed-Reaches o i s session h d =
    extend o _ s (flushed s session) h (hand_over d.results d.rows d.some_rows d.matched) (
      outbox_eq _ _ refl refl refl d.received
        (rw d.calls (flatten-snoc s.submitted (map to_job s.pending_inserts))) d.letters d.cursor
        d.position)

pub closed-Reaches :
    (o : Outbox) (s : Stream)
    → Reaches o s
    → s.pending_inserts ≡ []
    → Reaches o (flushed s s.session)
closed-Reaches o s h e = transfer o s (flushed s s.session) h (unfold outbox in rw e refl)

pub told-Reaches :
    (o : Outbox) (cfg : Limits) (i : Inputs) (s : Stream) → Reaches o s → Reaches o (told cfg i s)
unfolding outbox
told-Reaches o cfg i s h = transfer o s (told cfg i s) h (unfold send_standby_status in refl)

pub idled-Reaches :
    (o : Outbox) (s : Stream) (db : Db)
    → IsIdle s
    → db ≡ applied [] s.wal.client_pos s.db
    → Reaches o s
    → Reaches o (idled s db)
unfolding outbox
idled-Reaches o s db idle e h =
    extend o _ s (idled s db) h (move_on idle.no_pending idle.no_buffer) (
      outbox_eq _ _ refl refl refl (unfold set_flush_lsn in ground arith) refl
        (rw e (append-nil s.db.dlq)) (rw e (position-upsert_cursor s.wal.client_pos s.db.cursor))
        (unfold set_flush_lsn in ground arith))
