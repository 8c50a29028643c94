-- ===== src/Stream/Rules.antt =====
-- How a property is carried through the statements of a round.
use jack_courier_driver_pglg.Prelude.{
  ◌+◌, ◌<◌, ◌≤◌, ◌&&◌, length, leb, arith, List, [], ◌∷◌, ◌≡◌, refl, sym, true, false,
}
use mathlib.Core.Path.{subst}
use jack_courier_driver_pglg.Errors.{Result, ok, err}
use jack_courier_driver_pglg.Row.{Time, Lsn, ParsedInsert}
use jack_courier_driver_pglg.Flush.{Session, FlushInputs, flush_batch}
use jack_courier_driver_pglg.Flush.Outcome.{Delivered, flush_batch_ok}
use jack_courier_driver_pglg.Wal.{
  Decoders, WalConsumer, send_standby_status, set_flush_lsn, received_past_flush,
}
use jack_courier_driver_pglg.Cursor.{Db, persist_flush_result}
use jack_courier_driver_pglg.Cursor.Persist.{applied, IsAtomic, persist_flush_result-IsAtomic}
use jack_courier_driver_pglg.Stream.{
  Limits, Inputs, Stream, ◌▹◌, is_nil, can_advance_idle_flush, after_flush, flush_pending,
  batch_due, timed_flush, after_status, send_status_at, after_idle, standby, standby_tick,
  open_batch, close_tx, flush_if_full, on_commit, clock_after, receive_round, round, run,
}
use jack_courier_driver_pglg.Stream.Then.{Then, on, off, Then-▹, Then-if}

-- The stream after a flush that went through.
abbrev pub flushed : Stream → Session → Stream
flushed s session = record s { session = session; pending_inserts = []; next_batch_at = 0 }

-- A flush with nothing pending only closes the batch; any other that goes on was delivered.
pub Then-flush :
    (P : Stream → Type 0) (i : FlushInputs) (s : Stream)
    → (s.pending_inserts ≡ [] → P (flushed s s.session))
    → ((session : Session)
        → Delivered i s.pending_inserts s.pending_commit_lsn s.session session
        → P (flushed s session))
    → Then P (flush_pending i s)
unfolding flush_pending after_flush
Then-flush P i s nothing some_rows = go s.pending_inserts refl
  where
    done :
        (pending : List ParsedInsert)
        → s.pending_inserts ≡ pending
        → (r : Result (Unit {0}) × Session)
        → (r.0 ≡ ok tt → Delivered i pending s.pending_commit_lsn s.session r.1)
        → Then P (after_flush s r)
    done pending e (err x, session) d = off x _
    done pending e (ok u, session) d = on u _ (
        some_rows session (
          subst (λ rows. Delivered i rows s.pending_commit_lsn s.session session) (sym e) (d refl)))

    go :
        (pending : List ParsedInsert)
        → s.pending_inserts ≡ pending
        → Then P (after_flush s (flush_batch i pending s.pending_commit_lsn s.session))
    go [] e = unfold flush_batch in on tt _ (nothing e)
    go (p ∷ ps) e =
        done (p ∷ ps) e (flush_batch i (p ∷ ps) s.pending_commit_lsn s.session)
          (flush_batch_ok i p ps s.pending_commit_lsn s.session)

pub close_empty :
    (s : Stream) → s.pending_inserts ≡ [] → flushed s s.session ≡ record s { next_batch_at = 0 }
close_empty s e = cc

-- The three ends of a timed flush that goes on: not due, nothing pending, delivered.
pub Then-timed :
    {P : Stream → Type 0} (i : Inputs) (s : Stream)
    → P s
    → (s.pending_inserts ≡ [] → P (flushed s s.session))
    → ((session : Session)
        → Delivered i.timed s.pending_inserts s.pending_commit_lsn s.session session
        → P (flushed s session))
    → Then P (timed_flush i s)
unfolding timed_flush
Then-timed {P} i s early nothing some_rows =
    Then-if (batch_due i.now s) _ _
      (λ due.
        Then-if (is_nil s.pending_inserts) _ _
          (λ empty. on tt _ (
            let e : s.pending_inserts ≡ [] = ground arith in subst P (close_empty s e) (nothing e)))
          (λ rows. Then-flush P i.timed s nothing some_rows))
      (λ late. on tt s early)

-- The stream after a status update.
abbrev pub told : Limits → Inputs → Stream → Stream
told cfg i s = record s {
  session = record s.session { wal = (send_standby_status i.idle_sending s.wal).1 };
  next_standby_at = i.now_after_status + cfg.standby_interval;
}

-- The stream after the received position was persisted as flushed.
abbrev pub idled : Stream → Db → Stream
idled s db = record s {
  session = record s.session { db = db; wal = set_flush_lsn s.wal.client_pos s.wal };
}

Then-status :
    {P : Stream → Type 0} (cfg : Limits) (i : Inputs) (s : Stream)
    → P (told cfg i s)
    → Then P (send_status_at cfg i s)
unfolding send_status_at
Then-status {P} cfg i s h = go (send_standby_status i.idle_sending s.wal) h
  where
    go :
        (r : Result (Unit {0}) × WalConsumer)
        → P (record s {
          session = record s.session { wal = r.1 };
          next_standby_at = i.now_after_status + cfg.standby_interval;
        })
        → Then P (after_status cfg i s r)
    go (ok u, wal) h = on u _ h
    go (err e, wal) h = off _ _

-- Nothing is pending, buffered or open, and something was received past the flush position.
pub record IsIdle (s : Stream) : Type 0 where
  pub no_pending : s.pending_inserts ≡ []
  pub no_buffer : s.buf ≡ []
  pub no_tx : s.in_tx ≡ false
  pub received : s.wal.flush_lsn < s.wal.client_pos

pub can_advance_idle_flush-IsIdle :
    (s : Stream)
    → (can_advance_idle_flush s.pending_inserts s.buf s.in_tx && received_past_flush s.wal) ≡ true
    → IsIdle s
unfolding can_advance_idle_flush received_past_flush
can_advance_idle_flush-IsIdle s h = ground arith

not_idle :
    (s : Stream)
    → (can_advance_idle_flush s.pending_inserts s.buf s.in_tx && received_past_flush s.wal) ≡ false
    → IsIdle s
    → ⊥
unfolding can_advance_idle_flush received_past_flush
not_idle s h idle = ground arith

-- The three ends of the standby tick that goes on: not due, the status alone, and the status after
-- the received position was persisted.
pub Then-standby :
    {P : Stream → Type 0} (cfg : Limits) (i : Inputs) (now : Time) (s : Stream)
    → (now < s.next_standby_at → P s)
    → (s.next_standby_at ≤ now → (IsIdle s → ⊥) → P (told cfg i s))
    → ((db : Db)
        → s.next_standby_at ≤ now
        → IsIdle s
        → db ≡ applied [] s.wal.client_pos s.db
        → P (told cfg i (idled s db)))
    → Then P (standby_tick cfg i now s)
unfolding standby_tick standby
Then-standby {P} cfg i now s early status idle =
    Then-if (leb s.next_standby_at now) _ _
      (λ due.
        Then-if
          (can_advance_idle_flush s.pending_inserts s.buf s.in_tx && received_past_flush s.wal) _ _
          (λ free.
            go (ground arith) (can_advance_idle_flush-IsIdle s free)
              (persist_flush_result i.idle_tx [] s.wal.client_pos s.db)
              (persist_flush_result-IsAtomic i.idle_tx [] s.wal.client_pos s.db))
          (λ no. Then-status cfg i s (status (ground arith) (not_idle s no))))
      (λ late. on tt s (early (ground arith)))
  where
    go :
        s.next_standby_at ≤ now
        → IsIdle s
        → (r : Result (Unit {0}) × Db) → IsAtomic [] s.wal.client_pos s.db r
        → Then P (after_idle cfg i s r)
    go due free (ok u, db) a = Then-status cfg i (idled s db) (idle db due free (a.1 refl))
    go due free (err e, db) a = off _ _

-- The stream once a committed transaction has joined the pending rows.
abbrev pub joined : Limits → Inputs → Lsn → Stream → Stream
joined cfg i l s = open_batch cfg i (is_nil s.pending_inserts) (close_tx l s)

-- The three ends of a commit that goes on: the batch is not full, there is nothing to flush,
-- delivered.
pub Then-commit :
    {P : Stream → Type 0} (cfg : Limits) (i : Inputs) (l : Lsn) (s : Stream)
    → (length (joined cfg i l s).pending_inserts < cfg.max_batch_size → P (joined cfg i l s))
    → ((joined cfg i l s).pending_inserts ≡ []
        → P (flushed (joined cfg i l s) (joined cfg i l s).session))
    → ((session : Session)
        → Delivered i.full
            (joined cfg i l s).pending_inserts
            (joined cfg i l s).pending_commit_lsn
            (joined cfg i l s).session
            session
        → P (flushed (joined cfg i l s) session))
    → Then P (on_commit cfg i l s)
unfolding on_commit flush_if_full
Then-commit {P} cfg i l s room nothing some_rows =
    let t = joined cfg i l s in
    Then-if (leb cfg.max_batch_size (length t.pending_inserts)) _ _
      (λ full. Then-flush P i.full t nothing some_rows) (λ space. on tt t (room (ground arith)))

-- What the three parts of a round keep, the loop keeps.
pub run_invariant :
    (lib : Decoders) (cfg : Limits) {P : Stream → Type 0}
    → ((i : Inputs) (s : Stream) → P s → Then P (timed_flush i s))
    → ((i : Inputs) (now : Time) (s : Stream) → P s → Then P (standby_tick cfg i now s))
    → ((i : Inputs) (s : Stream) → P s → Then P (receive_round lib cfg i s))
    → (is : List Inputs) (s : Stream) → P s
    → Then P (run lib cfg is s)
unfolding run round
run_invariant lib cfg timed tick receives [] s h = on tt s h
run_invariant lib cfg timed tick receives (i ∷ is) s h =
    Then-▹ (round lib cfg i s) (run lib cfg is)
      (Then-if i.done _ _ (λ stop. off _ s)
        (λ go_on.
          Then-▹ (timed_flush i s ▹ standby_tick cfg i (clock_after i s)) (receive_round lib cfg i)
            (Then-▹ (timed_flush i s) (standby_tick cfg i (clock_after i s)) (timed i s h)
              (tick i (clock_after i s)))
            (receives i)))
      (run_invariant lib cfg timed tick receives is)
