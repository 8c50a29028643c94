-- ===== src/Stream/Both.antt =====
-- What holds after statements on both of their ends: `P` if they go on, `Q` if they return an error.
use mathlib.Core.Path.{subst}
use jack_courier_driver_pglg.Prelude.{
  ◌+◌, ◌≡◌, refl, sym, ◌⊎◌, List, [], ◌∷◌, Bool, true, false, ◌&&◌, leb, length, arith,
  if◌then◌else◌,
}
use jack_courier_driver_pglg.Errors.{Error, Result, ok, err}
use jack_courier_driver_pglg.Row.{Time, Lsn, ParsedInsert}
use jack_courier_driver_pglg.Wal.{WalConsumer, send_standby_status, received_past_flush}
use jack_courier_driver_pglg.Cursor.{Db, persist_flush_result}
use jack_courier_driver_pglg.Cursor.Persist.{applied, IsAtomic, persist_flush_result-IsAtomic}
use jack_courier_driver_pglg.Flush.{Session, FlushInputs, flush_batch}
use jack_courier_driver_pglg.Flush.Outcome.{Delivered, Failed, Outcome, flush_batch-Outcome}
use jack_courier_driver_pglg.Stream.{
  Limits, Inputs, Stream, Round, ◌▹◌, is_nil, can_advance_idle_flush, after_flush, flush_pending,
  batch_due, timed_flush, after_status, send_status_at, after_idle, standby, standby_tick,
  flush_if_full, on_commit,
}
use jack_courier_driver_pglg.Stream.Then.{Then}
use jack_courier_driver_pglg.Stream.Rules.{
  flushed, told, idled, joined, IsIdle, can_advance_idle_flush-IsIdle, close_empty,
}

abbrev BothEnds : (Stream → Type 0) → (Stream → Type 0) → Round → Type 0
BothEnds P Q (ok u, s) = P s
BothEnds P Q (err e, s) = Q s

pub record Both (P Q : Stream → Type 0) (r : Round) : Type 0 where
  ends : BothEnds P Q r

module _ {P Q : Stream → Type 0} where
  pub on : (u : Unit {0}) (s : Stream) → P s → Both P Q (ok u, s)
  on u s h = record { ends = h }

  pub off : (e : Error) (s : Stream) → Q s → Both P Q (err e, s)
  off e s h = record { ends = h }

  pub Both-▹ :
      {R : Stream → Type 0} (r : Round) (k : Stream → Round)
      → Both R Q r
      → ((s : Stream) → R s → Both P Q (k s))
      → Both P Q (r ▹ k)
  Both-▹ (ok u, s) k h f = f s h.ends
  Both-▹ (err e, s) k h f = off e s h.ends

  pub Both-if :
      (b : Bool) (r t : Round)
      → (b ≡ true → Both P Q r)
      → (b ≡ false → Both P Q t)
      → Both P Q (if b then r else t)
  Both-if true r t hr ht = hr refl
  Both-if false r t hr ht = ht refl

  pub Both-here : {r : Round} → Both P Q r → Both (λ s. P s × (s ≡ r.1)) (λ s. Q s × (s ≡ r.1)) r
  Both-here {r = (ok u, s)} h = record { ends = (h.ends, refl) }
  Both-here {r = (err e, s)} h = record { ends = (h.ends, refl) }

  pub Both-imp :
      {P' Q' : Stream → Type 0} {r : Round}
      → Both P' Q' r
      → ((s : Stream) → P' s → P s)
      → ((s : Stream) → Q' s → Q s)
      → Both P Q r
  Both-imp {r = (ok u, s)} h f g = on u s (f s h.ends)
  Both-imp {r = (err e, s)} h f g = off e s (g s h.ends)

  pub Both-zip :
      {P' Q' : Stream → Type 0} {r : Round}
      → Both P Q r
      → Both P' Q' r
      → Both (λ s. P s × P' s) (λ s. Q s × Q' s) r
  Both-zip {r = (ok u, s)} h k = record { ends = (h.ends, k.ends) }
  Both-zip {r = (err e, s)} h k = record { ends = (h.ends, k.ends) }

  pub Both-and :
      {P' : Stream → Type 0} {r : Round} → Both P Q r → Then P' r → Both (λ s. P s × P' s) Q r
  Both-and {r = (ok u, s)} h k = record { ends = (h.ends, k.ends) }
  Both-and {r = (err e, s)} h k = record { ends = h.ends }

  pub Both-end : {r : Round} → Both P Q r → ((s : Stream) → P s → Q s) → Q r.1
  Both-end {r = (ok u, s)} h f = f s h.ends
  Both-end {r = (err e, s)} h f = h.ends

  -- A flush with nothing pending, one that was delivered, and one that failed.
  pub Both-flush :
      (i : FlushInputs) (s : Stream)
      → (s.pending_inserts ≡ [] → P (flushed s s.session))
      → ((session : Session)
          → Delivered i s.pending_inserts s.pending_commit_lsn s.session session
          → P (flushed s session))
      → ((session : Session)
          → Failed s.pending_inserts s.pending_commit_lsn s.session session
          → Q (record s { session = session }))
      → Both P Q (flush_pending i s)
  unfolding flush_pending after_flush
  Both-flush i s nothing some_rows failed = go s.pending_inserts refl
    where
      done :
          (r : Result (Unit {0}) × Session)
          → Outcome i s.pending_inserts s.pending_commit_lsn s.session r
          → Both P Q (after_flush s r)
      done (err x, session) d = off x _ (failed session d)
      done (ok u, session) d = on u _ (some_rows session d)

      go :
          (pending : List ParsedInsert)
          → s.pending_inserts ≡ pending
          → Both P Q (after_flush s (flush_batch i pending s.pending_commit_lsn s.session))
      go [] e = unfold flush_batch in on tt _ (nothing e)
      go (p ∷ ps) e = done (flush_batch i (p ∷ ps) s.pending_commit_lsn s.session) (
          subst
            (λ rows.
              Outcome i rows s.pending_commit_lsn s.session
                (flush_batch i (p ∷ ps) s.pending_commit_lsn s.session))
            (sym e) (flush_batch-Outcome i p ps s.pending_commit_lsn s.session))

  pub Both-timed :
      (i : Inputs) (s : Stream)
      → P s
      → (s.pending_inserts ≡ [] → P (flushed s s.session))
      → ((session : Session)
          → Delivered i.timed s.pending_inserts s.pending_commit_lsn s.session session
          → P (flushed s session))
      → ((session : Session)
          → Failed s.pending_inserts s.pending_commit_lsn s.session session
          → Q (record s { session = session }))
      → Both P Q (timed_flush i s)
  unfolding timed_flush
  Both-timed i s early nothing some_rows failed =
      Both-if (batch_due i.now s) _ _
        (λ due.
          Both-if (is_nil s.pending_inserts) _ _
            (λ empty. on tt _ (
              let e : s.pending_inserts ≡ [] = ground arith in
              subst P (close_empty s e) (nothing e)))
            (λ rows. Both-flush i.timed s nothing some_rows failed))
        (λ late. on tt s early)

  -- A status that cannot be sent leaves the stream with it counted as sent.
  Both-status :
      (cfg : Limits) (i : Inputs) (s : Stream)
      → P (told cfg i s)
      → Q (record s {
        session = record s.session { wal = (send_standby_status i.idle_sending s.wal).1 };
      })
      → Both P Q (send_status_at cfg i s)
  unfolding send_status_at
  Both-status cfg i s h k = go (send_standby_status i.idle_sending s.wal) h k
    where
      go :
          (r : Result (Unit {0}) × WalConsumer)
          → P (record s {
            session = record s.session { wal = r.1 };
            next_standby_at = i.now_after_status + cfg.standby_interval;
          })
          → Q (record s { session = record s.session { wal = r.1 } })
          → Both P Q (after_status cfg i s r)
      go (ok u, wal) h k = on u _ h
      go (err e, wal) h k = off _ _ k

-- The stream after a status update that could not be sent.
abbrev pub unsent : Inputs → Stream → Stream
unsent i s = record s {
  session = record s.session { wal = (send_standby_status i.idle_sending s.wal).1 };
}

module _ {P Q : Stream → Type 0} where
  -- The ends of the standby tick: not due, the status alone, the status after the received position
  -- was persisted, and a transaction that failed.
  pub Both-standby :
      (cfg : Limits) (i : Inputs) (now : Time) (s : Stream)
      → P s
      → P (told cfg i s) × Q (unsent i s)
      → ((db : Db)
          → IsIdle s
          → db ≡ applied [] s.wal.client_pos s.db
          → P (told cfg i (idled s db)) × Q (unsent i (idled s db)))
      → ((db : Db)
          → IsIdle s
          → (db ≡ applied [] s.wal.client_pos s.db) ⊎ (db ≡ s.db)
          → Q (record s { session = record s.session { db = db } }))
      → Both P Q (standby_tick cfg i now s)
  unfolding standby_tick standby
  Both-standby cfg i now s early status idle failed =
      Both-if (leb s.next_standby_at now) _ _
        (λ due.
          Both-if
            (can_advance_idle_flush s.pending_inserts s.buf s.in_tx && received_past_flush s.wal) _
            _
            (λ free.
              go (can_advance_idle_flush-IsIdle s free)
                (persist_flush_result i.idle_tx [] s.wal.client_pos s.db)
                (persist_flush_result-IsAtomic i.idle_tx [] s.wal.client_pos s.db))
            (λ no. Both-status cfg i s status.0 status.1))
        (λ late. on tt s early)
    where
      go :
          IsIdle s
          → (r : Result (Unit {0}) × Db) → IsAtomic [] s.wal.client_pos s.db r
          → Both P Q (after_idle cfg i s r)
      go free (ok u, db) a =
          let (p, q) = idle db free (a.1 refl) in Both-status cfg i (idled s db) p q
      go free (err e, db) a = off _ _ (failed db free a.0)

  -- The ends of a commit: the batch is not full, nothing to flush, delivered, failed.
  pub Both-commit :
      (cfg : Limits) (i : Inputs) (l : Lsn) (s : Stream)
      → P (joined cfg i l s)
      → ((joined cfg i l s).pending_inserts ≡ []
          → P (flushed (joined cfg i l s) (joined cfg i l s).session))
      → ((session : Session)
          → Delivered i.full
              (joined cfg i l s).pending_inserts
              (joined cfg i l s).pending_commit_lsn
              (joined cfg i l s).session
              session
          → P (flushed (joined cfg i l s) session))
      → ((session : Session)
          → Failed
              (joined cfg i l s).pending_inserts
              (joined cfg i l s).pending_commit_lsn
              (joined cfg i l s).session
              session
          → Q (record (joined cfg i l s) { session = session }))
      → Both P Q (on_commit cfg i l s)
  unfolding on_commit flush_if_full
  Both-commit cfg i l s room nothing some_rows failed =
      let t = joined cfg i l s in
      Both-if (leb cfg.max_batch_size (length t.pending_inserts)) _ _
        (λ full. Both-flush i.full t nothing some_rows failed) (λ space. on tt t room)
