-- ===== src/Stream/Delivery.antt =====
-- What the cursor covers: the transactions up to it whose rows were passed to jack-service. The WAL
-- is a list of transactions, of which a stream has some still to come.
use mathlib.Core.List.{Memᴰ}
use mathlib.Core.Path.{subst}
use mathlib.Core.Logic.{∥∥₁_map}
use jack_courier_driver_pglg.Prelude.{
  sym, append_assoc, append-nil, ◌≤◌, ◌<◌, ◌≡◌, refl, ◌⊎◌, inl, inr, [], ◌∷◌, ◌++◌, List, map, max,
  All, All-of_members, Memᴰ-All, Memᴰ-append_left, Memᴰ-append_right, Memᴰ-map, All-imp, arith,
}
use jack_courier_driver_pglg.Row.{Lsn, Job, ParsedInsert, SubmitResult, DlqRow, to_job}
use jack_courier_driver_pglg.Cursor.{cursor_lsn}
use jack_courier_driver_pglg.Cursor.Persist.{applied, position-upsert_cursor}
use jack_courier_driver_pglg.Flush.{Session, FlushInputs}
use jack_courier_driver_pglg.Flush.Outcome.{Delivered, Failed}
use jack_courier_driver_pglg.Flush.Settled.{Settled, matched-Settled, Settled-more, Settled-behind}
use jack_courier_driver_pglg.Errors.{ok}
use jack_courier_driver_pglg.Dlq.{map_results}
use jack_courier_driver_pglg.Stream.{Stream}
use jack_courier_driver_pglg.Stream.Conservation.{flatten, flatten-snoc}
use jack_courier_driver_pglg.Stream.Covered.{Tx, rows_of}
use jack_courier_driver_pglg.Stream.Rules.{flushed}

-- Each row of the transaction was in a call of submit, and is settled: jack-service has returned a
-- result for it, and has accepted it or the durable dead letter table holds its row.
abbrev pub HandedOver : Session → Tx → Type 0
HandedOver s t =
    All
      (λ (p : ParsedInsert).
        Memᴰ (to_job p) (flatten s.submitted) × ∥ Settled (flatten s.answered) s.db p ∥₁)
      t.1

-- Each transaction of the WAL was handed over or ends past the cursor, so that the server sends it
-- again to a driver that starts there.
abbrev pub Covers : List Tx → Session → Type 0
Covers wal s = All (λ (t : Tx). HandedOver s t ⊎ (cursor_lsn s.db < t.0)) wal

-- Where a transaction of the WAL is: handed over, pending in memory, or still to come.
abbrev pub Placed : Session → List Tx → List Tx → Tx → Type 0
Placed s open_txs coming t = HandedOver s t ⊎ Memᴰ t open_txs ⊎ Memᴰ t coming

-- A stream that has the transactions `coming` of the WAL still to come.
pub record Tracks (wal coming : List Tx) (s : Stream) : Type 0 where
  pub open_txs : List Tx
  pub placed : All (Placed s.session open_txs coming) wal
  pub rows : s.pending_inserts ≡ rows_of open_txs
  pub ahead : All (λ (t : Tx). cursor_lsn s.db < t.0) open_txs
  pub bound : cursor_lsn s.db ≤ max s.pending_commit_lsn s.wal.client_pos

-- What is still to come ends past all that the stream has received.
abbrev pub Past : List Tx → Stream → Type 0
Past coming s = All (λ (t : Tx). max s.pending_commit_lsn s.wal.client_pos < t.0) coming

-- A stream whose cursor is within what it has received covers the WAL.
pub Tracks-Covers :
    {wal coming : List Tx} {s : Stream} → Tracks wal coming s → Past coming s → Covers wal s.session
Tracks-Covers {wal} {coming} {s} c past =
    All-imp _ _ wal
      (λ t place. elim place [
        | inl handed ↦ inl handed
        | inr (inl waits) ↦ inr (Memᴰ-All _ c.open_txs waits c.ahead)
        | inr (inr later) ↦ inr (omega (arith, Memᴰ-All _ coming later past, c.bound))
      ])
      c.placed

-- The rows of a pending transaction are pending.
Memᴰ-rows_of :
    {t : Tx} {p : ParsedInsert} (txs : List Tx) → Memᴰ t txs → Memᴰ p t.1 → Memᴰ p (rows_of txs)
Memᴰ-rows_of [] m h = elim m [ ]
Memᴰ-rows_of {p = p} (x ∷ txs) (Memᴰ.head e) h =
    Memᴰ-append_left x.1 (rows_of txs) (subst (λ (u : Tx). Memᴰ p u.1) e h)
Memᴰ-rows_of (x ∷ txs) (Memᴰ.tail m) h = Memᴰ-append_right x.1 (Memᴰ-rows_of txs m h)

-- What a session has passed on, been answered and written only grows.
pub record Grows (s s' : Session) : Type 0 where
  pub jobs : List Job
  pub calls : flatten s'.submitted ≡ flatten s.submitted ++ jobs
  pub results : List SubmitResult
  pub answers : flatten s'.answered ≡ flatten s.answered ++ results
  pub rows : List DlqRow
  pub letters : s'.db.dlq ≡ s.db.dlq ++ rows

pub HandedOver-Grows : {s s' : Session} (t : Tx) → Grows s s' → HandedOver s t → HandedOver s' t
HandedOver-Grows {s} {s'} t g h =
    All-imp _ _ t.1
      (λ p (called, settled). (
        rw g.calls (Memᴰ-append_left (flatten s.submitted) g.jobs called),
        ∥∥₁_map settled (λ k.
            rw g.answers
              (Settled-more (flatten s.answered) g.results s.db s'.db g.rows p g.letters k)),
      ))
      h

flatten-append {ℓ} :
    {A : Type ℓ} (xs ys : List (List A)) → flatten (xs ++ ys) ≡ flatten xs ++ flatten ys
flatten-append [] ys = refl
flatten-append (x ∷ xs) ys =
    rw (flatten-append xs ys) (sym (append_assoc x (flatten xs) (flatten ys)))

-- A flush whose answer was matched and that is in the durable state.
module _ (s s' : Session) (pending : List ParsedInsert) (results : List SubmitResult)
    (rows : List DlqRow) (l : Lsn) (calls : s'.submitted ≡ s.submitted ++ map to_job pending ∷ [])
    (answers : s'.answered ≡ s.answered ++ results ∷ [])
    (matched : map_results pending results ≡ ok rows) (durable : s'.db ≡ applied rows l s.db) where
  written-Grows : Grows s s'
  written-Grows = record {
    jobs = map to_job pending;
    calls = rw calls (flatten-snoc s.submitted (map to_job pending));
    results = results;
    answers = rw answers (flatten-snoc s.answered results);
    rows = rows;
    letters = rw durable refl;
  }

  -- It hands every pending transaction over.
  written-HandedOver :
      (txs : List Tx) (t : Tx) → pending ≡ rows_of txs → Memᴰ t txs → HandedOver s' t
  written-HandedOver txs t e m = All-of_members _ t.1 (λ p k.
      let waits : Memᴰ p pending = rw e (Memᴰ-rows_of txs m k) in
      (
        rw (calls, flatten-snoc)
            (Memᴰ-append_right (flatten s.submitted) (Memᴰ-map to_job pending waits)),
        ∥∥₁_map (matched-Settled pending results rows l s.db matched p waits) (λ settled.
            rw (answers, flatten-snoc, durable)
              (Settled-behind (flatten s.answered) results (applied rows l s.db) p settled)),
      ))

  written-Placed :
      (txs coming : List Tx) (t : Tx)
      → pending ≡ rows_of txs
      → Placed s txs coming t
      → HandedOver s' t ⊎ Memᴰ t coming
  written-Placed txs coming t e (inl handed) = inl (HandedOver-Grows t written-Grows handed)
  written-Placed txs coming t e (inr (inl waits)) = inl (written-HandedOver txs t e waits)
  written-Placed txs coming t e (inr (inr later)) = inr later

closed_place :
    (s : Session) (coming : List Tx) (t : Tx)
    → HandedOver s t ⊎ Memᴰ t coming
    → Placed s [] coming t
closed_place s coming t (inl handed) = inl handed
closed_place s coming t (inr later) = inr (inr later)

module _ {wal coming : List Tx} where
  pub Delivered-Tracks :
      (i : FlushInputs) (s : Stream) (session : Session)
      → Tracks wal coming s
      → Delivered i s.pending_inserts s.pending_commit_lsn s.session session
      → Tracks wal coming (flushed s session)
  Delivered-Tracks i s session c d = record {
    open_txs = [];
    placed =
        All-imp _ _ wal
          (λ t place. closed_place session coming t (
            written-Placed s.session session s.pending_inserts d.results d.rows s.pending_commit_lsn
              d.calls d.answers d.matched d.durable c.open_txs coming t c.rows place))
          c.placed;
    rows = refl;
    ahead = tt;
    bound =
        rw (d.durable, d.received)
          (omega (arith, c.bound, position-upsert_cursor s.pending_commit_lsn s.db.cursor));
  }

  -- A flush that failed before its transaction was applied hands nothing over.
  unwritten-Covers :
      (s : Stream) (session : Session)
      → Tracks wal coming s
      → Past coming s
      → Failed s.pending_inserts s.pending_commit_lsn s.session session
      → session.db ≡ s.db
      → Covers wal session
  unwritten-Covers s session c past d same =
      All-imp _ _ wal
        (λ t place. elim place [
          | inl handed ↦ inl (HandedOver-Grows t grows handed)
          | inr (inl waits) ↦ inr (rw same (Memᴰ-All _ c.open_txs waits c.ahead))
          | inr (inr later) ↦ inr (rw same (omega (arith, Memᴰ-All _ coming later past, c.bound)))
        ])
        c.placed
    where
      grows : Grows s.session session
      grows = record {
        jobs = map to_job s.pending_inserts;
        calls = rw d.calls (flatten-snoc s.submitted (map to_job s.pending_inserts));
        results = flatten d.more;
        answers = rw d.answers (flatten-append s.answered d.more);
        rows = [];
        letters = rw same (sym (append-nil s.db.dlq));
      }

  pub Failed-Covers :
      (s : Stream) (session : Session)
      → Tracks wal coming s
      → Past coming s
      → Failed s.pending_inserts s.pending_commit_lsn s.session session
      → Covers wal session
  Failed-Covers s session c past d = elim d.durable [
    | inl same ↦ unwritten-Covers s session c past d same
    | inr w ↦
        let within : cursor_lsn session.db ≤ max s.pending_commit_lsn s.wal.client_pos =
          rw w.applied_rows
            (omega (arith, c.bound, position-upsert_cursor s.pending_commit_lsn s.db.cursor)) in
        All-imp _ _ wal
          (λ t place.
            elim (written-Placed s.session session s.pending_inserts w.results w.rows
              s.pending_commit_lsn d.calls w.answers w.matched w.applied_rows c.open_txs coming t
              c.rows place) [
                | inl handed ↦ inl handed
                | inr later ↦ inr (omega (arith, Memᴰ-All _ coming later past, within))
              ])
          c.placed
  ]
