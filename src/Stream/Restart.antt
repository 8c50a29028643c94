-- ===== src/Stream/Restart.antt =====
-- A restart from the cursor sends again what was not handed over: every end of the loop leaves a
-- cursor that covers only transactions whose rows are settled.
use mathlib.Core.List.{Memᴰ}
use mathlib.Core.Path.{subst}
use jack_courier_driver_pglg.Prelude.{◌≡◌, sym, ◌∙◌, ◌⊎◌, inl, inr, [], ◌∷◌, List, All-imp, arith}
use jack_courier_driver_pglg.Row.{Time, Lsn}
use jack_courier_driver_pglg.Wal.{WalConsumer, send_standby_status, set_flush_lsn}
use jack_courier_driver_pglg.Cursor.{Db}
use jack_courier_driver_pglg.Cursor.Persist.{applied, position-upsert_cursor}
use jack_courier_driver_pglg.Stream.{Stream, Inputs, Limits, timed_flush, standby_tick}
use jack_courier_driver_pglg.Flush.{Session}
use jack_courier_driver_pglg.Stream.Conservation.{flatten}
use jack_courier_driver_pglg.Prelude.{append-nil, refl}
use jack_courier_driver_pglg.Stream.Covered.{Tx, rows_of}
use jack_courier_driver_pglg.Stream.Rules.{flushed, told, idled, IsIdle}
use jack_courier_driver_pglg.Stream.Both.{Both, Both-timed, Both-standby}
use jack_courier_driver_pglg.Stream.Delivery.{
  Grows, HandedOver-Grows, HandedOver, Covers, Tracks, Past, Tracks-Covers, Delivered-Tracks,
  Failed-Covers,
}

abbrev pub CoversEnd : List Tx → Stream → Type 0
CoversEnd wal s = Covers wal s.session

module _ (wal coming : List Tx) where
  -- The stream has `coming` still to come, all of it past what it has received.
  abbrev pub Follows : Stream → Type 0
  Follows s = Tracks wal coming s × Past coming s

  pub closed-Tracks :
      (s : Stream)
      → Tracks wal coming s
      → s.pending_inserts ≡ []
      → Tracks wal coming (flushed s s.session)
  closed-Tracks s c e = record {
    open_txs = c.open_txs;
    placed = c.placed;
    rows = sym e ∙ c.rows;
    ahead = c.ahead;
    bound = c.bound;
  }

  pub timed_flush-Both :
      (i : Inputs) (s : Stream) → Follows s → Both Follows (CoversEnd wal) (timed_flush i s)
  timed_flush-Both i s (c, past) =
      Both-timed i s (c, past) (λ e. (closed-Tracks s c e, past))
        (λ session d. (Delivered-Tracks i.timed s session c d, rw d.received past))
        (λ session d. Failed-Covers s session c past d)

  told-Follows : (cfg : Limits) (i : Inputs) (s : Stream) → Follows s → Follows (told cfg i s)
  unfolding send_standby_status
  told-Follows cfg i s (c, past) = (
    record {
      open_txs = c.open_txs;
      placed = c.placed;
      rows = c.rows;
      ahead = c.ahead;
      bound = c.bound;
    },
    past,
  )

  -- While nothing is pending the open transactions have no rows.
  no_rows_open :
      (held : Session) (txs : List Tx) (t : Tx) → rows_of txs ≡ [] → Memᴰ t txs → HandedOver held t
  no_rows_open held [] t e m = elim m [ ]
  no_rows_open held ((l, []) ∷ txs) t e (Memᴰ.head h) =
      subst (λ (u : Tx). HandedOver held u) (sym h) tt
  no_rows_open held ((l, []) ∷ txs) t e (Memᴰ.tail m) = no_rows_open held txs t e m
  no_rows_open held ((l, p ∷ ps) ∷ txs) t e m = cc

  persisted-Tracks :
      (s : Stream) (db : Db)
      → IsIdle s
      → (db ≡ applied [] s.wal.client_pos s.db) ⊎ (db ≡ s.db)
      → Tracks wal coming s
      → Tracks wal coming (record s { session = record s.session { db = db } })
  persisted-Tracks s db idle e c = record {
    open_txs = [];
    placed =
        All-imp _ _ wal
          (λ t place. elim place [
            | inl handed ↦ inl (HandedOver-Grows t grows handed)
            | inr (inl waits) ↦
                inl (no_rows_open persisted c.open_txs t (sym c.rows ∙ idle.no_pending) waits)
            | inr (inr later) ↦ inr (inr later)
          ])
          c.placed;
    rows = idle.no_pending;
    ahead = tt;
    bound = elim e [
      | inl done ↦
          rw done (ground (arith, c.bound, position-upsert_cursor s.wal.client_pos s.db.cursor))
      | inr same ↦ rw same c.bound
    ];
  }
    where
      persisted : Session
      persisted = record s.session { db = db }

      grows : Grows s.session persisted
      grows = record {
        jobs = [];
        calls = sym (append-nil (flatten s.submitted));
        results = [];
        answers = sym (append-nil (flatten s.answered));
        rows = [];
        letters = elim e [
          | inl done ↦ rw done refl
          | inr same ↦ rw same (sym (append-nil s.db.dlq))
        ];
      }

  client_pos-set_flush_lsn :
      (l : Lsn) (w : WalConsumer) → (set_flush_lsn l w).client_pos ≡ w.client_pos
  unfolding set_flush_lsn
  client_pos-set_flush_lsn l w = ground arith

  idled-Follows :
      (s : Stream) (db : Db)
      → IsIdle s
      → db ≡ applied [] s.wal.client_pos s.db
      → Follows s
      → Follows (idled s db)
  idled-Follows s db idle e (c, past) =
      let kept = client_pos-set_flush_lsn s.wal.client_pos s.wal in
      let d = persisted-Tracks s db idle (inl e) c in
      (
        record {
          open_txs = d.open_txs;
          placed = d.placed;
          rows = d.rows;
          ahead = d.ahead;
          bound = omega (arith, kept, d.bound);
        },
        rw kept past,
      )

  pub standby_tick-Both :
      (cfg : Limits) (i : Inputs) (now : Time) (s : Stream)
      → Follows s
      → Both Follows (CoversEnd wal) (standby_tick cfg i now s)
  standby_tick-Both cfg i now s f =
      Both-standby cfg i now s f (told-Follows cfg i s f, Tracks-Covers f.0 f.1)
        (λ db idle e.
          let g = idled-Follows s db idle e f in
          (told-Follows cfg i (idled s db) g, Tracks-Covers g.0 g.1))
        (λ db idle e. Tracks-Covers (persisted-Tracks s db idle e f.0) f.1)
