-- ===== src/Stream/Carries.antt =====
-- What one message makes of the transactions that are still to come.
use mathlib.Core.List.{Memᴰ}
use mathlib.Core.Path.{subst}
use jack_courier_driver_pglg.Prelude.{
  ◌<◌, ◌≡◌, refl, sym, ap, ◌∙◌, inl, inr, [], ◌∷◌, ◌++◌, List, Bool, true, false, Option, none,
  some, Bytes, All-append, All-imp, Memᴰ-append_left, Memᴰ-append_right, append-nil, not, ◌&&◌,
  arith, if◌then◌else◌,
}
use jack_courier_driver_pglg.Errors.{Result, ok, err, standby_timeout}
use jack_courier_driver_pglg.Row.{
  Lsn, ParsedInsert, WalMessage, begin, relation, insert, commit, other,
}
use jack_courier_driver_pglg.Wal.{Decoders, set_relation, parse_insert, receive_message}
use jack_courier_driver_pglg.Wal.Receive.{receive_message-Receives}
use jack_courier_driver_pglg.Parser.Message.{parse_wal_message}
use jack_courier_driver_pglg.Cursor.{cursor_lsn}
use jack_courier_driver_pglg.Stream.{
  Stream, Inputs, Limits, is_nil, next_receive_deadline, open_batch, close_tx, on_commit, on_row,
  on_message, on_parsed, on_received, receive_round,
}
use jack_courier_driver_pglg.Stream.Order.{commit_of_message, commit_of_data, commit_of_receive}
use jack_courier_driver_pglg.Stream.Covered.{Tx, rows_of, rows_of-append}
use jack_courier_driver_pglg.Stream.Rules.{joined}
use jack_courier_driver_pglg.Stream.Both.{Both, on, off, Both-commit}
use jack_courier_driver_pglg.Stream.Delivery.{
  Placed, Tracks, Past, Tracks-Covers, Delivered-Tracks, Failed-Covers,
}
use jack_courier_driver_pglg.Stream.Restart.{Follows, CoversEnd, closed-Tracks}

-- A message leaves what is still to come as it is, or is the commit of the next transaction, whose
-- rows are the buffered ones.
abbrev pub Carries : Option Lsn → List ParsedInsert → List Tx → List Tx → Type 0
Carries none buf coming rest = rest ≡ coming
Carries (some l) buf coming rest = coming ≡ (l, buf) ∷ rest

module _ (wal rest : List Tx) where
  -- An end with an error covers the WAL if what is still to come lies past what was received.
  abbrev pub Broken : Stream → Type 0
  Broken s = Past rest s → CoversEnd wal s

  either :
      (b : Bool) (s t : Stream)
      → Tracks wal rest s
      → Tracks wal rest t
      → Tracks wal rest (if b then s else t)
  either true s t hs ht = hs
  either false s t hs ht = ht

  close_tx-Tracks :
      (l : Lsn) (s : Stream)
      → cursor_lsn s.db < l
      → Tracks wal ((l, s.buf) ∷ rest) s
      → Tracks wal rest (close_tx l s)
  unfolding close_tx
  close_tx-Tracks l s h c = record {
    open_txs = c.open_txs ++ (l, s.buf) ∷ [];
    placed = All-imp _ _ wal moved c.placed;
    rows =
        ap (λ rows. rows ++ s.buf) c.rows
        ∙ ap (◌++◌ (rows_of c.open_txs)) (sym (append-nil s.buf))
        ∙ sym (rows_of-append c.open_txs ((l, s.buf) ∷ []));
    ahead = All-append _ c.open_txs ((l, s.buf) ∷ []) c.ahead (h, tt);
    bound = ground (arith, c.bound);
  }
    where
      moved :
          (t : Tx)
          → Placed s.session c.open_txs ((l, s.buf) ∷ rest) t
          → Placed s.session (c.open_txs ++ (l, s.buf) ∷ []) rest t
      moved t (inl handed) = inl handed
      moved t (inr (inl waits)) = inr (inl (Memᴰ-append_left c.open_txs _ waits))
      moved t (inr (inr (Memᴰ.head e))) = inr (inl (Memᴰ-append_right c.open_txs (Memᴰ.head e)))
      moved t (inr (inr (Memᴰ.tail m))) = inr (inr m)

  joined-Tracks :
      (cfg : Limits) (i : Inputs) (l : Lsn) (s : Stream)
      → cursor_lsn s.db < l
      → Tracks wal ((l, s.buf) ∷ rest) s
      → Tracks wal rest (joined cfg i l s)
  unfolding open_batch
  joined-Tracks cfg i l s h c =
      let d = close_tx-Tracks l s h c in
      either (is_nil s.pending_inserts && not (is_nil (close_tx l s).pending_inserts)) _ _
        (record {
          open_txs = d.open_txs;
          placed = d.placed;
          rows = d.rows;
          ahead = d.ahead;
          bound = d.bound;
        })
        d

  on_commit-Both :
      (cfg : Limits) (i : Inputs) (l : Lsn) (s : Stream)
      → cursor_lsn s.db < l
      → Tracks wal ((l, s.buf) ∷ rest) s
      → Both (Tracks wal rest) Broken (on_commit cfg i l s)
  on_commit-Both cfg i l s h c =
      let t = joined cfg i l s in
      let d = joined-Tracks cfg i l s h c in
      Both-commit cfg i l s d (closed-Tracks wal rest t d)
        (λ session sent. Delivered-Tracks i.full t session d sent)
        (λ session lost past. Failed-Covers t session d (rw (← lost.consumer) past) lost)

module _ (lib : Decoders) (cfg : Limits) (wal coming rest : List Tx) where
  -- A message without a commit: the stream tracks what is still to come as before.
  stays : (s s' : Stream) → rest ≡ coming → Tracks wal coming s' → Tracks wal rest s'
  stays s s' e c = rw e c

  on_message-Both :
      (i : Inputs) (m : WalMessage) (s : Stream)
      → Carries (commit_of_message (ok m)) s.buf coming rest
      → ((l : Lsn) → commit_of_message (ok m) ≡ some l → cursor_lsn s.db < l)
      → Tracks wal coming s
      → Both (Tracks wal rest) (Broken wal rest) (on_message lib cfg i m s)
  unfolding on_message on_row set_relation
  on_message-Both i begin s e h c =
      let d = stays s s e c in
      on tt _ (record {
        open_txs = d.open_txs;
        placed = d.placed;
        rows = d.rows;
        ahead = d.ahead;
        bound = d.bound;
      })
  on_message-Both i (relation r) s e h c =
      let d = stays s s e c in
      on tt _ (record {
        open_txs = d.open_txs;
        placed = d.placed;
        rows = d.rows;
        ahead = d.ahead;
        bound = d.bound;
      })
  on_message-Both i (insert ins) s e h c = on tt _ (go (parse_insert lib ins s.wal))
    where
      d : Tracks wal rest s
      d = stays s s e c

      go : (r : Result (Option ParsedInsert)) → Tracks wal rest (on_row r s)
      go (err x) = d
      go (ok none) = d
      go (ok (some p)) = record {
        open_txs = d.open_txs;
        placed = d.placed;
        rows = d.rows;
        ahead = d.ahead;
        bound = d.bound;
      }
  on_message-Both i (commit l) s e h c = on_commit-Both wal rest cfg i l s (h l refl) (rw (← e) c)
  on_message-Both i other s e h c = on tt s (stays s s e c)

  on_received-Both :
      (i : Inputs) (r : Result (Option Bytes)) (s : Stream)
      → Carries (commit_of_data lib cfg r) s.buf coming rest
      → ((l : Lsn) → commit_of_data lib cfg r ≡ some l → cursor_lsn s.db < l)
      → Tracks wal coming s
      → Both (Tracks wal rest) (Broken wal rest) (on_received lib cfg i r s)
  unfolding on_received on_parsed
  on_received-Both i (err standby_timeout) s e h c = on tt s (stays s s e c)
  on_received-Both i (err x) s e h c = off _ s (Tracks-Covers (stays s s e c))
  on_received-Both i (ok none) s e h c = on tt s (stays s s e c)
  on_received-Both i (ok (some wal_data)) s e h c = go (parse_wal_message lib.parse_v2 wal_data) e h
    where
      go :
          (m : Result WalMessage)
          → Carries (commit_of_message m) s.buf coming rest
          → ((l : Lsn) → commit_of_message m ≡ some l → cursor_lsn s.db < l)
          → Both (Tracks wal rest) (Broken wal rest) (on_parsed lib cfg i m s)
      go (err x) e h = on tt s (stays s s e c)
      go (ok m) e h = on_message-Both i m s e h c

  pub receive_round-Both :
      (i : Inputs) (s : Stream)
      → Carries (commit_of_receive lib cfg i s) s.buf coming rest
      → Follows wal coming s
      → Both (Tracks wal rest) (Broken wal rest) (receive_round lib cfg i s)
  unfolding receive_round
  receive_round-Both i s e (c, past) =
      let answer = i.arrives (next_receive_deadline s.next_batch_at s.next_standby_at) in
      let (r, w) = receive_message lib answer i.reply s.wal in
      let kept = receive_message-Receives lib answer i.reply s.wal in
      on_received-Both i r (record s { session = record s.session { wal = w } }) e
        (λ l at. next_past (commit_of_receive lib cfg i s) e past l at)
        (record {
          open_txs = c.open_txs;
          placed = c.placed;
          rows = c.rows;
          ahead = c.ahead;
          bound = omega (arith, kept.position, c.bound);
        })
    where
      next_past :
          (o : Option Lsn)
          → Carries o s.buf coming rest
          → Past coming s
          → (l : Lsn) → o ≡ some l
          → cursor_lsn s.db < l
      next_past none e past l at = cc
      next_past (some k) e past l at =
          let (first, more) = subst (λ ts. Past ts s) e past in
          let same : k ≡ l = cc in omega (arith, first, c.bound, same)
