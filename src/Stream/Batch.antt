-- ===== src/Stream/Batch.antt =====
-- The pending rows are bounded, and never wait without a deadline.
use jack_courier_driver_pglg.Prelude.{
  ◌+◌, ◌<◌, ◌≡◌, refl, [], ◌∷◌, ◌++◌, List, ◌&&◌, Option, none, some, Bytes, arith, length,
}
use jack_courier_driver_pglg.Errors.{Result, ok, err, standby_timeout}
use jack_courier_driver_pglg.Row.{
  Lsn, ParsedInsert, WalMessage, begin, relation, insert, commit, other,
}
use jack_courier_driver_pglg.Wal.{Decoders, parse_insert}
use jack_courier_driver_pglg.Parser.Message.{parse_wal_message}
use jack_courier_driver_pglg.Flush.{Session}
use jack_courier_driver_pglg.Stream.{
  Limits, Stream, Inputs, is_nil, is_zero, open_batch, close_tx, on_row, on_message, on_parsed,
  on_received, receive_round, run, on_commit,
}
use jack_courier_driver_pglg.Stream.Rules.{
  run_invariant, flushed, joined, Then-timed, Then-standby, Then-commit,
}
use jack_courier_driver_pglg.Stream.Then.{Then, on, off, Then-ok}

-- Fewer rows wait than a batch holds, and a batch has a deadline exactly while rows wait.
pub record IsBatched (cfg : Limits) (s : Stream) : Type 0 where
  pub room : length s.pending_inserts < cfg.max_batch_size
  pub armed : is_zero s.next_batch_at ≡ is_nil s.pending_inserts

is_nil-append {ℓ} : {A : Type ℓ} (xs ys : List A) → is_nil (xs ++ ys) ≡ (is_nil xs && is_nil ys)
is_nil-append [] ys = refl
is_nil-append (x ∷ xs) ys = refl

module _ (cfg : Limits) where
  flushed-IsBatched :
      (s : Stream) (session : Session) → 0 < cfg.max_batch_size → IsBatched cfg (flushed s session)
  flushed-IsBatched s session h = record { room = h; armed = refl }

  joined-armed :
      (i : Inputs) (l : Lsn) (s : Stream)
      → 0 < i.now_at_commit + cfg.batch_timeout
      → is_zero s.next_batch_at ≡ is_nil s.pending_inserts
      → is_zero (joined cfg i l s).next_batch_at ≡ is_nil (joined cfg i l s).pending_inserts
  unfolding open_batch close_tx
  joined-armed i l s h a = ground (arith, is_nil-append s.pending_inserts s.buf)

  on_commit-IsBatched :
      (i : Inputs) (l : Lsn) (s : Stream)
      → 0 < cfg.max_batch_size
      → 0 < cfg.batch_timeout
      → IsBatched cfg s
      → Then (IsBatched cfg) (on_commit cfg i l s)
  on_commit-IsBatched i l s size wait b =
      Then-commit cfg i l s
        (λ room. record { room = room; armed = joined-armed i l s (omega arith) b.armed })
        (λ e. flushed-IsBatched (joined cfg i l s) (joined cfg i l s).session size)
        (λ session d. flushed-IsBatched (joined cfg i l s) session size)

  on_message-IsBatched :
      (lib : Decoders) (i : Inputs) (m : WalMessage) (s : Stream)
      → 0 < cfg.max_batch_size
      → 0 < cfg.batch_timeout
      → IsBatched cfg s
      → Then (IsBatched cfg) (on_message lib cfg i m s)
  unfolding on_message on_row
  on_message-IsBatched lib i begin s size wait b =
      on tt _ (record { room = b.room; armed = b.armed })
  on_message-IsBatched lib i (relation r) s size wait b =
      on tt _ (record { room = b.room; armed = b.armed })
  on_message-IsBatched lib i (insert ins) s size wait b = on tt _ (go (parse_insert lib ins s.wal))
    where
      go : (r : Result (Option ParsedInsert)) → IsBatched cfg (on_row r s)
      go (err e) = b
      go (ok none) = b
      go (ok (some p)) = record { room = b.room; armed = b.armed }
  on_message-IsBatched lib i (commit l) s size wait b = on_commit-IsBatched i l s size wait b
  on_message-IsBatched lib i other s size wait b = on tt s b

  on_received-IsBatched :
      (lib : Decoders) (i : Inputs) (r : Result (Option Bytes)) (s : Stream)
      → 0 < cfg.max_batch_size
      → 0 < cfg.batch_timeout
      → IsBatched cfg s
      → Then (IsBatched cfg) (on_received lib cfg i r s)
  unfolding on_received on_parsed
  on_received-IsBatched lib i (err standby_timeout) s size wait b = on tt s b
  on_received-IsBatched lib i (err e) s size wait b = off _ s
  on_received-IsBatched lib i (ok none) s size wait b = on tt s b
  on_received-IsBatched lib i (ok (some wal_data)) s size wait b =
      go (parse_wal_message lib.parse_v2 wal_data)
    where
      go : (m : Result WalMessage) → Then (IsBatched cfg) (on_parsed lib cfg i m s)
      go (err e) = on tt s b
      go (ok m) = on_message-IsBatched lib i m s size wait b

  -- With a positive batch size and timeout, between two rounds that go on fewer rows are pending
  -- than a batch holds, and the batch has a deadline exactly while rows are pending, so that no row
  -- waits for ever and no empty batch wakes the loop.
  pub run-IsBatched :
      (lib : Decoders) (is : List Inputs) (s s' : Stream)
      → 0 < cfg.max_batch_size
      → 0 < cfg.batch_timeout
      → IsBatched cfg s
      → run lib cfg is s ≡ (ok tt, s')
      → IsBatched cfg s'
  unfolding receive_round
  run-IsBatched lib is s s' size wait b h =
      Then-ok
        (run_invariant lib cfg {P = IsBatched cfg}
          (λ i t k.
            Then-timed i t k (λ e. flushed-IsBatched t t.session size)
              (λ session d. flushed-IsBatched t session size))
          (λ i now t k.
            Then-standby cfg i now t (λ not_due. k)
              (λ due busy. record { room = k.room; armed = k.armed })
              (λ db due free e. record { room = k.room; armed = k.armed }))
          (λ i t k.
            on_received-IsBatched lib i _ _ size wait (record { room = k.room; armed = k.armed }))
          is s b)
        h
