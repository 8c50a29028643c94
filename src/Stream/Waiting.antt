-- ===== src/Stream/Waiting.antt =====
-- How long a committed row waits in processWALStream before it is passed to jack-service: what a round
-- does to the open batch.
pub mod Prompt
use mathlib.Core.Path.{subst}
use jack_courier_driver_pglg.Prelude.{
  ◌+◌, ◌<◌, ◌≡◌, refl, sym, ap, ◌∙◌, [], ◌∷◌, ◌++◌, List, Bool, true, false, Option, none, some,
  Bytes, map, leb, arith, append-nil, if◌then◌else◌, Bool-cases, inl, inr, ◌⊎◌,
}
use jack_courier_driver_pglg.Errors.{Result, ok, err, standby_timeout}
use jack_courier_driver_pglg.Row.{
  Time, Lsn, Job, ParsedInsert, WalMessage, to_job, begin, relation, insert, commit, other,
}
use jack_courier_driver_pglg.Wal.{Decoders, parse_insert}
use jack_courier_driver_pglg.Parser.Message.{parse_wal_message}
use jack_courier_driver_pglg.Flush.{Session}
use jack_courier_driver_pglg.Stream.{
  Limits, Stream, Inputs, ◌▹◌, is_nil, timed_flush, clock_after, standby_tick, open_batch, close_tx,
  on_commit, on_row, on_message, on_parsed, on_received, receive_round, round, run, batch_due,
  flush_pending,
}
use jack_courier_driver_pglg.Stream.Rules.{joined, Then-timed, Then-standby, Then-commit}
use jack_courier_driver_pglg.Stream.Then.{
  Then, on, off, Then-▹, Then-if, Then-ran, Then-here, Then-ok, Then-imp,
}
use jack_courier_driver_pglg.Stream.Both.{Both, Both-flush, Both-end}

abbrev pub Empty : Stream → Type 0
Empty s = s.pending_inserts ≡ []

pub Empty-cases : (s : Stream) → Empty s ⊎ (Empty s → ⊥)
Empty-cases s = go s.pending_inserts refl
  where
    go : (rows : List ParsedInsert) → s.pending_inserts ≡ rows → Empty s ⊎ (Empty s → ⊥)
    go [] e = inl e
    go (p ∷ ps) e = inr (λ e'. ground arith)

module _ (cfg : Limits) where
  -- What a part of a round does to the batch: it leaves none, it leaves the deadline, or it opens a
  -- batch, where `Before` held.
  pub data Turned (i : Inputs) (Before : Type 0) (s s' : Stream) : Type 0 where
    emptied : Empty s' → Turned i Before s s'
    held : (Empty s → ⊥) → s'.next_batch_at ≡ s.next_batch_at → Turned i Before s s'
    opened : Before → s'.next_batch_at ≡ i.now_at_commit + cfg.batch_timeout → Turned i Before s s'

  abbrev Receives : Inputs → Stream → Stream → Type 0
  Receives i s s' = Turned i (Empty s) s s'

  same :
      (i : Inputs) (s s' : Stream)
      → s'.pending_inserts ≡ s.pending_inserts
      → s'.next_batch_at ≡ s.next_batch_at
      → Receives i s s'
  same i s s' rows at = elim (Empty-cases s) [
    | inl none_there ↦ emptied (rows ∙ none_there)
    | inr some_there ↦ held some_there at
  ]

  joined-Receives : (i : Inputs) (l : Lsn) (s : Stream) → Receives i s (joined cfg i l s)
  unfolding open_batch close_tx
  joined-Receives i l s = elim (Bool-cases (is_nil s.pending_inserts)) [
    | inl nil ↦ elim (Empty-cases (joined cfg i l s)) [
      | inl e ↦ emptied e
      | inr rows ↦ opened (ground arith) (ground (arith, rows))
    ]
    | inr some_there ↦ held (λ e. ground (arith, e)) (ground arith)
  ]

  on_commit-Receives :
      (i : Inputs) (l : Lsn) (s : Stream) → Then (Receives i s) (on_commit cfg i l s)
  on_commit-Receives i l s =
      Then-commit cfg i l s (λ room. joined-Receives i l s) (λ e. emptied refl)
        (λ session d. emptied refl)

  on_message-Receives :
      (lib : Decoders) (i : Inputs) (m : WalMessage) (s : Stream)
      → Then (Receives i s) (on_message lib cfg i m s)
  unfolding on_message on_row
  on_message-Receives lib i begin s = on tt _ (same i s _ refl refl)
  on_message-Receives lib i (relation r) s = on tt _ (same i s _ refl refl)
  on_message-Receives lib i (insert ins) s = on tt _ (go (parse_insert lib ins s.wal))
    where
      go : (r : Result (Option ParsedInsert)) → Receives i s (on_row r s)
      go (err e) = same i s s refl refl
      go (ok none) = same i s s refl refl
      go (ok (some p)) = same i s (record s { buf = s.buf ++ p ∷ [] }) refl refl
  on_message-Receives lib i (commit l) s = on_commit-Receives i l s
  on_message-Receives lib i other s = on tt s (same i s s refl refl)

  on_received-Receives :
      (lib : Decoders) (i : Inputs) (r : Result (Option Bytes)) (s : Stream)
      → Then (Receives i s) (on_received lib cfg i r s)
  unfolding on_received on_parsed
  on_received-Receives lib i (err standby_timeout) s = on tt s (same i s s refl refl)
  on_received-Receives lib i (err e) s = off _ s
  on_received-Receives lib i (ok none) s = on tt s (same i s s refl refl)
  on_received-Receives lib i (ok (some wal_data)) s = go (parse_wal_message lib.parse_v2 wal_data)
    where
      go : (m : Result WalMessage) → Then (Receives i s) (on_parsed lib cfg i m s)
      go (err e) = on tt s (same i s s refl refl)
      go (ok m) = on_message-Receives lib i m s

  -- The pending rows and their deadline are those of before.
  record Keeps (s s' : Stream) : Type 0 where
    rows : s'.pending_inserts ≡ s.pending_inserts
    at : s'.next_batch_at ≡ s.next_batch_at

  standby_tick-Keeps :
      (i : Inputs) (now : Time) (s : Stream) → Then (Keeps s) (standby_tick cfg i now s)
  standby_tick-Keeps i now s =
      Then-standby cfg i now s (λ not_due. record { rows = refl; at = refl })
        (λ due busy. record { rows = refl; at = refl })
        (λ db due free e. record { rows = refl; at = refl })

  timed_flush-cases : (i : Inputs) (s : Stream) → Then (λ t. Empty t ⊎ (t ≡ s)) (timed_flush i s)
  timed_flush-cases i s = Then-timed i s (inr refl) (λ e. inl refl) (λ session d. inl refl)

  abbrev pub Flushed : Inputs → Stream → Type 0
  Flushed i s = Empty (timed_flush i s).1

  moved : (i : Inputs) (t v u : Stream) → Keeps t v → Receives i v u → Receives i t u
  moved i t v u k (emptied e) = emptied e
  moved i t v u k (held some_there at) = held (λ e. some_there (k.rows ∙ e)) (at ∙ k.at)
  moved i t v u k (opened nothing at) = opened (sym k.rows ∙ nothing) at

  receive_round-Receives :
      (lib : Decoders) (i : Inputs) (t s : Stream)
      → Keeps t s
      → Then (λ u. Receives i t u) (receive_round lib cfg i s)
  unfolding receive_round
  receive_round-Receives lib i t s k =
      Then-imp (on_received-Receives lib i _ _)
        (λ u r. moved i t _ u (record { rows = k.rows; at = k.at }) r)

  finish :
      (i : Inputs) (s t u : Stream)
      → t ≡ (timed_flush i s).1
      → Empty t ⊎ (t ≡ s)
      → Receives i t u
      → Turned i (Flushed i s) s u
  finish i s t u after c (emptied e) = emptied e
  finish i s t u after (inl e) (held some_there at) = absurd (some_there e)
  finish i s t u after (inr q) (held some_there at) =
      held (λ e. some_there (subst Empty (sym q) e)) (at ∙ ap (λ x. x.next_batch_at) q)
  finish i s t u after c (opened nothing at) = opened (subst Empty after nothing) at

  -- The stream between the flush and the receiving of a round.
  record Middle (i : Inputs) (s v : Stream) : Type 0 where
    middle : Stream
    after : middle ≡ (timed_flush i s).1
    cases : Empty middle ⊎ (middle ≡ s)
    keeps : Keeps middle v

  module _ (lib : Decoders) where
    pub round-Turned :
        (i : Inputs) (s : Stream) → Then (Turned i (Flushed i s) s) (round lib cfg i s)
    unfolding round
    round-Turned i s =
        Then-if i.done _ _ (λ stop. off _ s)
          (λ go_on.
            Then-▹ (timed_flush i s ▹ standby_tick cfg i (clock_after i s))
              (receive_round lib cfg i)
              (Then-▹ (timed_flush i s) (standby_tick cfg i (clock_after i s))
                (Then-here (timed_flush-cases i s))
                (λ t (c, after).
                  Then-imp (standby_tick-Keeps i (clock_after i s) t)
                    (λ v k. record { middle = t; after = after; cases = c; keeps = k })))
              (λ v (m : Middle i s v).
                Then-imp (receive_round-Receives lib i m.middle v m.keeps)
                  (λ u r. finish i s m.middle u m.after m.cases r)))
