-- ===== src/Stream/Resend.antt =====
-- The loop over a WAL whose transactions the server sends in their order.
use mathlib.Core.Path.{subst}
use jack_courier_driver_pglg.Prelude.{
  ◌<◌, ◌≤◌, ◌≡◌, sym, ap, ◌∙◌, [], ◌∷◌, List, Option, none, some, max, All, arith,
}
use jack_courier_driver_pglg.Row.{Lsn, ParsedInsert}
use jack_courier_driver_pglg.Wal.{Decoders}
use jack_courier_driver_pglg.Stream.{
  Stream, Inputs, Limits, timed_flush, standby_tick, clock_after, receive_round, round, run,
}
use jack_courier_driver_pglg.Stream.Conservation.{before_receive, row_of_receive}
use jack_courier_driver_pglg.Stream.Order.{commit_of_receive}
use jack_courier_driver_pglg.Stream.Covered.{Tx}
use jack_courier_driver_pglg.Stream.Arrivals.{
  open_after, position_of, reached, announced_in, receive_round-Buffers, before_receive-buf,
  receive_round-reached,
}
use jack_courier_driver_pglg.Stream.Both.{
  Both, on, off, Both-▹, Both-if, Both-here, Both-imp, Both-zip, Both-and, Both-end,
}
use jack_courier_driver_pglg.Stream.Delivery.{Covers, Past, Tracks-Covers}
use jack_courier_driver_pglg.Stream.Restart.{
  Follows, CoversEnd, timed_flush-Both, standby_tick-Both,
}
use jack_courier_driver_pglg.Stream.Carries.{Carries, receive_round-Both}

-- The transactions end past a position.
abbrev pub Beyond : Lsn → List Tx → Type 0
Beyond l txs = All (λ (t : Tx). l < t.0) txs

-- The driver takes the position that a message announces for the end of what it has received, so no
-- transaction that is still to come may end there or before. PostgreSQL keeps to it in a keepalive.
-- The end of a payload is computed by the driver from the payload's length, and PostgreSQL does not
-- promise it to be before the end of the transaction: this is what the driver relies on.
abbrev pub IsAhead : Lsn → List Tx → Type 0
IsAhead = Beyond

-- What is still to come after a message was to come before it.
Past-Carries :
    (c : Option Lsn) (open_rows : List ParsedInsert) (coming rest : List Tx) (t u : Stream)
    → Carries c open_rows coming rest
    → Past coming t
    → (l k : Lsn) → reached u ≤ max (reached t) (max l k)
    → Beyond l rest
    → IsAhead k rest
    → Past rest u
Past-Carries c open_rows coming rest t u e past l k within beyond ahead =
    go rest (left c e) beyond ahead
  where
    left : (c : Option Lsn) → Carries c open_rows coming rest → Past rest t
    left none e = subst (λ ts. Past ts t) (sym e) past
    left (some l) e = (subst (λ ts. Past ts t) e past).1

    go : (txs : List Tx) → Past txs t → Beyond l txs → IsAhead k txs → Past txs u
    go [] p b a = tt
    go (x ∷ txs) (p, ps) (b, bs) (a, more) = (omega (arith, p, b, a, within), go txs ps bs more)

module _ (lib : Decoders) (cfg : Limits) where
  -- The rows sent since the last commit, after a round.
  abbrev pub open_next : Inputs → List ParsedInsert → Stream → List ParsedInsert
  open_next i open_rows t =
      open_after (commit_of_receive lib cfg i t) open_rows (row_of_receive lib cfg i t)

  -- What the server sends in a round, with `open_rows` sent since its last commit: it leaves the
  -- transactions to come as they are, or is the commit of the first, whose rows are the open ones. The
  -- others end past that commit, and are ahead of what the message announces.
  abbrev pub Sent : Inputs → List ParsedInsert → List Tx → List Tx → Stream → Type 0
  Sent i open_rows coming rest t =
      Carries (commit_of_receive lib cfg i t) open_rows coming rest
      × Beyond (position_of (commit_of_receive lib cfg i t)) rest
      × IsAhead (announced_in lib cfg i t) rest

  -- The server sends the transactions `coming` in their order, from a point where it has sent
  -- `open_rows` of the first one. This is about the messages that arrive: their commits, the rows
  -- that they carry and the positions that they announce.
  abbrev pub Sends : List Tx → List ParsedInsert → List Inputs → Stream → Type 0
  Sends coming open_rows [] s = Unit
  Sends coming open_rows (i ∷ is) s =
      let t = (before_receive lib cfg i s).1 in
      (rest : List Tx) × Sent i open_rows coming rest t
      × Sends rest (open_next i open_rows t) is (round lib cfg i s).1

  module _ (wal coming rest : List Tx) (i : Inputs) (open_rows : List ParsedInsert) where
    -- The receiving of a round, from a stream whose buffer holds the open rows.
    received-Both :
        (t : Stream)
        → Follows wal coming t
        → t.buf ≡ open_rows
        → Sent i open_rows coming rest t
        → Both
            (λ u. Follows wal rest u × (u.buf ≡ open_next i open_rows t))
            (CoversEnd wal)
            (receive_round lib cfg i t)
    received-Both t g same (e, beyond, ahead_of) =
        let ahead : (u : Stream)
            → reached u
              ≤ max (reached t)
                  (max (position_of (commit_of_receive lib cfg i t)) (announced_in lib cfg i t))
            → Past rest u =
          λ u w. Past-Carries _ open_rows coming rest t u e g.1 _ _ w beyond ahead_of in
        Both-imp
          (Both-and
            (Both-zip
              (receive_round-Both lib cfg wal coming rest i t
                (subst (λ rows. Carries (commit_of_receive lib cfg i t) rows coming rest) (sym same)
                  e)
                g)
              (receive_round-reached lib cfg i t))
            (receive_round-Buffers lib cfg i t))
          (λ u ((c, w), b). (
            (c, ahead u w),
            b
                ∙ ap
                    (λ rows.
                      open_after (commit_of_receive lib cfg i t) rows (row_of_receive lib cfg i t))
                    same,
          ))
          (λ u (broken, w). broken (ahead u w))

    round-Both :
        (s : Stream)
        → Follows wal coming s
        → s.buf ≡ open_rows
        → Sent i open_rows coming rest (before_receive lib cfg i s).1
        → Both
            (λ u.
              (Follows wal rest u × (u.buf ≡ open_next i open_rows (before_receive lib cfg i s).1))
              × (u ≡ (round lib cfg i s).1))
            (CoversEnd wal)
            (round lib cfg i s)
    unfolding round
    round-Both s f same e =
        Both-imp
          (Both-here (
            Both-if i.done _ _ (λ stop. off _ s (Tracks-Covers f.0 f.1))
              (λ go_on.
                Both-▹ (before_receive lib cfg i s) (receive_round lib cfg i)
                  (Both-imp (Both-here (Both-and before (before_receive-buf lib cfg i s)))
                    (λ t h. h) (λ t h. h.0))
                  (λ t ((g, kept), at).
                    subst
                      (λ x.
                        Both (λ u. Follows wal rest u × (u.buf ≡ open_next i open_rows x))
                          (CoversEnd wal) (receive_round lib cfg i t))
                      at
                      (received-Both t g (kept ∙ same)
                        (subst (Sent i open_rows coming rest) (sym at) e))))))
          (λ u h. h) (λ u h. h.0)
      where
        before : Both (Follows wal coming) (CoversEnd wal) (before_receive lib cfg i s)
        before =
            Both-▹ (timed_flush i s) (standby_tick cfg i (clock_after i s))
              (timed_flush-Both wal coming i s f)
              (standby_tick-Both wal coming cfg i (clock_after i s))

  run-Both :
      (wal coming : List Tx) (open_rows : List ParsedInsert) (is : List Inputs) (s : Stream)
      → Follows wal coming s
      → s.buf ≡ open_rows
      → Sends coming open_rows is s
      → Both (CoversEnd wal) (CoversEnd wal) (run lib cfg is s)
  unfolding run
  run-Both wal coming open_rows [] s f same sends = on tt s (Tracks-Covers f.0 f.1)
  run-Both wal coming open_rows (i ∷ is) s f same (rest, e, more) =
      Both-▹ (round lib cfg i s) (run lib cfg is)
        (round-Both wal coming rest i open_rows s f same e)
        (λ u ((g, kept), at).
          run-Both wal rest _ is u g kept (subst (Sends rest _ is) (sym at) more))

  -- Over any rounds, whatever fails in them and however the last one ends: from a stream that has
  -- the transactions `coming` of the WAL still to come and nothing buffered, which the server sends in
  -- their order, each transaction of the WAL has been handed over or ends past the durable cursor.
  pub run-Covers :
      (wal coming : List Tx) (is : List Inputs) (s : Stream)
      → Follows wal coming s
      → s.buf ≡ []
      → Sends coming [] is s
      → Covers wal (run lib cfg is s).1.session
  run-Covers wal coming is s f same sends =
      Both-end (run-Both wal coming [] is s f same sends) (λ u c. c)
