-- ===== src/Stream/Conservation.antt =====
-- Within a session no row is lost, doubled or moved before another.
use jack_courier_driver_pglg.Prelude.{
  ◌≡◌, refl, sym, ap, ◌∙◌, [], ◌∷◌, ◌++◌, List, Bool, true, Option, none, some, Bytes, map,
  map-append, append_assoc, append-nil, arith,
}
use mathlib.Core.Path.{subst}
use jack_courier_driver_pglg.Errors.{Result, ok, err, standby_timeout}
use jack_courier_driver_pglg.Row.{
  Time, Lsn, Job, ParsedInsert, WalMessage, to_job, begin, relation, insert, commit, other,
}
use jack_courier_driver_pglg.Wal.{WalConsumer, Decoders, parse_insert, receive_message}
use jack_courier_driver_pglg.Parser.Message.{parse_wal_message}
use jack_courier_driver_pglg.Flush.{Session, FlushInputs}
use jack_courier_driver_pglg.Flush.Outcome.{Delivered}
use jack_courier_driver_pglg.Stream.{
  Limits, Stream, Inputs, Round, ◌▹◌, is_nil, next_receive_deadline, timed_flush, clock_after,
  standby_tick, open_batch, close_tx, on_commit, on_row, on_message, on_parsed, on_received,
  receive_round, round, run,
}
use jack_courier_driver_pglg.Stream.Rules.{flushed, joined, Then-timed, Then-standby, Then-commit}
use jack_courier_driver_pglg.Stream.Then.{
  Then, on, off, Then-▹, Then-if, Then-here, Then-ok, Then-imp,
}

abbrev pub flatten {ℓ} : {A : Type ℓ} → List (List A) → List A
flatten [] = []
flatten (x ∷ xs) = x ++ flatten xs

pub flatten-snoc {ℓ} :
    {A : Type ℓ} (xs : List (List A)) (x : List A) → flatten (xs ++ x ∷ []) ≡ flatten xs ++ x
flatten-snoc [] x = append-nil x
flatten-snoc (y ∷ ys) x = rw (flatten-snoc ys x) (sym (append_assoc y (flatten ys) x))

-- The jobs that were passed to jack-service, in order, then those of the rows that wait to be.
abbrev pub all_jobs : Stream → List Job
all_jobs s = flatten s.submitted ++ map to_job (s.pending_inserts ++ s.buf)

-- The row that a received payload carries, if it carries one: an insert into a known relation
-- that can be parsed.
abbrev pub row_of_parse : Result (Option ParsedInsert) → List ParsedInsert
row_of_parse (ok (some p)) = p ∷ []
row_of_parse _ = []

abbrev pub row_of_message : Decoders → WalConsumer → Result WalMessage → List ParsedInsert
row_of_message lib w (ok (insert ins)) = row_of_parse (parse_insert lib ins w)
row_of_message lib w _ = []

abbrev pub row_of_data : Decoders → WalConsumer → Result (Option Bytes) → List ParsedInsert
row_of_data lib w (ok (some wal_data)) =
    row_of_message lib w (parse_wal_message lib.parse_v2 wal_data)
row_of_data lib w _ = []

abbrev Same : Stream → Stream → Type 0
Same s s' = all_jobs s' ≡ all_jobs s

flush_moves :
    (calls : List (List Job)) (pending buf : List ParsedInsert)
    → flatten (calls ++ map to_job pending ∷ []) ++ map to_job buf
      ≡ flatten calls ++ map to_job (pending ++ buf)
flush_moves calls pending buf =
    rw (flatten-snoc calls (map to_job pending), map-append)
      (append_assoc (flatten calls) (map to_job pending) (map to_job buf))

-- A delivered flush moves the pending rows to the submitted ones.
flushed-Same :
    (i : FlushInputs) (s : Stream) (session : Session)
    → Delivered i s.pending_inserts s.pending_commit_lsn s.session session
    → Same s (flushed s session)
flushed-Same i s session d = rw d.calls (flush_moves s.submitted s.pending_inserts s.buf)

closed-Same : (s : Stream) → s.pending_inserts ≡ [] → Same s (flushed s s.session)
closed-Same s e = rw e

timed_flush-Same : (i : Inputs) (s : Stream) → Then (Same s) (timed_flush i s)
timed_flush-Same i s = Then-timed i s refl (closed-Same s) (flushed-Same i.timed s)

standby_tick-Same :
    (cfg : Limits) (i : Inputs) (now : Time) (s : Stream) → Then (Same s) (standby_tick cfg i now s)
standby_tick-Same cfg i now s =
    Then-standby cfg i now s (λ not_due. refl) (λ due busy. refl) (λ db due free e. refl)

commit_jobs :
    (cfg : Limits) (i : Inputs) (b : Bool) (l : Lsn) (s : Stream)
    → Same s (open_batch cfg i b (close_tx l s))
unfolding open_batch close_tx
commit_jobs cfg i b l s = ground (arith, append-nil (s.pending_inserts ++ s.buf))

on_commit-Same :
    (cfg : Limits) (i : Inputs) (l : Lsn) (s : Stream) → Then (Same s) (on_commit cfg i l s)
on_commit-Same cfg i l s =
    let t = joined cfg i l s in
    let same = commit_jobs cfg i (is_nil s.pending_inserts) l s in
    Then-commit cfg i l s (λ room. same) (λ e. closed-Same t e ∙ same)
      (λ session d. flushed-Same i.full t session d ∙ same)

jobs_snoc :
    (calls : List Job) (rows : List ParsedInsert) (p : ParsedInsert)
    → calls ++ map to_job (rows ++ p ∷ []) ≡ (calls ++ map to_job rows) ++ map to_job (p ∷ [])
jobs_snoc calls rows p = rw map-append (sym (append_assoc calls (map to_job rows) (to_job p ∷ [])))

two_parts :
    (jobs : List Job) (row rows : List ParsedInsert) {mid all : List Job}
    → mid ≡ jobs ++ map to_job row
    → all ≡ mid ++ map to_job rows
    → all ≡ jobs ++ map to_job (row ++ rows)
two_parts jobs row rows a b =
    b
    ∙ ap (λ x. x ++ map to_job rows) a
    ∙ append_assoc jobs (map to_job row) (map to_job rows)
    ∙ ap (◌++◌ jobs) (sym (map-append to_job row rows))

module _ (lib : Decoders) (cfg : Limits) where
  -- After the message the jobs are those before it and that of its row.
  abbrev Adds : List ParsedInsert → Stream → Stream → Type 0
  Adds rows s s' = all_jobs s' ≡ all_jobs s ++ map to_job rows

  nothing_added : (s s' : Stream) → Same s s' → Adds [] s s'
  nothing_added s s' e = e ∙ sym (append-nil (all_jobs s))

  on_row-Adds :
      (r : Result (Option ParsedInsert)) (s : Stream) → Adds (row_of_parse r) s (on_row r s)
  unfolding on_row
  on_row-Adds (err e) s = nothing_added s s refl
  on_row-Adds (ok none) s = nothing_added s s refl
  on_row-Adds (ok (some p)) s =
      ap (λ rows. flatten s.submitted ++ map to_job rows)
        (sym (append_assoc s.pending_inserts s.buf (p ∷ [])))
      ∙ jobs_snoc (flatten s.submitted) (s.pending_inserts ++ s.buf) p

  on_message-Adds :
      (i : Inputs) (m : WalMessage) (s : Stream)
      → Then (Adds (row_of_message lib s.wal (ok m)) s) (on_message lib cfg i m s)
  unfolding on_message
  on_message-Adds i begin s = on tt (record s { in_tx = true }) (nothing_added s s refl)
  on_message-Adds i (relation r) s = on tt _ (nothing_added s s refl)
  on_message-Adds i (insert ins) s = on tt _ (on_row-Adds (parse_insert lib ins s.wal) s)
  on_message-Adds i (commit l) s = Then-imp (on_commit-Same cfg i l s) (nothing_added s)
  on_message-Adds i other s = on tt s (nothing_added s s refl)

  on_parsed-Adds :
      (i : Inputs) (m : Result WalMessage) (s : Stream)
      → Then (Adds (row_of_message lib s.wal m) s) (on_parsed lib cfg i m s)
  unfolding on_parsed
  on_parsed-Adds i (err e) s = on tt s (nothing_added s s refl)
  on_parsed-Adds i (ok m) s = on_message-Adds i m s

  on_received-Adds :
      (i : Inputs) (r : Result (Option Bytes)) (s : Stream)
      → Then (Adds (row_of_data lib s.wal r) s) (on_received lib cfg i r s)
  unfolding on_received
  on_received-Adds i (err standby_timeout) s = on tt s (nothing_added s s refl)
  on_received-Adds i (err e) s = off _ s
  on_received-Adds i (ok none) s = on tt s (nothing_added s s refl)
  on_received-Adds i (ok (some wal_data)) s =
      on_parsed-Adds i (parse_wal_message lib.parse_v2 wal_data) s

  -- The stream when a round comes to receive.
  abbrev pub before_receive : Inputs → Stream → Round
  before_receive i s = timed_flush i s ▹ standby_tick cfg i (clock_after i s)

  abbrev pub row_of_receive : Inputs → Stream → List ParsedInsert
  row_of_receive i s =
      let deadline = next_receive_deadline s.next_batch_at s.next_standby_at in
      let (r, wal) = receive_message lib (i.arrives deadline) i.reply s.wal in row_of_data lib wal r

  -- The rows that the messages of the rounds carry, in the order of the rounds.
  abbrev pub rows_received : List Inputs → Stream → List ParsedInsert
  rows_received [] s = []
  rows_received (i ∷ is) s =
      row_of_receive i (before_receive i s).1 ++ rows_received is (round lib cfg i s).1

  receive_round-Adds :
      (i : Inputs) (s : Stream) → Then (Adds (row_of_receive i s) s) (receive_round lib cfg i s)
  unfolding receive_round
  receive_round-Adds i s =
      let (r, wal) =
        receive_message lib (i.arrives (next_receive_deadline s.next_batch_at s.next_standby_at))
          i.reply s.wal in
      on_received-Adds i r (record s { session = record s.session { wal = wal } })

  round-Adds :
      (i : Inputs) (s : Stream)
      → Then (Adds (row_of_receive i (before_receive i s).1) s) (round lib cfg i s)
  unfolding round
  round-Adds i s =
      Then-if i.done _ _ (λ stop. off _ s)
        (λ go_on.
          Then-▹ (before_receive i s) (receive_round lib cfg i)
            (Then-here (
              Then-▹ (timed_flush i s) (standby_tick cfg i (clock_after i s)) (timed_flush-Same i s)
                (λ t same.
                  Then-imp (standby_tick-Same cfg i (clock_after i s) t) (λ u e. e ∙ same))))
            (λ t (same, at).
              subst (λ x. Then (Adds (row_of_receive i x) s) (receive_round lib cfg i t)) at
                (Then-imp (receive_round-Adds i t)
                  (λ u e. e ∙ ap (λ jobs. jobs ++ map to_job (row_of_receive i t)) same))))

  run-Adds : (is : List Inputs) (s : Stream) → Then (Adds (rows_received is s) s) (run lib cfg is s)
  unfolding run
  run-Adds [] s = on tt s (nothing_added s s refl)
  run-Adds (i ∷ is) s =
      Then-▹ (round lib cfg i s) (run lib cfg is) (Then-here (round-Adds i s)) (λ t (adds, at).
        let row = row_of_receive i (before_receive i s).1 in
        subst (λ x. Then (Adds (row ++ rows_received is x) s) (run lib cfg is t)) at
          (Then-imp (run-Adds is t)
            (λ u more. two_parts (all_jobs s) row (rows_received is t) adds more)))

  -- Over any rounds that go on, the jobs passed to jack-service followed by those that wait in
  -- memory are those of before followed by the jobs of the rows received, in the order of the WAL;
  -- a row is received when an insert into a known relation arrives that can be parsed. So no
  -- received row is lost, passed on twice or overtaken within a session.
  pub run-all_jobs :
      (is : List Inputs) (s s' : Stream)
      → run lib cfg is s ≡ (ok tt, s')
      → all_jobs s' ≡ all_jobs s ++ map to_job (rows_received is s)
  run-all_jobs is s s' h = Then-ok (run-Adds is s) h
