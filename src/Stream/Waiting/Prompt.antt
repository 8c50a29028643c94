-- ===== src/Stream/Waiting/Prompt.antt =====
-- A committed row is passed to jack-service once its batch is due.
use jack_courier_driver_pglg.Prelude.{
  ◌+◌, ◌<◌, ◌≡◌, refl, sym, ap, ◌∙◌, [], ◌∷◌, ◌++◌, List, Bool, map, leb, arith, append-nil,
  if◌then◌else◌, Bool-cases, inl, inr,
}
use jack_courier_driver_pglg.Errors.{ok}
use jack_courier_driver_pglg.Row.{to_job}
use jack_courier_driver_pglg.Wal.{Decoders}
use jack_courier_driver_pglg.Stream.{
  Limits, Stream, Inputs, is_nil, timed_flush, round, run, batch_due,
}
use jack_courier_driver_pglg.Stream.Then.{Then, on, Then-▹, Then-ran, Then-ok, Then-imp}
use jack_courier_driver_pglg.Stream.Both.{Both-flush, Both-end}
use jack_courier_driver_pglg.Stream.Waiting.{
  Empty, Empty-cases, Turned, emptied, held, opened, Flushed, round-Turned,
}

-- A timed flush passes the pending rows on just when the batch is due, whatever comes of it.
timed_flush-submitted :
    (i : Inputs) (s : Stream)
    → (Empty s → ⊥)
    → (timed_flush i s).1.submitted
      ≡ s.submitted ++ (if batch_due i.now s then map to_job s.pending_inserts ∷ [] else [])
unfolding timed_flush
timed_flush-submitted i s rows = elim (Bool-cases (batch_due i.now s)) [
  | inl due ↦ elim (Bool-cases (is_nil s.pending_inserts)) [
    | inl nil ↦ absurd (rows (ground arith))
    | inr full ↦
        rw (due, full)
          (Both-end {P = λ u. u.submitted ≡ s.submitted ++ map to_job s.pending_inserts ∷ []}
            (Both-flush i.timed s (λ e. absurd (rows e)) (λ session d. d.calls)
              (λ session d. d.calls))
            (λ u e. e))
  ]
  | inr early ↦ rw early (sym (append-nil s.submitted))
]

module _ (cfg : Limits) (lib : Decoders) where
  -- The round of `is` in which the batch that is open in `s'` was opened: its timed flush left
  -- nothing pending, so that every row that is pending was committed in it or after it.
  pub record Opening (is : List Inputs) (s s' : Stream) : Type 0 where
    pub before : List Inputs
    pub opener : Inputs
    pub after : List Inputs
    pub split : is ≡ before ++ opener ∷ after
    pub stream : Stream
    pub reached : run lib cfg before s ≡ (ok tt, stream)
    pub nothing : (timed_flush opener stream).1.pending_inserts ≡ []
    pub deadline : s'.next_batch_at ≡ opener.now_at_commit + cfg.batch_timeout

  data Waits (is : List Inputs) (s s' : Stream) : Type 0 where
    served : Empty s' → Waits is s s'
    since_before : (Empty s → ⊥) → s'.next_batch_at ≡ s.next_batch_at → Waits is s s'
    within : Opening is s s' → Waits is s s'

  longer :
      (i : Inputs) (is : List Inputs) (s t s' : Stream)
      → round lib cfg i s ≡ (ok tt, t)
      → Turned cfg i (Flushed cfg i s) s t
      → Waits is t s'
      → Waits (i ∷ is) s s'
  unfolding run
  longer i is s t s' ran turned (served e) = served e
  longer i is s t s' ran (emptied e) (since_before rows at) = absurd (rows e)
  longer i is s t s' ran (held some_there at') (since_before rows at) =
      since_before some_there (at ∙ at')
  longer i is s t s' ran (opened nothing at') (since_before rows at) = within (record {
    before = [];
    opener = i;
    after = is;
    split = refl;
    stream = s;
    reached = refl;
    nothing = nothing;
    deadline = at ∙ at';
  })
  longer i is s t s' ran turned (within o) = within (record {
    before = i ∷ o.before;
    opener = o.opener;
    after = o.after;
    split = ap (◌∷◌ i) o.split;
    stream = o.stream;
    reached = rw ran o.reached;
    nothing = o.nothing;
    deadline = o.deadline;
  })

  run-Waits : (is : List Inputs) (s : Stream) → Then (Waits is s) (run lib cfg is s)
  unfolding run
  run-Waits [] s =
      on tt s (elim (Empty-cases s) [ inl e ↦ served e | inr rows ↦ since_before rows refl ])
  run-Waits (i ∷ is) s =
      Then-▹ (round lib cfg i s) (run lib cfg is) (Then-ran (round-Turned cfg lib i s))
        (λ t (turned, ran). Then-imp (run-Waits is t) (λ s' w. longer i is s t s' ran turned w))

  -- Let a loop without pending rows run over any rounds that go on, and let rows be pending after them.
  -- Then a round of these has opened their batch: its timed flush left nothing pending, so that they were
  -- all committed in it or later. And the timed flush with which any next round begins passes exactly the pending
  -- rows to jack-service if its clock is not before the clock of that commit plus the batch timeout, and
  -- none otherwise. So no row waits longer than the batch timeout for a round to take it.
  pub run-Opening :
      (is : List Inputs) (s s' : Stream) (next : Inputs)
      → 0 < cfg.batch_timeout
      → s.pending_inserts ≡ []
      → (s'.pending_inserts ≡ [] → ⊥)
      → run lib cfg is s ≡ (ok tt, s')
      → (o : Opening is s s') × ((timed_flush next s').1.submitted
          ≡ s'.submitted
            ++ (if leb (o.opener.now_at_commit + cfg.batch_timeout) next.now
                then map to_job s'.pending_inserts ∷ []
                else []))
  unfolding batch_due
  run-Opening is s s' next wait start rows h = go (Then-ok (run-Waits is s) h)
    where
      go :
          Waits is s s'
          → (o : Opening is s s') × ((timed_flush next s').1.submitted
              ≡ s'.submitted
                ++ (if leb (o.opener.now_at_commit + cfg.batch_timeout) next.now
                    then map to_job s'.pending_inserts ∷ []
                    else []))
      go (served e) = absurd (rows e)
      go (since_before before at) = absurd (before start)
      go (within o) = (
        o,
        timed_flush-submitted next s' rows
            ∙ ap
                (λ (b : Bool).
                  s'.submitted ++ (if b then map to_job s'.pending_inserts ∷ [] else []))
                (ground (arith, o.deadline, wait)),
      )
