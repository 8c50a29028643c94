-- ===== src/Examples/Restarts.antt =====
-- A driver that loses a flush and restarts, at the sample.
use jack_courier_driver_pglg.Stream.{Inputs}
use jack_courier_driver_pglg.Prelude.{◌∷◌, [], List}
use jack_courier_driver_pglg.Driver.{SessionInputs}
use jack_courier_driver_pglg.Stream.Covered.{Tx}
use jack_courier_driver_pglg.Examples.{sample_rounds, sample_row, receiving, silent}
use jack_courier_driver_pglg.Examples.Service.{streaming}

-- jack-service does not answer the flush of the transaction
abbrev unanswered : List Inputs
unanswered =
    receiving 21 (b'B' ∷ [])
    ∷ receiving 22 (b'R' ∷ [])
    ∷ receiving 23 (b'I' ∷ [])
    ∷ record (receiving 24 (12 ∷ [])) { full = silent }
    ∷ []

-- the same transaction in two sessions, of which the first fails to flush it
abbrev two_sessions : List SessionInputs
two_sessions =
    record streaming { rounds = unanswered } ∷ record streaming { rounds = sample_rounds } ∷ []

abbrev sample_wal : List Tx
sample_wal = (12, sample_row ∷ []) ∷ []
