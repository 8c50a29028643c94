-- ===== src/Wal/Connect.antt =====
-- connect and close of wal.go: the connection string of a replication connection, and the pgconn
-- connection that the consumer holds, a number.
use jack_courier_driver_pglg.Prelude.{
  ℕ, List, [], ◌∷◌, ◌++◌, Bool, false, not, ◌&&◌, Option, none, some, Bytes, codes, is_empty, ◌==◌,
  if◌then◌else◌,
}
use jack_courier_driver_pglg.Errors.{Result, ok, err, connect}

unfoldable pub ends_in_space : Bytes → Bool
ends_in_space [] = false
ends_in_space (b ∷ []) = b == b' '
ends_in_space (b ∷ c ∷ s) = ends_in_space (c ∷ s)

unfoldable pub replication_conn_string : Bytes → Bytes
unfolding ends_in_space
replication_conn_string s =
    let separated = if not (is_empty s) && not (ends_in_space s) then s ++ codes " " else s in
    separated ++ codes "replication=database"

-- `dial` is pgconn.Connect.
unfoldable pub connect_replication :
    (Bytes → Option ℕ) → Bytes → Option ℕ → Result (Unit {0}) × Option ℕ
connect_replication dial conn_string conn = elim (dial (replication_conn_string conn_string)) [
  | none ↦ (err connect, conn)
  | some c ↦ (ok tt, some c)
]

-- The connections that are closed.
unfoldable pub close : Option ℕ → List ℕ
close none = []
close (some c) = c ∷ []
