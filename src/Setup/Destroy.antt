-- ===== src/Setup/Destroy.antt =====
-- runDestroy of cmd/pglg-setup/main.go.
use jack_courier_driver_pglg.Prelude.{List, [], ◌∷◌, ◌++◌, Bool, Bytes, codes, if◌then◌else◌}
use jack_courier_driver_pglg.Setup.Failures.{Attempt, done, not_dropped}
use jack_courier_driver_pglg.Setup.Create.{
  SetupStatement, drop_slot, drop_publication, drop_table, after, exec,
}

-- A statement whose error is ignored.
unfoldable pub try_exec :
    (SetupStatement → Bool)
    → SetupStatement
    → Attempt (Unit {0}) × List SetupStatement
    → Attempt (Unit {0}) × List SetupStatement
try_exec exec_ok s rest = if exec_ok s then after s rest else rest

unfoldable pub tables : Bytes → Bytes → List Bytes
tables schema table_prefix =
    let name = λ (suffix : Bytes). schema ++ codes "." ++ table_prefix ++ suffix in
    name (codes "_jobs")
    ∷ name (codes "_cursor")
    ∷ name (codes "_partition_meta")
    ∷ name (codes "_dlq")
    ∷ []

unfoldable pub drop_tables :
    (SetupStatement → Bool) → List Bytes → Attempt (Unit {0}) × List SetupStatement
drop_tables exec_ok [] = (done tt, [])
drop_tables exec_ok (t ∷ ts) = exec exec_ok (drop_table t) (not_dropped t) (drop_tables exec_ok ts)

unfoldable pub run_destroy :
    (SetupStatement → Bool)
    → Bytes
    → Bytes
    → Bytes
    → Bytes
    → Attempt (Unit {0}) × List SetupStatement
run_destroy exec_ok schema table_prefix publication slot = try_exec exec_ok (drop_slot slot) (
    try_exec exec_ok (drop_publication publication)
      (drop_tables exec_ok (tables schema table_prefix)))
