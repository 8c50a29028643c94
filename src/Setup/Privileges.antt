-- ===== src/Setup/Privileges.antt =====
-- checkPrivileges of cmd/pglg-setup/main.go. A query that returns an error gives `none`.
use jack_courier_driver_pglg.Prelude.{
  List, [], ◌∷◌, ◌++◌, Bool, true, false, ◌≡◌, ◌↔◌, ◌⊎◌, Option, none, some, arith, if◌then◌else◌,
}
use jack_courier_driver_pglg.Setup.Failures.{
  Privilege, Failure, Attempt, done, failed, replication_role, schema_create, database_create,
  no_user, no_replication_answer, no_schema_answer, no_database_answer, missing_privileges,
}

pub record Answers : Type 0 where
  pub user_ok : Bool
  pub has_replication : Option Bool
  pub has_schema_create : Option Bool
  pub has_database_create : Option Bool

-- One check: it is skipped, its query fails, or it may add a missing privilege.
unfoldable pub check :
    Bool → Option Bool → Failure → Privilege → List Privilege → Attempt (List Privilege)
check true answer e p missing = done missing
check false none e p missing = failed e
check false (some true) e p missing = done missing
check false (some false) e p missing = done (missing ++ p ∷ [])

unfoldable pub and_then :
    Attempt (List Privilege)
    → (List Privilege → Attempt (List Privilege))
    → Attempt (List Privilege)
and_then (done missing) f = f missing
and_then (failed e) f = failed e

unfoldable pub verdict : Attempt (List Privilege) → Attempt (Unit {0})
verdict (failed e) = failed e
verdict (done []) = done tt
verdict (done (p ∷ ps)) = failed (missing_privileges (p ∷ ps))

unfoldable pub check_privileges : Answers → Bool → Bool → Attempt (Unit {0})
unfolding and_then check verdict
check_privileges a skip_publication skip_slot =
    let missing =
      and_then (check skip_slot a.has_replication no_replication_answer replication_role []) (λ m1.
        and_then (check false a.has_schema_create no_schema_answer schema_create m1) (λ m2.
          check skip_publication a.has_database_create no_database_answer database_create m2)) in
    if a.user_ok then verdict missing else failed no_user

-- The check passes just when the user can be read, and each privilege is held or its check is skipped;
-- the privilege on the schema is never skipped.
pub check_privileges_iff :
    (a : Answers) (skip_publication skip_slot : Bool)
    → (check_privileges a skip_publication skip_slot ≡ done tt) ↔ (
        (a.user_ok ≡ true)
        × ((skip_slot ≡ true) ⊎ (a.has_replication ≡ some true))
        × (a.has_schema_create ≡ some true)
        × ((skip_publication ≡ true) ⊎ (a.has_database_create ≡ some true)))
unfolding check_privileges check and_then verdict
check_privileges_iff a skip_publication skip_slot = ground arith
