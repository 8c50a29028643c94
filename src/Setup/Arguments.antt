-- ===== src/Setup/Arguments.antt =====
-- Which arguments pglg-setup acts on.
use mathlib.Core.List.{Memᴰ}
use mathlib.Core.Path.{subst}
use jack_courier_driver_pglg.Prelude.{
  List, [], Bool, true, false, Option, none, some, Bytes, codes, is_empty, text_eq, text_eq_iff,
  ◌≡◌, refl, ◌⊎◌, inl, inr, arith, if◌then◌else◌, Bool-cases,
}
use jack_courier_driver_pglg.Row.{Time}
use jack_courier_driver_pglg.Setup.{
  Args, Outside, argument_failure, dispatch, connected, after_tests, partitions_start, main,
}
use jack_courier_driver_pglg.Setup.Failures.{Failure, Attempt, done, failed}
use jack_courier_driver_pglg.Setup.Create.{SetupStatement}

-- The arguments that pass the tests, for a known command.
abbrev pub Accepted : Bytes → Args → Type 0
Accepted cmd a =
    (is_empty a.conn_string ≡ false)
    × ((cmd ≡ codes "create") ⊎ ((cmd ≡ codes "destroy") × (a.replica ≡ false)))
    × ((is_empty a.create_partitions_from ≡ true) ⊎ ((cmd ≡ codes "create") × (a.replica ≡ true)))
    × (((cmd ≡ codes "create") × (a.replica ≡ true))
        ⊎ ((is_empty a.publication ≡ false) × (is_empty a.slot ≡ false)))

tests_passed :
    (cmd : Bytes) (a : Args)
    → argument_failure cmd a ≡ none
    → (text_eq cmd (codes "create") ≡ true) ⊎ (text_eq cmd (codes "destroy") ≡ true)
    → Accepted cmd a
unfolding argument_failure
tests_passed cmd a h known =
    ground (arith, text_eq_iff cmd (codes "create"), text_eq_iff cmd (codes "destroy"))

no_statement : (s : SetupStatement) → Memᴰ s [] → ⊥
no_statement s m = elim m [ ]

dispatch_unknown :
    (w : Outside) (cmd : Bytes) (a : Args) (start : Time)
    → text_eq cmd (codes "create") ≡ false
    → text_eq cmd (codes "destroy") ≡ false
    → dispatch w cmd a start ≡ (failed Failure.unknown_command, [])
unfolding dispatch
dispatch_unknown w cmd a start other unknown = simp (other, unknown)

dispatch_known :
    (w : Outside) (cmd : Bytes) (a : Args) (start : Time) (s : SetupStatement)
    → Memᴰ s (dispatch w cmd a start).1
    → (text_eq cmd (codes "create") ≡ true) ⊎ (text_eq cmd (codes "destroy") ≡ true)
unfolding dispatch
dispatch_known w cmd a start s m = elim (Bool-cases (text_eq cmd (codes "create"))) [
  | inl create ↦ inl create
  | inr other ↦ elim (Bool-cases (text_eq cmd (codes "destroy"))) [
    | inl destroy ↦ inr destroy
    | inr unknown ↦ absurd (
        no_statement s (
          subst (λ (r : Attempt (Unit {0}) × List SetupStatement). Memᴰ s r.1)
            (dispatch_unknown w cmd a start other unknown) m))
  ]
]

connected_known :
    (w : Outside) (cmd : Bytes) (a : Args) (o : Attempt Time) (s : SetupStatement)
    → Memᴰ s (connected w cmd a o).1
    → (text_eq cmd (codes "create") ≡ true) ⊎ (text_eq cmd (codes "destroy") ≡ true)
unfolding connected
connected_known w cmd a (failed e) s m = absurd (no_statement s m)
connected_known w cmd a (done start) s m = go w.connects m
  where
    go :
        (b : Bool)
        → Memᴰ s (if b then dispatch w cmd a start else (failed Failure.no_connection, [])).1
        → (text_eq cmd (codes "create") ≡ true) ⊎ (text_eq cmd (codes "destroy") ≡ true)
    go true k = dispatch_known w cmd a start s k
    go false k = absurd (no_statement s k)

-- A statement is applied only where the command is "create" or "destroy", a connection string is given,
-- the flags for a replica stand with "create" only and the one for its partitions with the one for
-- the replica, and the publication and the slot are given unless a replica is created.
pub main_applied :
    (parse_rfc3339 : Bytes → Option Time) (w : Outside) (cmd : Bytes) (a : Args)
    (s : SetupStatement)
    → Memᴰ s (main parse_rfc3339 w (some (cmd, a))).1
    → Accepted cmd a
unfolding main after_tests
main_applied parse_rfc3339 w cmd a s m = go (argument_failure cmd a) refl m
  where
    go :
        (o : Option Failure)
        → argument_failure cmd a ≡ o
        → Memᴰ s (after_tests parse_rfc3339 w cmd a o).1
        → Accepted cmd a
    go (some e) p k = absurd (no_statement s k)
    go none p k =
        tests_passed cmd a p (connected_known w cmd a (partitions_start parse_rfc3339 a) s k)
