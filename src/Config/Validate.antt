-- ===== src/Config/Validate.antt =====
-- Which configs validate accepts.
use mathlib.Core.List.{Mem, Nodup, Nodup-cons, Nodup-nil, mem-cons, mem-cons_of_mem, not-mem-nil}
use mathlib.Core.Logic.Or
use jack_courier_driver_pglg.Prelude.{
  contains-cons, ℕ, suc, ◌≡◌, refl, ◌↔◌, List, [], ◌∷◌, false, Bytes, is_empty, contains, text_eq,
  text_eq_iff, map, All, arith, Bool-cases, inl, inr,
}
use jack_courier_driver_pglg.Errors.{ok}
use jack_courier_driver_pglg.Config.{Config, ReplicaConfig, validate_replicas, validate}

pub record IsComplete (r : ReplicaConfig) : Type 0 where
  pub name : is_empty r.name ≡ false
  pub conn_string : is_empty r.conn_string ≡ false
  pub subscription : is_empty r.subscription_name ≡ false

abbrev pub names : List ReplicaConfig → List Bytes
names = map (λ r. r.name)

abbrev New : List Bytes → List ReplicaConfig → Type 0
New seen = All (λ (r : ReplicaConfig). contains r.name seen ≡ false)

New-cons :
    (k : Bytes) (seen : List Bytes) (rs : List ReplicaConfig)
    → New (k ∷ seen) rs ↔ ((Mem k (names rs) → ⊥) × New seen rs)
New-cons k seen [] = (λ h. (not-mem-nil, tt), λ h. tt)
New-cons k seen (r ∷ rs) =
    let ih = New-cons k seen rs in
    let head = contains-cons r.name k seen in
    (
      λ (h, t). (
        λ m.
            Or.elim (λ x y. hlevel) (mem-cons.0 m)
              (λ e. ground (arith, (head.0 h).0, text_eq_iff k r.name, e)) (ih.0 t).0,
        ((head.0 h).1, (ih.0 t).1),
      ),
      λ (fresh, (h, t)). (
        head.1 (
          elim (Bool-cases (text_eq k r.name)) [
            | inl same ↦ absurd (fresh (mem-cons.1 (Or.inl ((text_eq_iff k r.name).0 same))))
            | inr other ↦ other
          ],
          h,
        ),
        ih.1 (λ m. fresh (mem-cons_of_mem r.name m), t),
      ),
    )

New-nil : (rs : List ReplicaConfig) → New [] rs
unfolding contains
New-nil [] = tt
New-nil (r ∷ rs) = (refl, New-nil rs)

validate_replicas_iff :
    (i : ℕ) (seen : List Bytes) (rs : List ReplicaConfig)
    → (validate_replicas i seen rs ≡ ok tt) ↔ (All IsComplete rs × New seen rs × Nodup (names rs))
unfolding validate_replicas
validate_replicas_iff i seen [] = (λ h. (tt, tt, Nodup-nil), λ h. refl)
validate_replicas_iff i seen (r ∷ rs) =
    let ih = validate_replicas_iff (suc i) (r.name ∷ seen) rs in
    let more = New-cons r.name seen rs in
    (
      λ h.
          let (complete, fresh, once) = ih.0 (ground arith) in
          (
            (
              record {
                name = ground arith;
                conn_string = ground arith;
                subscription = ground arith;
              },
              complete,
            ),
            (ground arith, (more.0 fresh).1),
            Nodup-cons.1 ((more.0 fresh).0, once),
          ),
      λ ((whole, complete), (new, fresh), once).
          let rest =
            ih.1 (complete, more.1 ((Nodup-cons.0 once).0, fresh), (Nodup-cons.0 once).1) in
          ground (arith, rest, whole.name, whole.conn_string, whole.subscription, new),
    )

-- A config is accepted exactly when its connection string, slot and publication are named, each
-- replica has a name, a connection string and a subscription, and no two replicas share a name.
pub validate_iff :
    (c : Config)
    → (validate c ≡ ok tt) ↔ (
        (is_empty c.conn_string ≡ false)
        × (is_empty c.slot_name ≡ false)
        × (is_empty c.publication_name ≡ false)
        × All IsComplete c.replicas
        × Nodup (names c.replicas))
unfolding validate
validate_iff c =
    let parts = validate_replicas_iff 0 [] c.replicas in
    (
      λ h.
          let (complete, fresh, once) = parts.0 (ground arith) in
          (ground arith, ground arith, ground arith, complete, once),
      λ (conn, slot, publication, complete, once).
          let rest = parts.1 (complete, New-nil c.replicas, once) in ground arith,
    )
