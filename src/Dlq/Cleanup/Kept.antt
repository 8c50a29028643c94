-- ===== src/Dlq/Cleanup/Kept.antt =====
-- Which rows of the dead letter table the clean-up leaves.
use mathlib.Core.List.{Memᴰ}
use mathlib.Core.Path.{subst}
use jack_courier_driver_pglg.Prelude.{
  ℕ, ◌+◌, ◌≤◌, ◌≡◌, refl, ◌↔◌, ◌||◌, List, [], ◌∷◌, Bool, true, false, arith, Bool-cases, inl, inr,
  if◌then◌else◌,
}
use jack_courier_driver_pglg.Row.{Time}
use jack_courier_driver_pglg.Dlq.Cleanup.{
  DeadLetter, DlqTable, Cleanup, CleanupTick, cleanup_stopped, cleanup_ticked, microseconds,
  is_expired, delete_expired, run_dlq_cleanup, dlq_cleanup,
}

-- The row is young at each clean-up that the leader makes.
abbrev pub StaysYoung : ℕ → DeadLetter → List CleanupTick → Type 0
StaysYoung retention r [] = Unit
StaysYoung retention r (cleanup_stopped ∷ ts) = Unit
StaysYoung retention r (cleanup_ticked true i ∷ ts) =
    (i.now ≤ r.dead_lettered_at + microseconds retention) × StaysYoung retention r ts
StaysYoung retention r (cleanup_ticked false i ∷ ts) = StaysYoung retention r ts

abbrev pub NoErrors : List CleanupTick → Type 0
NoErrors [] = Unit
NoErrors (cleanup_stopped ∷ ts) = NoErrors ts
NoErrors (cleanup_ticked is_leader i ∷ ts) = (i.exec_ok ≡ true) × NoErrors ts

delete_expired_young :
    (retention : ℕ) (now : Time) (r : DeadLetter) (rs : List DeadLetter)
    → Memᴰ r (delete_expired retention now rs)
    → Memᴰ r rs × (now ≤ r.dead_lettered_at + microseconds retention)
unfolding delete_expired is_expired
delete_expired_young retention now r [] m = elim m [ ]
delete_expired_young retention now r (q ∷ rs) m =
    go (is_expired retention now q) refl m (delete_expired_young retention now r rs)
  where
    go :
        (b : Bool)
        → is_expired retention now q ≡ b
        → Memᴰ r
            (if b then delete_expired retention now rs else q ∷ delete_expired retention now rs)
        → (Memᴰ r (delete_expired retention now rs)
            → Memᴰ r rs × (now ≤ r.dead_lettered_at + microseconds retention))
        → Memᴰ r (q ∷ rs) × (now ≤ r.dead_lettered_at + microseconds retention)
    go true e k ih = let (old, young) = ih k in (Memᴰ.tail old, young)
    go false e (Memᴰ.tail k) ih = let (old, young) = ih k in (Memᴰ.tail old, young)
    go false e (Memᴰ.head s) ih = (Memᴰ.head s, rw s (ground arith))

delete_expired_keeps :
    (retention : ℕ) (now : Time) (r : DeadLetter) (rs : List DeadLetter)
    → Memᴰ r rs
    → now ≤ r.dead_lettered_at + microseconds retention
    → Memᴰ r (delete_expired retention now rs)
unfolding delete_expired
delete_expired_keeps retention now r [] m h = elim m [ ]
delete_expired_keeps retention now r (q ∷ rs) (Memᴰ.head s) h =
    let young : is_expired retention now q ≡ false = rw (← s) (unfold is_expired in ground arith) in
    rw young (Memᴰ.head s)
delete_expired_keeps retention now r (q ∷ rs) (Memᴰ.tail m) h =
    elim (Bool-cases (is_expired retention now q)) [
      | inl old ↦ rw old (delete_expired_keeps retention now r rs m h)
      | inr young ↦ rw young (Memᴰ.tail (delete_expired_keeps retention now r rs m h))
    ]

-- A clean-up, whatever fails, leaves the young rows.
run_dlq_cleanup_keeps :
    (retention : ℕ) (i : Cleanup) (r : DeadLetter) (t : DlqTable)
    → Memᴰ r t.rows
    → i.now ≤ r.dead_lettered_at + microseconds retention
    → Memᴰ r (run_dlq_cleanup retention i t).rows
unfolding run_dlq_cleanup
run_dlq_cleanup_keeps retention i r t m h = elim (Bool-cases (i.exec_ok || i.exec_applied)) [
  | inl deleted ↦ simp deleted (delete_expired_keeps retention i.now r t.rows m h)
  | inr untouched ↦ simp untouched m
]

deleted :
    (retention : ℕ) (i : Cleanup) (t : DlqTable)
    → i.exec_ok ≡ true
    → (run_dlq_cleanup retention i t).rows ≡ delete_expired retention i.now t.rows
unfolding run_dlq_cleanup
deleted retention i t e = simp e

-- One without an error leaves only those.
run_dlq_cleanup_young :
    (retention : ℕ) (i : Cleanup) (r : DeadLetter) (t : DlqTable)
    → i.exec_ok ≡ true
    → Memᴰ r (run_dlq_cleanup retention i t).rows
    → Memᴰ r t.rows × (i.now ≤ r.dead_lettered_at + microseconds retention)
unfolding run_dlq_cleanup
run_dlq_cleanup_young retention i r t e m =
    delete_expired_young retention i.now r t.rows (subst (Memᴰ r) (deleted retention i t e) m)

dlq_cleanup_keeps :
    (retention : ℕ) (r : DeadLetter) (ts : List CleanupTick) (t : DlqTable)
    → Memᴰ r t.rows
    → StaysYoung retention r ts
    → Memᴰ r (dlq_cleanup retention ts t).rows
unfolding dlq_cleanup
dlq_cleanup_keeps retention r [] t m h = m
dlq_cleanup_keeps retention r (cleanup_stopped ∷ ts) t m h = m
dlq_cleanup_keeps retention r (cleanup_ticked true i ∷ ts) t m h =
    dlq_cleanup_keeps retention r ts (run_dlq_cleanup retention i t)
      (run_dlq_cleanup_keeps retention i r t m h.0) h.1
dlq_cleanup_keeps retention r (cleanup_ticked false i ∷ ts) t m h =
    dlq_cleanup_keeps retention r ts t m h

dlq_cleanup_young :
    (retention : ℕ) (r : DeadLetter) (ts : List CleanupTick) (t : DlqTable)
    → NoErrors ts
    → Memᴰ r (dlq_cleanup retention ts t).rows
    → Memᴰ r t.rows × StaysYoung retention r ts
unfolding dlq_cleanup
dlq_cleanup_young retention r [] t n m = (m, tt)
dlq_cleanup_young retention r (cleanup_stopped ∷ ts) t n m = (m, tt)
dlq_cleanup_young retention r (cleanup_ticked true i ∷ ts) t n m =
    let (left, later) = dlq_cleanup_young retention r ts (run_dlq_cleanup retention i t) n.1 m in
    let (old, now) = run_dlq_cleanup_young retention i r t n.0 left in (old, (now, later))
dlq_cleanup_young retention r (cleanup_ticked false i ∷ ts) t n m =
    dlq_cleanup_young retention r ts t n.1 m

-- Over any ticks whose statements return no error, a row of the dead letter table is left just where
-- it was there and was no older than the retention, in whole microseconds, at each clean-up that was
-- made, which are those of the leader up to the end of the context.
pub dlq_cleanup_iff :
    (retention : ℕ) (r : DeadLetter) (ts : List CleanupTick) (t : DlqTable)
    → NoErrors ts
    → Memᴰ r (dlq_cleanup retention ts t).rows ↔ (Memᴰ r t.rows × StaysYoung retention r ts)
dlq_cleanup_iff retention r ts t n =
    (dlq_cleanup_young retention r ts t n, λ k. dlq_cleanup_keeps retention r ts t k.0 k.1)
