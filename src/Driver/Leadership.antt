-- ===== src/Driver/Leadership.antt =====
-- The metrics of the leader role agree with the role.
use jack_courier_driver_pglg.Prelude.{
  ℕ, suc, ◌+◌, ◌≡◌, refl, List, [], ◌∷◌, Bool, false, arith, if◌then◌else◌,
}
use jack_courier_driver_pglg.Driver.{
  Driver, Event, Reason, acquired, relinquished, is_leader_gauge, emit_leader_gauge,
  acquire_leadership, relinquish_leadership,
}

-- The value that the gauge shows; a gauge that was never emitted shows 0.
abbrev pub gauge : List Event → Bool
gauge [] = false
gauge (is_leader_gauge b ∷ es) = b
gauge (acquired ∷ es) = gauge es
gauge (relinquished r ∷ es) = gauge es

abbrev pub acquisitions : List Event → ℕ
acquisitions [] = 0
acquisitions (acquired ∷ es) = suc (acquisitions es)
acquisitions (is_leader_gauge b ∷ es) = acquisitions es
acquisitions (relinquished r ∷ es) = acquisitions es

abbrev pub relinquishments : List Event → ℕ
relinquishments [] = 0
relinquishments (relinquished r ∷ es) = suc (relinquishments es)
relinquishments (is_leader_gauge b ∷ es) = relinquishments es
relinquishments (acquired ∷ es) = relinquishments es

abbrev one_if : Bool → ℕ
one_if b = if b then 1 else 0

-- The gauge shows the role, and the role was acquired once more than relinquished just on a leader.
pub record IsReported (d : Driver) : Type 0 where
  pub shown : gauge d.events ≡ d.is_leader
  pub counted : acquisitions d.events ≡ relinquishments d.events + one_if d.is_leader

pub emit_leader_gauge-IsReported : (d : Driver) → IsReported d → IsReported (emit_leader_gauge d)
unfolding emit_leader_gauge
emit_leader_gauge-IsReported d h = record { shown = refl; counted = h.counted }

pub acquire_leadership-IsReported : (d : Driver) → IsReported d → IsReported (acquire_leadership d)
unfolding acquire_leadership emit_leader_gauge
acquire_leadership-IsReported d h = ground (arith, h.shown, h.counted)

pub relinquish_leadership-IsReported :
    (reason : Reason) (d : Driver) → IsReported d → IsReported (relinquish_leadership reason d)
unfolding relinquish_leadership emit_leader_gauge
relinquish_leadership-IsReported reason d h = ground (arith, h.shown, h.counted)
