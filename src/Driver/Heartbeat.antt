-- ===== src/Driver/Heartbeat.antt =====
-- leaderHeartbeat of driver.go, beside the goroutine of Run, whose changes of the role come between
-- its ticks. A reading of the role and the gauge with it are one action here, though the
-- program can be interrupted between them.
use jack_courier_driver_pglg.Prelude.{List, [], ◌∷◌}
use jack_courier_driver_pglg.Driver.{
  Driver, emit_leader_gauge, acquire_leadership, relinquish_leadership, Reason,
}
use jack_courier_driver_pglg.Driver.Leadership.{
  IsReported, emit_leader_gauge-IsReported, acquire_leadership-IsReported,
  relinquish_leadership-IsReported,
}

pub data Beat : Type 0 where
  beat heartbeat_done : Beat
  run_acquires : Beat
  run_relinquishes : Reason → Beat

unfoldable pub heartbeats : List Beat → Driver → Driver
heartbeats [] d = d
heartbeats (beat ∷ bs) d = heartbeats bs (emit_leader_gauge d)
heartbeats (heartbeat_done ∷ bs) d = d
heartbeats (run_acquires ∷ bs) d = heartbeats bs (acquire_leadership d)
heartbeats (run_relinquishes reason ∷ bs) d = heartbeats bs (relinquish_leadership reason d)

-- The first gauge is sent before the first tick.
unfoldable pub leader_heartbeat : List Beat → Driver → Driver
unfolding heartbeats
leader_heartbeat bs d = heartbeats bs (emit_leader_gauge d)

-- Whatever comes between the ticks, the gauge shows the role and its changes are counted.
heartbeats-IsReported : (bs : List Beat) (d : Driver) → IsReported d → IsReported (heartbeats bs d)
unfolding heartbeats
heartbeats-IsReported [] d h = h
heartbeats-IsReported (beat ∷ bs) d h =
    heartbeats-IsReported bs (emit_leader_gauge d) (emit_leader_gauge-IsReported d h)
heartbeats-IsReported (heartbeat_done ∷ bs) d h = h
heartbeats-IsReported (run_acquires ∷ bs) d h =
    heartbeats-IsReported bs (acquire_leadership d) (acquire_leadership-IsReported d h)
heartbeats-IsReported (run_relinquishes reason ∷ bs) d h =
    heartbeats-IsReported bs (relinquish_leadership reason d)
      (relinquish_leadership-IsReported reason d h)

leader_heartbeat-IsReported :
    (bs : List Beat) (d : Driver) → IsReported d → IsReported (leader_heartbeat bs d)
unfolding leader_heartbeat
leader_heartbeat-IsReported bs d h =
    heartbeats-IsReported bs (emit_leader_gauge d) (emit_leader_gauge-IsReported d h)
