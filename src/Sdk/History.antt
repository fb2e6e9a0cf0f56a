-- ===== src/Sdk/History.antt =====
-- Every history of calls of pkg/sdk/stream.go and control.go: the invariant, the specification by
-- states and the errors.
use zenlive.Common.{
  ℕ, String, Bool, ◌≡◌, ◌≢◌, refl, ap, ◌∙◌, List, [], ◌∷◌, Option, none, some, lookup, string_key,
  lookup-AllEntries, All,
}
use zenlive.Sdk.StateMachine.{StreamState, idle, live, paused, ended, error, other}
use zenlive.Sdk.Stream.{Stream, increment_viewer_count, decrement_viewer_count}
use zenlive.Sdk.StreamManager.{StreamError, new_stream_manager}
use zenlive.Sdk.StreamController.{StreamController, stop_stream, restart_stream, emergency_stop}
use zenlive.Sdk.Calls.{
  Call, creates, updates, deletes, starts, stops, pauses, resumes, restarts, stops_now, stops_all,
  joins, leaves, step, run, new_stream_controller,
}
use zenlive.Sdk.Consistency.{Begun, IsSound, IsConsistent}
use zenlive.Sdk.Operations.{
  on_start, on_stop, on_pause, on_resume, on_emergency, start_stream-Ends, stop_stream-Ends,
  pause_stream-Ends, resume_stream-Ends, emergency_stop-Ends,
}
use zenlive.Sdk.Restart.{on_restart, restart_stream-Ends}
use zenlive.Sdk.StopAll.{stop_all_streams-Refines}
use zenlive.Sdk.Spec.{view, spec, spec_run}
use zenlive.Sdk.Refinement.{Ends-accepted, Refines, Ends-Refines}
use zenlive.Sdk.Registry.{
  touch-Refines, increment_good, decrement_good, create-Refines, update-Refines, delete-Refines,
}

-- UUIDs are not empty.
abbrev pub IsNamed : Call → Type 0
IsNamed (creates stream_id stream_key clock req) = stream_id ≢ ""
IsNamed _ = Unit {0}

-- Every call of a consistent controller leaves it consistent and does to the states of the streams
-- what the specification says; if it returns an error, it changes and publishes nothing.
pub step-Refines :
    (c : Call) (sc : StreamController)
    → IsNamed c
    → IsConsistent sc
    → Refines sc (spec c (view sc)) (step c sc)
unfolding step spec
step-Refines (creates stream_id stream_key clock req) sc n v =
    create-Refines stream_id stream_key clock req sc n v
step-Refines (updates stream_id clock req) sc n v = update-Refines stream_id clock req sc v
step-Refines (deletes stream_id) sc n v = delete-Refines stream_id sc v
step-Refines (starts stream_id clock) sc n v =
    Ends-Refines on_start stream_id sc _ v (start_stream-Ends clock stream_id sc v)
step-Refines (stops stream_id clock) sc n v =
    Ends-Refines on_stop stream_id sc _ v (stop_stream-Ends clock stream_id sc v)
step-Refines (pauses stream_id clock) sc n v =
    Ends-Refines on_pause stream_id sc _ v (pause_stream-Ends clock stream_id sc v)
step-Refines (resumes stream_id clock) sc n v =
    Ends-Refines on_resume stream_id sc _ v (resume_stream-Ends clock stream_id sc v)
step-Refines (restarts stream_id clock) sc n v =
    Ends-Refines on_restart stream_id sc _ v (restart_stream-Ends clock stream_id sc v)
step-Refines (stops_now stream_id clock reason) sc n v =
    Ends-Refines on_emergency stream_id sc _ v (emergency_stop-Ends clock stream_id reason sc v)
step-Refines (stops_all clock) sc n v =
    let (consistent, seen) = stop_all_streams-Refines clock sc v in
    record { consistent = consistent; seen = seen; unchanged = λ e q. absurd (cc) }
step-Refines (joins stream_id) sc n v =
    touch-Refines increment_viewer_count stream_id sc (increment_good stream_id) v
step-Refines (leaves stream_id) sc n v =
    touch-Refines decrement_viewer_count stream_id sc (decrement_good stream_id) v

run_lem :
    (cs : List Call) (sc : StreamController)
    → All IsNamed cs
    → IsConsistent sc
    → IsConsistent (run cs sc) × ((j : String) → view (run cs sc) j ≡ spec_run cs (view sc) j)
unfolding run spec_run
run_lem [] sc n v = (v, λ j. refl)
run_lem (c ∷ cs) sc n v =
    let r = step-Refines c sc n.0 v in
    let same : view (step c sc).1 ≡ spec c (view sc) = λ i j. r.seen j i in
    let (consistent, seen) = run_lem cs (step c sc).1 n.1 r.consistent in
    (consistent, λ j. seen j ∙ ap (λ w. spec_run cs w j) same)

new_stream_controller-IsConsistent :
    (has_events : Bool) → IsConsistent (new_stream_controller has_events)
unfolding new_stream_controller new_stream_manager lookup
new_stream_controller-IsConsistent has_events = record { distinct = tt; sound = tt; unnamed = refl }

-- After every history of calls of a new controller whose streams have ids that are not empty, each
-- stream is registered once, under its id, in the state of its state machine, which it entered by
-- a valid transition or a reset; it is never in the state `error`, it has a start while it is live
-- or paused and none while it is idle, and it has an end exactly if it has ended.
pub run-new_stream_controller-IsConsistent :
    (cs : List Call) (has_events : Bool)
    → All IsNamed cs
    → IsConsistent (run cs (new_stream_controller has_events))
run-new_stream_controller-IsConsistent cs has_events n =
    (run_lem cs _ n (new_stream_controller-IsConsistent has_events)).0

-- The states of the streams after every history of calls of a new controller, whose streams have
-- ids that are not empty, are those of the specification.
pub view-run :
    (cs : List Call) (has_events : Bool)
    → All IsNamed cs
    → (j : String) → view (run cs (new_stream_controller has_events)) j ≡ spec_run cs (λ _. none) j
unfolding new_stream_controller new_stream_manager view lookup
view-run cs has_events n j = (run_lem cs _ n (new_stream_controller-IsConsistent has_events)).1 j

-- A call that returns an error leaves a consistent controller as it was, and publishes nothing.
pub step-refused :
    (c : Call) (sc : StreamController) (e : StreamError)
    → IsNamed c
    → IsConsistent sc
    → (step c sc).0 ≡ some e
    → ((step c sc).1 ≡ sc) × ((step c sc).2 ≡ [])
step-refused c sc e n v q = (step-Refines c sc n v).unchanged e q

stoppable : (t : StreamState) (start : Option ℕ) → Begun t start → on_stop t ≡ some ended
stoppable idle start h = refl
stoppable live start h = refl
stoppable paused start h = refl
stoppable ended start h = refl
stoppable error start h = absurd h
stoppable (other _) start h = absurd h

-- For every stream that a consistent controller has, whatever its state, a stop, an emergency stop
-- and a restart succeed, and leave it ended, ended and live.
pub stop_stream-known :
    (clock : ℕ → ℕ) (stream_id reason : String) (sc : StreamController) (s : Stream)
    → IsConsistent sc
    → lookup stream_id sc.manager.streams ≡ some s
    → let stop = stop_stream clock stream_id sc in
      let emergency = emergency_stop clock stream_id reason sc in
      let restart = restart_stream clock stream_id sc in
      ((stop.0 ≡ none) × (view stop.1 stream_id ≡ some ended))
      × ((emergency.0 ≡ none) × (view emergency.1 stream_id ≡ some ended))
      × ((restart.0 ≡ none) × (view restart.1 stream_id ≡ some live))
stop_stream-known clock stream_id reason sc s v p =
    let w = lookup-AllEntries IsSound stream_id s sc.manager.streams v.sound p in
    let can : on_stop s.state ≡ some ended =
      rw w.agrees (stoppable s.state_machine.current_state s.started_at w.begun) in
    (
      Ends-accepted on_stop stream_id sc s ended _ p can (stop_stream-Ends clock stream_id sc v),
      Ends-accepted on_emergency stream_id sc s ended _ p refl
          (emergency_stop-Ends clock stream_id reason sc v),
      Ends-accepted on_restart stream_id sc s live _ p refl
          (restart_stream-Ends clock stream_id sc v),
    )
