-- ===== src/Sdk/StreamTests.antt =====
-- A controller of two streams.
use zenlive.Common.{
  ℕ, String, true, false, ◌≡◌, ◌≢◌, refl, [], ◌∷◌, List, none, some, All, lookup, insert, erase,
  string_key, string_discrete,
}
use text.Mathlib.Text.{◌==◌ as str_eq}
use text.Mathlib.TextEquality.{eq_iff}
use zenlive.Sdk.StateMachine.{
  idle, live, ended, new_stream_state_machine, valid_transition, can_transition_to, transition_to,
  message_after, reset,
}
use zenlive.Sdk.Stream.{Stream, CreateStreamRequest, unset, increment_viewer_count}
use zenlive.Sdk.StreamManager.{
  cannot_pause, cannot_delete_live, new_stream_manager, new_stream, check_request, create_stream,
  get_stream, delete_stream,
}
use zenlive.Sdk.StreamController.{
  StreamController, start_stream, stop_stream, pause_stream, emergency_stop, restart_stream,
}
use zenlive.Sdk.Events.{StreamEvent, EventBus, stream_start, stream_end, no_data, type_key}
use zenlive.Sdk.Calls.{
  Call, creates, deletes, starts, pauses, joins, step, touch, run, new_stream_controller,
}
use zenlive.Sdk.Consistency.{IsConsistent}
use zenlive.Sdk.Spec.{view, spec_run}
use zenlive.Sdk.History.{
  IsNamed, run-new_stream_controller-IsConsistent, view-run, step-refused, stop_stream-known,
}

program : Unit {0}
unfolding new_stream_state_machine valid_transition can_transition_to transition_to message_after
    reset new_stream_manager new_stream check_request create_stream get_stream start_stream
    stop_stream pause_stream touch increment_viewer_count step run new_stream_controller lookup
    insert erase string_discrete delete_stream view
program = tt

-- The clock of the tests.
abbrev ticks : ℕ → ℕ
ticks i = i

abbrev concert : CreateStreamRequest
concert = record {
  user_id = "ann";
  title = "concert";
  description = "";
  protocol = unset;
  config = none;
  metadata = none;
}

-- The first stream is live with a viewer, the second one idle.
abbrev evening : List Call
evening =
    creates "a" "key" ticks (some concert)
    ∷ creates "b" "key" ticks (some concert)
    ∷ starts "a" ticks
    ∷ joins "a"
    ∷ []

named : (s : String) → str_eq s "" ≡ false → s ≢ ""
named s h e = let t : str_eq s "" ≡ true = (eq_iff s "").1 e in cc

evening-IsNamed : All IsNamed evening
evening-IsNamed = (named "a" refl, (named "b" refl, (tt, (tt, tt))))

abbrev on_air : StreamController
on_air = run evening (new_stream_controller true)

on_air-IsConsistent : IsConsistent on_air
on_air-IsConsistent = run-new_stream_controller-IsConsistent evening true evening-IsNamed

run-new_stream_controller-IsConsistent_example :
    IsConsistent (run evening (new_stream_controller true))
run-new_stream_controller-IsConsistent_example =
    run-new_stream_controller-IsConsistent evening true evening-IsNamed

view-run_example :
    view (run evening (new_stream_controller true)) "a" ≡ spec_run evening (λ _. none) "a"
view-run_example = view-run evening true evening-IsNamed "a"

refused_pause : (step (pauses "b" ticks) on_air).0 ≡ some (cannot_pause idle)
unfolding program
refused_pause = refl

step-refused_example :
    ((step (pauses "b" ticks) on_air).1 ≡ on_air) × ((step (pauses "b" ticks) on_air).2 ≡ [])
step-refused_example =
    step-refused (pauses "b" ticks) on_air (cannot_pause idle) tt on_air-IsConsistent refused_pause

refused_deletion : (step (deletes "a") on_air).0 ≡ some cannot_delete_live
unfolding program
refused_deletion = refl

abbrev idle_stream : Stream
idle_stream = new_stream "b" "key" 0 concert

known : lookup "b" on_air.manager.streams ≡ some idle_stream
unfolding program
known = refl

stop_stream-known_example :
    let stop = stop_stream ticks "b" on_air in
    let emergency = emergency_stop ticks "b" "fire" on_air in
    let restart = restart_stream ticks "b" on_air in
    ((stop.0 ≡ none) × (view stop.1 "b" ≡ some ended))
    × ((emergency.0 ≡ none) × (view emergency.1 "b" ≡ some ended))
    × ((restart.0 ≡ none) × (view restart.1 "b" ≡ some live))
stop_stream-known_example =
    stop_stream-known ticks "b" "fire" on_air idle_stream on_air-IsConsistent known

abbrev started : StreamEvent
started = record {
  type = stream_start;
  stream_id = "a";
  user_id = "ann";
  timestamp = 4;
  data_of = no_data;
}

abbrev listeners : EventBus ℕ
listeners = (stream_end, []) ∷ []
