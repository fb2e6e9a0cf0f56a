-- ===== src/Sdk/Tests.antt =====
-- A broadcast that is paused, fails, and starts again.
use zenlive.Common.{◌≡◌, refl, inl, inr, [], ◌∷◌, List}
use zenlive.Sdk.Lifecycle.{Occurs, run-ended}
use zenlive.Sdk.StateMachine.{
  live, paused, ended, StreamStateMachine, new_stream_state_machine, valid_transition, described,
  transition_to, message_after, transition_to_error, reset, Call, transits, fails, resets, step,
  run, trace,
}

program : Unit {0}
unfolding new_stream_state_machine valid_transition transition_to message_after transition_to_error
    reset step run trace
program = tt

abbrev show : List Call
show = transits live ∷ transits paused ∷ fails "lost" ∷ resets ∷ transits live ∷ []

abbrev gone : StreamStateMachine
gone = record { current_state = ended; previous_state = live; error_message = "" }

show_paused : Occurs paused (trace show new_stream_state_machine)
unfolding program
show_paused = inr (inl refl)

rerun_live : Occurs live (trace (transits live ∷ resets ∷ transits live ∷ []) gone)
unfolding program
rerun_live = inr (inr (inl refl))

stays_ended : (run (transits live ∷ fails "late" ∷ []) gone).current_state ≡ ended
stays_ended = run-ended (transits live ∷ fails "late" ∷ []) gone refl (tt, (tt, tt))

described_failure :
    described (transition_to_error "gone" new_stream_state_machine).1 ≡ "error (gone)"
unfolding program
described_failure = refl
