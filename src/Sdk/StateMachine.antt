-- ===== src/Sdk/StateMachine.antt =====
-- `StreamStateMachine` of pkg/sdk/state.go. The mutex makes each method one step.
use Prim.Native.String.{◌++◌ as ◌<>◌}
use text.Mathlib.Text.{◌==◌ as str_eq}
use zenlive.Common.{String, Bool, true, false, List, [], ◌∷◌, Option, none, some, if◌then◌else◌}

-- A state is a string; `other` stands for any but the five that the code knows.
pub data StreamState : Type 0 where
  idle live paused ended error : StreamState
  other : String → StreamState

-- `validTransitions`: a pair that the map does not hold reads as false.
unfoldable pub valid_transition : StreamState → StreamState → Bool
valid_transition idle live = true
valid_transition idle error = true
valid_transition idle ended = true
valid_transition live paused = true
valid_transition live ended = true
valid_transition live error = true
valid_transition paused live = true
valid_transition paused ended = true
valid_transition paused error = true
valid_transition error idle = true
valid_transition error ended = true
valid_transition idle idle = true
valid_transition live live = true
valid_transition paused paused = true
valid_transition ended ended = true
valid_transition error error = true
valid_transition _ _ = false

pub record StreamStateMachine : Type 0 where
  pub current_state : StreamState
  pub previous_state : StreamState
  pub error_message : String

pub data TransitionError : Type 0 where
  invalid_transition : StreamState → StreamState → TransitionError

unfoldable pub new_stream_state_machine : StreamStateMachine
new_stream_state_machine = record {
  current_state = idle;
  previous_state = idle;
  error_message = "";
}

unfoldable pub can_transition_to : StreamState → StreamStateMachine → Bool
can_transition_to to sm = valid_transition sm.current_state to

-- `if to != StateError { sm.errorMessage = "" }`
unfoldable pub message_after : StreamState → String → String
message_after error message = message
message_after _ message = ""

unfoldable pub transition_to :
    StreamState → StreamStateMachine → Option TransitionError × StreamStateMachine
transition_to to sm =
    if valid_transition sm.current_state to
    then (
      none,
      record {
        current_state = to;
        previous_state = sm.current_state;
        error_message = message_after to sm.error_message;
      },
    )
    else (some (invalid_transition sm.current_state to), sm)

unfoldable pub transition_to_error :
    String → StreamStateMachine → Option TransitionError × StreamStateMachine
transition_to_error message sm =
    if valid_transition sm.current_state error
    then (
      none,
      record { current_state = error; previous_state = sm.current_state; error_message = message },
    )
    else (some (invalid_transition sm.current_state error), sm)

unfoldable pub reset : StreamStateMachine → Option TransitionError × StreamStateMachine
reset sm =
    (none, record { current_state = idle; previous_state = sm.current_state; error_message = "" })

-- The string that a state is.
abbrev pub state_name : StreamState → String
state_name idle = "idle"
state_name live = "live"
state_name paused = "paused"
state_name ended = "ended"
state_name error = "error"
state_name (other s) = s

-- `String()`: the message of an error stands in brackets.
abbrev pub described_as : StreamState → String → String
described_as error message = if str_eq message "" then "error" else "error (" <> (message <> ")")
described_as state message = state_name state

abbrev pub described : StreamStateMachine → String
described sm = described_as sm.current_state sm.error_message

-- A call of one of the methods that change the machine, and the machine after it.
pub data Call : Type 0 where
  transits : StreamState → Call
  fails : String → Call
  resets : Call

unfoldable pub step : Call → StreamStateMachine → Option TransitionError × StreamStateMachine
step (transits to) sm = transition_to to sm
step (fails message) sm = transition_to_error message sm
step resets sm = reset sm

unfoldable pub run : List Call → StreamStateMachine → StreamStateMachine
run [] sm = sm
run (c ∷ cs) sm = run cs (step c sm).1

-- The states after each of the calls.
unfoldable pub trace : List Call → StreamStateMachine → List StreamState
trace [] sm = []
trace (c ∷ cs) sm = (step c sm).1.current_state ∷ trace cs (step c sm).1
