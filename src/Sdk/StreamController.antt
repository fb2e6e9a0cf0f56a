-- ===== src/Sdk/StreamController.antt =====
-- `StreamController` of pkg/sdk/control.go. An operation returns its error, the controller after it
-- and the events that it handed to `Publish`; `clock i` is the time that it reads at its `i`-th
-- place that reads the time.
use zenlive.Common.{
  ℕ, String, Bool, ◌+◌, ◌||◌, not, List, [], ◌∷◌, ◌++◌, Option, none, some, map, if◌then◌else◌,
  lookup, string_key,
}
use text.Mathlib.Text.{◌==◌ as str_eq}
use zenlive.Sdk.StateMachine.{
  StreamState, idle, live, paused, ended, TransitionError, StreamStateMachine, can_transition_to,
  transition_to, reset,
}
use zenlive.Sdk.Stream.{Stream, is_live, is_paused, is_ended, since, get_duration}
use zenlive.Sdk.Events.{
  StreamEvent, stream_start, stream_end, stream_pause, stream_resume, stream_error, no_data,
  start_data, end_data, emergency_data,
}
use zenlive.Sdk.StreamManager.{
  StreamError, stream_id_required, cannot_start, cannot_stop, cannot_pause, not_paused,
  refused_transition, failed_to_stop, failed_to_start, Result, ok, err, StreamManager, put,
  get_stream, on_found, keep,
}

-- `has_events`: the event bus is not nil.
pub record StreamController : Type 0 where
  pub manager : StreamManager
  pub has_events : Bool

abbrev pub Reply : Type 0
Reply = Option StreamError × StreamController × List StreamEvent

abbrev pub refuse : StreamController → StreamError → Reply
refuse sc e = (some e, sc, [])

abbrev pub set_stream : String → Stream → StreamController → StreamController
set_stream stream_id stream sc = record sc { manager = put stream_id stream sc.manager }

abbrev pub publish : StreamController → StreamEvent → List StreamEvent
publish sc event = if sc.has_events then event ∷ [] else []

-- The beginning of each method: the check of the id, and `GetStream`.
abbrev pub with_stream : String → StreamController → (Stream → Reply) → Reply
with_stream stream_id sc found =
    if str_eq stream_id ""
    then refuse sc stream_id_required
    else on_found (get_stream stream_id sc.manager) (refuse sc) found

-- `if err := ...; err != nil { return err }` after a transition.
abbrev pub after_transition :
    Option TransitionError × StreamStateMachine
    → StreamController
    → (StreamStateMachine → Reply)
    → Reply
after_transition (some e, machine) sc next = refuse sc (refused_transition e)
after_transition (none, machine) sc next = next machine

unfoldable pub start_stream : (ℕ → ℕ) → String → StreamController → Reply
start_stream clock stream_id sc = with_stream stream_id sc (λ stream.
    if not (can_transition_to live stream.state_machine)
    then refuse sc (cannot_start stream.state)
    else after_transition (transition_to live stream.state_machine) sc (λ machine. (
      none,
      set_stream stream_id
          (record stream {
            state = live;
            started_at = some (clock 0);
            updated_at = clock 0;
            state_machine = machine;
          })
          sc,
      publish sc (record {
        type = stream_start;
        stream_id = stream_id;
        user_id = stream.user_id;
        timestamp = clock 1;
        data_of = start_data stream.stream_key stream.protocol;
      }),
    )))

-- A stream that is over, with the duration that was computed before.
abbrev pub end_stream : ℕ → ℕ → StreamStateMachine → Stream → Stream
end_stream now duration machine stream = record stream {
  state = ended;
  ended_at = some now;
  updated_at = now;
  total_duration = duration;
  state_machine = machine;
}

unfoldable pub stop_stream : (ℕ → ℕ) → String → StreamController → Reply
stop_stream clock stream_id sc = with_stream stream_id sc (λ stream.
    if not (can_transition_to ended stream.state_machine)
    then refuse sc (cannot_stop stream.state)
    else let duration = since stream.started_at (clock 0) in
      after_transition (transition_to ended stream.state_machine) sc (λ machine. (
        none,
        set_stream stream_id (end_stream (clock 1) duration machine stream) sc,
        publish sc (record {
          type = stream_end;
          stream_id = stream_id;
          user_id = stream.user_id;
          timestamp = clock 2;
          data_of = end_data duration stream.viewer_count;
        }),
      )))

-- The error of the transition is ignored.
unfoldable pub emergency_stop : (ℕ → ℕ) → String → String → StreamController → Reply
emergency_stop clock stream_id reason sc = with_stream stream_id sc (λ stream.
    let duration = since stream.started_at (clock 0) in
    (
      none,
      set_stream stream_id
          (end_stream (clock 1) duration (transition_to ended stream.state_machine).1 stream) sc,
      publish sc (record {
        type = stream_error;
        stream_id = stream_id;
        user_id = stream.user_id;
        timestamp = clock 2;
        data_of = emergency_data reason duration stream.viewer_count;
      }),
    ))

unfoldable pub pause_stream : (ℕ → ℕ) → String → StreamController → Reply
pause_stream clock stream_id sc = with_stream stream_id sc (λ stream.
    if not (can_transition_to paused stream.state_machine)
    then refuse sc (cannot_pause stream.state)
    else after_transition (transition_to paused stream.state_machine) sc (λ machine. (
      none,
      set_stream stream_id
          (record stream { state = paused; updated_at = clock 0; state_machine = machine }) sc,
      publish sc (record {
        type = stream_pause;
        stream_id = stream_id;
        user_id = stream.user_id;
        timestamp = clock 1;
        data_of = no_data;
      }),
    )))

unfoldable pub resume_stream : (ℕ → ℕ) → String → StreamController → Reply
resume_stream clock stream_id sc = with_stream stream_id sc (λ stream.
    if not (is_paused stream.state_machine)
    then refuse sc (not_paused stream.state)
    else after_transition (transition_to live stream.state_machine) sc (λ machine. (
      none,
      set_stream stream_id
          (record stream { state = live; updated_at = clock 0; state_machine = machine }) sc,
      publish sc (record {
        type = stream_resume;
        stream_id = stream_id;
        user_id = stream.user_id;
        timestamp = clock 1;
        data_of = no_data;
      }),
    )))

-- `RestartStream` goes on where the stop succeeded, or was refused since the stream is over.
abbrev pub after_stop : Reply → (StreamController → List StreamEvent → Reply) → Reply
after_stop (none, sc, events) next = next sc events
after_stop (some (cannot_stop ended), sc, events) next = next sc events
after_stop (some e, sc, events) next = (some (failed_to_stop e), sc, events)

-- The error of the start is wrapped.
abbrev pub after_start : Reply → Reply
after_start (none, sc, events) = (none, sc, events)
after_start (some e, sc, events) = (some (failed_to_start e), sc, events)

-- The events of what was done before come first.
abbrev pub preceded : List StreamEvent → Reply → Reply
preceded before (e, sc, events) = (e, sc, before ++ events)

-- The machine is idle again, and the stream as if it had not started.
abbrev pub cleared : ℕ → StreamStateMachine → Stream → Stream
cleared now machine stream = record stream {
  state = idle;
  started_at = none;
  ended_at = none;
  viewer_count = 0;
  updated_at = now;
  state_machine = machine;
}

-- `RestartStream` from the second `GetStream` on.
unfoldable pub restarted : (ℕ → ℕ) → String → StreamController → List StreamEvent → Reply
restarted clock stream_id sc before =
    on_found (get_stream stream_id sc.manager) (λ e. (some e, sc, before))
      (λ stream. preceded before (
        after_transition (reset stream.state_machine) sc (λ machine. after_start (
          start_stream (λ i. clock (i + 4)) stream_id
            (set_stream stream_id (cleared (clock 3) machine stream) sc)))))

unfoldable pub restart_stream : (ℕ → ℕ) → String → StreamController → Reply
restart_stream clock stream_id sc =
    if str_eq stream_id ""
    then refuse sc stream_id_required
    else after_stop (stop_stream clock stream_id sc) (restarted clock stream_id)

pub record StreamStatus : Type 0 where
  pub stream_id : String
  pub state : StreamState
  pub viewer_count : ℕ
  pub duration : ℕ
  pub started_at : Option ℕ
  pub is_live : Bool
  pub is_paused : Bool
  pub is_ended : Bool

unfoldable pub get_stream_status : (ℕ → ℕ) → String → StreamController → Result StreamStatus
get_stream_status clock stream_id sc =
    if str_eq stream_id ""
    then err stream_id_required
    else on_found (get_stream stream_id sc.manager) (λ e. err e)
        (λ stream. ok (record {
          stream_id = stream.id;
          state = stream.state;
          viewer_count = stream.viewer_count;
          duration = get_duration (clock 0) stream;
          started_at = stream.started_at;
          is_live = is_live stream.state_machine;
          is_paused = is_paused stream.state_machine;
          is_ended = is_ended stream.state_machine;
        }))

abbrev pub is_active : Stream → Bool
is_active stream = is_live stream.state_machine || is_paused stream.state_machine

-- A round of the loop of `StopAllStreams` for a stream of the list, as it is by then; an error is
-- only logged.
unfoldable pub stop_if_active :
    (ℕ → ℕ) → String → StreamController → StreamController × List StreamEvent
stop_if_active clock stream_id sc = elim (lookup stream_id sc.manager.streams) [
  | none ↦ (sc, [])
  | some stream ↦
      if is_active stream
      then (let (_, sc', events) = stop_stream clock stream.id sc in (sc', events))
      else (sc, [])
]

unfoldable pub stop_each :
    (ℕ → ℕ) → List String → StreamController → StreamController × List StreamEvent
stop_each clock [] sc = (sc, [])
stop_each clock (stream_id ∷ ids) sc =
    let (sc', events) = stop_if_active clock stream_id sc in
    let (sc'', later) = stop_each (λ i. clock (i + 3)) ids sc' in (sc'', events ++ later)

unfoldable pub stop_all_streams : (ℕ → ℕ) → StreamController → StreamController × List StreamEvent
stop_all_streams clock sc = stop_each clock (map (λ e. e.0) sc.manager.streams) sc

unfoldable pub get_active_streams : StreamController → List Stream
get_active_streams sc = keep is_active sc.manager.streams
