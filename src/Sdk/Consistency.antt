-- ===== src/Sdk/Consistency.antt =====
-- The streams of a controller of pkg/sdk: what holds of each of them after every history, and what
-- an operation on one stream does to it.
use zenlive.Common.{
  lookup-insert, insert-Distinct, insert-AllEntries, if_neg, string_discrete, ℕ, String, ◌≡◌, ◌≢◌,
  List, Option, none, some, lookup, string_key, AllEntries, Distinct,
}
use mathlib.Core.Path.{subst}
use zenlive.Sdk.StateMachine.{StreamState, idle, live, paused, ended}
use zenlive.Sdk.Lifecycle.{IsValid}
use zenlive.Sdk.Stream.{Stream}
use zenlive.Sdk.StreamManager.{StreamError}
use zenlive.Sdk.Events.{StreamEvent}
use zenlive.Sdk.StreamController.{StreamController, Reply, refuse, set_stream}

-- A stream has a start if it is live or paused, and none if it is idle; no state but those and
-- `ended` occurs.
abbrev pub Begun : StreamState → Option ℕ → Type 0
Begun idle start = start ≡ none
Begun live start = start ≢ none
Begun paused start = start ≢ none
Begun ended start = Unit {0}
Begun _ start = ⊥

-- A stream has an end exactly if it has ended.
abbrev pub Finished : StreamState → Option ℕ → Type 0
Finished ended end = end ≢ none
Finished _ end = end ≡ none

-- A stream under its id, whose state is that of its state machine.
pub record IsSound (stream_id : String) (s : Stream) : Type 0 where
  pub named : s.id ≡ stream_id
  pub agrees : s.state ≡ s.state_machine.current_state
  pub entered : IsValid s.state_machine
  pub begun : Begun s.state_machine.current_state s.started_at
  pub finished : Finished s.state_machine.current_state s.ended_at

pub record IsConsistent (sc : StreamController) : Type 0 where
  pub distinct : Distinct sc.manager.streams
  pub sound : AllEntries IsSound sc.manager.streams
  pub unnamed : lookup "" sc.manager.streams ≡ none

-- How a call that moves a stream by `f` ends: refused, without a change or an event, or with the
-- stream in its new state.
pub data Ends (f : StreamState → Option StreamState) (stream_id : String) (sc : StreamController)
    : Reply → Type 0 where
  refused :
      (e : StreamError)
      → ((s : Stream) → lookup stream_id sc.manager.streams ≡ some s → f s.state ≡ none)
      → Ends f stream_id sc (refuse sc e)
  moved :
      (s s' : Stream) (events : List StreamEvent)
      → lookup stream_id sc.manager.streams ≡ some s
      → f s.state ≡ some s'.state
      → IsSound stream_id s'
      → Ends f stream_id sc (none, set_stream stream_id s' sc, events)

pub put-IsConsistent :
    (stream_id : String) (s' : Stream) (sc : StreamController)
    → IsConsistent sc
    → stream_id ≢ ""
    → IsSound stream_id s'
    → IsConsistent (set_stream stream_id s' sc)
put-IsConsistent stream_id s' sc v named w = record {
  distinct = insert-Distinct stream_id s' sc.manager.streams v.distinct;
  sound = insert-AllEntries IsSound stream_id s' sc.manager.streams w v.sound;
  unnamed =
      rw
        (
          lookup-insert stream_id "" s' sc.manager.streams,
          if_neg (string_discrete stream_id "") named,
        )
        v.unnamed;
}

pub set_stream-IsConsistent :
    (stream_id : String) (s s' : Stream) (sc : StreamController)
    → IsConsistent sc
    → lookup stream_id sc.manager.streams ≡ some s
    → IsSound stream_id s'
    → IsConsistent (set_stream stream_id s' sc)
set_stream-IsConsistent stream_id s s' sc v p w =
    put-IsConsistent stream_id s' sc v
      (λ q.
        let u : lookup "" sc.manager.streams ≡ some s =
          subst (λ t. lookup t sc.manager.streams ≡ some s) q p in
        cc)
      w

-- An operation on one stream keeps the controller consistent.
pub Ends-IsConsistent :
    (f : StreamState → Option StreamState) (stream_id : String) (sc : StreamController) (r : Reply)
    → IsConsistent sc
    → Ends f stream_id sc r
    → IsConsistent r.1
Ends-IsConsistent f stream_id sc r v (refused e why) = v
Ends-IsConsistent f stream_id sc r v (moved s s' events p q w) =
    set_stream-IsConsistent stream_id s s' sc v p w
