-- ===== src/Sdk/Operations.antt =====
-- What each operation of pkg/sdk/control.go does to the stream that it is about.
use zenlive.Common.{
  ℕ, String, true, false, not, ◌≡◌, ◌≢◌, refl, sym, ◌⊎◌, inl, inr, Option, none, some,
  if◌then◌else◌, Bool-cases, Option-cases, lookup, string_key, lookup-AllEntries,
}
use mathlib.Core.Path.{subst}
use text.Mathlib.Text.{◌==◌ as str_eq}
use text.Mathlib.TextEquality.{eq_iff}
use zenlive.Sdk.StateMachine.{
  StreamState, idle, live, paused, ended, error, other, valid_transition, StreamStateMachine,
  message_after, can_transition_to, transition_to,
}
use zenlive.Sdk.Lifecycle.{IsValid, message_after-told}
use zenlive.Sdk.Stream.{Stream}
use zenlive.Sdk.StreamManager.{StreamError, get_stream}
use zenlive.Sdk.StreamController.{
  StreamController, Reply, refuse, with_stream, after_transition, start_stream, stop_stream,
  emergency_stop, pause_stream, resume_stream,
}
use zenlive.Sdk.Consistency.{IsSound, IsConsistent, Begun, Finished, Ends, refused, moved}

with_stream_cases :
    (f : StreamState → Option StreamState) (stream_id : String) (sc : StreamController)
    (found : Stream → Reply)
    → IsConsistent sc
    → ((s : Stream)
        → lookup stream_id sc.manager.streams ≡ some s
        → IsSound stream_id s
        → Ends f stream_id sc (found s))
    → Ends f stream_id sc (with_stream stream_id sc found)
unfolding get_stream
with_stream_cases f stream_id sc found v k = elim (Bool-cases (str_eq stream_id "")) [
  | inl e ↦
      let p : stream_id ≡ "" = (eq_iff stream_id "").0 e in
      rw e (
        refused _ (λ s q.
          let u : lookup stream_id sc.manager.streams ≡ none = rw p v.unnamed in absurd (cc)))
  | inr e ↦ rw e (elim (Option-cases (lookup stream_id sc.manager.streams)) [
    | inl n ↦ rw n (refused _ (λ s q. cc))
    | inr (s, p) ↦ rw p (k s p (lookup-AllEntries IsSound stream_id s sc.manager.streams v.sound p))
  ])
]

-- The state that the state machine allows the next.
abbrev goes : StreamState → StreamState → Option StreamState
goes to s = if valid_transition s to then some to else none

abbrev moved_to : StreamState → StreamStateMachine → StreamStateMachine
moved_to to sm = record {
  current_state = to;
  previous_state = sm.current_state;
  error_message = message_after to sm.error_message;
}

transition_Ends :
    (f : StreamState → Option StreamState) (to : StreamState) (stream_id : String)
    (sc : StreamController) (s : Stream) (e : StreamError) (next : StreamStateMachine → Reply)
    → ((t : StreamState) → f t ≡ goes to t)
    → lookup stream_id sc.manager.streams ≡ some s
    → IsSound stream_id s
    → (valid_transition s.state_machine.current_state to ≡ true
        → IsValid (moved_to to s.state_machine)
        → f s.state ≡ some to
        → Ends f stream_id sc (next (moved_to to s.state_machine)))
    → Ends f stream_id sc (
        if not (can_transition_to to s.state_machine)
        then refuse sc e
        else after_transition (transition_to to s.state_machine) sc next)
unfolding can_transition_to transition_to
transition_Ends f to stream_id sc s e next fit p v k =
    elim (Bool-cases (valid_transition s.state_machine.current_state to)) [
      | inl a ↦
          let good : IsValid (moved_to to s.state_machine) = record {
            told = message_after-told to s.state_machine.error_message;
            entered = inl a;
          } in
          let there : f s.state ≡ some to = rw (fit s.state, v.agrees, a) refl in
          rw a (k a good there)
      | inr a ↦
          let stuck : f s.state ≡ none = rw (fit s.state, v.agrees, a) refl in
          rw a (
            refused e (λ s' q.
              let same : s ≡ s' = cc in subst (λ (t : Stream). f t.state ≡ none) same stuck))
    ]

-- What the operations do to the state of a stream; none is a refusal.
abbrev pub on_start : StreamState → Option StreamState
on_start idle = some live
on_start live = some live
on_start paused = some live
on_start _ = none

abbrev pub on_stop : StreamState → Option StreamState
on_stop (other _) = none
on_stop _ = some ended

abbrev pub on_pause : StreamState → Option StreamState
on_pause live = some paused
on_pause paused = some paused
on_pause _ = none

abbrev pub on_resume : StreamState → Option StreamState
on_resume paused = some live
on_resume _ = none

on_start-goes : (s : StreamState) → on_start s ≡ goes live s
unfolding valid_transition
on_start-goes idle = refl
on_start-goes live = refl
on_start-goes paused = refl
on_start-goes ended = refl
on_start-goes error = refl
on_start-goes (other _) = refl

on_stop-goes : (s : StreamState) → on_stop s ≡ goes ended s
unfolding valid_transition
on_stop-goes idle = refl
on_stop-goes live = refl
on_stop-goes paused = refl
on_stop-goes ended = refl
on_stop-goes error = refl
on_stop-goes (other _) = refl

on_pause-goes : (s : StreamState) → on_pause s ≡ goes paused s
unfolding valid_transition
on_pause-goes idle = refl
on_pause-goes live = refl
on_pause-goes paused = refl
on_pause-goes ended = refl
on_pause-goes error = refl
on_pause-goes (other _) = refl

-- A stream that may start, or that is paused or live, is not over.
still_open : (s : StreamState) (end : Option ℕ) → s ≢ ended → Finished s end → end ≡ none
still_open ended end n h = absurd (n refl)
still_open idle end n h = h
still_open live end n h = h
still_open paused end n h = h
still_open error end n h = h
still_open (other _) end n h = h

Begun-live :
    (s : StreamState) (start : Option ℕ) → on_pause s ≡ some paused → Begun s start → start ≢ none
Begun-live live start p h = h
Begun-live paused start p h = h
Begun-live idle start p h = cc
Begun-live ended start p h = cc
Begun-live error start p h = absurd h
Begun-live (other _) start p h = absurd h

resumable :
    (s : StreamState)
    → (s ≡ paused) ⊎ ((elim s [ paused ↦ true | _ ↦ false ]) ≡ false) × (on_resume s ≡ none)
resumable paused = inl refl
resumable idle = inr (refl, refl)
resumable live = inr (refl, refl)
resumable ended = inr (refl, refl)
resumable error = inr (refl, refl)
resumable (other _) = inr (refl, refl)

pub start_stream-Ends :
    (clock : ℕ → ℕ) (stream_id : String) (sc : StreamController)
    → IsConsistent sc
    → Ends on_start stream_id sc (start_stream clock stream_id sc)
unfolding start_stream
start_stream-Ends clock stream_id sc v = with_stream_cases on_start stream_id sc _ v (λ s p w.
    transition_Ends on_start live stream_id sc s _ _ on_start-goes p w (λ a good there.
      moved s _ _ p there (record {
        named = w.named;
        agrees = refl;
        entered = good;
        begun = λ q. cc;
        finished = still_open s.state_machine.current_state s.ended_at (λ q. cc) w.finished;
      })))

pub stop_stream-Ends :
    (clock : ℕ → ℕ) (stream_id : String) (sc : StreamController)
    → IsConsistent sc
    → Ends on_stop stream_id sc (stop_stream clock stream_id sc)
unfolding stop_stream
stop_stream-Ends clock stream_id sc v = with_stream_cases on_stop stream_id sc _ v (λ s p w.
    transition_Ends on_stop ended stream_id sc s _ _ on_stop-goes p w (λ a good there.
      moved s _ _ p there (record {
        named = w.named;
        agrees = refl;
        entered = good;
        begun = tt;
        finished = λ q. cc;
      })))

pub pause_stream-Ends :
    (clock : ℕ → ℕ) (stream_id : String) (sc : StreamController)
    → IsConsistent sc
    → Ends on_pause stream_id sc (pause_stream clock stream_id sc)
unfolding pause_stream
pause_stream-Ends clock stream_id sc v = with_stream_cases on_pause stream_id sc _ v (λ s p w.
    transition_Ends on_pause paused stream_id sc s _ _ on_pause-goes p w (λ a good there.
      moved s _ _ p there (record {
        named = w.named;
        agrees = refl;
        entered = good;
        begun =
            Begun-live s.state_machine.current_state s.started_at (rw (sym w.agrees) there) w.begun;
        finished = still_open s.state_machine.current_state s.ended_at (λ q. cc) w.finished;
      })))

pub resume_stream-Ends :
    (clock : ℕ → ℕ) (stream_id : String) (sc : StreamController)
    → IsConsistent sc
    → Ends on_resume stream_id sc (resume_stream clock stream_id sc)
unfolding resume_stream transition_to valid_transition message_after
resume_stream-Ends clock stream_id sc v = with_stream_cases on_resume stream_id sc _ v (λ s p w.
    elim (resumable s.state_machine.current_state) [
      | inl e ↦
          let started : s.started_at ≢ none = subst (λ t. Begun t s.started_at) e w.begun in
          let there : on_resume s.state ≡ some live = rw (w.agrees, e) refl in
          rw (e, valid_transition)
            (moved s _ _ p there (record {
              named = w.named;
              agrees = refl;
              entered = record { told = λ _. refl; entered = inl refl };
              begun = started;
              finished = still_open s.state_machine.current_state s.ended_at (λ q. cc) w.finished;
            }))
      | inr e ↦
          let stuck : on_resume s.state ≡ none = rw (w.agrees, e.1) refl in
          rw (e.0) (
            refused _ (λ s' q.
              let same : s ≡ s' = cc in
              subst (λ (t : Stream). on_resume t.state ≡ none) same stuck))
    ])

-- Every state that a stream may have can be left by force.
abbrev pub on_emergency : StreamState → Option StreamState
on_emergency _ = some ended

can_end : (s : StreamState) (start : Option ℕ) → Begun s start → valid_transition s ended ≡ true
unfolding valid_transition
can_end idle start h = refl
can_end live start h = refl
can_end paused start h = refl
can_end ended start h = refl
can_end error start h = refl
can_end (other _) start h = absurd h

pub emergency_stop-Ends :
    (clock : ℕ → ℕ) (stream_id reason : String) (sc : StreamController)
    → IsConsistent sc
    → Ends on_emergency stream_id sc (emergency_stop clock stream_id reason sc)
unfolding emergency_stop transition_to message_after
emergency_stop-Ends clock stream_id reason sc v =
    with_stream_cases on_emergency stream_id sc _ v (λ s p w.
      let e : valid_transition s.state_machine.current_state ended ≡ true =
        can_end s.state_machine.current_state s.started_at w.begun in
      rw e (
        moved s _ _ p refl (record {
          named = w.named;
          agrees = refl;
          entered = record { told = λ _. refl; entered = inl e };
          begun = tt;
          finished = λ q. cc;
        })))
