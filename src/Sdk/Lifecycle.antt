-- ===== src/Sdk/Lifecycle.antt =====
-- What the histories of a stream's state machine, state.go, have in common.
use zenlive.Common.{
  ◌≡◌, ◌≢◌, ◌⊎◌, inl, inr, refl, String, Bool, true, false, List, [], ◌∷◌, Option, none, some,
  if_cases, All,
}
use zenlive.Sdk.StateMachine.{
  StreamState, idle, live, paused, ended, error, other, valid_transition, StreamStateMachine,
  TransitionError, new_stream_state_machine, message_after, transition_to, transition_to_error,
  reset, Call, transits, fails, resets, step, run, trace,
}

-- There is an error message only in the state `error`, and the machine came from the state before
-- by a valid transition or by a reset.
pub record IsValid (sm : StreamStateMachine) : Type 0 where
  pub told : sm.current_state ≢ error → sm.error_message ≡ ""
  pub entered :
      (valid_transition sm.previous_state sm.current_state ≡ true) ⊎ (sm.current_state ≡ idle)

pub message_after-told :
    (to : StreamState) (message : String) → to ≢ error → message_after to message ≡ ""
unfolding message_after
message_after-told error message n = absurd (n refl)
message_after-told _ message n = refl

-- The outcomes of a call: refused, a valid transition, or a reset.
step_cases {ℓ} :
    (P : Option TransitionError × StreamStateMachine → Type ℓ) (c : Call) (sm : StreamStateMachine)
    → ((e : TransitionError) → P (some e, sm))
    → ((to : StreamState) (message : String)
        → valid_transition sm.current_state to ≡ true
        → (to ≢ error → message ≡ "")
        → P (
          none,
          record { current_state = to; previous_state = sm.current_state; error_message = message },
        ))
    → P (
      none,
      record { current_state = idle; previous_state = sm.current_state; error_message = "" },
    )
    → P (step c sm)
unfolding step transition_to transition_to_error reset
step_cases P (transits to) sm refused accepted returned =
    if_cases P _ _ _ (λ e. accepted to _ e (message_after-told to sm.error_message))
      (λ e. refused _)
step_cases P (fails message) sm refused accepted returned =
    if_cases P _ _ _ (λ e. accepted error message e (λ n. absurd (n refl))) (λ e. refused _)
step_cases P resets sm refused accepted returned = returned

step-IsValid : (c : Call) (sm : StreamStateMachine) → IsValid sm → IsValid (step c sm).1
step-IsValid c sm v =
    step_cases (λ x. IsValid x.1) c sm (λ _. v)
      (λ to message e n. record { told = n; entered = inl e })
      (record { told = λ _. refl; entered = inr refl })

run-IsValid : (cs : List Call) (sm : StreamStateMachine) → IsValid sm → IsValid (run cs sm)
unfolding run
run-IsValid [] sm v = v
run-IsValid (c ∷ cs) sm v = run-IsValid cs (step c sm).1 (step-IsValid c sm v)

-- After every history of calls of a new machine there is an error message only in the state
-- `error`, and the last change was a valid transition, or left the stream idle.
pub run-new_stream_state_machine-IsValid :
    (cs : List Call) → IsValid (run cs new_stream_state_machine)
unfolding new_stream_state_machine
run-new_stream_state_machine-IsValid cs =
    run-IsValid cs _ (record { told = λ _. refl; entered = inr refl })

-- The state is one of a row of states.
abbrev pub Occurs : StreamState → List StreamState → Type 0
Occurs s [] = ⊥
Occurs s (t ∷ ts) = (t ≡ s) ⊎ Occurs s ts

-- Where every valid transition and the reset lead from a region to the region or to its gate, a
-- state outside the region is reached through the gate.
module _ (inside : StreamState → Bool) (gate : StreamState)
    (moves : (s t : StreamState)
      → inside s ≡ true
      → valid_transition s t ≡ true
      → (inside t ≡ true) ⊎ (t ≡ gate))
    (returns : (inside idle ≡ true) ⊎ (idle ≡ gate)) where
  trace-gate :
      (cs : List Call) (sm : StreamStateMachine) (target : StreamState)
      → inside sm.current_state ≡ true
      → inside target ≡ false
      → Occurs target (trace cs sm)
      → Occurs gate (trace cs sm)
  unfolding trace
  trace-gate [] sm target i o m = absurd m
  trace-gate (c ∷ cs) sm target i o m =
      let where_to : (inside (step c sm).1.current_state ≡ true)
          ⊎ ((step c sm).1.current_state ≡ gate) =
        step_cases (λ x. (inside x.1.current_state ≡ true) ⊎ (x.1.current_state ≡ gate)) c sm
          (λ _. inl i) (λ to _ e _. moves sm.current_state to i e) returns in
      elim where_to [
        | inr e ↦ inl e
        | inl e ↦ elim m [
          | inl t ↦ absurd (cc)
          | inr m' ↦ inr (trace-gate cs (step c sm).1 target e o m')
        ]
      ]

-- The states that a stream has before it is broadcast.
abbrev silent : StreamState → Bool
silent live = false
silent paused = false
silent _ = true

silent_moves :
    (s t : StreamState)
    → silent s ≡ true
    → valid_transition s t ≡ true
    → (silent t ≡ true) ⊎ (t ≡ live)
unfolding valid_transition
silent_moves live t i e = cc
silent_moves paused t i e = cc
silent_moves s live i e = inr refl
silent_moves idle paused i e = cc
silent_moves ended paused i e = cc
silent_moves error paused i e = cc
silent_moves (other _) paused i e = cc
silent_moves _ _ i e = inl refl

-- A stream that starts idle is paused only after it has been live.
pub trace-paused :
    (cs : List Call)
    → Occurs paused (trace cs new_stream_state_machine)
    → Occurs live (trace cs new_stream_state_machine)
unfolding new_stream_state_machine
trace-paused cs = trace-gate silent live silent_moves (inl refl) cs _ paused refl refl

-- The states of a stream that is over.
abbrev over : StreamState → Bool
over ended = true
over error = true
over _ = false

over_moves :
    (s t : StreamState) → over s ≡ true → valid_transition s t ≡ true → (over t ≡ true) ⊎ (t ≡ idle)
unfolding valid_transition
over_moves _ idle i e = inr refl
over_moves _ ended i e = inl refl
over_moves _ error i e = inl refl
over_moves ended _ i e = cc
over_moves error _ i e = cc
over_moves _ _ i e = cc

-- A stream that has ended or failed is live again only after it has been idle again.
pub trace-live :
    (cs : List Call) (sm : StreamStateMachine)
    → (sm.current_state ≡ ended) ⊎ (sm.current_state ≡ error)
    → Occurs live (trace cs sm)
    → Occurs idle (trace cs sm)
trace-live cs sm o =
    trace-gate over idle over_moves (inr refl) cs sm live (elim o [ inl e ↦ rw e | inr e ↦ rw e ])
      refl

-- The call is not a reset.
abbrev pub Transits : Call → Type 0
Transits resets = ⊥
Transits _ = Unit {0}

step-ended :
    (c : Call) (sm : StreamStateMachine)
    → sm.current_state ≡ ended
    → Transits c
    → (step c sm).1.current_state ≡ ended
unfolding step transition_to transition_to_error valid_transition
step-ended (transits ended) sm e t = rw e
step-ended (transits _) sm e t = rw (e, valid_transition)
step-ended (fails message) sm e t = rw (e, valid_transition)
step-ended resets sm e t = absurd t

-- Without a reset an ended stream stays ended, whatever is called.
pub run-ended :
    (cs : List Call) (sm : StreamStateMachine)
    → sm.current_state ≡ ended
    → All Transits cs
    → (run cs sm).current_state ≡ ended
unfolding run
run-ended [] sm e t = e
run-ended (c ∷ cs) sm e t = run-ended cs (step c sm).1 (step-ended c sm e t.0) t.1
