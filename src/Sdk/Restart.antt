-- ===== src/Sdk/Restart.antt =====
-- `RestartStream` of pkg/sdk/control.go: a stop, a reset and a start of one stream.
use text.Mathlib.Text.{◌==◌ as str_eq}
use zenlive.Common.{
  ℕ, String, false, ◌+◌, ◌≡◌, ◌≢◌, refl, inl, inr, List, [], ◌++◌, Option, none, some, Bool-cases,
  Option-cases, lookup, insert, string_key, lookup-insert_self, insert-insert, lookup-AllEntries,
}
use text.Mathlib.TextEquality.{eq_iff}
use zenlive.Sdk.StateMachine.{StreamState, idle, live, paused, ended, error, other, reset}
use zenlive.Sdk.Stream.{Stream}
use zenlive.Sdk.StreamManager.{StreamError, cannot_stop, get_stream}
use zenlive.Sdk.Events.{StreamEvent}
use zenlive.Sdk.StreamController.{
  StreamController, Reply, refuse, set_stream, after_stop, restart_stream, restarted, preceded,
  after_start, cleared,
}
use zenlive.Sdk.Consistency.{
  set_stream-IsConsistent, IsSound, IsConsistent, Begun, Ends, refused, moved,
}
use zenlive.Sdk.Operations.{on_stop, on_start, stop_stream-Ends, start_stream-Ends}

after_stop_refused :
    (P : Reply → Type 0) (e : StreamError) (sc : StreamController)
    (next : StreamController → List StreamEvent → Reply)
    → ((e' : StreamError) → P (refuse sc e'))
    → P (next sc [])
    → P (after_stop (refuse sc e) next)
after_stop_refused P (cannot_stop ended) sc next f n = n
after_stop_refused P _ sc next f n = f _

abbrev pub on_restart : StreamState → Option StreamState
on_restart _ = some live

never_stuck : (s : StreamState) (start : Option ℕ) → Begun s start → on_stop s ≢ none
never_stuck idle start h q = cc
never_stuck live start h q = cc
never_stuck ended start h q = cc
never_stuck paused start h q = cc
never_stuck error start h q = cc
never_stuck (other _) start h q = h

-- The start in `RestartStream`, of the stream that was stopped and cleared.
again-Ends :
    (stream_id : String) (sc : StreamController) (s s' c : Stream) (before : List StreamEvent)
    (r : Reply)
    → lookup stream_id sc.manager.streams ≡ some s
    → c.state ≡ idle
    → Ends on_start stream_id (set_stream stream_id c (set_stream stream_id s' sc)) r
    → Ends on_restart stream_id sc (preceded before (after_start r))
again-Ends stream_id sc s s' c before r p i (refused err why) =
    let streams = insert stream_id s' sc.manager.streams in
    let q : on_start c.state ≡ none = why c (lookup-insert_self stream_id c streams) in absurd (cc)
again-Ends stream_id sc s s' c before r p i (moved t t' events q u w) =
    let streams = insert stream_id s' sc.manager.streams in
    let same = lookup-insert_self stream_id c streams in
    let lives : some live ≡ some t'.state = cc in
    rw (insert-insert stream_id c t' streams, insert-insert stream_id s' t' sc.manager.streams)
      (moved s t' (before ++ events) p lives w)

restarted-Ends :
    (clock : ℕ → ℕ) (stream_id : String) (sc : StreamController) (r : Reply)
    → IsConsistent sc
    → str_eq stream_id "" ≡ false
    → Ends on_stop stream_id sc r
    → Ends on_restart stream_id sc (after_stop r (restarted clock stream_id))
unfolding restarted get_stream reset
restarted-Ends clock stream_id sc r v named (refused e why) =
    elim (Option-cases (lookup stream_id sc.manager.streams)) [
      | inr (s, p) ↦
          let w = lookup-AllEntries IsSound stream_id s sc.manager.streams v.sound p in
          absurd (never_stuck s.state s.started_at (rw w.agrees w.begun) (why s p))
      | inl n ↦
          let why' : (s : Stream)
              → lookup stream_id sc.manager.streams ≡ some s
              → on_restart s.state ≡ none =
            λ s q. absurd (cc) in
          after_stop_refused (Ends on_restart stream_id sc) e sc (restarted clock stream_id)
            (λ e'. refused e' why') (rw (named, n) (refused _ why'))
    ]
restarted-Ends clock stream_id sc r v named (moved s s' events p q w) =
    let machine = (reset s'.state_machine).1 in
    let c = cleared (clock 3) machine s' in
    rw (named, lookup-insert_self stream_id s' sc.manager.streams)
      (again-Ends stream_id sc s s' c events _ p refl (
        start_stream-Ends (λ i. clock (i + 4)) stream_id _
          (set_stream-IsConsistent stream_id s' c (set_stream stream_id s' sc)
            (set_stream-IsConsistent stream_id s s' sc v p w)
            (lookup-insert_self stream_id s' sc.manager.streams)
            (record {
              named = w.named;
              agrees = refl;
              entered = record { told = λ _. refl; entered = inr refl };
              begun = refl;
              finished = refl;
            }))))

pub restart_stream-Ends :
    (clock : ℕ → ℕ) (stream_id : String) (sc : StreamController)
    → IsConsistent sc
    → Ends on_restart stream_id sc (restart_stream clock stream_id sc)
unfolding restart_stream
restart_stream-Ends clock stream_id sc v = elim (Bool-cases (str_eq stream_id "")) [
  | inl e ↦ rw e (
      refused _ (λ s q.
        let p : stream_id ≡ "" = (eq_iff stream_id "").0 e in
        let u : lookup stream_id sc.manager.streams ≡ none = rw p v.unnamed in absurd (cc)))
  | inr e ↦ rw e (restarted-Ends clock stream_id sc _ v e (stop_stream-Ends clock stream_id sc v))
]
