-- ===== src/Sdk/StopAll.antt =====
-- `StopAllStreams` of pkg/sdk/control.go.
use zenlive.Common.{
  arith, ℕ, String, Bool, true, false, ◌+◌, ◌||◌, ◌≡◌, refl, sym, ap, ◌∙◌, inl, inr, List, [], ◌∷◌,
  Option, none, some, ite, if_pos, if_neg, if◌then◌else◌, if_cases, map, Bool-cases, Option-cases,
  lookup, string_key, string_discrete, lookup-AllEntries, Distinct,
}
use zenlive.Sdk.StateMachine.{StreamState, idle, live, paused, ended, error, other}
use zenlive.Sdk.Stream.{Stream}
use zenlive.Sdk.Events.{StreamEvent}
use zenlive.Sdk.StreamController.{
  StreamController, is_active, stop_if_active, stop_each, stop_all_streams, get_active_streams,
  stop_stream,
}
use zenlive.Sdk.StreamManager.{keep}
use zenlive.Sdk.Consistency.{IsSound, IsConsistent}
use zenlive.Sdk.Operations.{on_stop, stop_stream-Ends}
use zenlive.Sdk.Spec.{View, view, set_at, moved_from, finished_from}
use zenlive.Sdk.Refinement.{view-found, view-missing, set_at_same, Ends-Refines}

abbrev active : StreamState → Bool
active live = true
active paused = true
active _ = false

is_active-state : (s : Stream) → is_active s ≡ active s.state_machine.current_state
is_active-state s = actives s.state_machine.current_state
  where
    actives :
        (t : StreamState)
        → ((elim t [ live ↦ true | _ ↦ false ]) || (elim t [ paused ↦ true | _ ↦ false ]))
          ≡ active t
    actives live = refl
    actives paused = refl
    actives idle = refl
    actives ended = refl
    actives error = refl
    actives (other _) = refl

stopped : (t : StreamState) → active t ≡ true → moved_from (some t) on_stop ≡ finished_from (some t)
stopped live e = refl
stopped paused e = refl
stopped idle e = cc
stopped ended e = cc
stopped error e = cc
stopped (other _) e = cc

untouched : (t : StreamState) → active t ≡ false → finished_from (some t) ≡ some t
untouched live e = cc
untouched paused e = cc
untouched idle e = refl
untouched ended e = refl
untouched error e = refl
untouched (other _) e = refl

-- What holds of a controller after a round of the loop over the view `v` of the one before.
abbrev Rounded : String → View → StreamController × List StreamEvent → Type 0
Rounded stream_id v r =
    IsConsistent r.0
    × ((j : String) → view r.0 j ≡ set_at stream_id (finished_from (v stream_id)) v j)

skipped-Rounded :
    (stream_id : String) (sc : StreamController)
    → IsConsistent sc
    → finished_from (view sc stream_id) ≡ view sc stream_id
    → Rounded stream_id (view sc) (sc, [])
skipped-Rounded stream_id sc v e = (v, λ j. rw e (sym (set_at_same stream_id (view sc) j)))

stopped-Rounded :
    (clock : ℕ → ℕ) (stream_id : String) (sc : StreamController)
    → IsConsistent sc
    → moved_from (view sc stream_id) on_stop ≡ finished_from (view sc stream_id)
    → Rounded stream_id
        (view sc)
        ((stop_stream clock stream_id sc).1, (stop_stream clock stream_id sc).2)
stopped-Rounded clock stream_id sc v e =
    let r =
      Ends-Refines on_stop stream_id sc (stop_stream clock stream_id sc) v
        (stop_stream-Ends clock stream_id sc v) in
    (r.consistent, λ j. rw (sym e) (r.seen j))

-- A round leaves the controller consistent, and its stream neither live nor paused.
stop_if_active-Rounded :
    (clock : ℕ → ℕ) (stream_id : String) (sc : StreamController)
    → IsConsistent sc
    → Rounded stream_id (view sc) (stop_if_active clock stream_id sc)
unfolding stop_if_active
stop_if_active-Rounded clock stream_id sc v =
    elim (Option-cases (lookup stream_id sc.manager.streams)) [
      | inl n ↦
          rw (n, stop_if_active)
            (skipped-Rounded stream_id sc v (rw (view-missing stream_id sc n) refl))
      | inr (s, p) ↦
          let w = lookup-AllEntries IsSound stream_id s sc.manager.streams v.sound p in
          let now = view-found stream_id sc s p w in
          elim (Bool-cases (active s.state_machine.current_state)) [
            | inl a ↦
                rw (p, stop_if_active, is_active-state s, a, w.named)
                  (stopped-Rounded clock stream_id sc v
                    (rw now (stopped s.state_machine.current_state a)))
            | inr a ↦
                rw (p, stop_if_active, is_active-state s, a)
                  (skipped-Rounded stream_id sc v
                    (rw now (untouched s.state_machine.current_state a)))
          ]
    ]

abbrev listed : String → List String → Bool
listed j [] = false
listed j (i ∷ ids) = ite (string_discrete i j) true (listed j ids)

finished_twice : (x : Option StreamState) → finished_from (finished_from x) ≡ finished_from x
finished_twice none = refl
finished_twice (some idle) = refl
finished_twice (some live) = refl
finished_twice (some paused) = refl
finished_twice (some ended) = refl
finished_twice (some error) = refl
finished_twice (some (other _)) = refl

-- The streams of the list have ended, if they were active.
stop_each-view :
    (ids : List String) (clock : ℕ → ℕ) (sc : StreamController)
    → IsConsistent sc
    → IsConsistent (stop_each clock ids sc).0
      × ((j : String)
          → view (stop_each clock ids sc).0 j
            ≡ (if listed j ids then finished_from (view sc j) else view sc j))
unfolding stop_each
stop_each-view [] clock sc v = (v, λ j. refl)
stop_each-view (i ∷ ids) clock sc v =
    let (consistent, seen) = stop_if_active-Rounded clock i sc v in
    let (consistent', seen') =
      stop_each-view ids (λ k. clock (k + 3)) (stop_if_active clock i sc).0 consistent in
    (
      consistent',
      λ j. seen' j ∙ elim (string_discrete i j) [
        | yes p ↦
            let now : view (stop_if_active clock i sc).0 j ≡ finished_from (view sc j) =
              seen j ∙ if_pos (string_discrete i j) p _ _ ∙ ap (λ k. finished_from (view sc k)) p in
            rw (if_pos (string_discrete i j) p, now)
              (if_cases (λ x. x ≡ finished_from (view sc j)) (listed j ids) _ _
                (λ _. finished_twice (view sc j)) (λ _. refl))
        | no n ↦
            let now : view (stop_if_active clock i sc).0 j ≡ view sc j =
              seen j ∙ if_neg (string_discrete i j) n _ _ in
            rw (if_neg (string_discrete i j) n, now) refl
      ],
    )

listed_keys :
    (j : String) (streams : List (String × Stream))
    → listed j (map (λ e. e.0) streams) ≡ false
    → lookup j streams ≡ none
unfolding lookup
listed_keys j [] h = refl
listed_keys j ((i, s) ∷ streams) h = ground (arith, listed_keys j streams)

pub stop_all_streams-Refines :
    (clock : ℕ → ℕ) (sc : StreamController)
    → IsConsistent sc
    → IsConsistent (stop_all_streams clock sc).0
      × ((j : String) → view (stop_all_streams clock sc).0 j ≡ finished_from (view sc j))
unfolding stop_all_streams
stop_all_streams-Refines clock sc v =
    let ids = map (λ e. e.0) sc.manager.streams in
    let (consistent, seen) = stop_each-view ids clock sc v in
    (
      consistent,
      λ j. seen j ∙ elim (Bool-cases (listed j ids)) [
        | inl e ↦ rw e refl
        | inr e ↦
            let none_there : view sc j ≡ none =
              view-missing j sc (listed_keys j sc.manager.streams e) in
            rw (e, none_there) refl
      ],
    )

active_of : Option StreamState → Bool
active_of none = false
active_of (some t) = active t

over : (x : Option StreamState) → active_of (finished_from x) ≡ false
unfolding active_of
over none = refl
over (some idle) = refl
over (some live) = refl
over (some paused) = refl
over (some ended) = refl
over (some error) = refl
over (some (other _)) = refl

-- In a list of distinct keys the entries are what a lookup finds.
all_inactive :
    (streams : List (String × Stream))
    → Distinct streams
    → ((j : String) (s : Stream) → lookup j streams ≡ some s → is_active s ≡ false)
    → keep is_active streams ≡ []
unfolding keep lookup
all_inactive [] d h = refl
all_inactive ((i, s) ∷ streams) d h =
    let first : lookup i ((i, s) ∷ streams) ≡ some s = ground arith in
    rw (h i s first) (
      all_inactive streams d.1 (λ j s' p.
        let later : lookup j ((i, s) ∷ streams) ≡ some s' = elim (string_discrete i j) [
          | yes q ↦ absurd (ground (arith, d.0))
          | no n ↦ rw (if_neg (string_discrete i j) n) p
        ] in
        h j s' later))

-- No stream of a consistent controller is live or paused after `StopAllStreams`.
pub get_active_streams-stop_all_streams :
    (clock : ℕ → ℕ) (sc : StreamController)
    → IsConsistent sc
    → get_active_streams (stop_all_streams clock sc).0 ≡ []
unfolding get_active_streams active_of
get_active_streams-stop_all_streams clock sc v =
    let (consistent, seen) = stop_all_streams-Refines clock sc v in
    let sc' = (stop_all_streams clock sc).0 in
    all_inactive sc'.manager.streams consistent.distinct (λ j s p.
      let w = lookup-AllEntries IsSound j s sc'.manager.streams consistent.sound p in
      let there : finished_from (view sc j) ≡ some s.state_machine.current_state =
        sym (seen j) ∙ view-found j sc' s p w in
      is_active-state s ∙ sym (ap active_of there) ∙ over (view sc j))
