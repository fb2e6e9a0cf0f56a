-- ===== src/Sdk/Registry.antt =====
-- The calls of the manager and of the streams, pkg/sdk/stream.go, against the specification by
-- states.
use text.Mathlib.Text.{◌==◌ as str_eq}
use text.Mathlib.TextEquality.{eq_iff}
use zenlive.Common.{
  ℕ, String, true, false, ◌≡◌, ◌≢◌, refl, sym, ap, ◌∙◌, ◌⊎◌, inl, inr, [], Option, none, some, ite,
  if_pos, if_neg, if_cases, Bool-cases, Option-cases, lookup, erase, string_key, string_discrete,
  lookup-erase, erase-Distinct, erase-AllEntries, lookup-AllEntries,
}
use zenlive.Sdk.StateMachine.{
  StreamState, idle, live, paused, ended, error, other, new_stream_state_machine,
}
use zenlive.Sdk.Stream.{
  Stream, CreateStreamRequest, UpdateStreamRequest, increment_viewer_count, decrement_viewer_count,
}
use zenlive.Sdk.StreamManager.{
  StreamError, stream_id_required, request_required, err, check_request, new_stream, create_stream,
  update_stream, updated, delete_stream, get_stream,
}
use zenlive.Sdk.StreamController.{StreamController, set_stream}
use zenlive.Sdk.Calls.{creates, deletes, managed, touch, step}
use zenlive.Sdk.Consistency.{IsSound, IsConsistent, put-IsConsistent, set_stream-IsConsistent}
use zenlive.Sdk.Spec.{state_of, view, set_at, deleted_from, spec}
use zenlive.Sdk.Refinement.{view-found, view-missing, Refines, set_at_same, view-set_stream}

-- A reply without a change.
idle-Refines :
    (sc : StreamController) (e : Option StreamError)
    → IsConsistent sc
    → Refines sc (view sc) (e, sc, [])
idle-Refines sc e v = record { consistent = v; seen = λ j. refl; unchanged = λ _ _. (refl, refl) }

-- A reply that changes a stream, but not its state.
kept-Refines :
    (stream_id : String) (s s' : Stream) (sc : StreamController)
    → IsConsistent sc
    → lookup stream_id sc.manager.streams ≡ some s
    → IsSound stream_id s'
    → s'.state ≡ s.state
    → Refines sc (view sc) (none, set_stream stream_id s' sc, [])
unfolding view
kept-Refines stream_id s s' sc v p w e =
    let same : some s'.state ≡ view sc stream_id = rw (p, e) refl in
    record {
      consistent = set_stream-IsConsistent stream_id s s' sc v p w;
      seen = λ j. view-set_stream stream_id s' sc j ∙ (rw same (set_at_same stream_id (view sc) j));
      unchanged = λ e q. absurd (cc);
    }

pub touch-Refines :
    (f : Stream → Stream) (stream_id : String) (sc : StreamController)
    → ((s : Stream) → IsSound stream_id s → IsSound stream_id (f s) × ((f s).state ≡ s.state))
    → IsConsistent sc
    → Refines sc (view sc) (touch f stream_id sc)
unfolding touch
touch-Refines f stream_id sc good v = elim (Option-cases (lookup stream_id sc.manager.streams)) [
  | inl n ↦ rw (n, touch) (idle-Refines sc none v)
  | inr (s, p) ↦
      let w = good s (lookup-AllEntries IsSound stream_id s sc.manager.streams v.sound p) in
      rw (p, touch) (kept-Refines stream_id s (f s) sc v p w.0 w.1)
]

counted :
    (stream_id : String) (n : ℕ) (s : Stream)
    → IsSound stream_id s
    → IsSound stream_id (record s { viewer_count = n })
counted stream_id n s w = record {
  named = w.named;
  agrees = w.agrees;
  entered = w.entered;
  begun = w.begun;
  finished = w.finished;
}

pub increment_good :
    (stream_id : String) (s : Stream)
    → IsSound stream_id s
    → IsSound stream_id (increment_viewer_count s) × ((increment_viewer_count s).state ≡ s.state)
unfolding increment_viewer_count
increment_good stream_id s w = (counted stream_id _ s w, refl)

pub decrement_good :
    (stream_id : String) (s : Stream)
    → IsSound stream_id s
    → IsSound stream_id (decrement_viewer_count s) × ((decrement_viewer_count s).state ≡ s.state)
unfolding decrement_viewer_count
decrement_good stream_id s w =
    if_cases (λ (t : Stream). IsSound stream_id t × (t.state ≡ s.state)) _ _ _
      (λ _. (counted stream_id _ s w, refl)) (λ _. (w, refl))

new_stream-IsSound :
    (stream_id stream_key : String) (now : ℕ) (req : CreateStreamRequest)
    → IsSound stream_id (new_stream stream_id stream_key now req)
unfolding new_stream new_stream_state_machine
new_stream-IsSound stream_id stream_key now req = record {
  named = refl;
  agrees = refl;
  entered = record { told = λ _. refl; entered = inr refl };
  begun = refl;
  finished = refl;
}

updated-IsSound :
    (stream_id : String) (now : ℕ) (req : UpdateStreamRequest) (s : Stream)
    → IsSound stream_id s
    → IsSound stream_id (updated now req s) × ((updated now req s).state ≡ s.state)
unfolding updated
updated-IsSound stream_id now req s w = (
  record {
    named = w.named;
    agrees = w.agrees;
    entered = w.entered;
    begun = w.begun;
    finished = w.finished;
  },
  refl,
)

new_stream-state :
    (stream_id stream_key : String) (now : ℕ) (req : CreateStreamRequest)
    → (new_stream stream_id stream_key now req).state ≡ idle
unfolding new_stream
new_stream-state stream_id stream_key now req = refl

pub create-Refines :
    (stream_id stream_key : String) (clock : ℕ → ℕ) (req : Option CreateStreamRequest)
    (sc : StreamController)
    → stream_id ≢ ""
    → IsConsistent sc
    → Refines sc
        (spec (creates stream_id stream_key clock req) (view sc))
        (managed sc (create_stream stream_id stream_key clock req sc.manager))
unfolding create_stream spec
create-Refines stream_id stream_key clock none sc n v = idle-Refines sc _ v
create-Refines stream_id stream_key clock (some req) sc n v =
    elim (Option-cases (check_request req)) [
      | inl e ↦
          rw (e, create_stream, spec)
            (let stream = new_stream stream_id stream_key (clock 0) req in
              let fresh : stream.state ≡ idle =
                new_stream-state stream_id stream_key (clock 0) req in
              record {
                consistent =
                    put-IsConsistent stream_id stream sc v n
                      (new_stream-IsSound stream_id stream_key (clock 0) req);
                seen = λ j. rw (sym fresh) (view-set_stream stream_id stream sc j);
                unchanged = λ e q. absurd (cc);
              })
      | inr (x, e) ↦ rw (e, create_stream, spec) (idle-Refines sc _ v)
    ]

pub update-Refines :
    (stream_id : String) (clock : ℕ → ℕ) (req : Option UpdateStreamRequest) (sc : StreamController)
    → IsConsistent sc
    → Refines sc (view sc) (managed sc (update_stream stream_id clock req sc.manager))
unfolding update_stream get_stream
update-Refines stream_id clock none sc v =
    if_cases (λ r. Refines sc (view sc) (managed sc r)) (str_eq stream_id "")
      (err stream_id_required, sc.manager) (err request_required, sc.manager)
      (λ _. idle-Refines sc _ v) (λ _. idle-Refines sc _ v)
update-Refines stream_id clock (some req) sc v = elim (Bool-cases (str_eq stream_id "")) [
  | inl e ↦ rw e (idle-Refines sc _ v)
  | inr e ↦ elim (Option-cases (lookup stream_id sc.manager.streams)) [
    | inl n ↦ rw (e, n) (idle-Refines sc _ v)
    | inr (s, p) ↦
        let w =
          updated-IsSound stream_id (clock 0) req s
            (lookup-AllEntries IsSound stream_id s sc.manager.streams v.sound p) in
        rw (e, p) (kept-Refines stream_id s _ sc v p w.0 w.1)
  ]
]

-- A deletion that is refused, of a stream that is not there or that is live.
undeleted-Refines :
    (stream_id : String) (sc : StreamController) (e : Option StreamError)
    → IsConsistent sc
    → deleted_from (view sc stream_id) ≡ view sc stream_id
    → Refines sc (set_at stream_id (deleted_from (view sc stream_id)) (view sc)) (e, sc, [])
undeleted-Refines stream_id sc e v stays = record {
  consistent = v;
  seen = λ j. rw stays (sym (set_at_same stream_id (view sc) j));
  unchanged = λ _ _. (refl, refl);
}

state_of-erased :
    {P : Type 0} (d : Dec P) (o : Option Stream) → state_of (ite d none o) ≡ ite d none (state_of o)
state_of-erased (yes p) o = refl
state_of-erased (no n) o = refl

erased-Refines :
    (stream_id : String) (sc : StreamController)
    → IsConsistent sc
    → deleted_from (view sc stream_id) ≡ none
    → Refines sc
        (set_at stream_id (deleted_from (view sc stream_id)) (view sc))
        (none, record sc { manager = record { streams = erase stream_id sc.manager.streams } }, [])
unfolding view
erased-Refines stream_id sc v gone =
    let streams = sc.manager.streams in
    record {
      consistent = record {
        distinct = erase-Distinct stream_id streams v.distinct;
        sound = erase-AllEntries IsSound stream_id streams v.sound;
        unnamed = lookup-erase stream_id "" streams ∙ elim (string_discrete stream_id "") [
          | yes p ↦ if_pos (string_discrete stream_id "") p _ _
          | no n ↦ if_neg (string_discrete stream_id "") n _ _ ∙ v.unnamed
        ];
      };
      seen = λ j. rw gone (
          ap state_of (lookup-erase stream_id j streams)
          ∙ state_of-erased (string_discrete stream_id j) (lookup j streams));
      unchanged = λ e q. absurd (cc);
    }

deletable :
    (t : StreamState)
    → (t ≡ live) ⊎ ((elim t [ live ↦ true | _ ↦ false ]) ≡ false) × (deleted_from (some t) ≡ none)
deletable live = inl refl
deletable idle = inr (refl, refl)
deletable paused = inr (refl, refl)
deletable ended = inr (refl, refl)
deletable error = inr (refl, refl)
deletable (other _) = inr (refl, refl)

pub delete-Refines :
    (stream_id : String) (sc : StreamController)
    → IsConsistent sc
    → Refines sc (spec (deletes stream_id) (view sc)) (step (deletes stream_id) sc)
unfolding delete_stream spec step get_stream
delete-Refines stream_id sc v = elim (Bool-cases (str_eq stream_id "")) [
  | inl e ↦
      let p : stream_id ≡ "" = (eq_iff stream_id "").0 e in
      let u : lookup stream_id sc.manager.streams ≡ none = rw p v.unnamed in
      rw e (undeleted-Refines stream_id sc _ v (rw (view-missing stream_id sc u) refl))
  | inr e ↦ elim (Option-cases (lookup stream_id sc.manager.streams)) [
    | inl n ↦ rw (e, n) (undeleted-Refines stream_id sc _ v (rw (view-missing stream_id sc n) refl))
    | inr (s, p) ↦
        let w = lookup-AllEntries IsSound stream_id s sc.manager.streams v.sound p in
        let now = view-found stream_id sc s p w in
        elim (deletable s.state_machine.current_state) [
          | inl l ↦ rw (e, p, l) (undeleted-Refines stream_id sc _ v (rw (now, l) refl))
          | inr l ↦ rw (e, p, l.0) (erased-Refines stream_id sc v (rw now l.1))
        ]
  ]
]
