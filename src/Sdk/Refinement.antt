-- ===== src/Sdk/Refinement.antt =====
-- The code of pkg/sdk against its specification by states.
use zenlive.Common.{
  String, ◌≡◌, refl, sym, ap, ◌∙◌, inl, inr, [], Option, none, some, ite, if_pos, if_neg,
  Option-cases, lookup, string_key, string_discrete, lookup-insert, lookup-insert_self,
}
use zenlive.Sdk.StateMachine.{StreamState}
use zenlive.Sdk.Stream.{Stream}
use zenlive.Sdk.StreamManager.{StreamError}
use zenlive.Sdk.StreamController.{StreamController, Reply, set_stream}
use zenlive.Sdk.Consistency.{IsSound, IsConsistent, Ends, refused, moved, Ends-IsConsistent}
use zenlive.Sdk.Spec.{View, state_of, view, set_at, moved_from, move}

-- A reply of a consistent controller that follows the specification `v`, and that changes and
-- publishes nothing if it is an error.
pub record Refines (sc : StreamController) (v : View) (r : Reply) : Type 0 where
  pub consistent : IsConsistent r.1
  pub seen : (j : String) → view r.1 j ≡ v j
  pub unchanged : (e : StreamError) → r.0 ≡ some e → (r.1 ≡ sc) × (r.2 ≡ [])

pub view-found :
    (stream_id : String) (sc : StreamController) (s : Stream)
    → lookup stream_id sc.manager.streams ≡ some s
    → IsSound stream_id s
    → view sc stream_id ≡ some s.state_machine.current_state
unfolding view
view-found stream_id sc s p w = rw (p, w.agrees) refl

pub view-missing :
    (stream_id : String) (sc : StreamController)
    → lookup stream_id sc.manager.streams ≡ none
    → view sc stream_id ≡ none
unfolding view
view-missing stream_id sc n = rw n refl

state_of-ite :
    {P : Type 0} (d : Dec P) (s : Stream) (o : Option Stream)
    → state_of (ite d (some s) o) ≡ ite d (some s.state) (state_of o)
state_of-ite (yes p) s o = refl
state_of-ite (no n) s o = refl

pub view-set_stream :
    (stream_id : String) (s : Stream) (sc : StreamController) (j : String)
    → view (set_stream stream_id s sc) j ≡ set_at stream_id (some s.state) (view sc) j
unfolding view
view-set_stream stream_id s sc j =
    ap state_of (lookup-insert stream_id j s sc.manager.streams)
    ∙ state_of-ite (string_discrete stream_id j) s (lookup j sc.manager.streams)

pub set_at_same :
    (stream_id : String) (v : View) (j : String) → set_at stream_id (v stream_id) v j ≡ v j
set_at_same stream_id v j = elim (string_discrete stream_id j) [
  | yes p ↦ rw (if_pos (string_discrete stream_id j) p) (ap v p)
  | no n ↦ rw (if_neg (string_discrete stream_id j) n) refl
]

Ends-view :
    (f : StreamState → Option StreamState) (stream_id : String) (sc : StreamController) (r : Reply)
    (j : String)
    → Ends f stream_id sc r
    → view r.1 j ≡ move f stream_id (view sc) j
unfolding view
Ends-view f stream_id sc r j (refused e why) =
    let stays : moved_from (view sc stream_id) f ≡ view sc stream_id =
      elim (Option-cases (lookup stream_id sc.manager.streams)) [
        | inl n ↦ rw n refl
        | inr (s, p) ↦ rw (p, why s p) refl
      ] in
    rw stays (sym (set_at_same stream_id (view sc) j))
Ends-view f stream_id sc r j (moved s s' events p q w) =
    let goes : moved_from (view sc stream_id) f ≡ some s'.state = rw (p, q) refl in
    rw goes (view-set_stream stream_id s' sc j)

Ends-unchanged :
    (f : StreamState → Option StreamState) (stream_id : String) (sc : StreamController) (r : Reply)
    → Ends f stream_id sc r
    → (e : StreamError) → r.0 ≡ some e
    → (r.1 ≡ sc) × (r.2 ≡ [])
Ends-unchanged f stream_id sc r (refused _ why) e q = (refl, refl)
Ends-unchanged f stream_id sc r (moved s s' events p _ w) e q = absurd (cc)

pub Ends-Refines :
    (f : StreamState → Option StreamState) (stream_id : String) (sc : StreamController) (r : Reply)
    → IsConsistent sc
    → Ends f stream_id sc r
    → Refines sc (move f stream_id (view sc)) r
Ends-Refines f stream_id sc r v h = record {
  consistent = Ends-IsConsistent f stream_id sc r v h;
  seen = λ j. Ends-view f stream_id sc r j h;
  unchanged = Ends-unchanged f stream_id sc r h;
}

-- What a move does that the specification allows.
pub Ends-accepted :
    (f : StreamState → Option StreamState) (stream_id : String) (sc : StreamController) (s : Stream)
    (t : StreamState) (r : Reply)
    → lookup stream_id sc.manager.streams ≡ some s
    → f s.state ≡ some t
    → Ends f stream_id sc r
    → (r.0 ≡ none) × (view r.1 stream_id ≡ some t)
unfolding view
Ends-accepted f stream_id sc s t r p a (refused e why) = absurd (cc (why s p))
Ends-accepted f stream_id sc s t r p a (moved s2 s' events p2 q w) =
    let same : s2 ≡ s = cc in
    let there : some s'.state ≡ some t = sym q ∙ ap (λ (x : Stream). f x.state) same ∙ a in
    (refl, ap state_of (lookup-insert_self stream_id s' sc.manager.streams) ∙ there)
