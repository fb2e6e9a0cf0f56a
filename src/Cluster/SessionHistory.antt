-- ===== src/Cluster/SessionHistory.antt =====
-- Every history of calls of `InMemorySessionManager`, pkg/cluster/session.go.
use mathlib.Core.Path.{subst}
use zenlive.Common.{
  ℕ, String, ◌+◌, ◌≡◌, refl, sym, ◌∙◌, List, [], ◌∷◌, Option, none, some, if_pos, if_neg, ltb,
  if_cases, Option-cases, inl, inr, lookup, erase, string_key, string_discrete, lookup-erase,
  insert-Distinct, Distinct, AllEntries, arith,
}
use zenlive.Cluster.Sessions.{
  SessionError, Session, InMemorySessionManager, create_session, update_session, drop_session,
  delete_session, refresh_session, drop_expired, cleanup_expired_sessions, SessionCall, creates,
  updates, deletes, refreshes, cleans, session_step, session_run, new_in_memory_session_manager,
}
use zenlive.Cluster.Membership.{IsIndexed, add-Indexed, drop_session-IsIndexed, replace-IsIndexed}

module _ {Data : Type 0} where
  abbrev Good : Option SessionError × InMemorySessionManager Data → Type 0
  Good r = IsIndexed r.1

  create_session-IsIndexed :
      (now : ℕ) (s : Session Data) (ism : InMemorySessionManager Data)
      → lookup s.id ism.sessions ≡ none
      → IsIndexed ism
      → IsIndexed (create_session now s ism).1
  unfolding create_session
  create_session-IsIndexed now s ism n v = elim (string_discrete s.id "") [
    | yes p ↦ subst Good (sym (if_pos (string_discrete s.id "") p _ _)) v
    | no q ↦
        let s' : Session Data = record s {
          created_at = now;
          expires_at = now + ism.session_ttl;
          last_seen = now;
        } in
        subst Good (sym (if_neg (string_discrete s.id "") q _ _)) (record {
          distinct = insert-Distinct s.id s' ism.sessions v.distinct;
          users = add-Indexed (λ t. t.user_id) s.id s' ism.sessions ism.user_index n v.users;
          nodes = add-Indexed (λ t. t.node_id) s.id s' ism.sessions ism.node_index n v.nodes;
          streams =
              add-Indexed (λ t. t.stream_id) s.id s' ism.sessions ism.stream_index n v.streams;
        })
  ]

  -- The update keeps the keys of the session that is there.
  abbrev pub Faithful : Session Data → Option (Session Data) → Type 0
  Faithful s none = Unit {0}
  Faithful s (some old) =
      (s.user_id ≡ old.user_id) × (s.node_id ≡ old.node_id) × (s.stream_id ≡ old.stream_id)

  update_session-IsIndexed :
      (now : ℕ) (s : Session Data) (ism : InMemorySessionManager Data)
      → Faithful s (lookup s.id ism.sessions)
      → IsIndexed ism
      → IsIndexed (update_session now s ism).1
  unfolding update_session
  update_session-IsIndexed now s ism k v = elim (Option-cases (lookup s.id ism.sessions)) [
    | inl n ↦ rw (n, update_session) v
    | inr (old, p) ↦
        rw (p, update_session)
          (replace-IsIndexed s.id old (record s { last_seen = now }) ism p (rw p at k) v)
  ]

  delete_session-IsIndexed :
      (session_id : String) (ism : InMemorySessionManager Data)
      → IsIndexed ism
      → IsIndexed (delete_session session_id ism).1
  unfolding delete_session
  delete_session-IsIndexed session_id ism v = elim (Option-cases (lookup session_id ism.sessions)) [
    | inl n ↦ rw (n, delete_session) v
    | inr (s, p) ↦ rw (p, delete_session) (drop_session-IsIndexed session_id s ism p v)
  ]

  refresh_session-IsIndexed :
      (now : ℕ) (session_id : String) (ism : InMemorySessionManager Data)
      → IsIndexed ism
      → IsIndexed (refresh_session now session_id ism).1
  unfolding refresh_session
  refresh_session-IsIndexed now session_id ism v =
      elim (Option-cases (lookup session_id ism.sessions)) [
        | inl n ↦ rw (n, refresh_session) v
        | inr (s, p) ↦
            rw (p, refresh_session) (replace-IsIndexed session_id s _ ism p (refl, refl, refl) v)
      ]

  -- The entries are sessions of the manager.
  abbrev Present : List (String × Session Data) → List (String × Session Data) → Type 0
  Present entries sessions = AllEntries (λ k s. lookup k sessions ≡ some s) entries

  Present-erase :
      (session_id : String) (entries sessions : List (String × Session Data))
      → lookup session_id entries ≡ none
      → Present entries sessions
      → Present entries (erase session_id sessions)
  unfolding lookup
  Present-erase session_id [] sessions n h = tt
  Present-erase session_id ((k, s) ∷ entries) sessions n h = elim (string_discrete k session_id) [
    | yes p ↦ absurd (ground arith)
    | no q ↦ (
      lookup-erase session_id k sessions
          ∙ if_neg (string_discrete session_id k) (λ r. q (sym r)) _ _
          ∙ h.0,
      Present-erase session_id entries sessions
          (sym (if_neg (string_discrete k session_id) q _ _) ∙ n) h.1,
    )
  ]

  drop_session-sessions :
      (session_id : String) (s : Session Data) (ism : InMemorySessionManager Data)
      → (drop_session session_id s ism).sessions ≡ erase session_id ism.sessions
  unfolding drop_session
  drop_session-sessions session_id s ism = refl

  drop_expired-IsIndexed :
      (now : ℕ) (entries : List (String × Session Data)) (count : ℕ)
      (ism : InMemorySessionManager Data)
      → Distinct entries
      → Present entries ism.sessions
      → IsIndexed ism
      → IsIndexed (drop_expired now entries (count, ism)).1
  unfolding drop_expired
  drop_expired-IsIndexed now [] count ism d h v = v
  drop_expired-IsIndexed now ((k, s) ∷ entries) count ism d h v =
      if_cases (λ (r : ℕ × InMemorySessionManager Data). IsIndexed (drop_expired now entries r).1)
        (ltb s.expires_at now) (count + 1, drop_session k s ism) (count, ism)
        (λ _.
          drop_expired-IsIndexed now entries (count + 1) (drop_session k s ism) d.1
            (rw (drop_session-sessions k s ism) (Present-erase k entries ism.sessions d.0 h.1))
            (drop_session-IsIndexed k s ism h.0 v))
        (λ _. drop_expired-IsIndexed now entries count ism d.1 h.1 v)

  Present-cons :
      (k : String) (s : Session Data) (entries sessions : List (String × Session Data))
      → lookup k entries ≡ none
      → Present entries sessions
      → Present entries ((k, s) ∷ sessions)
  unfolding lookup
  Present-cons k s [] sessions n h = tt
  Present-cons k s ((i, t) ∷ entries) sessions n h = elim (string_discrete i k) [
    | yes p ↦ absurd (ground arith)
    | no q ↦ (
      if_neg (string_discrete k i) (λ r. q (sym r)) _ _ ∙ h.0,
      Present-cons k s entries sessions (sym (if_neg (string_discrete i k) q _ _) ∙ n) h.1,
    )
  ]

  Present-self :
      (sessions : List (String × Session Data)) → Distinct sessions → Present sessions sessions
  unfolding lookup
  Present-self [] d = tt
  Present-self ((k, s) ∷ sessions) d =
      (ground arith, Present-cons k s sessions sessions d.0 (Present-self sessions d.1))

  cleanup-IsIndexed :
      (now : ℕ) (ism : InMemorySessionManager Data)
      → IsIndexed ism
      → IsIndexed (cleanup_expired_sessions now ism).1
  unfolding cleanup_expired_sessions
  cleanup-IsIndexed now ism v =
      drop_expired-IsIndexed now ism.sessions 0 ism v.distinct
        (Present-self ism.sessions v.distinct) v

  -- A new session has a new id, and an update keeps the keys of the session.
  abbrev pub Permitted : SessionCall Data → InMemorySessionManager Data → Type 0
  Permitted (creates now s) ism = lookup s.id ism.sessions ≡ none
  Permitted (updates now s) ism = Faithful s (lookup s.id ism.sessions)
  Permitted _ ism = Unit {0}

  -- Every call of the history is permitted where it is made.
  abbrev pub AllPermitted : List (SessionCall Data) → InMemorySessionManager Data → Type 0
  AllPermitted [] ism = Unit {0}
  AllPermitted (c ∷ cs) ism = Permitted c ism × AllPermitted cs (session_step c ism)

  session_step-IsIndexed :
      (c : SessionCall Data) (ism : InMemorySessionManager Data)
      → Permitted c ism
      → IsIndexed ism
      → IsIndexed (session_step c ism)
  unfolding session_step
  session_step-IsIndexed (creates now s) ism h v = create_session-IsIndexed now s ism h v
  session_step-IsIndexed (updates now s) ism h v = update_session-IsIndexed now s ism h v
  session_step-IsIndexed (deletes session_id) ism h v = delete_session-IsIndexed session_id ism v
  session_step-IsIndexed (refreshes now session_id) ism h v =
      refresh_session-IsIndexed now session_id ism v
  session_step-IsIndexed (cleans now) ism h v = cleanup-IsIndexed now ism v

  session_run-IsIndexed :
      (cs : List (SessionCall Data)) (ism : InMemorySessionManager Data)
      → AllPermitted cs ism
      → IsIndexed ism
      → IsIndexed (session_run cs ism)
  unfolding session_run
  session_run-IsIndexed [] ism h v = v
  session_run-IsIndexed (c ∷ cs) ism h v =
      session_run-IsIndexed cs (session_step c ism) h.1 (session_step-IsIndexed c ism h.0 v)

  -- After every history of calls of a new manager each session is registered once, and under each
  -- user, node and stream the index has exactly the sessions of it, each once, and no others,
  -- where each new session has a new id and an update keeps the user, node and stream.
  pub session_run-new_in_memory_session_manager-IsIndexed :
      (cs : List (SessionCall Data)) (session_ttl : ℕ)
      → AllPermitted cs (new_in_memory_session_manager session_ttl)
      → IsIndexed (session_run cs (new_in_memory_session_manager session_ttl))
  unfolding new_in_memory_session_manager lookup zenlive.Cluster.Indexes.times
  session_run-new_in_memory_session_manager-IsIndexed cs session_ttl h =
      session_run-IsIndexed cs _ h
        (record { distinct = tt; users = λ _ _. refl; nodes = λ _ _. refl; streams = λ _ _. refl })
