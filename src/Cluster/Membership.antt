-- ===== src/Cluster/Membership.antt =====
-- The sessions of `InMemorySessionManager`, pkg/cluster/session.go, and its indexes of them.
use zenlive.Common.{
  ℕ, String, ◌+◌, ◌-◌, ◌≡◌, refl, sym, ap, ◌∙◌, List, Option, none, some, ite, lookup, insert,
  erase, string_key, string_discrete, lookup-insert, lookup-erase, insert-Distinct, erase-Distinct,
  Distinct, arith,
}
use zenlive.Cluster.Sessions.{
  Session, Index, InMemorySessionManager, add_to_index, remove_from_index, drop_session,
}
use zenlive.Cluster.Indexes.{listed, expected, listed-add_to_index, listed-remove_from_index}

module _ {Data : Type 0} where
  abbrev pub key_of : (Session Data → String) → Option (Session Data) → Option String
  key_of f none = none
  key_of f (some session) = some (f session)

  -- Under each key the index has exactly the sessions with that key, each once.
  abbrev pub Indexed : (Session Data → String) → List (String × Session Data) → Index → Type 0
  Indexed f sessions index =
      (key j : String) → listed key j index ≡ expected key (key_of f (lookup j sessions))

  added :
      {P : Type 0} (d : Dec P) (f : Session Data → String) (key : String) (n : ℕ) (s : Session Data)
      (o : Option (Session Data))
      → (P → o ≡ none)
      → n ≡ expected key (key_of f o)
      → n + ite d (expected key (some (f s))) 0 ≡ expected key (key_of f (ite d (some s) o))
  added (yes p) f key n s none h e = omega (arith, e)
  added (yes p) f key n s (some s') h e = absurd (cc (h p))
  added (no q) f key n s o h e = omega (arith, e)

  pub add-Indexed :
      (f : Session Data → String) (session_id : String) (s : Session Data)
      (sessions : List (String × Session Data)) (index : Index)
      → lookup session_id sessions ≡ none
      → Indexed f sessions index
      → Indexed f (insert session_id s sessions) (add_to_index (f s) session_id index)
  add-Indexed f session_id s sessions index n h key j =
      listed-add_to_index key (f s) j session_id index
      ∙ added (string_discrete session_id j) f key (listed key j index) s (lookup j sessions)
          (λ p. ap (λ k. lookup k sessions) (sym p) ∙ n) (h key j)
      ∙ ap (λ o. expected key (key_of f o)) (sym (lookup-insert session_id j s sessions))

  kept :
      {P : Type 0} (d : Dec P) (f : Session Data → String) (s s' : Session Data)
      (o : Option (Session Data))
      → (P → o ≡ some s)
      → f s' ≡ f s
      → key_of f o ≡ key_of f (ite d (some s') o)
  kept (yes p) f s s' o h e = rw (h p, e) refl
  kept (no q) f s s' o h e = refl

  keep-Indexed :
      (f : Session Data → String) (session_id : String) (s s' : Session Data)
      (sessions : List (String × Session Data)) (index : Index)
      → lookup session_id sessions ≡ some s
      → f s' ≡ f s
      → Indexed f sessions index
      → Indexed f (insert session_id s' sessions) index
  keep-Indexed f session_id s s' sessions index p e h key j =
      h key j
      ∙ ap (λ o. expected key o)
          (kept (string_discrete session_id j) f s s' (lookup j sessions)
            (λ q. ap (λ k. lookup k sessions) (sym q) ∙ p) e)
      ∙ ap (λ o. expected key (key_of f o)) (sym (lookup-insert session_id j s' sessions))

  dropped :
      {P : Type 0} (d : Dec P) (f : Session Data → String) (key : String) (n : ℕ) (s : Session Data)
      (o : Option (Session Data))
      → (P → o ≡ some s)
      → n ≡ expected key (key_of f o)
      → n - ite d (expected key (some (f s))) 0 ≡ expected key (key_of f (ite d none o))
  dropped (yes p) f key n s none h e = absurd (cc (h p))
  dropped (yes p) f key n s (some s') h e =
      let same : s' ≡ s = cc (h p) in
      let m : n ≡ expected key (some (f s)) =
        e ∙ ap (λ (t : Session Data). expected key (some (f t))) same in
      omega (arith, m)
  dropped (no q) f key n s o h e = omega (arith, e)

  drop-Indexed :
      (f : Session Data → String) (session_id : String) (s : Session Data)
      (sessions : List (String × Session Data)) (index : Index)
      → lookup session_id sessions ≡ some s
      → Indexed f sessions index
      → Indexed f (erase session_id sessions) (remove_from_index (f s) session_id index)
  drop-Indexed f session_id s sessions index p h key j =
      listed-remove_from_index key (f s) j session_id index
      ∙ dropped (string_discrete session_id j) f key (listed key j index) s (lookup j sessions)
          (λ q. ap (λ k. lookup k sessions) (sym q) ∙ p) (h key j)
      ∙ ap (λ o. expected key (key_of f o)) (sym (lookup-erase session_id j sessions))

  -- Each session is there once, and the three indexes have exactly the sessions.
  pub record IsIndexed (ism : InMemorySessionManager Data) : Type 0 where
    pub distinct : Distinct ism.sessions
    pub users : Indexed (λ s. s.user_id) ism.sessions ism.user_index
    pub nodes : Indexed (λ s. s.node_id) ism.sessions ism.node_index
    pub streams : Indexed (λ s. s.stream_id) ism.sessions ism.stream_index

  pub drop_session-IsIndexed :
      (session_id : String) (s : Session Data) (ism : InMemorySessionManager Data)
      → lookup session_id ism.sessions ≡ some s
      → IsIndexed ism
      → IsIndexed (drop_session session_id s ism)
  unfolding drop_session
  drop_session-IsIndexed session_id s ism p v = record {
    distinct = erase-Distinct session_id ism.sessions v.distinct;
    users = drop-Indexed (λ s. s.user_id) session_id s ism.sessions ism.user_index p v.users;
    nodes = drop-Indexed (λ s. s.node_id) session_id s ism.sessions ism.node_index p v.nodes;
    streams =
        drop-Indexed (λ s. s.stream_id) session_id s ism.sessions ism.stream_index p v.streams;
  }

  -- A session with the same keys in place of the old one.
  pub replace-IsIndexed :
      (session_id : String) (s s' : Session Data) (ism : InMemorySessionManager Data)
      → lookup session_id ism.sessions ≡ some s
      → (s'.user_id ≡ s.user_id) × (s'.node_id ≡ s.node_id) × (s'.stream_id ≡ s.stream_id)
      → IsIndexed ism
      → IsIndexed (record ism { sessions = insert session_id s' ism.sessions })
  replace-IsIndexed session_id s s' ism p e v = record {
    distinct = insert-Distinct session_id s' ism.sessions v.distinct;
    users = keep-Indexed (λ s. s.user_id) session_id s s' ism.sessions ism.user_index p e.0 v.users;
    nodes = keep-Indexed (λ s. s.node_id) session_id s s' ism.sessions ism.node_index p e.1 v.nodes;
    streams =
        keep-Indexed (λ s. s.stream_id) session_id s s' ism.sessions ism.stream_index p e.2
          v.streams;
  }
