-- ===== src/Cluster/Sessions.antt =====
-- `InMemorySessionManager` of pkg/cluster/session.go. Times are nanoseconds and arguments, one for
-- all the readings of a call; `Data` is the type of the data of a session, and a TTL that is not
-- positive is 0. A session that a caller holds is not changed behind the manager.
use zenlive.Common.{
  ℕ, String, ◌+◌, ◌==◌, List, [], ◌∷◌, ◌++◌, Option, none, some, ite, ltb, if◌then◌else◌, lookup,
  insert, erase, string_key, string_discrete,
}

pub record Session (Data : Type 0) : Type 0 where
  pub id : String
  pub user_id : String
  pub stream_id : String
  pub node_id : String
  pub created_at : ℕ
  pub expires_at : ℕ
  pub last_seen : ℕ
  pub data_of : Data

-- An index of the ids of sessions.
abbrev pub Index : Type 0
Index = List (String × List String)

pub record InMemorySessionManager (Data : Type 0) : Type 0 where
  pub sessions : List (String × Session Data)
  pub user_index : Index
  pub node_index : Index
  pub stream_index : Index
  pub session_ttl : ℕ

pub data SessionError : Type 0 where
  empty_session_id session_not_found session_expired : SessionError

-- `index[key]`, nil for a key that is missing.
abbrev pub ids_of : Option (List String) → List String
ids_of none = []
ids_of (some ids) = ids

-- `if key != "" { index[key] = append(index[key], sessionID) }`
unfoldable pub add_to_index : String → String → Index → Index
add_to_index key session_id index =
    ite (string_discrete key "") index
      (insert key (ids_of (lookup key index) ++ (session_id ∷ [])) index)

unfoldable pub without_first : String → List String → List String
without_first session_id [] = []
without_first session_id (i ∷ ids) =
    ite (string_discrete i session_id) ids (i ∷ without_first session_id ids)

-- `index[key] = ids`, or `delete(index, key)` if no id is left.
abbrev pub put_ids : String → List String → Index → Index
put_ids key [] index = erase key index
put_ids key (i ∷ ids) index = insert key (i ∷ ids) index

unfoldable pub remove_from_index : String → String → Index → Index
remove_from_index key session_id index =
    ite (string_discrete key "") index
      (put_ids key (without_first session_id (ids_of (lookup key index))) index)

module _ {Data : Type 0} where
  unfoldable pub new_in_memory_session_manager : ℕ → InMemorySessionManager Data
  new_in_memory_session_manager session_ttl = record {
    sessions = [];
    user_index = [];
    node_index = [];
    stream_index = [];
    session_ttl = if session_ttl == 0 then 1800000000000 else session_ttl;
  }

  unfoldable pub create_session :
      ℕ
      → Session Data
      → InMemorySessionManager Data
      → Option SessionError × InMemorySessionManager Data
  create_session now session ism =
      ite (string_discrete session.id "") (some empty_session_id, ism)
        (
          none,
          record ism {
            sessions =
                insert session.id
                  (record session {
                    created_at = now;
                    expires_at = now + ism.session_ttl;
                    last_seen = now;
                  })
                  ism.sessions;
            user_index = add_to_index session.user_id session.id ism.user_index;
            node_index = add_to_index session.node_id session.id ism.node_index;
            stream_index = add_to_index session.stream_id session.id ism.stream_index;
          },
        )

  unfoldable pub get_session :
      ℕ → String → InMemorySessionManager Data → (Option SessionError) × Option (Session Data)
  get_session now session_id ism = elim (lookup session_id ism.sessions) [
    | none ↦ (some session_not_found, none)
    | some session ↦
        if ltb session.expires_at now then (some session_expired, none) else (none, some session)
  ]

  unfoldable pub update_session :
      ℕ
      → Session Data
      → InMemorySessionManager Data
      → Option SessionError × InMemorySessionManager Data
  update_session now session ism = elim (lookup session.id ism.sessions) [
    | none ↦ (some session_not_found, ism)
    | some _ ↦ (
      none,
      record ism { sessions = insert session.id (record session { last_seen = now }) ism.sessions },
    )
  ]

  -- The session out of the map and out of its indexes.
  unfoldable pub drop_session :
      String → Session Data → InMemorySessionManager Data → InMemorySessionManager Data
  drop_session session_id session ism = record ism {
    sessions = erase session_id ism.sessions;
    user_index = remove_from_index session.user_id session_id ism.user_index;
    node_index = remove_from_index session.node_id session_id ism.node_index;
    stream_index = remove_from_index session.stream_id session_id ism.stream_index;
  }

  unfoldable pub delete_session :
      String → InMemorySessionManager Data → Option SessionError × InMemorySessionManager Data
  delete_session session_id ism = elim (lookup session_id ism.sessions) [
    | none ↦ (some session_not_found, ism)
    | some session ↦ (none, drop_session session_id session ism)
  ]

  -- The sessions of the ids that are there and have not expired.
  unfoldable pub sessions_of : ℕ → List String → List (String × Session Data) → List (Session Data)
  sessions_of now [] sessions = []
  sessions_of now (i ∷ ids) sessions =
      let rest = sessions_of now ids sessions in
      elim (lookup i sessions) [
        | none ↦ rest
        | some session ↦ if ltb now session.expires_at then session ∷ rest else rest
      ]

  unfoldable pub get_user_sessions : ℕ → String → InMemorySessionManager Data → List (Session Data)
  get_user_sessions now user_id ism =
      sessions_of now (ids_of (lookup user_id ism.user_index)) ism.sessions

  unfoldable pub get_node_sessions : ℕ → String → InMemorySessionManager Data → List (Session Data)
  get_node_sessions now node_id ism =
      sessions_of now (ids_of (lookup node_id ism.node_index)) ism.sessions

  unfoldable pub get_stream_sessions :
      ℕ → String → InMemorySessionManager Data → List (Session Data)
  get_stream_sessions now stream_id ism =
      sessions_of now (ids_of (lookup stream_id ism.stream_index)) ism.sessions

  unfoldable pub refresh_session :
      ℕ → String → InMemorySessionManager Data → Option SessionError × InMemorySessionManager Data
  refresh_session now session_id ism = elim (lookup session_id ism.sessions) [
    | none ↦ (some session_not_found, ism)
    | some session ↦ (
      none,
      record ism {
        sessions =
            insert session_id
              (record session { last_seen = now; expires_at = now + ism.session_ttl }) ism.sessions;
      },
    )
  ]

  -- The range over the sessions that there were at its start, with the count.
  unfoldable pub drop_expired :
      ℕ
      → List (String × Session Data)
      → ℕ × InMemorySessionManager Data
      → ℕ × InMemorySessionManager Data
  drop_expired now [] (count, ism) = (count, ism)
  drop_expired now ((session_id, session) ∷ entries) (count, ism) = drop_expired now entries (
      if ltb session.expires_at now
      then (count + 1, drop_session session_id session ism)
      else (count, ism))

  unfoldable pub cleanup_expired_sessions :
      ℕ → InMemorySessionManager Data → ℕ × InMemorySessionManager Data
  cleanup_expired_sessions now ism = drop_expired now ism.sessions (0, ism)

-- A call that changes the manager.
pub data SessionCall (Data : Type 0) : Type 0 where
  creates updates : ℕ → Session Data → SessionCall Data
  deletes : String → SessionCall Data
  refreshes : ℕ → String → SessionCall Data
  cleans : ℕ → SessionCall Data

module _ {Data : Type 0} where
  unfoldable pub session_step :
      SessionCall Data → InMemorySessionManager Data → InMemorySessionManager Data
  session_step (creates now session) ism = (create_session now session ism).1
  session_step (updates now session) ism = (update_session now session ism).1
  session_step (deletes session_id) ism = (delete_session session_id ism).1
  session_step (refreshes now session_id) ism = (refresh_session now session_id ism).1
  session_step (cleans now) ism = (cleanup_expired_sessions now ism).1

  unfoldable pub session_run :
      List (SessionCall Data) → InMemorySessionManager Data → InMemorySessionManager Data
  session_run [] ism = ism
  session_run (c ∷ cs) ism = session_run cs (session_step c ism)
