-- ===== src/Cluster/SessionTests.antt =====
-- Sessions of two users, one of which expires.
use zenlive.Common.{
  ℕ, String, ◌≡◌, refl, [], ◌∷◌, List, some, lookup, insert, erase, string_key, string_discrete,
}
use zenlive.Cluster.Sessions.{
  Session, InMemorySessionManager, SessionCall, creates, updates, refreshes, cleans, add_to_index,
  without_first, remove_from_index, new_in_memory_session_manager, create_session, update_session,
  drop_session, delete_session, refresh_session, drop_expired, cleanup_expired_sessions,
  sessions_of, get_user_sessions, session_step, session_run,
}
use zenlive.Cluster.Membership.{IsIndexed}
use zenlive.Cluster.SessionHistory.{
  AllPermitted, session_run-new_in_memory_session_manager-IsIndexed,
}

program : Unit {0}
unfolding add_to_index without_first remove_from_index new_in_memory_session_manager create_session
    update_session drop_session delete_session refresh_session drop_expired cleanup_expired_sessions
    sessions_of get_user_sessions session_step session_run lookup insert erase string_discrete
program = tt

abbrev session : String → String → Session ℕ
session id user_id = record {
  id = id;
  user_id = user_id;
  stream_id = "";
  node_id = "n1";
  created_at = 0;
  expires_at = 0;
  last_seen = 0;
  data_of = 0;
}

-- The sessions live for 10 units; that of bob is not refreshed.
abbrev calls : List (SessionCall ℕ)
calls =
    creates 1 (session "a" "ann")
    ∷ creates 2 (session "b" "bob")
    ∷ updates 3 (session "b" "bob")
    ∷ refreshes 8 "a"
    ∷ cleans 13
    ∷ []

permitted : AllPermitted calls (new_in_memory_session_manager 10)
unfolding program
permitted = (refl, (refl, ((refl, refl, refl), (tt, (tt, tt)))))

session_run-new_in_memory_session_manager-IsIndexed_example :
    IsIndexed (session_run calls (new_in_memory_session_manager 10))
session_run-new_in_memory_session_manager-IsIndexed_example =
    session_run-new_in_memory_session_manager-IsIndexed calls 10 permitted

-- An update that gives the session to another user leaves the index as it was.
abbrev moved_session : InMemorySessionManager ℕ
moved_session =
    session_run (creates 1 (session "a" "ann") ∷ updates 2 (session "a" "bob") ∷ [])
      (new_in_memory_session_manager 10)

stale :
    (get_user_sessions 0 "bob" moved_session ≡ [])
    × (lookup "ann" moved_session.user_index ≡ some ("a" ∷ []))
unfolding program
stale = (refl, refl)
