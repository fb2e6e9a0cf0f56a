-- ===== src/Room/Invariant.antt =====
-- The well-formedness of a room of room.go, kept by every operation and so by every history.
use zenlive.Common.{
  sym, ◌∙◌, ap, inl, inr, Option, Option-cases, insert, ℕ, ◌<◌, ◌≤◌, ◌≡◌, refl, String, Bool, true,
  false, List, [], ◌∷◌, none, some, length, lookup, string_key, Distinct, AllEntries,
  insert-Distinct, erase-Distinct, insert-AllEntries, erase-AllEntries, length-insert_new,
  length-insert_old, length-erase, if_cases, ltb, ◌==◌, ◌&&◌, not, lookup-AllEntries, arith,
}
use zenlive.Room.Participant.{
  Participant, ParticipantPermissions, MediaTrack, joined, add_track, remove_track, update_state,
  update_permissions,
}
use zenlive.Room.Cases.{add_cases, remove_cases, permit_cases, publish_cases, unpublish_cases}
use zenlive.Room.State.{
  Room, is_full, CreateRoomRequest, Call, adds, removes, permits, describes, publishes, unpublishes,
  closes, new_room, admit, dismiss, start_empty_timer, after_leave, store, update_metadata,
  withdraw, close, step, run,
}

-- Participants stand under their own ids, once each, and within the room's limit; the timer is set
-- only while an open room with a timeout is empty; and a closed room is empty.
pub record IsValid {Value : Type 0} (r : Room Value) : Type 0 where
  pub distinct : Distinct r.participants
  pub keyed : AllEntries (λ id p. p.id ≡ id) r.participants
  pub bounded : 0 < r.max_participants → length r.participants ≤ r.max_participants
  pub timed :
      r.empty_timer ≡ true
      → (length r.participants ≡ 0) × (0 < r.empty_timeout) × (r.is_closed ≡ false)
  pub cleared : r.is_closed ≡ true → length r.participants ≡ 0

module _ {Value : Type 0} where
  pub new_room-IsValid :
      (req : CreateRoomRequest Value) (by id : String) (bus : Bool) (now : ℕ)
      → IsValid (new_room req by bus id now)
  unfolding new_room
  new_room-IsValid req by id bus now = record {
    distinct = tt;
    keyed = tt;
    bounded = λ h. omega arith;
    timed = λ e. cc;
    cleared = λ e. refl;
  }

  -- A change to a participant under its id.
  store-IsValid :
      (id : String) (old new : Participant Value) (r : Room Value)
      → lookup id r.participants ≡ some old
      → new.id ≡ id
      → IsValid r
      → IsValid (store id new r)
  store-IsValid id old new r e k v =
      let n : length (insert id new r.participants) ≡ length r.participants =
        length-insert_old id new old r.participants e in
      record {
        distinct = insert-Distinct id new r.participants v.distinct;
        keyed = insert-AllEntries (λ j p. p.id ≡ j) id new r.participants k v.keyed;
        bounded = λ h. rw n (v.bounded h);
        timed = λ h. rw n (v.timed h);
        cleared = λ h. rw n (v.cleared h);
      }

  keyed_id :
      (id : String) (p : Participant Value) (r : Room Value)
      → lookup id r.participants ≡ some p
      → IsValid r
      → p.id ≡ id
  keyed_id id p r e v = lookup-AllEntries (λ j q. q.id ≡ j) id p r.participants v.keyed e

  -- The id of a participant that is there.
  abbrev id_of : String → Option (Participant Value) → String
  id_of id none = id
  id_of id (some p) = p.id

  add_track-id :
      (track : MediaTrack) (p p' : Participant Value) → add_track track p ≡ some p' → p'.id ≡ p.id
  unfolding add_track
  add_track-id track p p' e = elim (Option-cases p.tracks) [
    | inl nil ↦ absurd (let n : add_track track p ≡ none = rw (add_track, nil) refl in cc)
    | inr (tracks, made) ↦
        let n : add_track track p
            ≡ some (record p { tracks = some (insert track.id track tracks) }) =
          rw (add_track, made) refl in
        ap (λ o. id_of p.id o) (sym e ∙ n)
  ]

  remove_track-id : (id : String) (p : Participant Value) → (remove_track id p).1.id ≡ p.id
  unfolding remove_track
  remove_track-id id p = ground arith

  update_permissions-id :
      (perms : ParticipantPermissions) (p : Participant Value)
      → (update_permissions perms p).id ≡ p.id
  unfolding update_permissions
  update_permissions-id perms p = refl

  admit-IsValid :
      (p : Participant Value) (r : Room Value)
      → r.is_closed ≡ false
      → lookup p.id r.participants ≡ none
      → is_full r ≡ false
      → IsValid r
      → IsValid (admit p r).1
  unfolding admit update_state
  admit-IsValid p r o e f v =
      let n = length-insert_new p.id (update_state joined p) r.participants e in
      record {
        distinct = insert-Distinct p.id _ r.participants v.distinct;
        keyed = insert-AllEntries (λ j q. q.id ≡ j) p.id _ r.participants refl v.keyed;
        bounded = λ h. rw n (ground arith);
        timed = λ h. cc;
        cleared = λ h. cc;
      }

  after_leave-IsValid : (r : Room Value) → IsValid r → IsValid (after_leave r)
  unfolding after_leave start_empty_timer
  after_leave-IsValid r v =
      if_cases IsValid ((length r.participants == 0) && (ltb 0 r.empty_timeout && not r.is_closed))
        (start_empty_timer r) r
        (λ t. record {
          distinct = v.distinct;
          keyed = v.keyed;
          bounded = v.bounded;
          timed = λ _. ground arith;
          cleared = v.cleared;
        })
        (λ _. v)

  dismiss-IsValid :
      (id : String) (p : Participant Value) (r : Room Value)
      → lookup id r.participants ≡ some p
      → IsValid r
      → IsValid (dismiss id p r).1
  unfolding dismiss
  dismiss-IsValid id p r e v =
      let n = length-erase id p r.participants v.distinct e in
      after_leave-IsValid _ (record {
        distinct = erase-Distinct id r.participants v.distinct;
        keyed = erase-AllEntries (λ j q. q.id ≡ j) id r.participants v.keyed;
        bounded = λ h. omega (arith, v.bounded h, n);
        timed = λ h. absurd (omega (arith, (v.timed h).0, n));
        cleared = λ h. absurd (omega (arith, v.cleared h, n));
      })

  close-IsValid : (r : Room Value) → IsValid r → IsValid (close r)
  unfolding close
  close-IsValid r v =
      if_cases IsValid r.is_closed _ _ (λ c. v)
        λ o. record {
          distinct = tt;
          keyed = tt;
          bounded = λ h. omega arith;
          timed = λ h. cc;
          cleared = λ h. refl;
        }

  -- Every operation keeps a room well formed, whatever it returns.
  pub step-IsValid : (c : Call Value) (r : Room Value) → IsValid r → IsValid (step c r).1
  unfolding step update_metadata withdraw
  step-IsValid (adds p) r v =
      add_cases (λ x. IsValid x.1) r p (λ _. v) (λ _ _ _. v) (λ _ _ _. v)
        λ o e f. admit-IsValid p r o e f v
  step-IsValid (removes id) r v =
      remove_cases (λ x. IsValid x.1) r id (λ _. v) (λ p e. dismiss-IsValid id p r e v)
  step-IsValid (permits id perms) r v =
      permit_cases (λ x. IsValid x.1) r id perms (λ _. v)
        λ p e. store-IsValid id p _ r e (update_permissions-id perms p ∙ keyed_id id p r e v) v
  step-IsValid (describes m) r v = record {
    distinct = v.distinct;
    keyed = v.keyed;
    bounded = v.bounded;
    timed = v.timed;
    cleared = v.cleared;
  }
  step-IsValid (publishes id track) r v =
      publish_cases (λ x. IsValid x.1) r id track (λ _. v) (λ _ _ _. v) (λ _ _ _ _. v)
        λ p p' e _ made.
          store-IsValid id p _ r e (add_track-id track p p' made ∙ keyed_id id p r e v) v
  step-IsValid (unpublishes id track_id) r v =
      unpublish_cases (λ x. IsValid x.1) r id track_id (λ _. v) (λ _ _ _. v)
        λ p t e _. store-IsValid id p _ r e (remove_track-id track_id p ∙ keyed_id id p r e v) v
  step-IsValid closes r v = close-IsValid r v

  run-IsValid : (cs : List (Call Value)) (r : Room Value) → IsValid r → IsValid (run cs r).0
  unfolding run
  run-IsValid [] r v = v
  run-IsValid (c ∷ cs) r v = run-IsValid cs (step c r).1 (step-IsValid c r v)

  -- A room is well formed after every history of calls: it has never more participants than its
  -- limit, none twice, and its timer is set only while it is open and empty.
  pub run-new_room-IsValid :
      (req : CreateRoomRequest Value) (by id : String) (bus : Bool) (now : ℕ)
      (cs : List (Call Value))
      → IsValid (run cs (new_room req by bus id now)).0
  run-new_room-IsValid req by id bus now cs = run-IsValid cs _ (new_room-IsValid req by id bus now)
