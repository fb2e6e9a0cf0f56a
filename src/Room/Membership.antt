-- ===== src/Room/Membership.antt =====
-- Who is in a room of room.go: joining, leaving, and the events that tell of it.
use zenlive.Common.{
  ◌≡◌, ◌∙◌, ap, String, [], none, some, lookup, string_key, erase-insert_absent, lookup-insert_self,
  arith,
}
use zenlive.Room.Participant.{Participant, joined, update_state}
use zenlive.Room.Cases.{add_cases}
use zenlive.Room.State.{
  Room, participant_not_found, admit, add_participant, dismiss, after_leave, start_empty_timer,
  remove_participant,
}

module _ {Value : Type 0} where
  after_leave-participants : (r : Room Value) → (after_leave r).participants ≡ r.participants
  unfolding after_leave start_empty_timer
  after_leave-participants r = ground arith

  remove_present :
      (id : String) (p : Participant Value) (r : Room Value)
      → lookup id r.participants ≡ some p
      → remove_participant id r ≡ dismiss id p r
  unfolding remove_participant
  remove_present id p r e = rw (e, remove_participant)

  remove_absent :
      (id : String) (r : Room Value)
      → lookup id r.participants ≡ none
      → remove_participant id r ≡ (some participant_not_found, r, [])
  unfolding remove_participant
  remove_absent id r e = rw (e, remove_participant)

  admit_leave :
      (p : Participant Value) (r : Room Value)
      → lookup p.id r.participants ≡ none
      → let joined_room = (admit p r).1 in
        let (e, left, _) = remove_participant p.id joined_room in
        (lookup p.id joined_room.participants ≡ some (update_state joined p))
        × (e ≡ none)
        × (left.participants ≡ r.participants)
        × ((remove_participant p.id left).0 ≡ some participant_not_found)
  unfolding admit dismiss
  admit_leave p r absent =
      let found = lookup-insert_self p.id (update_state joined p) r.participants in
      let here = remove_present p.id (update_state joined p) (admit p r).1 found in
      let left = (dismiss p.id (update_state joined p) (admit p r).1).1 in
      let gone : left.participants ≡ r.participants =
        after_leave-participants _ ∙ erase-insert_absent p.id _ r.participants absent in
      (
        found,
        rw here,
        rw here gone,
        rw here (ap (λ x. x.0) (remove_absent p.id left (rw gone absent))),
      )

  -- A participant that a room admits is found there, in the state `joined`, and the room with it
  -- goes back to the same participants when it leaves; leaving once more is refused.
  pub remove_participant-add_participant :
      (p : Participant Value) (r : Room Value)
      → let (e, r', _) = add_participant p r in
        let (e', r'', _) = remove_participant p.id r' in
        e ≡ none
        → (lookup p.id r'.participants ≡ some (update_state joined p))
          × (e' ≡ none)
          × (r''.participants ≡ r.participants)
          × ((remove_participant p.id r'').0 ≡ some participant_not_found)
  remove_participant-add_participant p r =
      add_cases
        (λ x.
          let (e, r', _) = x in
          let (e', r'', _) = remove_participant p.id r' in
          e ≡ none
          → (lookup p.id r'.participants ≡ some (update_state joined p))
            × (e' ≡ none)
            × (r''.participants ≡ r.participants)
            × ((remove_participant p.id r'').0 ≡ some participant_not_found))
        r p (λ _. λ h. cc) (λ _ _ _. λ h. cc) (λ _ _ _. λ h. cc)
        (λ _ absent _. λ _. admit_leave p r absent)
