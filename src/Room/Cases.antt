-- ===== src/Room/Cases.antt =====
-- The branches of the operations of room.go, as rules: what holds on every branch, under the
-- branch's conditions, holds of the operation.
use zenlive.Common.{
  ◌≡◌, String, true, false, not, [], none, some, lookup, string_key, Option-cases, if_cases, arith,
  inl, inr,
}
use zenlive.Room.Participant.{
  Participant, ParticipantPermissions, MediaTrack, add_track, get_track, update_permissions,
}
use zenlive.Room.State.{
  Room, room_closed, room_full, participant_exists, participant_not_found, unauthorized, panicked,
  published, track_not_found, participant_updated, track_published, of_participant, of_track,
  publish, is_full, Step, admit, add_participant, dismiss, remove_participant, store,
  update_participant_permissions, publish_track, withdraw, unpublish_track,
}

module _ {ℓ} {Value : Type 0} (P : Step Value → Type ℓ) (r : Room Value) where
  pub add_cases :
      (p : Participant Value)
      → (r.is_closed ≡ true → P (some room_closed, r, []))
      → ((q : Participant Value)
          → r.is_closed ≡ false
          → lookup p.id r.participants ≡ some q
          → P (some participant_exists, r, []))
      → (r.is_closed ≡ false
          → lookup p.id r.participants ≡ none
          → is_full r ≡ true
          → P (some room_full, r, []))
      → (r.is_closed ≡ false
          → lookup p.id r.participants ≡ none
          → is_full r ≡ false
          → P (admit p r))
      → P (add_participant p r)
  unfolding add_participant
  add_cases p closed exists full admitted = if_cases P r.is_closed _ _ closed λ o.
      elim (Option-cases (lookup p.id r.participants)) [
        | inr (q, e) ↦ rw e (exists q o e)
        | inl e ↦ rw e (if_cases P (is_full r) _ _ (full o e) (admitted o e))
      ]

  pub remove_cases :
      (id : String)
      → (lookup id r.participants ≡ none → P (some participant_not_found, r, []))
      → ((p : Participant Value) → lookup id r.participants ≡ some p → P (dismiss id p r))
      → P (remove_participant id r)
  unfolding remove_participant
  remove_cases id missing found = elim (Option-cases (lookup id r.participants)) [
    | inl e ↦ rw (e, remove_participant) (missing e)
    | inr (p, e) ↦ rw (e, remove_participant) (found p e)
  ]

  pub permit_cases :
      (id : String) (perms : ParticipantPermissions)
      → (lookup id r.participants ≡ none → P (some participant_not_found, r, []))
      → ((p : Participant Value)
          → lookup id r.participants ≡ some p
          → P (
            none,
            store id (update_permissions perms p) r,
            publish r participant_updated (of_participant (update_permissions perms p)),
          ))
      → P (update_participant_permissions id perms r)
  unfolding update_participant_permissions
  permit_cases id perms missing found = elim (Option-cases (lookup id r.participants)) [
    | inl e ↦ rw (e, update_participant_permissions) (missing e)
    | inr (p, e) ↦ rw (e, update_participant_permissions) (found p e)
  ]

  pub publish_cases :
      (id : String) (track : MediaTrack)
      → (lookup id r.participants ≡ none → P (some participant_not_found, r, []))
      → ((p : Participant Value)
          → lookup id r.participants ≡ some p
          → p.permissions.can_publish ≡ false
          → P (some unauthorized, r, []))
      → ((p : Participant Value)
          → lookup id r.participants ≡ some p
          → p.permissions.can_publish ≡ true
          → add_track track p ≡ none
          → P (some panicked, r, []))
      → ((p p' : Participant Value)
          → lookup id r.participants ≡ some p
          → p.permissions.can_publish ≡ true
          → add_track track p ≡ some p'
          → P (none, store id p' r, publish r track_published (of_track track)))
      → P (publish_track id track r)
  unfolding publish_track published
  publish_cases id track missing refused crashed allowed =
      elim (Option-cases (lookup id r.participants)) [
        | inl e ↦ rw (e, publish_track) (missing e)
        | inr (p, e) ↦
            rw (e, publish_track)
              (if_cases P (not p.permissions.can_publish) _ _ (λ n. refused p e (ground arith))
                (λ n. elim (Option-cases (add_track track p)) [
                  | inl nil ↦ rw (nil, published) (crashed p e (ground arith) nil)
                  | inr (p', made) ↦ rw (made, published) (allowed p p' e (ground arith) made)
                ]))
      ]

  pub unpublish_cases :
      (id track_id : String)
      → (lookup id r.participants ≡ none → P (some participant_not_found, r, []))
      → ((p : Participant Value)
          → lookup id r.participants ≡ some p
          → get_track track_id p ≡ none
          → P (some track_not_found, r, []))
      → ((p : Participant Value) (t : MediaTrack)
          → lookup id r.participants ≡ some p
          → get_track track_id p ≡ some t
          → P (withdraw id track_id p t r))
      → P (unpublish_track id track_id r)
  unfolding unpublish_track
  unpublish_cases id track_id missing absent found =
      elim (Option-cases (lookup id r.participants)) [
        | inl e ↦ rw (e, unpublish_track) (missing e)
        | inr (p, e) ↦ elim (Option-cases (get_track track_id p)) [
          | inl n ↦ rw (e, unpublish_track, n) (absent p e n)
          | inr (t, y) ↦ rw (e, unpublish_track, y) (found p t e y)
        ]
      ]
