-- ===== src/Room/Tracks.antt =====
-- Publishing tracks in a room of room.go: who may, and what is found afterwards.
use zenlive.Common.{
  ℕ, ◌≡◌, refl, sym, ◌∙◌, ap, String, Bool, List, true, false, not, [], none, some, lookup, insert,
  erase, string_key, lookup-insert_self, erase-insert_absent, insert-insert, insert_same, if_true,
  if_false, if◌then◌else◌, arith,
}
use zenlive.Room.Participant.{
  Participant, ParticipantRole, host, speaker, attendee, custom, default_permissions,
  new_participant, MediaTrack, joined, add_track, remove_track, entries_of, get_track, update_state,
}
use zenlive.Room.Cases.{add_cases}
use zenlive.Room.State.{
  Room, unauthorized, track_not_found, admit, add_participant, store, publish, publish_track,
  published, withdraw, unpublish_track, track_published, of_track,
}

-- The roles that publish, by the documentation's table.
abbrev pub may_publish : ParticipantRole → Bool
may_publish host = true
may_publish speaker = true
may_publish attendee = false
may_publish (custom _) = false

granted :
    (V : Type 0) (id user name : String) (role : ParticipantRole) (now : ℕ)
    → let p : Participant V = update_state joined (new_participant id user name role now) in
      p.permissions.can_publish ≡ may_publish role
unfolding update_state new_participant default_permissions
granted V id user name host now = refl
granted V id user name speaker now = refl
granted V id user name attendee now = refl
granted V id user name (custom c) now = refl

made_newcomer :
    (V : Type 0) (id user name : String) (role : ParticipantRole) (now : ℕ)
    → let p : Participant V = update_state joined (new_participant id user name role now) in
      p.tracks ≡ some []
unfolding update_state new_participant
made_newcomer V id user name role now = refl

module _ {Value : Type 0} where
  publish_present :
      (id : String) (track : MediaTrack) (p : Participant Value) (r : Room Value)
      → lookup id r.participants ≡ some p
      → publish_track id track r ≡ (
          if not p.permissions.can_publish
          then (some unauthorized, r, [])
          else published id (add_track track p) track r)
  unfolding publish_track
  publish_present id track p r e = rw (e, publish_track)

  -- A participant whose map of tracks was made gets a track.
  abbrev pub with_track :
      MediaTrack → List (String × MediaTrack) → Participant Value → Participant Value
  with_track track tracks p = record p { tracks = some (insert track.id track tracks) }

  add_track_made :
      (track : MediaTrack) (tracks : List (String × MediaTrack)) (p : Participant Value)
      → p.tracks ≡ some tracks
      → add_track track p ≡ some (with_track track tracks p)
  unfolding add_track
  add_track_made track tracks p made = rw (add_track, made) refl

  publish_allowed :
      (id : String) (track : MediaTrack) (tracks : List (String × MediaTrack))
      (p : Participant Value) (r : Room Value)
      → lookup id r.participants ≡ some p
      → p.permissions.can_publish ≡ true
      → p.tracks ≡ some tracks
      → publish_track id track r
        ≡ (none, store id (with_track track tracks p) r, publish r track_published (of_track track))
  unfolding published
  publish_allowed id track tracks p r e may made =
      publish_present id track p r e
      ∙ if_false (not p.permissions.can_publish) _ _ (ground arith)
      ∙ ap (λ o. published id o track r) (add_track_made track tracks p made)

  unpublish_present :
      (id track_id : String) (t : MediaTrack) (p : Participant Value) (r : Room Value)
      → lookup id r.participants ≡ some p
      → get_track track_id p ≡ some t
      → unpublish_track id track_id r ≡ withdraw id track_id p t r
  unfolding unpublish_track
  unpublish_present id track_id t p r e f = rw (e, unpublish_track, f)

  unpublish_gone :
      (id track_id : String) (p : Participant Value) (r : Room Value)
      → lookup id r.participants ≡ some p
      → get_track track_id p ≡ none
      → unpublish_track id track_id r ≡ (some track_not_found, r, [])
  unfolding unpublish_track
  unpublish_gone id track_id p r e f = rw (e, unpublish_track, f)

  -- The track that was added is there; the participant without it is what it was, if it was new.
  get_track-with_track :
      (track : MediaTrack) (tracks : List (String × MediaTrack)) (p : Participant Value)
      → get_track track.id (with_track track tracks p) ≡ some track
  unfolding get_track
  get_track-with_track track tracks p = lookup-insert_self track.id track tracks

  remove_track_present :
      (id : String) (t : MediaTrack) (p : Participant Value)
      → lookup id (entries_of p.tracks) ≡ some t
      → remove_track id p ≡ (true, record p { tracks = some (erase id (entries_of p.tracks)) })
  unfolding remove_track
  remove_track_present id t p e = rw (e, remove_track)

  remove_track-with_track :
      (track : MediaTrack) (tracks : List (String × MediaTrack)) (p : Participant Value)
      → p.tracks ≡ some tracks
      → lookup track.id tracks ≡ none
      → (remove_track track.id (with_track track tracks p)).1 ≡ p
  remove_track-with_track track tracks p made e =
      ap (λ x. x.1)
        (remove_track_present track.id track (with_track track tracks p)
          (lookup-insert_self track.id track tracks))
      ∙ ap (λ ts. record p { tracks = ts })
          (ap some (erase-insert_absent track.id track tracks e) ∙ sym made)

  -- A participant with the permission, whose map of tracks was made, publishes a new track: the
  -- track is found with the participant, to unpublish it leads back to the very room there was, and
  -- to unpublish it once more is refused.
  pub unpublish_track-publish_track :
      (id : String) (track : MediaTrack) (tracks : List (String × MediaTrack))
      (p : Participant Value) (r : Room Value)
      → lookup id r.participants ≡ some p
      → p.permissions.can_publish ≡ true
      → p.tracks ≡ some tracks
      → lookup track.id tracks ≡ none
      → let (e, r', _) = publish_track id track r in
        let (e', r'', _) = unpublish_track id track.id r' in
        (e ≡ none)
        × (lookup id r'.participants ≡ some (with_track track tracks p))
        × (get_track track.id (with_track track tracks p) ≡ some track)
        × (e' ≡ none)
        × (r'' ≡ r)
        × ((unpublish_track id track.id r'').0 ≡ some track_not_found)
  unfolding withdraw get_track
  unpublish_track-publish_track id track tracks p r here may made new =
      let p' = with_track track tracks p in
      let found = lookup-insert_self id p' r.participants in
      let back : insert id (remove_track track.id p').1 (insert id p' r.participants)
          ≡ r.participants =
        rw (remove_track-with_track track tracks p made new, insert-insert)
          (insert_same id p r.participants here) in
      let taken =
        unpublish_present id track.id track p' (store id p' r) found
          (get_track-with_track track tracks p) in
      let gone : get_track track.id p ≡ none =
        ap (λ ts. lookup track.id (entries_of ts)) made ∙ new in
      rw (publish_allowed id track tracks p r here may made) (
        refl,
        found,
        get_track-with_track track tracks p,
        rw taken,
        rw taken (ap (λ ps. record r { participants = ps }) back),
        rw taken (rw back (rw (unpublish_gone id track.id p r here gone))),
      )

  publish_refused :
      (id : String) (track : MediaTrack) (p : Participant Value) (r : Room Value)
      → lookup id r.participants ≡ some p
      → p.permissions.can_publish ≡ false
      → publish_track id track r ≡ (some unauthorized, r, [])
  publish_refused id track p r e may =
      publish_present id track p r e ∙ if_true (not p.permissions.can_publish) _ _ (ground arith)

  publish_by :
      (may : Bool) (id : String) (track : MediaTrack) (tracks : List (String × MediaTrack))
      (p : Participant Value) (r : Room Value)
      → p.tracks ≡ some tracks
      → lookup id r.participants ≡ some p
      → p.permissions.can_publish ≡ may
      → ((publish_track id track r).0 ≡ (if may then none else some unauthorized))
        × (may ≡ false → (publish_track id track r).1 ≡ r)
  publish_by true id track tracks p r made e m =
      (ap (λ x. x.0) (publish_allowed id track tracks p r e m made), λ h. cc)
  publish_by false id track tracks p r made e m = (
    ap (λ x. x.0) (publish_refused id track p r e m),
    λ _. ap (λ x. x.1) (publish_refused id track p r e m),
  )

  newcomer :
      (id user name : String) (role : ParticipantRole) (now : ℕ) (r : Room Value)
      → let p : Participant Value = new_participant id user name role now in
        lookup id (admit p r).1.participants ≡ some (update_state joined p)
  unfolding admit new_participant
  newcomer id user name role now r = lookup-insert_self id _ r.participants

  -- A newcomer that a room admits publishes by its role: a host's or a speaker's tracks are
  -- accepted, an attendee's and those of any other role are refused, and a refusal leaves the room
  -- as it was.
  pub publish_track-new_participant :
      (id user name : String) (role : ParticipantRole) (now : ℕ) (track : MediaTrack)
      (r : Room Value)
      → let p : Participant Value = new_participant id user name role now in
        let (e, r', _) = add_participant p r in
        let (e', r'', _) = publish_track id track r' in
        e ≡ none
        → (e' ≡ (if may_publish role then none else some unauthorized))
          × (may_publish role ≡ false → r'' ≡ r')
  publish_track-new_participant id user name role now track r =
      add_cases
        (λ x.
          x.0 ≡ none
          → ((publish_track id track x.1).0
              ≡ (if may_publish role then none else some unauthorized))
            × (may_publish role ≡ false → (publish_track id track x.1).1 ≡ x.1))
        r (new_participant id user name role now) (λ _ h. cc) (λ _ _ _ h. cc) (λ _ _ _ h. cc)
        (λ _ _ _ _.
          publish_by (may_publish role) id track [] _ _ (made_newcomer Value id user name role now)
            (newcomer id user name role now r) (granted Value id user name role now))
