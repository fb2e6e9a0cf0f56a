-- ===== src/Room/Participant.antt =====
-- pkg/room/types.go and participant.go. Metadata values, `interface{}` in the source, are a
-- parameter: the code only stores them. A time is a number.
use zenlive.Common.{
  ℕ, String, Bool, true, false, List, [], ◌∷◌, Option, none, some, map, lookup, insert, erase,
  string_key,
}

-- A role is a string; `custom` stands for any but the three that the code knows.
pub data ParticipantRole : Type 0 where
  host speaker attendee : ParticipantRole
  custom : String → ParticipantRole

pub data ParticipantState : Type 0 where
  joining joined reconnecting disconnected : ParticipantState

pub record ParticipantPermissions : Type 0 where
  pub can_publish : Bool
  pub can_subscribe : Bool
  pub can_publish_data : Bool
  pub can_update_metadata : Bool
  pub hidden : Bool

unfoldable pub default_permissions : ParticipantRole → ParticipantPermissions
default_permissions host = record {
  can_publish = true;
  can_subscribe = true;
  can_publish_data = true;
  can_update_metadata = true;
  hidden = false;
}
default_permissions speaker = record {
  can_publish = true;
  can_subscribe = true;
  can_publish_data = true;
  can_update_metadata = false;
  hidden = false;
}
default_permissions attendee = record {
  can_publish = false;
  can_subscribe = true;
  can_publish_data = false;
  can_update_metadata = false;
  hidden = false;
}
default_permissions (custom name) = record {
  can_publish = false;
  can_subscribe = false;
  can_publish_data = false;
  can_update_metadata = false;
  hidden = false;
}

pub record MediaTrack : Type 0 where
  pub id : String
  pub kind : String
  pub source : String
  pub participant_id : String

abbrev pub Metadata : Type 0 → Type 0
Metadata Value = List (String × Value)

-- A map of tracks that is nil, as in a participant that was not made by `NewParticipant`, is none.
pub record Participant (Value : Type 0) : Type 0 where
  pub id : String
  pub user_id : String
  pub username : String
  pub joined_at : ℕ
  pub role : ParticipantRole
  pub permissions : ParticipantPermissions
  pub state : ParticipantState
  pub metadata : Metadata Value
  pub can_publish : Bool
  pub can_subscribe : Bool
  pub can_publish_data : Bool
  pub is_admin : Bool
  pub is_hidden : Bool
  pub is_recorder : Bool
  pub tracks : Option (List (String × MediaTrack))

-- A nil map reads as an empty one.
abbrev pub entries_of : Option (List (String × MediaTrack)) → List (String × MediaTrack)
entries_of none = []
entries_of (some tracks) = tracks

-- `for key, value := range updates { m[key] = value }`
unfoldable pub merge : {Value : Type 0} → Metadata Value → Metadata Value → Metadata Value
merge m [] = m
merge m ((key, value) ∷ updates) = merge (insert key value m) updates

module _ {Value : Type 0} where
  unfoldable pub new_participant :
      String → String → String → ParticipantRole → ℕ → Participant Value
  new_participant id user_id username role now = record {
    id = id;
    user_id = user_id;
    username = username;
    joined_at = now;
    role = role;
    permissions = default_permissions role;
    state = joining;
    metadata = [];
    can_publish = false;
    can_subscribe = false;
    can_publish_data = false;
    is_admin = false;
    is_hidden = false;
    is_recorder = false;
    tracks = some [];
  }

  -- `none` is the panic of an assignment to a nil map.
  unfoldable pub add_track : MediaTrack → Participant Value → Option (Participant Value)
  add_track track p = elim p.tracks [
    | none ↦ none
    | some tracks ↦ some (record p { tracks = some (insert track.id track tracks) })
  ]

  -- Whether there was such a track, and the participant without it.
  unfoldable pub remove_track : String → Participant Value → Bool × Participant Value
  remove_track track_id p = elim (lookup track_id (entries_of p.tracks)) [
    | some _ ↦ (true, record p { tracks = some (erase track_id (entries_of p.tracks)) })
    | none ↦ (false, p)
  ]

  unfoldable pub get_track : String → Participant Value → Option MediaTrack
  get_track track_id p = lookup track_id (entries_of p.tracks)

  unfoldable pub get_tracks : Participant Value → List MediaTrack
  get_tracks p = map (λ e. e.1) (entries_of p.tracks)

  unfoldable pub update_state : ParticipantState → Participant Value → Participant Value
  update_state state p = record p { state = state }

  unfoldable pub update_permissions : ParticipantPermissions → Participant Value → Participant Value
  update_permissions perms p = record p { permissions = perms }

  unfoldable pub update_metadata : Metadata Value → Participant Value → Participant Value
  update_metadata updates p = record p { metadata = merge p.metadata updates }

  -- A copy: the entries one by one into a new map.
  unfoldable pub get_metadata : Participant Value → Metadata Value
  get_metadata p = merge [] p.metadata
