-- ===== src/Room/State.antt =====
-- `Room` of pkg/room/room.go. The map of participants holds the participants themselves, which
-- only the room's operations change here. An operation returns its error, the room after it and
-- the events that it publishes; the logger is left out.
use zenlive.Common.{
  ℕ, String, Bool, true, false, not, ◌&&◌, List, [], ◌∷◌, ◌++◌, Option, none, some, map, length,
  ltb, leb, ◌==◌, if◌then◌else◌, lookup, insert, erase, string_key,
}
use zenlive.Room.Participant.{
  Participant, ParticipantPermissions, MediaTrack, Metadata, joined, disconnected, merge, add_track,
  remove_track, get_track, update_state, update_permissions,
}

-- The errors, and a panic.
pub data RoomError : Type 0 where
  room_closed room_full participant_exists participant_not_found unauthorized track_not_found
        panicked :
      RoomError

-- `MaxParticipants` and `EmptyTimeout` are compared with 0 only: a negative one counts as 0.
-- `event_bus` tells whether there is a bus, and `empty_timer` whether a timer is set.
pub record Room (Value : Type 0) : Type 0 where
  pub id : String
  pub name : String
  pub created_at : ℕ
  pub created_by : String
  pub max_participants : ℕ
  pub empty_timeout : ℕ
  pub metadata : Metadata Value
  pub participants : List (String × Participant Value)
  pub event_bus : Bool
  pub empty_timer : Bool
  pub is_closed : Bool

pub record CreateRoomRequest (Value : Type 0) : Type 0 where
  pub name : String
  pub max_participants : ℕ
  pub empty_timeout : ℕ
  pub metadata : Metadata Value

pub data RoomEventType : Type 0 where
  room_created room_deleted participant_joined participant_left : RoomEventType
  participant_updated track_published track_unpublished metadata_updated : RoomEventType

-- The data of an event, as it is when the event is made.
pub data EventData (Value : Type 0) : Type 0 where
  of_room : Room Value → EventData Value
  of_participant : Participant Value → EventData Value
  of_track : MediaTrack → EventData Value
  of_metadata : Metadata Value → EventData Value

pub record RoomEvent (Value : Type 0) : Type 0 where
  pub type : RoomEventType
  pub room_id : String
  pub payload : EventData Value

abbrev pub Step : Type 0 → Type 0
Step Value = Option RoomError × Room Value × List (RoomEvent Value)

module _ {Value : Type 0} where
  abbrev pub create_event : RoomEventType → String → EventData Value → RoomEvent Value
  create_event type room_id payload = record { type = type; room_id = room_id; payload = payload }

  -- `if r.eventBus != nil { r.eventBus.Publish(…) }`
  abbrev pub publish : Room Value → RoomEventType → EventData Value → List (RoomEvent Value)
  publish r type payload = if r.event_bus then create_event type r.id payload ∷ [] else []

  -- `uuid.New().String()` and `time.Now()` are arguments.
  unfoldable pub new_room : CreateRoomRequest Value → String → Bool → String → ℕ → Room Value
  new_room req created_by event_bus room_id now = record {
    id = room_id;
    name = req.name;
    created_at = now;
    created_by = created_by;
    max_participants = req.max_participants;
    empty_timeout = req.empty_timeout;
    metadata = req.metadata;
    participants = [];
    event_bus = event_bus;
    empty_timer = false;
    is_closed = false;
  }

  abbrev pub is_full : Room Value → Bool
  is_full r = ltb 0 r.max_participants && leb r.max_participants (length r.participants)

  -- The branch of `AddParticipant` that admits: the timer is stopped.
  unfoldable pub admit : Participant Value → Room Value → Step Value
  admit p r =
      let p' = update_state joined p in
      let r' : Room Value = record r {
        empty_timer = false;
        participants = insert p.id p' r.participants;
      } in
      (none, r', publish r' participant_joined (of_participant p'))

  unfoldable pub add_participant : Participant Value → Room Value → Step Value
  add_participant p r =
      if r.is_closed then (some room_closed, r, []) else elim (lookup p.id r.participants) [
        | some _ ↦ (some participant_exists, r, [])
        | none ↦ if is_full r then (some room_full, r, []) else admit p r
      ]

  -- `startEmptyTimer`: an old timer is replaced.
  unfoldable pub start_empty_timer : Room Value → Room Value
  start_empty_timer r = record r { empty_timer = true }

  -- The end of `RemoveParticipant`: the timer, if the room is empty now.
  unfoldable pub after_leave : Room Value → Room Value
  after_leave r =
      if (length r.participants == 0) && (ltb 0 r.empty_timeout && not r.is_closed)
      then start_empty_timer r
      else r

  -- The branch of `RemoveParticipant` that finds the participant.
  unfoldable pub dismiss : String → Participant Value → Room Value → Step Value
  dismiss participant_id participant r =
      let participant' = update_state disconnected participant in
      let r' : Room Value = record r { participants = erase participant_id r.participants } in
      (none, after_leave r', publish r' participant_left (of_participant participant'))

  unfoldable pub remove_participant : String → Room Value → Step Value
  remove_participant participant_id r = elim (lookup participant_id r.participants) [
    | none ↦ (some participant_not_found, r, [])
    | some participant ↦ dismiss participant_id participant r
  ]

  unfoldable pub get_participant : String → Room Value → Option (Participant Value)
  get_participant participant_id r = lookup participant_id r.participants

  unfoldable pub list_participants : Room Value → List (Participant Value)
  list_participants r = map (λ e. e.1) r.participants

  unfoldable pub get_participant_count : Room Value → ℕ
  get_participant_count r = length r.participants

  -- A change to a participant through the map's pointer.
  abbrev pub store : String → Participant Value → Room Value → Room Value
  store participant_id p r = record r { participants = insert participant_id p r.participants }

  unfoldable pub update_participant_permissions :
      String → ParticipantPermissions → Room Value → Step Value
  update_participant_permissions participant_id perms r =
      elim (lookup participant_id r.participants) [
        | none ↦ (some participant_not_found, r, [])
        | some participant ↦ (
          none,
          store participant_id (update_permissions perms participant) r,
          publish r participant_updated (of_participant (update_permissions perms participant)),
        )
      ]

  unfoldable pub update_metadata : Metadata Value → Room Value → Step Value
  update_metadata metadata r = (
    none,
    record r { metadata = merge r.metadata metadata },
    publish r metadata_updated (of_metadata metadata),
  )

  -- The end of `PublishTrack`, with what `AddTrack` made of the participant.
  unfoldable pub published :
      String → Option (Participant Value) → MediaTrack → Room Value → Step Value
  published participant_id none track r = (some panicked, r, [])
  published participant_id (some p) track r =
      (none, store participant_id p r, publish r track_published (of_track track))

  unfoldable pub publish_track : String → MediaTrack → Room Value → Step Value
  publish_track participant_id track r = elim (lookup participant_id r.participants) [
    | none ↦ (some participant_not_found, r, [])
    | some participant ↦
        if not participant.permissions.can_publish
        then (some unauthorized, r, [])
        else published participant_id (add_track track participant) track r
  ]

  -- The branch of `UnpublishTrack` that finds the track.
  unfoldable pub withdraw :
      String → String → Participant Value → MediaTrack → Room Value → Step Value
  withdraw participant_id track_id participant track r = (
    none,
    store participant_id (remove_track track_id participant).1 r,
    publish r track_unpublished (of_track track),
  )

  unfoldable pub unpublish_track : String → String → Room Value → Step Value
  unpublish_track participant_id track_id r = elim (lookup participant_id r.participants) [
    | none ↦ (some participant_not_found, r, [])
    | some participant ↦ elim (get_track track_id participant) [
      | none ↦ (some track_not_found, r, [])
      | some track ↦ withdraw participant_id track_id participant track r
    ]
  ]

  unfoldable pub close : Room Value → Room Value
  close r =
      if r.is_closed
      then r
      else record r { is_closed = true; empty_timer = false; participants = [] }

  unfoldable pub is_empty : Room Value → Bool
  is_empty r = length r.participants == 0

-- A call of one of the room's operations, and what it does.
pub data Call (Value : Type 0) : Type 0 where
  adds : Participant Value → Call Value
  removes : String → Call Value
  permits : String → ParticipantPermissions → Call Value
  describes : Metadata Value → Call Value
  publishes : String → MediaTrack → Call Value
  unpublishes : String → String → Call Value
  closes : Call Value

unfoldable pub step : {Value : Type 0} → Call Value → Room Value → Step Value
step (adds p) r = add_participant p r
step (removes id) r = remove_participant id r
step (permits id perms) r = update_participant_permissions id perms r
step (describes m) r = update_metadata m r
step (publishes id track) r = publish_track id track r
step (unpublishes id track_id) r = unpublish_track id track_id r
step closes r = (none, close r, [])

-- Calls one after the other: the room after them, and all the events.
unfoldable pub run :
    {Value : Type 0} → List (Call Value) → Room Value → Room Value × List (RoomEvent Value)
run [] r = (r, [])
run (c ∷ cs) r =
    let (_, r', events) = step c r in let (r'', later) = run cs r' in (r'', events ++ later)
