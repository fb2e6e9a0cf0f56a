-- ===== src/Room/Tests.antt =====
-- Runs of rooms, of their event bus and of the manager on small inputs.
use zenlive.Common.{
  ℕ, ◌≡◌, ◌+◌, refl, string_discrete, string_key, true, false, List, [], ◌∷◌, ◌++◌, none, some,
  length, lookup, insert, erase, ite, Distinct,
}
use zenlive.Room.Accounting.{is_join, is_leave, tally, length-run}
use zenlive.Room.Bus.{EventBus, deliver, subscribe, type_discrete, type_key, deliver-subscribe}
use zenlive.Room.Invariant.{IsValid, run-new_room-IsValid}
use zenlive.Room.Manager.{RoomManager, ManagerCall, creates, cleans, calls}
use zenlive.Room.Participant.{
  Participant, MediaTrack, host, attendee, new_participant, joined, add_track, get_track,
  update_state, default_permissions,
}
use zenlive.Room.State.{
  Room, CreateRoomRequest, Call, adds, removes, RoomEvent, participant_joined, participant_left,
  of_participant, track_not_found, panicked, room_full, new_room, add_participant, admit,
  remove_participant, dismiss, after_leave, start_empty_timer, publish_track, published,
  unpublish_track, run, step, close,
}
use zenlive.Room.Tracks.{with_track, unpublish_track-publish_track}

program : Unit {0}
unfolding new_room add_participant admit update_state new_participant default_permissions
    remove_participant dismiss after_leave start_empty_timer run step close publish_track published
    add_track get_track string_discrete lookup insert erase
program = tt

abbrev request : CreateRoomRequest ℕ
request = record { name = "talk"; max_participants = 2; empty_timeout = 30; metadata = [] }

abbrev anna : Participant ℕ
anna = new_participant "a" "u1" "Anna" host 1

abbrev ben : Participant ℕ
ben = new_participant "b" "u2" "Ben" attendee 2

abbrev cleo : Participant ℕ
cleo = new_participant "c" "u3" "Cleo" attendee 3

abbrev hall : Room ℕ
hall = new_room request "u1" true "r1" 0

-- Anna is in the room.
abbrev hosted : Room ℕ
hosted = (add_participant anna hall).1

abbrev camera : MediaTrack
camera = record { id = "t1"; kind = "video"; source = "camera"; participant_id = "a" }

abbrev visit : List (Call ℕ)
visit = adds anna ∷ adds ben ∷ adds cleo ∷ removes "a" ∷ removes "b" ∷ []

-- The third participant is refused, and the timer runs when both have left.
visit_end :
    ((run visit hall).0.participants ≡ [])
    × ((run visit hall).0.empty_timer ≡ true)
    × ((step (adds cleo) (run (adds anna ∷ adds ben ∷ []) hall).0).0 ≡ some room_full)
unfolding program
visit_end = (refl, refl, refl)

run-new_room-IsValid_example : IsValid (run visit (new_room request "u1" true "r1" 0)).0
run-new_room-IsValid_example = run-new_room-IsValid request "u1" "r1" true 0 visit

anna_admitted : (add_participant anna hall).0 ≡ none
unfolding program
anna_admitted = refl

visit_open : (run visit hall).0.is_closed ≡ false
unfolding program
visit_open = refl

length-run_example :
    let (r, events) = run visit (new_room request "u1" true "r1" 0) in
    tally is_join events ≡ length r.participants + tally is_leave events
length-run_example = length-run request "u1" "r1" 0 visit visit_open

anna_there : lookup "a" hosted.participants ≡ some (update_state joined anna)
unfolding program
anna_there = refl

anna_may_publish : (update_state joined anna).permissions.can_publish ≡ true
unfolding program
anna_may_publish = refl

anna_made : (update_state joined anna).tracks ≡ some []
unfolding program
anna_made = refl

camera_new : lookup {V = MediaTrack} camera.id [] ≡ none
unfolding program lookup
camera_new = refl

-- A participant whose map of tracks is nil: to publish panics.
nil_panics :
    (publish_track "a" camera (record hosted {
      participants = ("a", record (update_state joined anna) { tracks = none }) ∷ [];
    })).0
    ≡ some panicked
unfolding program lookup
nil_panics = refl

unpublish_track-publish_track_example :
    let p = update_state joined anna in
    let (e, r', _) = publish_track "a" camera hosted in
    let (e', r'', _) = unpublish_track "a" camera.id r' in
    (e ≡ none)
    × (lookup "a" r'.participants ≡ some (with_track camera [] p))
    × (get_track camera.id (with_track camera [] p) ≡ some camera)
    × (e' ≡ none)
    × (r'' ≡ hosted)
    × ((unpublish_track "a" camera.id r'').0 ≡ some track_not_found)
unpublish_track-publish_track_example =
    unpublish_track-publish_track "a" camera [] (update_state joined anna) hosted anna_there
      anna_may_publish anna_made camera_new

ben_admitted : (add_participant ben hosted).0 ≡ none
unfolding program
ben_admitted = refl

-- Callbacks are told apart by number.
abbrev bus : EventBus ℕ
bus = (participant_joined, 1 ∷ []) ∷ []

abbrev arrival : RoomEvent ℕ
arrival = record { type = participant_joined; room_id = "r1"; payload = of_participant anna }

late_subscriber :
    deliver arrival (subscribe participant_left 2 bus)
    ≡ deliver arrival bus
      ++ ite (type_discrete participant_left participant_joined) ((2, arrival) ∷ []) []
late_subscriber = deliver-subscribe arrival participant_left 2 bus

abbrev fresh : RoomManager ℕ ℕ
fresh = record { rooms = []; event_bus = bus }

abbrev evening : List (ManagerCall ℕ)
evening =
    creates (some request) "u1" "r1" 0
    ∷ creates (some request) "u2" "r2" 5
    ∷ calls "r1" (adds anna)
    ∷ cleans
    ∷ []

-- A room with a participant, and an empty one with a timeout.
abbrev busy : RoomManager ℕ ℕ
busy = record { rooms = ("r1", hosted) ∷ ("r2", hall) ∷ []; event_bus = bus }

busy-Distinct : Distinct busy.rooms
unfolding program
busy-Distinct = (refl, (refl, tt))
