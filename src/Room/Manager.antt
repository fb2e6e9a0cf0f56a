-- ===== src/Room/Manager.antt =====
-- `RoomManager` of pkg/room/manager.go. An operation returns its error, the manager after it and
-- the deliveries of the events that it published.
use zenlive.Common.{
  ℕ, String, Bool, true, ◌&&◌, List, [], ◌∷◌, ◌++◌, Option, none, some, map, length, ltb,
  if◌then◌else◌, lookup, insert, erase, string_key,
}
use text.Mathlib.Text.{◌==◌ as str_eq}
use zenlive.Room.Bus.{EventBus, subscribe, clear, deliver, deliver_all}
use zenlive.Room.State.{
  Room, RoomEvent, RoomEventType, room_created, room_deleted, of_room, create_event,
  CreateRoomRequest, new_room, Call, step, close, is_empty,
}

pub data ManagerError : Type 0 where
  request_required name_required room_exists room_not_found : ManagerError

pub record RoomManager (Value Callback : Type 0) : Type 0 where
  pub rooms : List (String × Room Value)
  pub event_bus : EventBus Callback

abbrev pub Step : Type 0 → Type 0 → Type 0
Step Value Callback =
    Option ManagerError × RoomManager Value Callback × List (Callback × RoomEvent Value)

module _ {Value : Type 0} where
  -- The first room of that name in the order of the range.
  unfoldable pub find_by_name : String → List (String × Room Value) → Option (Room Value)
  find_by_name room_name [] = none
  find_by_name room_name ((_, room) ∷ rooms) =
      if str_eq room.name room_name then some room else find_by_name room_name rooms

  abbrev pub is_idle : Room Value → Bool
  is_idle room = is_empty room && ltb 0 room.empty_timeout

  -- The loop that collects the ids of the rooms to delete.
  unfoldable pub rooms_to_delete : List (String × Room Value) → List String
  rooms_to_delete [] = []
  rooms_to_delete ((room_id, room) ∷ rooms) =
      if is_idle room then room_id ∷ rooms_to_delete rooms else rooms_to_delete rooms

module _ {Value Callback : Type 0} where
  unfoldable pub new_room_manager : RoomManager Value Callback
  new_room_manager = record { rooms = []; event_bus = [] }

  -- The end of `CreateRoom`, where the request is good.
  unfoldable pub register :
      CreateRoomRequest Value
      → String
      → String
      → ℕ
      → RoomManager Value Callback
      → Step Value Callback
  register req created_by room_id now rm = elim (lookup room_id rm.rooms) [
    | some _ ↦ (some room_exists, rm, [])
    | none ↦
        (let room : Room Value = new_room req created_by true room_id now in
          (
            none,
            record rm { rooms = insert room_id room rm.rooms },
            deliver (create_event room_created room_id (of_room room)) rm.event_bus,
          ))
  ]

  -- `req` is none for a nil pointer; the UUID and the time are arguments.
  unfoldable pub create_room :
      Option (CreateRoomRequest Value)
      → String
      → String
      → ℕ
      → RoomManager Value Callback
      → Step Value Callback
  create_room none created_by room_id now rm = (some request_required, rm, [])
  create_room (some req) created_by room_id now rm =
      if str_eq req.name ""
      then (some name_required, rm, [])
      else register req created_by room_id now rm

  unfoldable pub delete_room : String → RoomManager Value Callback → Step Value Callback
  delete_room room_id rm = elim (lookup room_id rm.rooms) [
    | none ↦ (some room_not_found, rm, [])
    | some room ↦ (
      none,
      record rm { rooms = erase room_id rm.rooms },
      deliver (create_event room_deleted room_id (of_room (close room))) rm.event_bus,
    )
  ]

  unfoldable pub get_room : String → RoomManager Value Callback → Option (Room Value)
  get_room room_id rm = lookup room_id rm.rooms

  unfoldable pub get_room_by_name : String → RoomManager Value Callback → Option (Room Value)
  get_room_by_name room_name rm = find_by_name room_name rm.rooms

  unfoldable pub list_rooms : RoomManager Value Callback → List (Room Value)
  list_rooms rm = map (λ e. e.1) rm.rooms

  unfoldable pub get_room_count : RoomManager Value Callback → ℕ
  get_room_count rm = length rm.rooms

  -- A client's call of a room that it got from the manager, and the delivery of its events.
  unfoldable pub call_room :
      String
      → Call Value
      → RoomManager Value Callback
      → RoomManager Value Callback × List (Callback × RoomEvent Value)
  call_room room_id c rm = elim (lookup room_id rm.rooms) [
    | none ↦ (rm, [])
    | some room ↦ (
      record rm { rooms = insert room_id (step c room).1 rm.rooms },
      deliver_all (step c room).2 rm.event_bus,
    )
  ]

  -- `for _, roomID := range roomsToDelete { rm.DeleteRoom(roomID) }`, errors ignored.
  unfoldable pub delete_rooms :
      List String
      → RoomManager Value Callback
      → RoomManager Value Callback × List (Callback × RoomEvent Value)
  delete_rooms [] rm = (rm, [])
  delete_rooms (room_id ∷ ids) rm =
      let (_, rm', deliveries) = delete_room room_id rm in
      let (rm'', later) = delete_rooms ids rm' in (rm'', deliveries ++ later)

  unfoldable pub cleanup_empty_rooms :
      RoomManager Value Callback → RoomManager Value Callback × List (Callback × RoomEvent Value)
  cleanup_empty_rooms rm = delete_rooms (rooms_to_delete rm.rooms) rm

  -- `OnRoomCreated`, `OnRoomDeleted` and the like: a subscription to events of that type.
  unfoldable pub on_event :
      RoomEventType → Callback → RoomManager Value Callback → RoomManager Value Callback
  on_event type callback rm = record rm { event_bus = subscribe type callback rm.event_bus }

  -- The closed rooms, for those who still hold them, and the manager without them.
  unfoldable pub shutdown :
      RoomManager Value Callback → List (Room Value) × RoomManager Value Callback
  shutdown rm =
      (map (λ e. close e.1) rm.rooms, record { rooms = []; event_bus = clear rm.event_bus })

-- A call of the manager, or of a room in it.
pub data ManagerCall (Value : Type 0) : Type 0 where
  creates : Option (CreateRoomRequest Value) → String → String → ℕ → ManagerCall Value
  deletes : String → ManagerCall Value
  cleans : ManagerCall Value
  calls : String → Call Value → ManagerCall Value

unfoldable pub act :
    {Value Callback : Type 0}
    → ManagerCall Value
    → RoomManager Value Callback
    → RoomManager Value Callback
act (creates req created_by room_id now) rm = (create_room req created_by room_id now rm).1
act (deletes room_id) rm = (delete_room room_id rm).1
act cleans rm = (cleanup_empty_rooms rm).0
act (calls room_id c) rm = (call_room room_id c rm).0

unfoldable pub act_all :
    {Value Callback : Type 0}
    → List (ManagerCall Value)
    → RoomManager Value Callback
    → RoomManager Value Callback
act_all [] rm = rm
act_all (c ∷ cs) rm = act_all cs (act c rm)
