-- ===== src/Room/Fates.antt =====
-- What becomes of one room of a manager of pkg/room/manager.go: the calls as a client sees them that
-- looks at one id.
use zenlive.Common.{
  String, string_discrete, true, ◌&&◌, List, [], ◌∷◌, Option, none, some, ltb, ite, if◌then◌else◌,
  string_key,
}
use text.Mathlib.Text.{◌==◌ as str_eq}
use zenlive.Room.State.{Room, Call, new_room, step, is_empty}
use zenlive.Room.Manager.{ManagerCall, creates, deletes, cleans, calls}

module _ {Value : Type 0} where
  -- The id has a room from its creation on; a later one with the same id changes nothing.
  abbrev pub created : Room Value → Option (Room Value) → Option (Room Value)
  created new none = some new
  created new (some room) = some room

  -- A cleanup takes the room away if it is empty and has a timeout.
  abbrev pub cleaned : Option (Room Value) → Option (Room Value)
  cleaned none = none
  cleaned (some room) = if is_empty room && ltb 0 room.empty_timeout then none else some room

  abbrev pub called : Call Value → Option (Room Value) → Option (Room Value)
  called c none = none
  called c (some room) = some (step c room).1

  -- What a call makes of the room under an id, or of there being none.
  unfoldable pub fate : ManagerCall Value → String → Option (Room Value) → Option (Room Value)
  fate (creates none by room_id now) id o = o
  fate (creates (some req) by room_id now) id o =
      if str_eq req.name ""
      then o
      else ite (string_discrete room_id id) (created (new_room req by true room_id now) o) o
  fate (deletes room_id) id o = ite (string_discrete room_id id) none o
  fate cleans id o = cleaned o
  fate (calls room_id c) id o = ite (string_discrete room_id id) (called c o) o

  unfoldable pub fate_all :
      List (ManagerCall Value) → String → Option (Room Value) → Option (Room Value)
  fate_all [] id o = o
  fate_all (c ∷ cs) id o = fate_all cs id (fate c id o)
