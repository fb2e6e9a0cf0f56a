-- ===== src/Room/Registry.antt =====
-- The rooms of a manager of manager.go: what every history keeps, and what a cleanup removes.
use zenlive.Common.{
  ℕ, ◌≡◌, refl, ◌∙◌, sym, ap, String, string_discrete, true, ◌&&◌, List, [], ◌∷◌, Option, none,
  some, if_pos, if_neg, ltb, if◌then◌else◌, lookup, erase, string_key, All, ◌≢◌, Distinct,
  AllEntries, insert-Distinct, erase-Distinct, insert-AllEntries, erase-AllEntries,
  lookup-AllEntries, erase_absent, if_cases, Bool-cases, Option-cases, inl, inr, arith,
}
use text.Mathlib.Text.{◌==◌ as str_eq}
use zenlive.Room.Invariant.{IsValid, new_room-IsValid, step-IsValid}
use zenlive.Room.State.{Room, CreateRoomRequest, Call, is_empty}
use zenlive.Room.Manager.{
  RoomManager, Step, ManagerCall, creates, deletes, cleans, calls, register, create_room,
  delete_room, call_room, is_idle, rooms_to_delete, delete_rooms, cleanup_empty_rooms, act, act_all,
}

-- Every room stands once in the manager, under an id, and is well formed.
pub record IsRegistry {Value Callback : Type 0} (rm : RoomManager Value Callback) : Type 0 where
  pub distinct : Distinct rm.rooms
  pub valid : AllEntries (λ _ room. IsValid room) rm.rooms

module _ {Value Callback : Type 0} where
  pub deleted-rooms :
      (id : String) (rm : RoomManager Value Callback)
      → (delete_room id rm).1.rooms ≡ erase id rm.rooms
  unfolding delete_room
  deleted-rooms id rm = elim (Option-cases (lookup id rm.rooms)) [
    | inl e ↦ rw (e, delete_room) (sym (erase_absent id rm.rooms e))
    | inr (room, e) ↦ rw (e, delete_room)
  ]

  delete_room-IsRegistry :
      (id : String) (rm : RoomManager Value Callback)
      → IsRegistry rm
      → IsRegistry (delete_room id rm).1
  delete_room-IsRegistry id rm v = record {
    distinct = rw deleted-rooms (erase-Distinct id rm.rooms v.distinct);
    valid = rw deleted-rooms (erase-AllEntries (λ _ room. IsValid room) id rm.rooms v.valid);
  }

  delete_rooms-IsRegistry :
      (ids : List String) (rm : RoomManager Value Callback)
      → IsRegistry rm
      → IsRegistry (delete_rooms ids rm).0
  unfolding delete_rooms
  delete_rooms-IsRegistry [] rm v = v
  delete_rooms-IsRegistry (id ∷ ids) rm v =
      delete_rooms-IsRegistry ids (delete_room id rm).1 (delete_room-IsRegistry id rm v)

  register-IsRegistry :
      (req : CreateRoomRequest Value) (by id : String) (now : ℕ) (rm : RoomManager Value Callback)
      → IsRegistry rm
      → IsRegistry (register req by id now rm).1
  unfolding register
  register-IsRegistry req by id now rm v = elim (Option-cases (lookup id rm.rooms)) [
    | inr (room, e) ↦ rw (e, register) v
    | inl e ↦
        rw (e, register)
          (record {
            distinct = insert-Distinct id _ rm.rooms v.distinct;
            valid =
                insert-AllEntries (λ _ room. IsValid room) id _ rm.rooms
                  (new_room-IsValid req by id true now) v.valid;
          })
  ]

  create_room-IsRegistry :
      (req : Option (CreateRoomRequest Value)) (by id : String) (now : ℕ)
      (rm : RoomManager Value Callback)
      → IsRegistry rm
      → IsRegistry (create_room req by id now rm).1
  unfolding create_room
  create_room-IsRegistry none by id now rm v = v
  create_room-IsRegistry (some req) by id now rm v =
      if_cases (λ (x : Step Value Callback). IsRegistry x.1) (str_eq req.name "") _ _ (λ _. v)
        (λ _. register-IsRegistry req by id now rm v)

  call_room-IsRegistry :
      (id : String) (c : Call Value) (rm : RoomManager Value Callback)
      → IsRegistry rm
      → IsRegistry (call_room id c rm).0
  unfolding call_room
  call_room-IsRegistry id c rm v = elim (Option-cases (lookup id rm.rooms)) [
    | inl e ↦ rw (e, call_room) v
    | inr (room, e) ↦
        rw (e, call_room)
          (record {
            distinct = insert-Distinct id _ rm.rooms v.distinct;
            valid =
                insert-AllEntries (λ _ r. IsValid r) id _ rm.rooms
                  (step-IsValid c room
                    (lookup-AllEntries (λ _ r. IsValid r) id room rm.rooms v.valid e))
                  v.valid;
          })
  ]

  pub act-IsRegistry :
      (c : ManagerCall Value) (rm : RoomManager Value Callback)
      → IsRegistry rm
      → IsRegistry (act c rm)
  unfolding act cleanup_empty_rooms
  act-IsRegistry (creates req by id now) rm v = create_room-IsRegistry req by id now rm v
  act-IsRegistry (deletes id) rm v = delete_room-IsRegistry id rm v
  act-IsRegistry cleans rm v = delete_rooms-IsRegistry (rooms_to_delete rm.rooms) rm v
  act-IsRegistry (calls id c) rm v = call_room-IsRegistry id c rm v

  -- Every history of calls of a manager in which each room is well formed and registered once
  -- keeps it so.
  pub act_all-IsRegistry :
      (cs : List (ManagerCall Value)) (rm : RoomManager Value Callback)
      → IsRegistry rm
      → IsRegistry (act_all cs rm)
  unfolding act_all
  act_all-IsRegistry [] rm v = v
  act_all-IsRegistry (c ∷ cs) rm v = act_all-IsRegistry cs (act c rm) (act-IsRegistry c rm v)

module _ {Value : Type 0} where
  -- The rooms that are not empty, or have no timeout.
  unfoldable pub survivors : List (String × Room Value) → List (String × Room Value)
  survivors [] = []
  survivors ((id, room) ∷ rooms) =
      if is_empty room && ltb 0 room.empty_timeout
      then survivors rooms
      else (id, room) ∷ survivors rooms

  erase_all : List String → List (String × Room Value) → List (String × Room Value)
  erase_all [] m = m
  erase_all (id ∷ ids) m = erase_all ids (erase id m)

  erase_all_other :
      (ids : List String) (id : String) (room : Room Value) (m : List (String × Room Value))
      → All (λ j. id ≢ j) ids
      → erase_all ids ((id, room) ∷ m) ≡ (id, room) ∷ erase_all ids m
  unfolding erase_all erase
  erase_all_other [] id room m h = refl
  erase_all_other (j ∷ ids) id room m h =
      rw (if_neg (string_discrete id j) h.0) (erase_all_other ids id room (erase j m) h.1)

  to_delete_other :
      (id : String) (m : List (String × Room Value))
      → lookup id m ≡ none
      → All (λ j. id ≢ j) (rooms_to_delete m)
  unfolding rooms_to_delete lookup
  to_delete_other id [] e = tt
  to_delete_other id ((j, room) ∷ m) e = elim (string_discrete j id) [
    | yes p ↦ absurd (ground arith)
    | no n ↦
        let rest = to_delete_other id m (ground arith) in
        if_cases (λ l. All (λ j'. id ≢ j') l) (is_idle room) _ _ (λ _. ((λ q. n (sym q)), rest))
          (λ _. rest)
  ]

  erase_head :
      (id : String) (room : Room Value) (m : List (String × Room Value))
      → lookup id m ≡ none
      → erase id ((id, room) ∷ m) ≡ m
  unfolding erase
  erase_head id room m e = if_pos (string_discrete id id) refl _ _ ∙ erase_absent id m e

  erase_all-survivors :
      (m : List (String × Room Value)) → Distinct m → erase_all (rooms_to_delete m) m ≡ survivors m
  unfolding rooms_to_delete survivors erase_all
  erase_all-survivors [] d = refl
  erase_all-survivors ((id, room) ∷ m) d = elim (Bool-cases (is_idle room)) [
    | inl y ↦
        rw y (
          ap (erase_all (rooms_to_delete m)) (erase_head id room m d.0) ∙ erase_all-survivors m d.1)
    | inr n ↦
        rw (n, erase_all_other (rooms_to_delete m) id room m (to_delete_other id m d.0))
          (ap (λ l. (id, room) ∷ l) (erase_all-survivors m d.1))
  ]

module _ {Value Callback : Type 0} where
  delete_rooms-erase_all :
      (ids : List String) (rm : RoomManager Value Callback)
      → (delete_rooms ids rm).0.rooms ≡ erase_all ids rm.rooms
  unfolding delete_rooms erase_all
  delete_rooms-erase_all [] rm = refl
  delete_rooms-erase_all (id ∷ ids) rm =
      delete_rooms-erase_all ids (delete_room id rm).1 ∙ ap (erase_all ids) (deleted-rooms id rm)

  -- Where no id stands twice, a cleanup keeps, in order, exactly the rooms that have a participant
  -- or no timeout: an empty room with a timeout goes at once, its timer and the time since it
  -- became empty play no part.
  pub cleanup_empty_rooms-survivors :
      (rm : RoomManager Value Callback)
      → Distinct rm.rooms
      → (cleanup_empty_rooms rm).0.rooms ≡ survivors rm.rooms
  unfolding cleanup_empty_rooms
  cleanup_empty_rooms-survivors rm d =
      delete_rooms-erase_all (rooms_to_delete rm.rooms) rm ∙ erase_all-survivors rm.rooms d
