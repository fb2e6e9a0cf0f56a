-- ===== src/Room/Accounting.antt =====
-- The events of a room of room.go as its books: who joined, who left, who is there.
use zenlive.Common.{
  ℕ, ◌+◌, ◌≡◌, refl, ◌∙◌, sym, String, Bool, true, false, List, [], ◌∷◌, ◌++◌, Option, none, some,
  length, lookup, erase, string_key, length-insert_new, length-insert_old, length-erase, if_cases,
  if◌then◌else◌, arith,
}
use zenlive.Room.Participant.{Participant, joined, update_state}
use zenlive.Room.Cases.{add_cases, remove_cases, permit_cases, publish_cases, unpublish_cases}
use zenlive.Room.Invariant.{IsValid, step-IsValid, new_room-IsValid}
use zenlive.Room.State.{
  Room, RoomError, RoomEvent, RoomEventType, participant_joined, participant_left,
  CreateRoomRequest, new_room, Step, Call, adds, removes, permits, describes, publishes,
  unpublishes, closes, admit, dismiss, after_leave, start_empty_timer, store, update_metadata,
  withdraw, close, step, run,
}

unfoldable pub is_join : RoomEventType → Bool
is_join participant_joined = true
is_join _ = false

unfoldable pub is_leave : RoomEventType → Bool
is_leave participant_left = true
is_leave _ = false

module _ {Value : Type 0} where
  -- How many of the events are of a kind.
  abbrev pub tally : (RoomEventType → Bool) → List (RoomEvent Value) → ℕ
  tally kind [] = 0
  tally kind (e ∷ es) = (if kind e.type then 1 else 0) + tally kind es

  tally-append :
      (kind : RoomEventType → Bool) (xs ys : List (RoomEvent Value))
      → tally kind (xs ++ ys) ≡ tally kind xs + tally kind ys
  tally-append kind [] ys = omega arith
  tally-append kind (x ∷ xs) ys = omega (arith, tally-append kind xs ys)

  -- A step keeps the bus; and if the room is open after it, the room was open before, and the
  -- events make up the difference in its participants.
  record IsBalanced (r : Room Value) (x : Step Value) : Type 0 where
    bus : x.1.event_bus ≡ r.event_bus
    open_before : x.1.is_closed ≡ false → r.is_closed ≡ false
    books :
        r.event_bus ≡ true
        → x.1.is_closed ≡ false
        → length r.participants + tally is_join x.2 ≡ length x.1.participants + tally is_leave x.2

  unchanged : (r : Room Value) (e : Option RoomError) → IsBalanced r (e, r, [])
  unchanged r e = record { bus = refl; open_before = λ h. h; books = λ h k. refl }

  admit-IsBalanced :
      (p : Participant Value) (r : Room Value)
      → lookup p.id r.participants ≡ none
      → IsBalanced r (admit p r)
  unfolding admit is_join is_leave
  admit-IsBalanced p r e =
      let n = length-insert_new p.id (update_state joined p) r.participants e in
      record { bus = refl; open_before = λ h. h; books = λ h k. rw (h, n) (omega arith) }

  after_leave-same :
      (r : Room Value)
      → ((after_leave r).participants ≡ r.participants)
        × ((after_leave r).event_bus ≡ r.event_bus)
        × ((after_leave r).is_closed ≡ r.is_closed)
  unfolding after_leave start_empty_timer
  after_leave-same r = (ground arith, ground arith, ground arith)

  dismiss-IsBalanced :
      (id : String) (p : Participant Value) (r : Room Value)
      → lookup id r.participants ≡ some p
      → IsValid r
      → IsBalanced r (dismiss id p r)
  unfolding dismiss is_join is_leave
  dismiss-IsBalanced id p r e v =
      let n = length-erase id p r.participants v.distinct e in
      let (ps, bus, closed) =
        after_leave-same (record r { participants = erase id r.participants }) in
      record {
        bus = bus;
        open_before = λ h. sym closed ∙ h;
        books = λ h k. rw (ps, h) (omega (arith, n));
      }

  store-IsBalanced :
      (id : String) (old new : Participant Value) (r : Room Value) (events : List (RoomEvent Value))
      → lookup id r.participants ≡ some old
      → tally is_join events ≡ 0
      → tally is_leave events ≡ 0
      → IsBalanced r (none, store id new r, events)
  store-IsBalanced id old new r events e j l =
      let n = length-insert_old id new old r.participants e in
      record { bus = refl; open_before = λ h. h; books = λ h k. rw (n, j, l) }

  close-IsBalanced : (r : Room Value) → IsBalanced r (none, close r, [])
  unfolding close
  close-IsBalanced r =
      if_cases (λ x. IsBalanced r (none, x, [])) r.is_closed _ _ (λ c. unchanged r none)
        λ o. record { bus = refl; open_before = λ h. cc; books = λ h k. cc }

  step-IsBalanced : (c : Call Value) (r : Room Value) → IsValid r → IsBalanced r (step c r)
  unfolding step update_metadata withdraw is_join is_leave
  step-IsBalanced (adds p) r v =
      add_cases (IsBalanced r) r p (λ _. unchanged r _) (λ _ _ _. unchanged r _)
        (λ _ _ _. unchanged r _) λ o e f. admit-IsBalanced p r e
  step-IsBalanced (removes id) r v =
      remove_cases (IsBalanced r) r id (λ _. unchanged r _) (λ p e. dismiss-IsBalanced id p r e v)
  step-IsBalanced (permits id perms) r v =
      permit_cases (IsBalanced r) r id perms (λ _. unchanged r _)
        λ p e. store-IsBalanced id p _ r _ e (ground arith) (ground arith)
  step-IsBalanced (describes m) r v = record {
    bus = refl;
    open_before = λ h. h;
    books = λ h k. ground arith;
  }
  step-IsBalanced (publishes id track) r v =
      publish_cases (IsBalanced r) r id track (λ _. unchanged r _) (λ _ _ _. unchanged r _)
        (λ _ _ _ _. unchanged r _)
        λ p p' e _ _. store-IsBalanced id p p' r _ e (ground arith) (ground arith)
  step-IsBalanced (unpublishes id track_id) r v =
      unpublish_cases (IsBalanced r) r id track_id (λ _. unchanged r _) (λ _ _ _. unchanged r _)
        λ p t e _. store-IsBalanced id p _ r _ e (ground arith) (ground arith)
  step-IsBalanced closes r v = close-IsBalanced r

  run-books :
      (cs : List (Call Value)) (r : Room Value)
      → IsValid r
      → r.event_bus ≡ true
      → let (r', events) = run cs r in
        r'.is_closed ≡ false
        → (r.is_closed ≡ false)
          × (length r.participants + tally is_join events
              ≡ length r'.participants + tally is_leave events)
  unfolding run
  run-books [] r v b o = (o, refl)
  run-books (c ∷ cs) r v b o =
      let x = step c r in
      let one = step-IsBalanced c r v in
      let (was_open, later) = run-books cs x.1 (step-IsValid c r v) (one.bus ∙ b) o in
      (
        one.open_before was_open,
        rw (tally-append, tally-append) (omega (arith, later, one.books b was_open)),
      )

  -- After every history of a new room with a bus, if the room is still open, as many participants
  -- are in it as `participant_joined` events were published more than `participant_left` events.
  pub length-run :
      (req : CreateRoomRequest Value) (by id : String) (now : ℕ) (cs : List (Call Value))
      → let (r, events) = run cs (new_room req by true id now) in
        r.is_closed ≡ false → tally is_join events ≡ length r.participants + tally is_leave events
  unfolding new_room
  length-run req by id now cs o =
      omega (arith, (run-books cs _ (new_room-IsValid req by id true now) refl o).1)
