-- ===== src/Room/Bus.antt =====
-- `EventBus` of pkg/room/events.go. A callback is a parameter: to call it, in a goroutine or not, is
-- a delivery of the event to it, and the deliveries of a publication stand in the order of the calls.
use zenlive.Common.{
  ◌≡◌, refl, sym, ap, List, [], ◌∷◌, ◌++◌, Option, none, some, map, ite, if_pos, if_neg, lookup,
  insert, lookup-insert, Key, String,
}
use mathlib.Core.List.{map-append, append-nil, append_assoc}
use zenlive.Room.State.{
  RoomEventType, room_created, room_deleted, participant_joined, participant_left,
  participant_updated, track_published, track_unpublished, metadata_updated, RoomEvent, EventData,
}

unfoldable pub type_discrete : Discrete RoomEventType
type_discrete = hlevel

instance abbrev pub type_key : Key RoomEventType
type_key = record { same = type_discrete }

abbrev pub EventBus : Type 0 → Type 0
EventBus Callback = List (RoomEventType × List Callback)

module _ {Callback : Type 0} where
  -- `eb.subscribers[eventType]`, nil where there is none.
  abbrev pub or_nil : Option (List Callback) → List Callback
  or_nil none = []
  or_nil (some callbacks) = callbacks

  unfoldable pub subscribe : RoomEventType → Callback → EventBus Callback → EventBus Callback
  subscribe type callback bus = insert type (or_nil (lookup type bus) ++ (callback ∷ [])) bus

  unfoldable pub subscribe_each :
      List RoomEventType → Callback → EventBus Callback → EventBus Callback
  subscribe_each [] callback bus = bus
  subscribe_each (type ∷ types) callback bus =
      subscribe_each types callback (subscribe type callback bus)

  unfoldable pub subscribe_all : Callback → EventBus Callback → EventBus Callback
  subscribe_all = subscribe_each (
      room_created ∷ room_deleted ∷ participant_joined ∷ participant_left ∷ participant_updated
      ∷ track_published ∷ track_unpublished ∷ metadata_updated ∷ [])

  unfoldable pub clear : EventBus Callback → EventBus Callback
  clear bus = []

  -- `Publish` and `PublishSync`: a copy of the list, and a call of each.
  unfoldable pub deliver :
      {Value : Type 0} → RoomEvent Value → EventBus Callback → List (Callback × RoomEvent Value)
  deliver event bus = map (λ callback. (callback, event)) (or_nil (lookup event.type bus))

  -- The events of an operation, published one after the other.
  unfoldable pub deliver_all :
      {Value : Type 0}
      → List (RoomEvent Value)
      → EventBus Callback
      → List (Callback × RoomEvent Value)
  deliver_all [] bus = []
  deliver_all (event ∷ events) bus = deliver event bus ++ deliver_all events bus

  -- A new subscriber gets the events of its type, after the older ones, and no others.
  pub deliver-subscribe :
      {Value : Type 0} (event : RoomEvent Value) (type : RoomEventType) (callback : Callback)
      (bus : EventBus Callback)
      → deliver event (subscribe type callback bus)
        ≡ deliver event bus ++ ite (type_discrete type event.type) ((callback, event) ∷ []) []
  unfolding deliver subscribe
  deliver-subscribe event type callback bus = elim (type_discrete type event.type) [
    | yes e ↦ rw (lookup-insert, if_pos _ e, if_pos _ e) (rw e (map-append _ _ _))
    | no n ↦ rw (lookup-insert, if_neg _ n, if_neg _ n) (sym (append-nil _))
  ]

  -- What a row of subscriptions adds for an event.
  abbrev extra :
      {Value : Type 0}
      → List RoomEventType
      → Callback
      → RoomEvent Value
      → List (Callback × RoomEvent Value)
  extra [] callback event = []
  extra (type ∷ types) callback event =
      ite (type_discrete type event.type) ((callback, event) ∷ []) [] ++ extra types callback event

  deliver-subscribe_each :
      {Value : Type 0} (event : RoomEvent Value) (types : List RoomEventType) (callback : Callback)
      (bus : EventBus Callback)
      → deliver event (subscribe_each types callback bus)
        ≡ deliver event bus ++ extra types callback event
  unfolding subscribe_each
  deliver-subscribe_each event [] callback bus = rw append-nil
  deliver-subscribe_each event (type ∷ types) callback bus =
      rw
        (
          deliver-subscribe_each event types callback (subscribe type callback bus),
          deliver-subscribe,
        )
        (append_assoc (deliver event bus) _ (extra types callback event))

  once :
      {Value : Type 0} (type : RoomEventType) (id : String) (payload : EventData Value)
      (callback : Callback)
      → let event : RoomEvent Value = record { type = type; room_id = id; payload = payload } in
        extra
          (room_created ∷ room_deleted ∷ participant_joined ∷ participant_left ∷ participant_updated
            ∷ track_published ∷ track_unpublished ∷ metadata_updated ∷ [])
          callback
          event
        ≡ (callback, event) ∷ []
  unfolding type_discrete
  once room_created id payload callback = refl
  once _ id payload callback = refl

  -- A callback subscribed to all events gets every event exactly once, after the older subscribers.
  pub deliver-subscribe_all :
      {Value : Type 0} (event : RoomEvent Value) (callback : Callback) (bus : EventBus Callback)
      → deliver event (subscribe_all callback bus) ≡ deliver event bus ++ ((callback, event) ∷ [])
  unfolding subscribe_all
  deliver-subscribe_all event callback bus =
      rw deliver-subscribe_each
        (ap (λ d. deliver event bus ++ d) (once event.type event.room_id event.payload callback))
