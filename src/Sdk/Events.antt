-- ===== src/Sdk/Events.antt =====
-- The events of pkg/sdk/events.go and `EventBus`. A handler is a parameter: to call it, in a
-- goroutine, is a delivery of the event to it, and the deliveries stand in the order in which the
-- goroutines are started. The ids of subscriptions are arguments. The field `Error` of an event,
-- which the code leaves empty, is left out, and a duration stands for its seconds.
use zenlive.Common.{
  ℕ, suc, String, ◌+◌, ◌≡◌, refl, ap, ◌∙◌, List, [], ◌∷◌, ◌++◌, Option, none, some, map, ite,
  if_pos, if_neg, length, lookup, insert, lookup-insert, lookup-insert_self, insert-insert, Key,
  string_discrete,
}
use zenlive.Sdk.Stream.{StreamProtocol}

pub data EventType : Type 0 where
  stream_start stream_end stream_pause stream_resume stream_error : EventType
  stream_update stream_create stream_delete viewer_join viewer_leave : EventType

-- The entries of `Data`.
pub data EventData : Type 0 where
  no_data : EventData
  start_data : String → StreamProtocol → EventData
  end_data : ℕ → ℕ → EventData
  emergency_data : String → ℕ → ℕ → EventData

pub record StreamEvent : Type 0 where
  pub type : EventType
  pub stream_id : String
  pub user_id : String
  pub timestamp : ℕ
  pub data_of : EventData

unfoldable pub type_discrete : Discrete EventType
type_discrete = hlevel

instance abbrev pub type_key : Key EventType
type_key = record { same = type_discrete }

pub record EventSubscription (Handler : Type 0) : Type 0 where
  pub id : String
  pub type : EventType
  pub handler : Handler

abbrev pub EventBus : Type 0 → Type 0
EventBus Handler = List (EventType × List (EventSubscription Handler))

-- A nil handler is none.
pub record EventCallbacks (Handler : Type 0) : Type 0 where
  pub on_stream_start : Option Handler
  pub on_stream_end : Option Handler
  pub on_stream_pause : Option Handler
  pub on_stream_resume : Option Handler
  pub on_stream_error : Option Handler
  pub on_stream_update : Option Handler
  pub on_stream_create : Option Handler
  pub on_stream_delete : Option Handler
  pub on_viewer_join : Option Handler
  pub on_viewer_leave : Option Handler

module _ {Handler : Type 0} where
  -- `eb.subscriptions[eventType]`, nil where there is none.
  abbrev pub or_nil : Option (List (EventSubscription Handler)) → List (EventSubscription Handler)
  or_nil none = []
  or_nil (some subs) = subs

  unfoldable pub subscribe :
      String → EventType → Handler → EventBus Handler → EventSubscription Handler × EventBus Handler
  subscribe id type handler eb =
      let subscription : EventSubscription Handler = record {
        id = id;
        type = type;
        handler = handler;
      } in
      (subscription, insert type (or_nil (lookup type eb) ++ (subscription ∷ [])) eb)

  -- The loop of `SubscribeAll`; `ids` are the ids that it generates.
  unfoldable pub subscribe_each :
      (ℕ → String)
      → List EventType
      → Handler
      → EventBus Handler
      → List (EventSubscription Handler) × EventBus Handler
  subscribe_each ids [] handler eb = ([], eb)
  subscribe_each ids (type ∷ types) handler eb =
      let (sub, eb') = subscribe (ids 0) type handler eb in
      let (subs, eb'') = subscribe_each (λ i. ids (suc i)) types handler eb' in (sub ∷ subs, eb'')

  unfoldable pub subscribe_all :
      (ℕ → String)
      → Handler
      → EventBus Handler
      → List (EventSubscription Handler) × EventBus Handler
  subscribe_all ids handler eb =
      subscribe_each ids
        (stream_start ∷ stream_end ∷ stream_pause ∷ stream_resume ∷ stream_error ∷ stream_update
          ∷ stream_create ∷ stream_delete ∷ viewer_join ∷ viewer_leave ∷ [])
        handler eb

  -- The tests of `RegisterCallbacks`, one after the other.
  unfoldable pub register_each :
      (ℕ → String)
      → List (EventType × Option Handler)
      → EventBus Handler
      → List (EventSubscription Handler) × EventBus Handler
  register_each ids [] eb = ([], eb)
  register_each ids ((type, none) ∷ callbacks) eb = register_each ids callbacks eb
  register_each ids ((type, some handler) ∷ callbacks) eb =
      let (sub, eb') = subscribe (ids 0) type handler eb in
      let (subs, eb'') = register_each (λ i. ids (suc i)) callbacks eb' in (sub ∷ subs, eb'')

  -- The callbacks are none for a nil pointer.
  unfoldable pub register_callbacks :
      (ℕ → String)
      → Option (EventCallbacks Handler)
      → EventBus Handler
      → List (EventSubscription Handler) × EventBus Handler
  register_callbacks ids none eb = ([], eb)
  register_callbacks ids (some c) eb =
      register_each ids
        ((stream_start, c.on_stream_start)
          ∷ (stream_end, c.on_stream_end)
          ∷ (stream_pause, c.on_stream_pause)
          ∷ (stream_resume, c.on_stream_resume)
          ∷ (stream_error, c.on_stream_error)
          ∷ (stream_update, c.on_stream_update)
          ∷ (stream_create, c.on_stream_create)
          ∷ (stream_delete, c.on_stream_delete)
          ∷ (viewer_join, c.on_viewer_join)
          ∷ (viewer_leave, c.on_viewer_leave)
          ∷ [])
        eb

  -- The subscriptions without the first one of the id.
  unfoldable pub without_id :
      String → List (EventSubscription Handler) → List (EventSubscription Handler)
  without_id id [] = []
  without_id id (sub ∷ subs) = ite (string_discrete sub.id id) subs (sub ∷ without_id id subs)

  -- The subscription is none for a nil pointer.
  unfoldable pub unsubscribe :
      Option (EventSubscription Handler) → EventBus Handler → EventBus Handler
  unsubscribe none eb = eb
  unsubscribe (some subscription) eb = elim (lookup subscription.type eb) [
    | none ↦ eb
    | some subs ↦ insert subscription.type (without_id subscription.id subs) eb
  ]

  unfoldable pub unsubscribe_all :
      List (Option (EventSubscription Handler)) → EventBus Handler → EventBus Handler
  unsubscribe_all [] eb = eb
  unsubscribe_all (sub ∷ subs) eb = unsubscribe_all subs (unsubscribe sub eb)

  unfoldable pub deliver : StreamEvent → EventBus Handler → List (Handler × StreamEvent)
  deliver event eb = map (λ sub. (sub.handler, event)) (or_nil (lookup event.type eb))

  unfoldable pub get_subscriber_count : EventType → EventBus Handler → ℕ
  get_subscriber_count type eb = length (or_nil (lookup type eb))

  unfoldable pub get_total_subscriber_count : EventBus Handler → ℕ
  get_total_subscriber_count [] = 0
  get_total_subscriber_count ((type, subs) ∷ eb) = length subs + get_total_subscriber_count eb

  unfoldable pub clear : EventBus Handler → EventBus Handler
  clear eb = []

  -- No subscription has the id.
  abbrev pub Fresh : String → List (EventSubscription Handler) → Type 0
  Fresh id [] = Unit {0}
  Fresh id (sub ∷ subs) = (sub.id ≡ id → ⊥) × Fresh id subs

  without_id-append :
      (sub : EventSubscription Handler) (subs : List (EventSubscription Handler))
      → Fresh sub.id subs
      → without_id sub.id (subs ++ (sub ∷ [])) ≡ subs
  unfolding without_id
  without_id-append sub [] h = if_pos (string_discrete sub.id sub.id) refl _ _
  without_id-append sub (s ∷ subs) h =
      if_neg (string_discrete s.id sub.id) h.0 _ _
      ∙ ap (λ t. s ∷ t) (without_id-append sub subs h.1)

  deliver-put :
      (event : StreamEvent) (type : EventType) (eb : EventBus Handler)
      → deliver event (insert type (or_nil (lookup type eb)) eb) ≡ deliver event eb
  unfolding deliver
  deliver-put event type eb =
      ap (λ o. map (λ (sub : EventSubscription Handler). (sub.handler, event)) (or_nil o))
        (lookup-insert type event.type (or_nil (lookup type eb)) eb)
      ∙ elim (type_discrete type event.type) [
        | yes p ↦ rw (if_pos (type_discrete type event.type) p, p) refl
        | no n ↦ rw (if_neg (type_discrete type event.type) n) refl
      ]

  -- To unsubscribe a new subscription leads back to the deliveries that there were, where its id is
  -- new among those of its type.
  pub deliver-unsubscribe :
      (event : StreamEvent) (id : String) (type : EventType) (handler : Handler)
      (eb : EventBus Handler)
      → Fresh id (or_nil (lookup type eb))
      → let (sub, eb') = subscribe id type handler eb in
        deliver event (unsubscribe (some sub) eb') ≡ deliver event eb
  unfolding deliver unsubscribe subscribe
  deliver-unsubscribe event id type handler eb h =
      let sub : EventSubscription Handler = record { id = id; type = type; handler = handler } in
      let subs = or_nil (lookup type eb) in
      rw
        (
          lookup-insert_self type (subs ++ (sub ∷ [])) eb,
          unsubscribe,
          without_id-append sub subs h,
          insert-insert type (subs ++ (sub ∷ [])) subs eb,
        )
        (deliver-put event type eb)
