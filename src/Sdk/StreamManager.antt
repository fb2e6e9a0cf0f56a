-- ===== src/Sdk/StreamManager.antt =====
-- `StreamManager` of pkg/sdk/stream.go: the registry of the streams. A UUID is an argument, and
-- `clock i` the time that a call reads at its `i`-th place that reads the time. That `CreateStream`
-- also writes its defaults into the request of the caller is left out.
use zenlive.Common.{
  ℕ, String, Bool, true, false, List, [], ◌∷◌, Option, none, some, map, length, if◌then◌else◌,
  lookup, insert, erase, string_key,
}
use text.Mathlib.Text.{◌==◌ as str_eq}
use zenlive.Sdk.StateMachine.{
  StreamState, idle, live, paused, ended, error, other, TransitionError, new_stream_state_machine,
}
use zenlive.Sdk.Stream.{
  Stream, StreamProtocol, rtmp, hls, web_rtc, unset, CreateStreamRequest, UpdateStreamRequest,
  default_stream_config, is_live,
}

-- The errors of pkg/sdk, with what their texts tell.
pub data StreamError : Type 0 where
  request_required user_id_required title_required stream_id_required cannot_delete_live
        search_term_required :
      StreamError
  invalid_protocol : StreamProtocol → StreamError
  stream_not_found : String → StreamError
  cannot_start cannot_stop cannot_pause not_paused : StreamState → StreamError
  refused_transition : TransitionError → StreamError
  failed_to_stop failed_to_start : StreamError → StreamError

pub data Result {ℓ} (A : Type ℓ) : Type ℓ where
  ok : A → Result A
  err : StreamError → Result A

pub record StreamManager : Type 0 where
  pub streams : List (String × Stream)

unfoldable pub new_stream_manager : StreamManager
new_stream_manager = record { streams = [] }

-- An empty protocol becomes RTMP.
abbrev pub chosen_protocol : StreamProtocol → StreamProtocol
chosen_protocol unset = rtmp
chosen_protocol p = p

abbrev pub is_known : StreamProtocol → Bool
is_known rtmp = true
is_known hls = true
is_known web_rtc = true
is_known _ = false

abbrev pub or_else {ℓ} : {A : Type ℓ} → Option A → A → A
or_else none d = d
or_else (some a) d = a

unfoldable pub new_stream : String → String → ℕ → CreateStreamRequest → Stream
new_stream stream_id stream_key now req = record {
  id = stream_id;
  stream_key = stream_key;
  user_id = req.user_id;
  title = req.title;
  description = req.description;
  protocol = chosen_protocol req.protocol;
  state = idle;
  config = or_else req.config default_stream_config;
  created_at = now;
  updated_at = now;
  started_at = none;
  ended_at = none;
  viewer_count = 0;
  total_duration = 0;
  metadata = or_else req.metadata [];
  state_machine = new_stream_state_machine;
}

abbrev pub put : String → Stream → StreamManager → StreamManager
put stream_id stream sm = record { streams = insert stream_id stream sm.streams }

-- The checks of a request that is there, in their order.
unfoldable pub check_request : CreateStreamRequest → Option StreamError
check_request req =
    if str_eq req.user_id ""
    then some user_id_required
    else if str_eq req.title ""
    then some title_required
    else if is_known (chosen_protocol req.protocol)
    then none
    else some (invalid_protocol (chosen_protocol req.protocol))

-- The request is none for a nil pointer.
unfoldable pub create_stream :
    String
    → String
    → (ℕ → ℕ)
    → Option CreateStreamRequest
    → StreamManager
    → Result Stream × StreamManager
create_stream stream_id stream_key clock none sm = (err request_required, sm)
create_stream stream_id stream_key clock (some req) sm = elim (check_request req) [
  | some e ↦ (err e, sm)
  | none ↦
      (let stream = new_stream stream_id stream_key (clock 0) req in
        (ok stream, put stream_id stream sm))
]

unfoldable pub get_stream : String → StreamManager → Result Stream
get_stream stream_id sm =
    if str_eq stream_id "" then err stream_id_required else elim (lookup stream_id sm.streams) [
      | none ↦ err (stream_not_found stream_id)
      | some stream ↦ ok stream
    ]

-- `for k, v := range req.Metadata { stream.Metadata[k] = v }`
unfoldable pub set_metadata :
    List (String × String) → List (String × String) → List (String × String)
set_metadata [] metadata = metadata
set_metadata ((k, v) ∷ entries) metadata = set_metadata entries (insert k v metadata)

unfoldable pub updated : ℕ → UpdateStreamRequest → Stream → Stream
updated now req stream = record stream {
  title = or_else req.title stream.title;
  description = or_else req.description stream.description;
  config = or_else req.config stream.config;
  metadata = elim req.metadata [
    | none ↦ stream.metadata
    | some entries ↦ set_metadata entries stream.metadata
  ];
  updated_at = now;
}

-- What a method does with a stream that `GetStream` finds, or with its error.
abbrev pub on_found {ℓ} : {A : Type ℓ} → Result Stream → (StreamError → A) → (Stream → A) → A
on_found (err e) fail found = fail e
on_found (ok stream) fail found = found stream

unfoldable pub update_stream :
    String → (ℕ → ℕ) → Option UpdateStreamRequest → StreamManager → Result Stream × StreamManager
update_stream stream_id clock req sm =
    if str_eq stream_id "" then (err stream_id_required, sm) else elim req [
      | none ↦ (err request_required, sm)
      | some r ↦
          on_found (get_stream stream_id sm) (λ e. (err e, sm))
            (λ stream.
              let stream' = updated (clock 0) r stream in (ok stream', put stream_id stream' sm))
    ]

unfoldable pub delete_stream : String → StreamManager → Option StreamError × StreamManager
delete_stream stream_id sm =
    if str_eq stream_id ""
    then (some stream_id_required, sm)
    else on_found (get_stream stream_id sm) (λ e. (some e, sm))
        (λ stream.
          if is_live stream.state_machine
          then (some cannot_delete_live, sm)
          else (none, record { streams = erase stream_id sm.streams }))

unfoldable pub list_streams : StreamManager → List Stream
list_streams sm = map (λ e. e.1) sm.streams

unfoldable pub get_stream_count : StreamManager → ℕ
get_stream_count sm = length sm.streams

unfoldable pub keep : (Stream → Bool) → List (String × Stream) → List Stream
keep test [] = []
keep test ((_, stream) ∷ streams) =
    if test stream then stream ∷ keep test streams else keep test streams

unfoldable pub get_streams_by_user : String → StreamManager → Result (List Stream)
get_streams_by_user user_id sm =
    if str_eq user_id ""
    then err user_id_required
    else ok (keep (λ stream. str_eq stream.user_id user_id) sm.streams)

-- Equality of two states as strings.
abbrev pub same_state : StreamState → StreamState → Bool
same_state idle idle = true
same_state live live = true
same_state paused paused = true
same_state ended ended = true
same_state error error = true
same_state (other s) (other t) = str_eq s t
same_state _ _ = false

unfoldable pub get_streams_by_state : StreamState → StreamManager → List Stream
get_streams_by_state state sm = keep (λ stream. same_state stream.state state) sm.streams

unfoldable pub get_live_stream_count : StreamManager → ℕ
get_live_stream_count sm = length (keep (λ stream. is_live stream.state_machine) sm.streams)
