-- ===== src/Sdk/Stream.antt =====
-- `Stream`, its configuration and its requests: the types of pkg/sdk/stream.go, and the methods of
-- `Stream`. Times and durations are nanoseconds of the monotonic clock, which never goes back; an
-- int64 is the number of its two's complement. The map `Custom` of a configuration, whose values
-- the code only stores, is left out, and the maps of a request are taken as not shared.
use zenlive.Common.{
  ℕ, String, Bool, true, false, ◌+◌, ◌-◌, ◌%◌, ◌^◌, ◌&&◌, ◌||◌, List, Option, none, some, ltb,
  if◌then◌else◌,
}
use zenlive.Sdk.StateMachine.{StreamState, live, paused, ended, StreamStateMachine}

-- A protocol is a string; `unset` is the empty one, `other` any that the code does not know.
pub data StreamProtocol : Type 0 where
  rtmp hls web_rtc unset : StreamProtocol
  other : String → StreamProtocol

pub record VideoQuality : Type 0 where
  pub width : ℕ
  pub height : ℕ
  pub bitrate : ℕ
  pub framerate : ℕ
  pub codec : String
  pub profile : String

pub record StreamConfig : Type 0 where
  pub enable_recording : Bool
  pub enable_chat : Bool
  pub enable_dvr : Bool
  pub max_duration : ℕ
  pub max_viewers : ℕ
  pub video_quality : Option VideoQuality

abbrev pub default_stream_config : StreamConfig
default_stream_config = record {
  enable_recording = true;
  enable_chat = true;
  enable_dvr = false;
  max_duration = 0;
  max_viewers = 0;
  video_quality = some (record {
    width = 1920;
    height = 1080;
    bitrate = 4000;
    framerate = 30;
    codec = "h264";
    profile = "high";
  });
}

pub record Stream : Type 0 where
  pub id : String
  pub stream_key : String
  pub user_id : String
  pub title : String
  pub description : String
  pub protocol : StreamProtocol
  pub state : StreamState
  pub config : StreamConfig
  pub created_at : ℕ
  pub updated_at : ℕ
  pub started_at : Option ℕ
  pub ended_at : Option ℕ
  pub viewer_count : ℕ
  pub total_duration : ℕ
  pub metadata : List (String × String)
  pub state_machine : StreamStateMachine

-- A nil map of metadata is none.
pub record CreateStreamRequest : Type 0 where
  pub user_id : String
  pub title : String
  pub description : String
  pub protocol : StreamProtocol
  pub config : Option StreamConfig
  pub metadata : Option (List (String × String))

pub record UpdateStreamRequest : Type 0 where
  pub title : Option String
  pub description : Option String
  pub config : Option StreamConfig
  pub metadata : Option (List (String × String))

abbrev pub is_live : StreamStateMachine → Bool
is_live sm = elim sm.current_state [ live ↦ true | _ ↦ false ]

abbrev pub is_paused : StreamStateMachine → Bool
is_paused sm = elim sm.current_state [ paused ↦ true | _ ↦ false ]

abbrev pub is_ended : StreamStateMachine → Bool
is_ended sm = elim sm.current_state [ ended ↦ true | _ ↦ false ]

-- The time from a start to an end that is not earlier.
abbrev pub since : Option ℕ → ℕ → ℕ
since none now = 0
since (some start) now = now - start

unfoldable pub get_duration : ℕ → Stream → ℕ
get_duration now s = elim s.started_at [
  | none ↦ 0
  | some start ↦ elim s.ended_at [
    | some end ↦ end - start
    | none ↦
        if is_live s.state_machine || is_paused s.state_machine
        then now - start
        else s.total_duration
  ]
]

unfoldable pub increment_viewer_count : Stream → Stream
increment_viewer_count s = record s { viewer_count = (s.viewer_count + 1) % 2 ^ 64 }

-- `if s.ViewerCount > 0`, of a signed number.
unfoldable pub decrement_viewer_count : Stream → Stream
decrement_viewer_count s =
    if ltb 0 s.viewer_count && ltb s.viewer_count (2 ^ 63)
    then record s { viewer_count = s.viewer_count - 1 }
    else s
