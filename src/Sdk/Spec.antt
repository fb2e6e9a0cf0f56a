-- ===== src/Sdk/Spec.antt =====
-- The stream control of pkg/sdk as its users see it: the state of each stream, by its id. The
-- specification says what a call does to it, without the state machines, the times, the order of
-- the map and the checks of the code.
use zenlive.Common.{
  String, List, [], ◌∷◌, Option, none, some, ite, lookup, string_key, string_discrete,
}
use zenlive.Sdk.StateMachine.{StreamState, idle, live, paused, ended}
use zenlive.Sdk.Stream.{Stream}
use zenlive.Sdk.StreamManager.{check_request}
use zenlive.Sdk.StreamController.{StreamController}
use zenlive.Sdk.Calls.{
  Call, creates, updates, deletes, starts, stops, pauses, resumes, restarts, stops_now, stops_all,
  joins, leaves,
}
use zenlive.Sdk.Operations.{on_start, on_stop, on_pause, on_resume, on_emergency}
use zenlive.Sdk.Restart.{on_restart}

abbrev pub View : Type 0
View = String → Option StreamState

abbrev pub state_of : Option Stream → Option StreamState
state_of none = none
state_of (some s) = some s.state

unfoldable pub view : StreamController → View
view sc j = state_of (lookup j sc.manager.streams)

abbrev pub set_at : String → Option StreamState → View → View
set_at stream_id x v j = ite (string_discrete stream_id j) x (v j)

-- A stream that is there moves by `f`, and stays where it is if `f` refuses.
abbrev pub moved_from : Option StreamState → (StreamState → Option StreamState) → Option StreamState
moved_from none f = none
moved_from (some s) f = elim (f s) [ none ↦ some s | some t ↦ some t ]

abbrev pub move : (StreamState → Option StreamState) → String → View → View
move f stream_id v = set_at stream_id (moved_from (v stream_id) f) v

-- A stream is deleted unless it is live.
abbrev pub deleted_from : Option StreamState → Option StreamState
deleted_from (some live) = some live
deleted_from _ = none

-- A stream that is live or paused has ended.
abbrev pub finished_from : Option StreamState → Option StreamState
finished_from (some live) = some ended
finished_from (some paused) = some ended
finished_from x = x

unfoldable pub spec : Call → View → View
spec (creates stream_id stream_key clock none) v = v
spec (creates stream_id stream_key clock (some req)) v = elim (check_request req) [
  | some e ↦ v
  | none ↦ set_at stream_id (some idle) v
]
spec (updates stream_id clock req) v = v
spec (deletes stream_id) v = set_at stream_id (deleted_from (v stream_id)) v
spec (starts stream_id clock) v = move on_start stream_id v
spec (stops stream_id clock) v = move on_stop stream_id v
spec (pauses stream_id clock) v = move on_pause stream_id v
spec (resumes stream_id clock) v = move on_resume stream_id v
spec (restarts stream_id clock) v = move on_restart stream_id v
spec (stops_now stream_id clock reason) v = move on_emergency stream_id v
spec (stops_all clock) v = λ j. finished_from (v j)
spec (joins stream_id) v = v
spec (leaves stream_id) v = v

unfoldable pub spec_run : List Call → View → View
spec_run [] v = v
spec_run (c ∷ cs) v = spec_run cs (spec c v)
