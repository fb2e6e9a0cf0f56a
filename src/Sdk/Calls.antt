-- ===== src/Sdk/Calls.antt =====
-- Histories of calls of a stream controller, of its manager and of the streams that it holds.
use zenlive.Common.{ℕ, String, Bool, List, [], ◌∷◌, Option, none, some, lookup, string_key}
use zenlive.Sdk.Stream.{
  Stream, CreateStreamRequest, UpdateStreamRequest, increment_viewer_count, decrement_viewer_count,
}
use zenlive.Sdk.StreamManager.{
  Result, ok, err, StreamManager, new_stream_manager, create_stream, update_stream, delete_stream,
}
use zenlive.Sdk.StreamController.{
  StreamController, Reply, set_stream, start_stream, stop_stream, emergency_stop, pause_stream,
  resume_stream, restart_stream, stop_all_streams,
}

pub data Call : Type 0 where
  creates : String → String → (ℕ → ℕ) → Option CreateStreamRequest → Call
  updates : String → (ℕ → ℕ) → Option UpdateStreamRequest → Call
  deletes : String → Call
  starts stops pauses resumes restarts : String → (ℕ → ℕ) → Call
  stops_now : String → (ℕ → ℕ) → String → Call
  stops_all : (ℕ → ℕ) → Call
  joins leaves : String → Call

-- A call of the manager publishes nothing.
abbrev pub managed : StreamController → Result Stream × StreamManager → Reply
managed sc (ok stream, sm) = (none, record sc { manager = sm }, [])
managed sc (err e, sm) = (some e, record sc { manager = sm }, [])

-- A method of a stream, for a client that holds it.
unfoldable pub touch : (Stream → Stream) → String → StreamController → Reply
touch f stream_id sc = elim (lookup stream_id sc.manager.streams) [
  | none ↦ (none, sc, [])
  | some stream ↦ (none, set_stream stream_id (f stream) sc, [])
]

unfoldable pub step : Call → StreamController → Reply
step (creates stream_id stream_key clock req) sc =
    managed sc (create_stream stream_id stream_key clock req sc.manager)
step (updates stream_id clock req) sc = managed sc (update_stream stream_id clock req sc.manager)
step (deletes stream_id) sc =
    (let (e, sm) = delete_stream stream_id sc.manager in (e, record sc { manager = sm }, []))
step (starts stream_id clock) sc = start_stream clock stream_id sc
step (stops stream_id clock) sc = stop_stream clock stream_id sc
step (pauses stream_id clock) sc = pause_stream clock stream_id sc
step (resumes stream_id clock) sc = resume_stream clock stream_id sc
step (restarts stream_id clock) sc = restart_stream clock stream_id sc
step (stops_now stream_id clock reason) sc = emergency_stop clock stream_id reason sc
step (stops_all clock) sc = (let (sc', events) = stop_all_streams clock sc in (none, sc', events))
step (joins stream_id) sc = touch increment_viewer_count stream_id sc
step (leaves stream_id) sc = touch decrement_viewer_count stream_id sc

unfoldable pub run : List Call → StreamController → StreamController
run [] sc = sc
run (c ∷ cs) sc = run cs (step c sc).1

unfoldable pub new_stream_controller : Bool → StreamController
new_stream_controller has_events = record { manager = new_stream_manager; has_events = has_events }
