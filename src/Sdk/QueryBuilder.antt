-- ===== src/Sdk/QueryBuilder.antt =====
-- `StreamQueryBuilder` of pkg/sdk/query.go: each method assigns one field of the query, and `Build`
-- returns it. The builder is the query that it points to.
use zenlive.Common.{ℕ, String, List, [], ◌∷◌, Option, some, none, insert, string_key, if◌then◌else◌}
use text.Mathlib.Text.{◌==◌ as str_eq}
use zenlive.Sdk.StateMachine.{StreamState, other}
use zenlive.Sdk.Stream.{StreamProtocol, unset}
use zenlive.Sdk.Query.{StreamQuery, default_stream_query}

abbrev pub new_stream_query_builder : StreamQuery
new_stream_query_builder = default_stream_query

unfoldable pub with_metadata : String → String → StreamQuery → StreamQuery
with_metadata key value query = record query { metadata = insert key value query.metadata }

-- A string that is empty is no filter.
abbrev pub state_filter : StreamState → Option StreamState
state_filter (other s) = if str_eq s "" then none else some (other s)
state_filter state = some state

abbrev pub protocol_filter : StreamProtocol → Option StreamProtocol
protocol_filter unset = none
protocol_filter protocol = some protocol

-- A call of one of the methods, by its name and arguments.
pub data BuilderCall : Type 0 where
  with_user_id : String → BuilderCall
  with_state : StreamState → BuilderCall
  with_protocol : StreamProtocol → BuilderCall
  created_after created_before started_after started_before : ℕ → BuilderCall
  with_min_viewers with_max_viewers : ℕ → BuilderCall
  with_search : String → BuilderCall
  metadata_is : String → String → BuilderCall
  sort_by sort_order : String → BuilderCall
  offset limit : ℕ → BuilderCall

unfoldable pub call_builder : BuilderCall → StreamQuery → StreamQuery
call_builder (with_user_id user_id) query = record query { user_id = user_id }
call_builder (with_state state) query = record query { state = state_filter state }
call_builder (with_protocol protocol) query = record query { protocol = protocol_filter protocol }
call_builder (created_after t) query = record query { created_after = some t }
call_builder (created_before t) query = record query { created_before = some t }
call_builder (started_after t) query = record query { started_after = some t }
call_builder (started_before t) query = record query { started_before = some t }
call_builder (with_min_viewers count) query = record query { min_viewers = some count }
call_builder (with_max_viewers count) query = record query { max_viewers = some count }
call_builder (with_search term) query = record query { search = term }
call_builder (metadata_is key value) query = with_metadata key value query
call_builder (sort_by field) query = record query { sort_by = field }
call_builder (sort_order order) query = record query { sort_order = order }
call_builder (offset n) query = record query { offset = n }
call_builder (limit n) query = record query { limit = n }

-- The query that the calls build, from the one that the builder has.
unfoldable pub build : List BuilderCall → StreamQuery → StreamQuery
build [] query = query
build (call ∷ calls) query = build calls (call_builder call query)
