-- ===== src/Sdk/QueryTests.antt =====
-- A query of two streams. The strings of the tests are lower case, and nothing is sorted.
use zenlive.Common.{
  String, Bool, true, false, ◌-◌, ◌≡◌, ◌==◌, refl, [], ◌∷◌, List, none, some, length, if◌then◌else◌,
  All, arith, string_key, string_discrete, lookup, insert,
}
use Prim.Native.Nat.{min}
use text.Mathlib.Text.{◌==◌ as str_eq}
use zenlive.Sdk.StateMachine.{idle}
use zenlive.Sdk.Stream.{Stream, hls}
use zenlive.Sdk.StreamManager.{StreamManager, new_stream}
use zenlive.Sdk.Query.{
  StreamQuery, StreamQueryResult, default_stream_query, matches_query, has_metadata, query_streams,
}
use zenlive.Sdk.QueryBuilder.{
  BuilderCall, with_user_id, limit, with_state, metadata_is, new_stream_query_builder,
  with_metadata, call_builder, build,
}
use zenlive.Sdk.Filters.{AreOpen, accepts, accepts_all, build-matches}
use zenlive.Sdk.Pages.{count_matching, query_streams-matching}

abbrev to_lower : String → String
to_lower s = s

abbrev contains : String → String → Bool
contains s t = str_eq s t

abbrev before : String → String → Bool
before s t = false

abbrev sort : (Stream → Stream → Bool) → List Stream → List Stream
sort less streams = streams

abbrev made : String → String → Stream
made id user_id = new_stream id "key" 5 (record {
  user_id = user_id;
  title = "show";
  description = "";
  protocol = hls;
  config = none;
  metadata = none;
})

abbrev archive : StreamManager
archive = record { streams = ("a", made "a" "ann") ∷ ("b", made "b" "bob") ∷ [] }

abbrev of_bob : StreamQuery
of_bob = record default_stream_query { user_id = "bob"; state = some idle; limit = 1 }

query_streams-matching_example :
    (result : StreamQueryResult) × (query_streams to_lower contains before sort 9
        (some of_bob)
        archive
      ≡ some result)
    × All (λ s. matches_query to_lower contains before of_bob s ≡ true) result.streams
    × (result.total_count
        ≡ count_matching (matches_query to_lower contains before of_bob) archive.streams)
    × (length result.streams ≡ (
        if of_bob.limit == 0
        then result.total_count - of_bob.offset
        else min of_bob.limit (result.total_count - of_bob.offset)))
query_streams-matching_example =
    query_streams-matching to_lower contains before sort (λ _ _. refl) (λ _ _ _ h. h) 9 of_bob
      archive (omega arith) (omega arith) (omega arith)

-- One of the two streams matches.
found_bob :
    (matches_query to_lower contains before of_bob (made "b" "bob") ≡ true)
    × (matches_query to_lower contains before of_bob (made "a" "ann") ≡ false)
unfolding matches_query has_metadata new_stream
found_bob = (refl, refl)

-- Three filters and a page.
abbrev calls : List BuilderCall
calls =
    with_user_id "bob"
    ∷ limit 1
    ∷ with_state idle
    ∷ metadata_is "room" "red"
    ∷ metadata_is "kind" "talk"
    ∷ []

calls-AreOpen : AreOpen calls new_stream_query_builder
unfolding call_builder with_metadata string_discrete lookup insert
calls-AreOpen = (refl, (tt, (refl, (refl, (refl, tt)))))

build-matches_example :
    matches_query to_lower contains before (build calls new_stream_query_builder) (made "b" "bob")
    ≡ accepts_all to_lower contains before calls (made "b" "bob")
build-matches_example = build-matches to_lower contains before calls (made "b" "bob") calls-AreOpen

-- The stream has no metadata.
calls_refuse : accepts_all to_lower contains before calls (made "b" "bob") ≡ false
unfolding accepts_all accepts new_stream lookup
calls_refuse = refl
