-- ===== src/Sdk/Query.antt =====
-- The queries of pkg/sdk/query.go. Of the standard library `strings.ToLower`, `strings.Contains`,
-- the order of strings and `sort.Slice` are parameters. An int is a word of 64 bits in two's
-- complement; `now` is the time that the durations are read at.
use zenlive.Common.{
  ℕ, String, Bool, true, false, not, ◌+◌, ◌%◌, ◌^◌, ◌&&◌, ◌||◌, ◌==◌, List, [], ◌∷◌, Option, none,
  some, take, drop, length, ltb, if◌then◌else◌, lookup, string_key,
}
use text.Mathlib.Text.{◌==◌ as str_eq}
use zenlive.Sdk.StateMachine.{StreamState, live}
use zenlive.Sdk.Stream.{Stream, StreamProtocol, rtmp, hls, web_rtc, unset, other, get_duration}
use zenlive.Sdk.StreamManager.{
  Result, ok, err, search_term_required, StreamManager, same_state, keep,
}

-- An empty field of the query is none, or the empty string.
pub record StreamQuery : Type 0 where
  pub user_id : String
  pub state : Option StreamState
  pub protocol : Option StreamProtocol
  pub created_after : Option ℕ
  pub created_before : Option ℕ
  pub started_after : Option ℕ
  pub started_before : Option ℕ
  pub min_viewers : Option ℕ
  pub max_viewers : Option ℕ
  pub search : String
  pub metadata : List (String × String)
  pub sort_by : String
  pub sort_order : String
  pub offset : ℕ
  pub limit : ℕ

pub record StreamQueryResult : Type 0 where
  pub streams : List Stream
  pub total_count : ℕ
  pub offset : ℕ
  pub limit : ℕ

abbrev pub default_stream_query : StreamQuery
default_stream_query = record {
  user_id = "";
  state = none;
  protocol = none;
  created_after = none;
  created_before = none;
  started_after = none;
  started_before = none;
  min_viewers = none;
  max_viewers = none;
  search = "";
  metadata = [];
  sort_by = "created_at";
  sort_order = "desc";
  offset = 0;
  limit = 50;
}

-- `a < b` of signed words.
abbrev pub lt_int : ℕ → ℕ → Bool
lt_int a b = ltb ((a + 2 ^ 63) % 2 ^ 64) ((b + 2 ^ 63) % 2 ^ 64)

abbrev pub same_protocol : StreamProtocol → StreamProtocol → Bool
same_protocol rtmp rtmp = true
same_protocol hls hls = true
same_protocol web_rtc web_rtc = true
same_protocol unset unset = true
same_protocol (other s) (other t) = str_eq s t
same_protocol _ _ = false

-- A filter that is not set lets everything through.
abbrev pub unless_set {ℓ} : {A : Type ℓ} → Option A → (A → Bool) → Bool
unless_set none test = true
unless_set (some a) test = test a

-- A time that is there and passes the test.
abbrev pub passes : Option ℕ → (ℕ → Bool) → Bool
passes none test = false
passes (some t) test = test t

abbrev pub has_value : String → Option String → Bool
has_value value none = false
has_value value (some v) = str_eq v value

unfoldable pub has_metadata : List (String × String) → Stream → Bool
has_metadata [] stream = true
has_metadata ((key, value) ∷ entries) stream =
    has_value value (lookup key stream.metadata) && has_metadata entries stream

-- The part `[start:end]` of a slice; none is a panic.
abbrev pub slice : ℕ → ℕ → List Stream → Option (List Stream)
slice start end streams =
    if lt_int start 0 || lt_int end start then none else some (drop start (take end streams))

-- The start and the end of the page, as `QueryStreams` computes them.
unfoldable pub paginate : ℕ → ℕ → List Stream → Option (List Stream)
paginate offset limit filtered =
    let n = length filtered in
    let start = if lt_int n offset then n else offset in
    let end = (start + limit) % 2 ^ 64 in
    let clipped = if lt_int n end then n else end in
    slice start (if limit == 0 then n else clipped) filtered

module _ (to_lower : String → String) (contains before : String → String → Bool) where
  unfoldable pub matches_query : StreamQuery → Stream → Bool
  matches_query query stream =
      (str_eq query.user_id "" || str_eq stream.user_id query.user_id)
      && unless_set query.state (λ state. same_state stream.state state)
      && unless_set query.protocol (λ protocol. same_protocol stream.protocol protocol)
      && unless_set query.created_after (λ t. not (ltb stream.created_at t))
      && unless_set query.created_before (λ t. not (ltb t stream.created_at))
      && unless_set query.started_after (λ t. passes stream.started_at (λ at. not (ltb at t)))
      && unless_set query.started_before (λ t. passes stream.started_at (λ at. not (ltb t at)))
      && unless_set query.min_viewers (λ count. not (lt_int stream.viewer_count count))
      && unless_set query.max_viewers (λ count. not (lt_int count stream.viewer_count))
      && (str_eq query.search ""
          || contains (to_lower stream.title) (to_lower query.search)
          || contains (to_lower stream.description) (to_lower query.search))
      && has_metadata query.metadata stream

  abbrev pub started_first : Stream → Stream → Bool
  started_first a b = elim a.started_at [
    | none ↦ elim b.started_at [ none ↦ ltb a.created_at b.created_at | some _ ↦ false ]
    | some s ↦ elim b.started_at [ none ↦ true | some t ↦ ltb s t ]
  ]

  -- The comparison that `sortStreams` hands to `sort.Slice`.
  unfoldable pub goes_before : ℕ → String → String → Stream → Stream → Bool
  goes_before now sort_by sort_order a b =
      let less =
        if str_eq sort_by "created_at"
        then ltb a.created_at b.created_at
        else if str_eq sort_by "started_at"
        then started_first a b
        else if str_eq sort_by "viewer_count"
        then lt_int a.viewer_count b.viewer_count
        else if str_eq sort_by "duration"
        then ltb (get_duration now a) (get_duration now b)
        else if str_eq sort_by "title"
        then before a.title b.title
        else ltb a.created_at b.created_at in
      if str_eq sort_order "asc" then less else not less

  module _ (sort : (Stream → Stream → Bool) → List Stream → List Stream) where
    abbrev pub result_of : StreamQuery → ℕ → Option (List Stream) → Option StreamQueryResult
    result_of query n none = none
    result_of query n (some streams) =
        some (record {
          streams = streams;
          total_count = n;
          offset = query.offset;
          limit = query.limit;
        })

    -- The query is none for a nil pointer; the result is none where the code panics.
    unfoldable pub query_streams : ℕ → Option StreamQuery → StreamManager → Option StreamQueryResult
    query_streams now none sm =
        (let query = default_stream_query in
          let filtered = keep (matches_query query) sm.streams in
          result_of query (length filtered) (
            paginate query.offset query.limit
              (sort (goes_before now query.sort_by query.sort_order) filtered)))
    query_streams now (some query) sm =
        let filtered = keep (matches_query query) sm.streams in
        result_of query (length filtered) (
          paginate query.offset query.limit
            (sort (goes_before now query.sort_by query.sort_order) filtered))

    abbrev pub streams_of : Option StreamQueryResult → Option (List Stream)
    streams_of none = none
    streams_of (some result) = some result.streams

    unfoldable pub get_live_streams : ℕ → StreamManager → Option (List Stream)
    get_live_streams now sm = streams_of (
        query_streams now
          (some (record default_stream_query { state = some live; sort_by = "started_at" })) sm)

    unfoldable pub get_recent_streams : ℕ → ℕ → StreamManager → Option (List Stream)
    get_recent_streams now limit sm =
        streams_of (query_streams now (some (record default_stream_query { limit = limit })) sm)

    unfoldable pub get_popular_streams : ℕ → ℕ → StreamManager → Option (List Stream)
    get_popular_streams now limit sm = streams_of (
        query_streams now
          (some (record default_stream_query {
            state = some live;
            sort_by = "viewer_count";
            limit = limit;
          }))
          sm)

    unfoldable pub search_streams : ℕ → String → ℕ → StreamManager → Result (Option (List Stream))
    search_streams now search_term limit sm =
        if str_eq search_term ""
        then err search_term_required
        else ok (
            streams_of (
              query_streams now
                (some (record default_stream_query { search = search_term; limit = limit })) sm))
