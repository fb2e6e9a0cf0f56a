-- ===== src/Sdk/Filters.antt =====
-- What the queries that the builder of pkg/sdk/query.go builds select.
use zenlive.Common.{
  String, Bool, true, false, not, ◌&&◌, ◌||◌, ◌≡◌, refl, ◌∙◌, ap, List, [], ◌∷◌, none, ltb, insert,
  lookup, string_key, arith,
}
use text.Mathlib.Text.{◌==◌ as str_eq}
use zenlive.Sdk.Stream.{Stream}
use zenlive.Sdk.StreamManager.{same_state}
use zenlive.Sdk.Query.{
  StreamQuery, same_protocol, passes, has_value, has_metadata, unless_set, lt_int, matches_query,
}
use zenlive.Sdk.QueryBuilder.{
  BuilderCall, with_user_id, with_state, with_protocol, created_after, created_before,
  started_after, started_before, with_min_viewers, with_max_viewers, with_search, metadata_is,
  sort_by, sort_order, offset, limit, call_builder, build, protocol_filter, state_filter,
  with_metadata, new_stream_query_builder,
}

-- The query has no filter yet on what the call filters by.
abbrev pub IsOpen : BuilderCall → StreamQuery → Type 0
IsOpen (with_user_id _) query = query.user_id ≡ ""
IsOpen (with_state _) query = query.state ≡ none
IsOpen (with_protocol _) query = query.protocol ≡ none
IsOpen (created_after _) query = query.created_after ≡ none
IsOpen (created_before _) query = query.created_before ≡ none
IsOpen (started_after _) query = query.started_after ≡ none
IsOpen (started_before _) query = query.started_before ≡ none
IsOpen (with_min_viewers _) query = query.min_viewers ≡ none
IsOpen (with_max_viewers _) query = query.max_viewers ≡ none
IsOpen (with_search _) query = query.search ≡ ""
IsOpen (metadata_is key _) query = lookup key query.metadata ≡ none
IsOpen _ query = Unit {0}

-- No call filters by what an earlier one filters by.
abbrev pub AreOpen : List BuilderCall → StreamQuery → Type 0
AreOpen [] query = Unit {0}
AreOpen (call ∷ calls) query = IsOpen call query × AreOpen calls (call_builder call query)

and_false : (b : Bool) → b && false ≡ false
and_false b = ground arith

-- A test `x` that decides `m`, and without which it is `m'`.
by_test : (x m m' : Bool) → (x ≡ true → m ≡ m') → (x ≡ false → m ≡ false) → m ≡ x && m'
by_test true m m' t f = t refl
by_test false m m' t f = f refl

regrouped : (a b c : Bool) → a && (b && c) ≡ (b && a) && c
regrouped a b c = ground arith

dropped_true : (b : Bool) → b && true ≡ b
dropped_true b = ground arith

module _ (to_lower : String → String) (contains before : String → String → Bool) where
  -- The filter of a call, by itself.
  unfoldable pub accepts : BuilderCall → Stream → Bool
  accepts (with_user_id user_id) s = str_eq user_id "" || str_eq s.user_id user_id
  accepts (with_state state) s = unless_set (state_filter state) (λ x. same_state s.state x)
  accepts (with_protocol protocol) s =
      unless_set (protocol_filter protocol) (λ p. same_protocol s.protocol p)
  accepts (created_after t) s = not (ltb s.created_at t)
  accepts (created_before t) s = not (ltb t s.created_at)
  accepts (started_after t) s = passes s.started_at (λ at. not (ltb at t))
  accepts (started_before t) s = passes s.started_at (λ at. not (ltb t at))
  accepts (with_min_viewers count) s = not (lt_int s.viewer_count count)
  accepts (with_max_viewers count) s = not (lt_int count s.viewer_count)
  accepts (with_search term) s =
      str_eq term ""
      || contains (to_lower s.title) (to_lower term)
      || contains (to_lower s.description) (to_lower term)
  accepts (metadata_is key value) s = has_value value (lookup key s.metadata)
  accepts _ s = true

  unfoldable pub accepts_all : List BuilderCall → Stream → Bool
  accepts_all [] s = true
  accepts_all (call ∷ calls) s = accepts call s && accepts_all calls s

  has_metadata-insert :
      (key value : String) (entries : List (String × String)) (s : Stream)
      → lookup key entries ≡ none
      → has_metadata (insert key value entries) s
        ≡ has_value value (lookup key s.metadata) && has_metadata entries s
  unfolding has_metadata insert lookup
  has_metadata-insert key value [] s h = ground arith
  has_metadata-insert key value ((k, v) ∷ entries) s h =
      ground (arith, has_metadata-insert key value entries s)

  call_builder-matches :
      (call : BuilderCall) (query : StreamQuery) (s : Stream)
      → IsOpen call query
      → matches_query to_lower contains before (call_builder call query) s
        ≡ accepts call s && matches_query to_lower contains before query s
  unfolding matches_query call_builder accepts with_metadata
  call_builder-matches (with_user_id x) query s h =
      by_test (str_eq x "" || str_eq s.user_id x) _ _ (λ t. rw (h, t) refl) (λ f. rw f refl)
  call_builder-matches (with_state x) query s h =
      by_test (unless_set (state_filter x) (λ y. same_state s.state y)) _ _ (λ t. rw (h, t) refl)
        (λ f. rw (f, and_false) refl)
  call_builder-matches (with_protocol x) query s h =
      by_test (unless_set (protocol_filter x) (λ p. same_protocol s.protocol p)) _ _
        (λ t. rw (h, t) refl) (λ f. rw (f, and_false) refl)
  call_builder-matches (created_after x) query s h =
      by_test (not (ltb s.created_at x)) _ _ (λ t. rw (h, t) refl) (λ f. rw (f, and_false) refl)
  call_builder-matches (created_before x) query s h =
      by_test (not (ltb x s.created_at)) _ _ (λ t. rw (h, t) refl) (λ f. rw (f, and_false) refl)
  call_builder-matches (started_after x) query s h =
      by_test (passes s.started_at (λ at. not (ltb at x))) _ _ (λ t. rw (h, t) refl)
        (λ f. rw (f, and_false) refl)
  call_builder-matches (started_before x) query s h =
      by_test (passes s.started_at (λ at. not (ltb x at))) _ _ (λ t. rw (h, t) refl)
        (λ f. rw (f, and_false) refl)
  call_builder-matches (with_min_viewers x) query s h =
      by_test (not (lt_int s.viewer_count x)) _ _ (λ t. rw (h, t) refl)
        (λ f. rw (f, and_false) refl)
  call_builder-matches (with_max_viewers x) query s h =
      by_test (not (lt_int x s.viewer_count)) _ _ (λ t. rw (h, t) refl)
        (λ f. rw (f, and_false) refl)
  call_builder-matches (with_search x) query s h =
      by_test
        ((str_eq x ""
          || contains (to_lower s.title) (to_lower x)
          || contains (to_lower s.description) (to_lower x)))
        _ _ (λ t. rw (h, t) refl) (λ f. rw (f, and_false) refl)
  call_builder-matches (metadata_is key value) query s h =
      by_test (has_value value (lookup key s.metadata)) _ _
        (λ t. rw (has_metadata-insert key value query.metadata s h, t) refl)
        (λ f. rw (has_metadata-insert key value query.metadata s h, f, and_false) refl)
  call_builder-matches (sort_by _) query s h = refl
  call_builder-matches (sort_order _) query s h = refl
  call_builder-matches (offset _) query s h = refl
  call_builder-matches (limit _) query s h = refl

  build-matches_from :
      (calls : List BuilderCall) (query : StreamQuery) (s : Stream)
      → AreOpen calls query
      → matches_query to_lower contains before (build calls query) s
        ≡ accepts_all calls s && matches_query to_lower contains before query s
  unfolding build accepts_all
  build-matches_from [] query s h = refl
  build-matches_from (call ∷ calls) query s (h, hs) =
      build-matches_from calls (call_builder call query) s hs
      ∙ ap (λ b. accepts_all calls s && b) (call_builder-matches call query s h)
      ∙ regrouped (accepts_all calls s) (accepts call s)
          (matches_query to_lower contains before query s)

  -- A stream matches the query that the calls of a new builder build exactly if it passes the
  -- filter of each call, where no call filters by what an earlier one filters by.
  pub build-matches :
      (calls : List BuilderCall) (s : Stream)
      → AreOpen calls new_stream_query_builder
      → matches_query to_lower contains before (build calls new_stream_query_builder) s
        ≡ accepts_all calls s
  unfolding matches_query has_metadata
  build-matches calls s h =
      build-matches_from calls new_stream_query_builder s h ∙ dropped_true (accepts_all calls s)
