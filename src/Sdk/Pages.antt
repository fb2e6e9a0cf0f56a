-- ===== src/Sdk/Pages.antt =====
-- What the queries of pkg/sdk/query.go return.
use native.Mathlib.Nat.{zero-add, suc-add}
use Prim.Native.Nat.{min}
use zenlive.Common.{
  zero, suc, take_all, drop_all, if_cases, ℕ, String, Bool, true, false, ◌+◌, ◌-◌, ◌%◌, ◌^◌, ◌<◌,
  ◌≤◌, ◌==◌, ◌≡◌, refl, ap, ◌∙◌, inl, inr, List, [], ◌∷◌, some, take, drop, length, length-take,
  length-drop, if◌then◌else◌, Bool-cases, All, arith,
}
use zenlive.Sdk.Stream.{Stream}
use zenlive.Sdk.StreamManager.{StreamManager, keep}
use zenlive.Sdk.Query.{
  StreamQuery, StreamQueryResult, lt_int, slice, paginate, matches_query, goes_before, result_of,
  query_streams,
}

-- The page of the streams from an offset on; a limit of 0 is none.
abbrev pub page : ℕ → ℕ → List Stream → List Stream
page offset limit streams =
    if limit == 0 then drop offset streams else take limit (drop offset streams)

slice_good :
    (start end : ℕ) (streams : List Stream)
    → start ≤ end
    → end < 2 ^ 63
    → slice start end streams ≡ some (drop start (take end streams))
slice_good start end streams l b =
    let natural : lt_int start 0 ≡ false = ground (arith, l, b) in
    let ordered : lt_int end start ≡ false = ground (arith, l, b) in rw (natural, ordered) refl

drop-take :
    (s l : ℕ) (streams : List Stream) → drop s (take (s + l) streams) ≡ take l (drop s streams)
drop-take zero l streams = rw zero-add refl
drop-take (suc s) zero [] = rw suc-add refl
drop-take (suc s) (suc l) [] = rw suc-add refl
drop-take (suc s) l (x ∷ streams) = rw suc-add (drop-take s l streams)

-- From the end of the list on there is nothing.
beyond :
    (offset limit : ℕ) (streams : List Stream)
    → length streams < offset
    → page (length streams) limit streams ≡ page offset limit streams
beyond offset limit streams h =
    let gone = drop_all offset streams (omega (arith, h)) in
    let none_left = drop_all (length streams) streams (omega arith) in rw (gone, none_left) refl

-- A page that the list has.
inside :
    (offset limit : ℕ) (streams : List Stream)
    → offset ≤ length streams
    → length streams < 2 ^ 62
    → limit < 2 ^ 62
    → slice offset
        (if limit == 0
          then length streams
          else (if lt_int (length streams) (offset + limit)
              then length streams
              else offset + limit))
        streams
      ≡ some (page offset limit streams)
inside offset limit streams o n l = elim (Bool-cases (limit == 0)) [
  | inl e ↦ rw e (
      slice_good offset (length streams) streams o (omega (arith, n))
      ∙ ap some (ap (drop offset) (take_all (length streams) streams (omega arith))))
  | inr e ↦ elim (Bool-cases (lt_int (length streams) (offset + limit))) [
    | inl c ↦
        let short : length streams < offset + limit = ground (arith, o, n, l) in
        let rest : take limit (drop offset streams) ≡ drop offset streams =
          take_all limit (drop offset streams) (omega (arith, length-drop offset streams, short)) in
        rw (e, c, rest)
          (slice_good offset (length streams) streams o (omega (arith, n))
            ∙ ap some (ap (drop offset) (take_all (length streams) streams (omega arith))))
    | inr c ↦
        rw (e, c)
          (slice_good offset (offset + limit) streams (omega arith) (omega (arith, o, n, l))
            ∙ ap some (drop-take offset limit streams))
  ]
]

paginate-page :
    (offset limit : ℕ) (streams : List Stream)
    → length streams < 2 ^ 62
    → offset < 2 ^ 62
    → limit < 2 ^ 62
    → paginate offset limit streams ≡ some (page offset limit streams)
unfolding paginate
paginate-page offset limit streams n o l = elim (Bool-cases (lt_int (length streams) offset)) [
  | inl e ↦
      let late : length streams < offset = ground (arith, n, o) in
      let wrap : (length streams + limit) % 2 ^ 64 ≡ length streams + limit = omega (arith, n, l) in
      rw (e, wrap)
        (inside (length streams) limit streams (omega arith) n l
          ∙ ap some (beyond offset limit streams late))
  | inr e ↦
      let early : offset ≤ length streams = ground (arith, n, o) in
      let wrap : (offset + limit) % 2 ^ 64 ≡ offset + limit = omega (arith, o, l) in
      rw (e, wrap) (inside offset limit streams early n l)
]

module _ {κ} (P : Stream → Type κ) where
  All-take : (n : ℕ) (streams : List Stream) → All P streams → All P (take n streams)
  All-take zero streams h = tt
  All-take (suc n) [] h = tt
  All-take (suc n) (x ∷ streams) h = (h.0, All-take n streams h.1)

  All-drop : (n : ℕ) (streams : List Stream) → All P streams → All P (drop n streams)
  All-drop zero streams h = h
  All-drop (suc n) [] h = tt
  All-drop (suc n) (x ∷ streams) h = All-drop n streams h.1

  All-page :
      (offset limit : ℕ) (streams : List Stream) → All P streams → All P (page offset limit streams)
  All-page offset limit streams h =
      let rest = All-drop offset streams h in
      if_cases (All P) (limit == 0) (drop offset streams) (take limit (drop offset streams))
        (λ _. rest) (λ _. All-take limit _ rest)

All-keep :
    (test : Stream → Bool) (streams : List (String × Stream))
    → All (λ s. test s ≡ true) (keep test streams)
unfolding keep
All-keep test [] = tt
All-keep test ((k, s) ∷ streams) =
    if_cases (All (λ t. test t ≡ true)) (test s) (s ∷ keep test streams) (keep test streams)
      (λ e. (e, All-keep test streams)) (λ _. All-keep test streams)

length-keep-le :
    (test : Stream → Bool) (streams : List (String × Stream))
    → length (keep test streams) ≤ length streams
unfolding keep
length-keep-le test [] = omega arith
length-keep-le test ((k, s) ∷ streams) =
    if_cases (λ (r : List Stream). length r ≤ suc (length streams)) (test s) (s ∷ keep test streams)
      (keep test streams) (λ _. omega (arith, length-keep-le test streams))
      (λ _. omega (arith, length-keep-le test streams))

-- How many of the streams pass a test.
pub count_matching : (Stream → Bool) → List (String × Stream) → ℕ
count_matching test [] = 0
count_matching test ((_, s) ∷ streams) = (if test s then 1 else 0) + count_matching test streams

length-keep :
    (test : Stream → Bool) (streams : List (String × Stream))
    → length (keep test streams) ≡ count_matching test streams
unfolding keep count_matching
length-keep test [] = refl
length-keep test ((k, s) ∷ streams) = ground (arith, length-keep test streams)

length-page :
    (offset limit : ℕ) (streams : List Stream)
    → length (page offset limit streams)
      ≡ (if limit == 0 then length streams - offset else min limit (length streams - offset))
length-page offset limit streams = elim (Bool-cases (limit == 0)) [
  | inl e ↦ rw e (length-drop offset streams)
  | inr e ↦
      rw e (length-take limit (drop offset streams) ∙ ap (min limit) (length-drop offset streams))
]

module _ (to_lower : String → String) (contains before : String → String → Bool)
    (sort : (Stream → Stream → Bool) → List Stream → List Stream)
    (sort_length : (less : Stream → Stream → Bool) (streams : List Stream)
      → length (sort less streams) ≡ length streams)
    (sort_all : (less : Stream → Stream → Bool) (P : Stream → Type 0) (streams : List Stream)
      → All P streams
      → All P (sort less streams)) where
  -- A query with an offset and a limit that are not negative, all numbers below 2 ^ 62, returns
  -- streams that match it, and never panics, where `sort.Slice` only changes the order: its total
  -- is the number of streams of the manager that match, and it returns as many as the limit and
  -- that number from the offset on allow.
  pub query_streams-matching :
      (now : ℕ) (query : StreamQuery) (sm : StreamManager)
      → length sm.streams < 2 ^ 62
      → query.offset < 2 ^ 62
      → query.limit < 2 ^ 62
      → (result : StreamQueryResult) × (query_streams to_lower contains before sort now
            (some query)
            sm
          ≡ some result)
        × All (λ s. matches_query to_lower contains before query s ≡ true) result.streams
        × (result.total_count
            ≡ count_matching (matches_query to_lower contains before query) sm.streams)
        × (length result.streams ≡ (
            if query.limit == 0
            then result.total_count - query.offset
            else min query.limit (result.total_count - query.offset)))
  unfolding query_streams
  query_streams-matching now query sm n o l =
      let test = matches_query to_lower contains before query in
      let filtered = keep test sm.streams in
      let sorted =
        sort (goes_before to_lower contains before now query.sort_by query.sort_order) filtered in
      let same : length sorted ≡ length filtered =
        sort_length (goes_before to_lower contains before now query.sort_by query.sort_order)
          filtered in
      let small : length sorted < 2 ^ 62 = omega (arith, same, length-keep-le test sm.streams, n) in
      let matching : All (λ s. test s ≡ true) sorted =
        sort_all (goes_before to_lower contains before now query.sort_by query.sort_order)
          (λ s. test s ≡ true) filtered (All-keep test sm.streams) in
      let found : StreamQueryResult = record {
        streams = page query.offset query.limit sorted;
        total_count = length filtered;
        offset = query.offset;
        limit = query.limit;
      } in
      (
        found,
        ap (result_of to_lower contains before sort query (length filtered))
            (paginate-page query.offset query.limit sorted small o l),
        All-page (λ s. test s ≡ true) query.offset query.limit sorted matching,
        length-keep test sm.streams,
        length-page query.offset query.limit sorted
            ∙ ap
                (λ k.
                  if query.limit == 0 then k - query.offset else min query.limit (k - query.offset))
                same,
      )
