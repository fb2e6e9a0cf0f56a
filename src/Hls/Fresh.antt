-- ===== src/Hls/Fresh.antt =====
-- What the DVR window of pkg/streaming/hls/dvr.go keeps: the segments that are not older than it.
use zenlive.Common.{
  ℕ, ◌+◌, ◌≤◌, ◌<◌, ◌≡◌, refl, sym, ap, ◌∙◌, List, [], ◌∷◌, ◌++◌, Bool, true, false, ltb, leb, ◌||◌,
  ◌*◌, ◌^◌, ◌%◌, ◌==◌, if◌then◌else◌, drop, All, inl, inr, Bool-cases, arith,
}
use zenlive.Hls.Tables.{Segment}
use zenlive.Hls.Dvr.{
  Total, plus, minus, is_negative, DvrWindow, is_stale, trimmed, trim_window, add_segment,
}

-- The segment was created more than `size` seconds before `now`.
abbrev pub is_older : ℕ → ℕ → Segment → Bool
is_older now size s = ltb (s.created_at + size * 1_000_000_000) now

is_stale-is_older :
    (now size : ℕ) (s : Segment)
    → size * 1_000_000_000 ≤ 2 ^ 63
    → is_stale now size s ≡ is_older now size s
unfolding is_stale
is_stale-is_older now size s fits =
    let window : size * 1_000_000_000 % 2 ^ 64 ≡ size * 1_000_000_000 = omega (arith, fits) in
    let small : leb (size * 1_000_000_000) (2 ^ 63) ≡ true = ground arith in rw (window, small) refl

-- The segments that are in the window at the time, in their order.
pub fresh_only : ℕ → ℕ → List Segment → List Segment
fresh_only now size [] = []
fresh_only now size (s ∷ segments) =
    let rest = fresh_only now size segments in if is_older now size s then rest else s ∷ rest

-- The segments stand in the order of their creation.
abbrev pub Ascending : List Segment → Type 0
Ascending [] = Unit {0}
Ascending (s ∷ segments) =
    All (λ (t : Segment). s.created_at ≤ t.created_at) segments × Ascending segments

-- What was created after a segment that is not old is not old either.
fresh_only_later :
    (now size : ℕ) (s : Segment) (segments : List Segment)
    → is_older now size s ≡ false
    → All (λ (t : Segment). s.created_at ≤ t.created_at) segments
    → fresh_only now size segments ≡ segments
unfolding fresh_only
fresh_only_later now size s [] fresh h = refl
fresh_only_later now size s (t ∷ segments) fresh h =
    let fresh' : is_older now size t ≡ false = ground arith in
    rw fresh' (ap (◌∷◌ t) (fresh_only_later now size s segments fresh h.1))

drop-trimmed :
    (now size : ℕ) (total : Total) (segments : List Segment)
    → size * 1_000_000_000 ≤ 2 ^ 63
    → Ascending segments
    → drop (trimmed now size segments total).0 segments ≡ fresh_only now size segments
unfolding trimmed fresh_only
drop-trimmed now size total [] fits h = refl
drop-trimmed now size total (s ∷ segments) fits h =
    rw (is_stale-is_older now size s fits) (elim (Bool-cases (is_older now size s)) [
      | inl old ↦ rw old (drop-trimmed now size (minus total s.duration) segments fits h.1)
      | inr fresh ↦ rw fresh (ap (◌∷◌ s) (sym (fresh_only_later now size s segments fresh h.0)))
    ])

segments-trim_window :
    (now : ℕ) (d : DvrWindow)
    → 0 < d.window_size
    → d.window_size * 1_000_000_000 ≤ 2 ^ 63
    → (trim_window now d).segments
      ≡ drop (trimmed now d.window_size d.segments d.total_duration).0 d.segments
unfolding trim_window
segments-trim_window now d bounded fits =
    let t = trimmed now d.window_size d.segments d.total_duration in
    let on : (d.window_size == 0) || is_negative d.window_size ≡ false = ground arith in
    elim (Bool-cases (ltb 0 t.0)) [
      | inl some_old ↦ rw (on, some_old)
      | inr none_old ↦
          let zero_old : t.0 ≡ 0 = ground arith in
          rw (on, none_old) (sym (ap (λ k. drop k d.segments) zero_old))
    ]

-- A window with a positive size of at most 2 ^ 63 nanoseconds keeps of its segments and the new
-- one exactly those that are not older than its size, in their order, where they stand in the order
-- of their creation.
pub add_segment-fresh_only :
    (now : ℕ) (s : Segment) (d : DvrWindow)
    → 0 < d.window_size
    → d.window_size * 1_000_000_000 ≤ 2 ^ 63
    → Ascending (d.segments ++ s ∷ [])
    → (add_segment now s d).segments ≡ fresh_only now d.window_size (d.segments ++ s ∷ [])
unfolding add_segment
add_segment-fresh_only now s d bounded fits h =
    let added : DvrWindow = record d {
      segments = d.segments ++ s ∷ [];
      total_duration = plus d.total_duration s.duration;
    } in
    segments-trim_window now added bounded fits
    ∙ drop-trimmed now d.window_size (plus d.total_duration s.duration) (d.segments ++ s ∷ []) fits
        h
