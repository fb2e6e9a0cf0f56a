-- ===== src/Hls/Window.antt =====
-- The DVR window of pkg/streaming/hls/dvr.go: its indices, its total and what it keeps.
use zenlive.Common.{
  ℕ, zero, suc, ◌+◌, ◌-◌, ◌%◌, ◌^◌, ◌≤◌, ◌≡◌, refl, sym, ap, ◌∙◌, List, [], ◌∷◌, ◌++◌, Bool, false,
  none, ltb, ◌||◌, ◌==◌, length, length-append, length-drop, drop, inl, inr, Bool-cases, arith,
}
use zenlive.Hls.Tables.{Segment}
use zenlive.Hls.Playlist.{durations}
use zenlive.Hls.Dvr.{
  Total, no_time, plus, minus, DvrWindow, is_negative, index_error, new_dvr_window, is_stale,
  trimmed, trim_window, add_segment, set_window_size, first_wrong, validate,
}

-- The indices count on from a number, modulo 2 ^ 64.
abbrev pub Consecutive : ℕ → List Segment → Type 0
Consecutive start [] = Unit {0}
Consecutive start (s ∷ segments) = (s.index ≡ start % 2 ^ 64) × Consecutive (start + 1) segments

Consecutive-mod :
    (a b : ℕ) (segments : List Segment)
    → a % 2 ^ 64 ≡ b % 2 ^ 64
    → Consecutive a segments
    → Consecutive b segments
Consecutive-mod a b [] e h = tt
Consecutive-mod a b (s ∷ segments) e h =
    (h.0 ∙ e, Consecutive-mod (a + 1) (b + 1) segments (omega arith) h.1)

Consecutive-drop :
    (a k : ℕ) (segments : List Segment)
    → k ≤ length segments
    → Consecutive a segments
    → Consecutive (a + k) (drop k segments)
Consecutive-drop a zero segments fits h = Consecutive-mod a (a + 0) segments (omega arith) h
Consecutive-drop a (suc k) [] fits h = absurd (omega arith)
Consecutive-drop a (suc k) (s ∷ segments) fits h =
    Consecutive-mod (a + 1 + k) (a + suc k) (drop k segments) (omega arith)
      (Consecutive-drop (a + 1) k segments (omega arith) h.1)

Consecutive-append :
    (a : ℕ) (segments : List Segment) (s : Segment)
    → Consecutive a segments
    → s.index ≡ (a + length segments) % 2 ^ 64
    → Consecutive a (segments ++ s ∷ [])
Consecutive-append a [] s h e = (omega arith, tt)
Consecutive-append a (t ∷ segments) s h e =
    (h.0, Consecutive-append (a + 1) segments s h.1 (omega arith))

first_wrong_of_Consecutive :
    (start i : ℕ) (segments : List Segment)
    → Consecutive (start + i) segments
    → first_wrong start i segments ≡ none
unfolding first_wrong
first_wrong_of_Consecutive start i [] h = refl
first_wrong_of_Consecutive start i (s ∷ segments) h = ground (
  arith,
  first_wrong_of_Consecutive start (i + 1) segments
      (Consecutive-mod (start + i + 1) (start + (i + 1)) segments (omega arith) h.1),
)

-- The value of a total without roundings.
abbrev pub exact : Total → ℕ
exact no_time = 0
exact (plus t n) = exact t + n
exact (minus t n) = exact t - n

-- The window is in order: its indices count on from its start, and its total without roundings
-- would be that of its segments.
pub record IsWindow (d : DvrWindow) : Type 0 where
  pub indexed : Consecutive d.start_sequence d.segments
  pub total : exact d.total_duration ≡ durations d.segments

validate_of_IsWindow :
    (negative : Total → Bool) {d : DvrWindow}
    → IsWindow d
    → is_negative d.window_size ≡ false
    → negative d.total_duration ≡ false
    → validate negative d ≡ none
unfolding validate
validate_of_IsWindow negative {d} v size_fits total_fits =
    rw (size_fits, total_fits)
      (ap index_error (
        first_wrong_of_Consecutive d.start_sequence 0 d.segments (
          Consecutive-mod d.start_sequence (d.start_sequence + 0) d.segments (omega arith)
            v.indexed)))

-- What the loop removes is there, and its total is that of what is left.
trimmed_le :
    (now size : ℕ) (segments : List Segment) (total : Total)
    → (trimmed now size segments total).0 ≤ length segments
unfolding trimmed
trimmed_le now size [] total = omega arith
trimmed_le now size (s ∷ segments) total =
    ground (arith, trimmed_le now size segments (minus total s.duration))

trimmed_total :
    (now size : ℕ) (segments : List Segment) (total : Total)
    → exact total ≡ durations segments
    → exact (trimmed now size segments total).1
      ≡ durations (drop (trimmed now size segments total).0 segments)
unfolding trimmed durations
trimmed_total now size [] total e = e
trimmed_total now size (s ∷ segments) total e = elim (Bool-cases (is_stale now size s)) [
  | inl old ↦ rw old (trimmed_total now size segments (minus total s.duration) (omega arith))
  | inr fresh ↦ rw fresh e
]

IsWindow-eq :
    (d : DvrWindow) (k : ℕ) (total : Total)
    → exact total ≡ durations (drop k d.segments)
    → k ≤ length d.segments
    → Consecutive d.start_sequence d.segments
    → IsWindow (record d {
      segments = drop k d.segments;
      start_sequence = (d.start_sequence + k) % 2 ^ 64;
      total_duration = total;
    })
IsWindow-eq d k total e fits h = record {
  indexed =
      Consecutive-mod (d.start_sequence + k) ((d.start_sequence + k) % 2 ^ 64) (drop k d.segments)
        (omega arith) (Consecutive-drop d.start_sequence k d.segments fits h);
  total = e;
}

pub trim_window-IsWindow : (now : ℕ) {d : DvrWindow} → IsWindow d → IsWindow (trim_window now d)
unfolding trim_window
trim_window-IsWindow now {d} v =
    let t = trimmed now d.window_size d.segments d.total_duration in
    let total = trimmed_total now d.window_size d.segments d.total_duration v.total in
    let fits = trimmed_le now d.window_size d.segments d.total_duration in
    elim (Bool-cases ((d.window_size == 0) || is_negative d.window_size)) [
      | inl unbounded ↦ rw unbounded v
      | inr bounded ↦ rw bounded (elim (Bool-cases (ltb 0 t.0)) [
        | inl some_old ↦ rw some_old (IsWindow-eq d t.0 t.1 total fits v.indexed)
        | inr none_old ↦
            let zero_old : t.0 ≡ 0 = ground arith in
            rw none_old (record {
              indexed = v.indexed;
              total = total ∙ ap (λ k. durations (drop k d.segments)) zero_old;
            })
      ])
    ]

durations-append :
    (segments : List Segment) (s : Segment)
    → durations (segments ++ s ∷ []) ≡ durations segments + s.duration
unfolding durations
durations-append [] s = omega arith
durations-append (t ∷ segments) s = omega (arith, durations-append segments s)

pub add_segment-IsWindow :
    (now : ℕ) (s : Segment) {d : DvrWindow}
    → IsWindow d
    → s.index ≡ (d.start_sequence + length d.segments) % 2 ^ 64
    → IsWindow (add_segment now s d)
unfolding add_segment
add_segment-IsWindow now s {d} v next = trim_window-IsWindow now (record {
  indexed = Consecutive-append d.start_sequence d.segments s v.indexed next;
  total = ap (λ t. t + s.duration) v.total ∙ sym (durations-append d.segments s);
})

-- The index of the next segment.
abbrev pub next_index : DvrWindow → ℕ
next_index d = (d.start_sequence + length d.segments) % 2 ^ 64

next_index-trim_window : (now : ℕ) (d : DvrWindow) → next_index (trim_window now d) ≡ next_index d
unfolding trim_window
next_index-trim_window now d = ground (
  arith,
  trimmed_le now d.window_size d.segments d.total_duration,
  length-drop {0} (trimmed now d.window_size d.segments d.total_duration).0 d.segments,
)

-- The calls that a stream makes of its window.
pub data Call : Type 0 where
  add : (now : ℕ) → Segment → Call
  resize : (now size : ℕ) → Call

unfoldable pub perform : Call → DvrWindow → DvrWindow
perform (add now s) d = add_segment now s d
perform (resize now size) d = set_window_size now size d

unfoldable pub run : List Call → DvrWindow → DvrWindow
run [] d = d
run (c ∷ calls) d = run calls (perform c d)

-- The segments that are added are numbered from `n` on.
abbrev pub Numbers : ℕ → List Call → Type 0
Numbers n [] = Unit {0}
Numbers n (add now s ∷ calls) = (s.index ≡ n % 2 ^ 64) × Numbers (n + 1) calls
Numbers n (resize now size ∷ calls) = Numbers n calls

run-IsWindow :
    (n : ℕ) (calls : List Call) {d : DvrWindow}
    → IsWindow d
    → next_index d ≡ n % 2 ^ 64
    → Numbers n calls
    → IsWindow (run calls d)
unfolding run perform add_segment set_window_size
run-IsWindow n [] v e h = v
run-IsWindow n (add now s ∷ calls) {d} v e h =
    let added : DvrWindow = record d {
      segments = d.segments ++ s ∷ [];
      total_duration = plus d.total_duration s.duration;
    } in
    run-IsWindow (n + 1) calls (add_segment-IsWindow now s v (h.0 ∙ sym e))
      (next_index-trim_window now added ∙ omega (arith, length-append {0} d.segments (s ∷ []))) h.1
run-IsWindow n (resize now size ∷ calls) {d} v e h =
    let resized : DvrWindow = record d { window_size = size } in
    run-IsWindow n calls
      (trim_window-IsWindow now {d = resized} (record { indexed = v.indexed; total = v.total }))
      (next_index-trim_window now resized ∙ e) h

-- After every history of additions and changes of the size of a new window, in which the segments
-- are numbered from 0 on, its indices count on from its start, its total would be that of its
-- segments if float64 did not round, and `Validate` finds nothing wrong where neither the size nor
-- the total is negative.
pub run-new_dvr_window-IsWindow :
    (negative : Total → Bool) (size : ℕ) (calls : List Call)
    → Numbers 0 calls
    → is_negative (run calls (new_dvr_window size)).window_size ≡ false
    → negative (run calls (new_dvr_window size)).total_duration ≡ false
    → IsWindow (run calls (new_dvr_window size))
      × (validate negative (run calls (new_dvr_window size)) ≡ none)
unfolding new_dvr_window durations
run-new_dvr_window-IsWindow negative size calls h size_fits total_fits =
    let v =
      run-IsWindow 0 calls {d = new_dvr_window size} (record { indexed = tt; total = refl })
        (omega arith) h in
    (v, validate_of_IsWindow negative v size_fits total_fits)
