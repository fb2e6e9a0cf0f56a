-- ===== src/Auth/RateLimit/Budget.antt =====
-- A token bucket of ratelimit.go: what it can still give, and what a decision takes of it.
use native.Mathlib.Nat.{le-div_iff_mul-le, div-mul-le_self, mul-le-mul_right, one-le-mul}
use zenlive.Common.{
  ℕ, ◌+◌, ◌-◌, ◌*◌, ◌/◌, ◌^◌, ◌<◌, ◌≤◌, ◌≡◌, refl, String, true, false, none, some, leb, ◌==◌,
  lookup, string_key, if_cases, Option-cases, inl, inr, arith,
}
use zenlive.Auth.RateLimit.{
  word, signed_lt, Bucket, TokenBucketLimiter, Decision, allowed, min, new_bucket, bucket_for,
  refill, spend, decide,
}

abbrev pub one_if : Decision → ℕ
one_if allowed = 1
one_if _ = 0

div_add-le : (x y p : ℕ) → 0 < p → x / p + y / p ≤ (x + y) / p
div_add-le x y p h =
    (le-div_iff_mul-le {k = p} {x = x / p + y / p} {y = x + y} h).1
      (omega (arith, div-mul-le_self x p, div-mul-le_self y p))

-- A refill in signed words, where nothing wraps.
min_le :
    (capacity tokens added : ℕ)
    → capacity < 2 ^ 62
    → tokens ≤ capacity
    → added < 2 ^ 62
    → (min capacity (word (tokens + word added)) ≤ capacity)
      × (min capacity (word (tokens + word added)) ≤ tokens + added)
min_le capacity tokens added c t a = (ground arith, ground arith)

-- The bucket stands under the limiter's settings, and holds at most its capacity.
pub record IsGood (rl : TokenBucketLimiter) (now : ℕ) (b : Bucket) : Type 0 where
  pub capacity : b.capacity ≡ rl.capacity
  pub rate : b.refill_rate ≡ rl.refill_rate
  pub period : b.refill_period ≡ rl.refill_period
  pub held : b.tokens ≤ rl.capacity
  pub past : b.last_refill ≤ now

spend_lem :
    (rl : TokenBucketLimiter) (now : ℕ) (b : Bucket)
    → rl.capacity < 2 ^ 62
    → IsGood rl now b
    → IsGood rl now (spend b).1
      × (one_if (spend b).0 + (spend b).1.tokens ≤ b.tokens)
      × ((spend b).1.last_refill ≡ b.last_refill)
unfolding spend
spend_lem rl now b c g =
    if_cases {A = Decision × Bucket}
      (λ x.
        IsGood rl now x.1
        × (one_if x.0 + x.1.tokens ≤ b.tokens)
        × (x.1.last_refill ≡ b.last_refill))
      (signed_lt 0 b.tokens) _ _
      (λ e.
        let l : word (b.tokens + (2 ^ 64 - 1)) + 1 ≤ b.tokens = ground (arith, g.held) in
        (
          record {
            capacity = g.capacity;
            rate = g.rate;
            period = g.period;
            held = omega (arith, g.held, l);
            past = g.past;
          },
          omega (arith, l),
          refl,
        ))
      (λ e. (g, omega arith, refl))

-- What a bucket can still give until `end`: its tokens, and those of the periods to come.
abbrev pub budget : ℕ → TokenBucketLimiter → Bucket → ℕ
budget end rl b = b.tokens + (end - b.last_refill) / rl.refill_period * rl.refill_rate

-- The numbers stay small enough for signed words, until `end`.
pub record IsTame (rl : TokenBucketLimiter) (end : ℕ) : Type 0 where
  pub positive : 0 < rl.refill_period
  pub capacity_fits : rl.capacity < 2 ^ 62
  pub refill_fits : end / rl.refill_period * rl.refill_rate < 2 ^ 62

-- The periods up to now and those after it are no more than those of the whole time.
periods-le :
    (last now end p r : ℕ)
    → 0 < p
    → last ≤ now
    → now ≤ end
    → (now - last) / p * r + (end - now) / p * r ≤ (end - last) / p * r
periods-le last now end p r h l m =
    let e : (now - last) + (end - now) ≡ end - last = omega arith in
    let k : (now - last) / p + (end - now) / p ≤ (end - last) / p =
      rw (← e) (div_add-le (now - last) (end - now) p h) in
    omega (arith, mul-le-mul_right r k)

none_less : (n : ℕ) → n - 0 ≡ n
none_less n = omega arith

added_fits :
    (rl : TokenBucketLimiter) (last now end : ℕ)
    → IsTame rl end
    → last ≤ now
    → now ≤ end
    → (now - last) / rl.refill_period * rl.refill_rate < 2 ^ 62
added_fits rl last now end t l n =
    let p = rl.refill_period in
    let r = rl.refill_rate in
    let tame : (end - 0) / p * r < 2 ^ 62 = rw (none_less end) t.refill_fits in
    let later = periods-le 0 now end p r t.positive (omega arith) n in
    let before = periods-le 0 last now p r t.positive (omega arith) l in
    omega (arith, tame, later, before)

refill_lem :
    (rl : TokenBucketLimiter) (now end : ℕ) (b : Bucket)
    → IsTame rl end
    → now ≤ end
    → IsGood rl now b
    → IsGood rl now (refill now b) × (budget end rl (refill now b) ≤ budget end rl b)
unfolding refill
refill_lem rl now end b t n g =
    if_cases (λ x. IsGood rl now x × (budget end rl x ≤ budget end rl b))
      (leb b.refill_period (now - b.last_refill)) _ _
      (λ e.
        let parts =
          periods-le b.last_refill now end rl.refill_period rl.refill_rate t.positive g.past n in
        let added = added_fits rl b.last_refill now end t g.past n in
        let m =
          min_le rl.capacity b.tokens ((now - b.last_refill) / rl.refill_period * rl.refill_rate)
            t.capacity_fits g.held added in
        rw (g.capacity, g.rate, g.period)
          (
            record { capacity = refl; rate = refl; period = refl; held = m.0; past = omega arith },
            omega (arith, m.1, parts),
          ))
      (λ e. (g, omega arith))

pub decide_lem :
    (rl : TokenBucketLimiter) (now end : ℕ) (b : Bucket)
    → IsTame rl end
    → now ≤ end
    → IsGood rl now b
    → IsGood rl now (decide now b).1
      × (one_if (decide now b).0 + budget end rl (decide now b).1 ≤ budget end rl b)
unfolding decide
decide_lem rl now end b t n g =
    let (good, less) = refill_lem rl now end b t n g in
    let (good', spent, same) = spend_lem rl now (refill now b) t.capacity_fits good in
    let z : (b.refill_period == 0) ≡ false = rw g.period (ground (arith, t.positive)) in
    rw z (good', rw same (omega (arith, spent, less)))

div-le : (x y p r : ℕ) → 0 < p → x ≤ y → x / p * r ≤ y / p * r
div-le x y p r h l =
    let k : x / p ≤ y / p =
      (le-div_iff_mul-le {k = p} {x = x / p} {y = y} h).1 (omega (arith, div-mul-le_self x p)) in
    mul-le-mul_right r k

pub bucket_for-found :
    (rl : TokenBucketLimiter) (key : String) (at : ℕ) (b : Bucket)
    → lookup key rl.buckets ≡ some b
    → bucket_for key at rl ≡ b
unfolding bucket_for
bucket_for-found rl key at b e = rw (bucket_for, e)

pub bucket_for-absent :
    (rl : TokenBucketLimiter) (key : String) (at : ℕ)
    → lookup key rl.buckets ≡ none
    → bucket_for key at rl ≡ new_bucket at rl
unfolding bucket_for
bucket_for-absent rl key at e = rw (bucket_for, e)

-- Time passes without a call for the key.
pub wait :
    (rl : TokenBucketLimiter) (key : String) (start now end : ℕ)
    → 0 < rl.refill_period
    → start ≤ now
    → IsGood rl start (bucket_for key start rl)
    → IsGood rl now (bucket_for key now rl)
      × (budget end rl (bucket_for key now rl) ≤ budget end rl (bucket_for key start rl))
wait rl key start now end h l g = elim (Option-cases (lookup key rl.buckets)) [
  | inl e ↦
      rw (bucket_for-absent rl key now e, bucket_for-absent rl key start e)
        (
          record {
            capacity = refl;
            rate = refl;
            period = refl;
            held = omega arith;
            past = omega arith;
          },
          omega (
            arith,
            div-le (end - now) (end - start) rl.refill_period rl.refill_rate h (omega arith),
          ),
        )
  | inr (b, e) ↦
      let g' : IsGood rl start b = rw (← bucket_for-found rl key start b e) g in
      rw (bucket_for-found rl key now b e, bucket_for-found rl key start b e)
        (
          record {
            capacity = g'.capacity;
            rate = g'.rate;
            period = g'.period;
            held = g'.held;
            past = omega (arith, g'.past);
          },
          omega arith,
        )
]

min_pos :
    (capacity tokens added : ℕ)
    → capacity < 2 ^ 62
    → tokens ≤ capacity
    → added < 2 ^ 62
    → 0 < capacity
    → 0 < added
    → signed_lt 0 (min capacity (word (tokens + word added))) ≡ true
min_pos capacity tokens added c t a p q = ground arith

-- Once a full period has passed since the last refill, an attempt is allowed.
pub decide-allowed :
    (rl : TokenBucketLimiter) (now : ℕ) (b : Bucket)
    → IsTame rl now
    → 0 < rl.capacity
    → 0 < rl.refill_rate
    → IsGood rl now b
    → b.last_refill + rl.refill_period ≤ now
    → (decide now b).0 ≡ allowed
unfolding decide refill spend
decide-allowed rl now b t c r g w =
    let p = (now - b.last_refill) / rl.refill_period in
    let one : 1 ≤ p =
      (le-div_iff_mul-le {k = rl.refill_period} {x = 1} {y = now - b.last_refill} t.positive).1
        (omega arith) in
    let added = added_fits rl b.last_refill now now t g.past (omega arith) in
    let some_added : 0 < p * rl.refill_rate = one-le-mul one r in
    let z : (rl.refill_period == 0) ≡ false = ground (arith, t.positive) in
    let e : leb rl.refill_period (now - b.last_refill) ≡ true = ground arith in
    let f =
      min_pos rl.capacity b.tokens (p * rl.refill_rate) t.capacity_fits g.held added c some_added in
    rw (g.period, g.rate, g.capacity, z, e, f)
