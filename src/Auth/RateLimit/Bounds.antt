-- ===== src/Auth/RateLimit/Bounds.antt =====
-- How many actions the rate limiter of ratelimit.go admits.
use zenlive.Common.{
  ℕ, ◌+◌, ◌-◌, ◌*◌, ◌/◌, ◌^◌, ◌<◌, ◌≤◌, ◌≡◌, ◌≢◌, refl, sym, ap, ◌∙◌, String, string_discrete, List,
  [], ◌∷◌, none, some, lookup, lookup-insert, lookup-insert_self, string_key, Option-cases, inl,
  inr, ite, if_pos, if_neg, arith,
}
use zenlive.Auth.RateLimit.{
  Bucket, TokenBucketLimiter, allowed, bucket_for, decide, allow, new_token_bucket_limiter,
  AuthRateLimiter, new_auth_rate_limiter, allow_login, minute,
}
use zenlive.Auth.RateLimit.Budget.{
  one_if, IsGood, IsTame, budget, wait, decide_lem, bucket_for-found, bucket_for-absent,
  decide-allowed,
}

-- `Allow` for a key: the time of a new bucket, and the time of the refill.
pub record Attempt : Type 0 where
  pub key : String
  pub created : ℕ
  pub now : ℕ

-- The times do not run backwards, from `start` to `end`.
abbrev pub Ordered : ℕ → ℕ → List Attempt → Type 0
Ordered start end [] = start ≤ end
Ordered start end (a ∷ as') = (start ≤ a.created) × (a.created ≤ a.now) × Ordered a.now end as'

-- How many of the attempts of a key are allowed, among those of all keys.
unfoldable pub admitted : String → List Attempt → TokenBucketLimiter → ℕ
admitted key [] rl = 0
admitted key (a ∷ as') rl =
    let (decision, rl') = allow a.key a.created a.now rl in
    ite (string_discrete a.key key) (one_if decision) 0 + admitted key as' rl'

-- The limiter after a call: its settings are those that it had.
module _ (rl : TokenBucketLimiter) (key : String) (a : Attempt) where
  abbrev rest_of : TokenBucketLimiter
  rest_of = (allow a.key a.created a.now rl).1

  ours : a.key ≡ key → bucket_for key a.now rest_of ≡ (decide a.now (bucket_for key a.created rl)).1
  unfolding allow
  ours e = bucket_for-found rest_of key a.now _ (rw e (lookup-insert_self key _ rl.buckets))

  others : a.key ≢ key → bucket_for key a.now rest_of ≡ bucket_for key a.now rl
  unfolding allow
  others n =
      let same : lookup key rest_of.buckets ≡ lookup key rl.buckets =
        rw (lookup-insert a.key key, if_neg _ n) in
      elim (Option-cases (lookup key rl.buckets)) [
        | inl e ↦
            bucket_for-absent rest_of key a.now (same ∙ e) ∙ sym (bucket_for-absent rl key a.now e)
        | inr (b, e) ↦
            bucket_for-found rest_of key a.now b (same ∙ e)
            ∙ sym (bucket_for-found rl key a.now b e)
      ]

Ordered-le : (start end : ℕ) (cs : List Attempt) → Ordered start end cs → start ≤ end
Ordered-le start end [] o = o
Ordered-le start end (a ∷ cs) o = omega (arith, o.0, o.1, Ordered-le a.now end cs o.2)

module _ (key : String) (end : ℕ) where
  -- One attempt: the bucket after it, and what it has taken of the budget.
  attempt-IsGood :
      (rl : TokenBucketLimiter) (start : ℕ) (a : Attempt)
      → IsTame rl end
      → start ≤ a.created
      → a.created ≤ a.now
      → a.now ≤ end
      → IsGood rl start (bucket_for key start rl)
      → IsGood (rest_of rl key a) a.now (bucket_for key a.now (rest_of rl key a))
        × (ite (string_discrete a.key key) (one_if (allow a.key a.created a.now rl).0) 0
              + budget end rl (bucket_for key a.now (rest_of rl key a))
            ≤ budget end rl (bucket_for key start rl))
  unfolding allow
  attempt-IsGood rl start a t l m n g = elim (string_discrete a.key key) [
    | yes e ↦
        let (g1, b1) = wait rl key start a.created end t.positive l g in
        let g2 : IsGood rl a.now (bucket_for key a.created rl) = record {
          capacity = g1.capacity;
          rate = g1.rate;
          period = g1.period;
          held = g1.held;
          past = omega (arith, g1.past, m);
        } in
        let (g3, b3) = decide_lem rl a.now end (bucket_for key a.created rl) t n g2 in
        rw (ours rl key a e, if_pos _ e, e)
          (
            record {
              capacity = g3.capacity;
              rate = g3.rate;
              period = g3.period;
              held = g3.held;
              past = g3.past;
            },
            omega (arith, b1, b3),
          )
    | no d ↦
        let (g1, b1) = wait rl key start a.now end t.positive (omega (arith, l, m)) g in
        rw (others rl key a d, if_neg _ d)
          (
            record {
              capacity = g1.capacity;
              rate = g1.rate;
              period = g1.period;
              held = g1.held;
              past = g1.past;
            },
            omega (arith, b1),
          )
  ]

  admitted-le_budget :
      (cs : List Attempt) (rl : TokenBucketLimiter) (start : ℕ)
      → IsTame rl end
      → Ordered start end cs
      → IsGood rl start (bucket_for key start rl)
      → admitted key cs rl ≤ budget end rl (bucket_for key start rl)
  unfolding admitted allow
  admitted-le_budget [] rl start t o g = omega arith
  admitted-le_budget (a ∷ cs) rl start t o g =
      let (good, spent) = attempt-IsGood rl start a t o.0 o.1 (Ordered-le a.now end cs o.2) g in
      let t' : IsTame (rest_of rl key a) end = record {
        positive = t.positive;
        capacity_fits = t.capacity_fits;
        refill_fits = t.refill_fits;
      } in
      omega (arith, spent, admitted-le_budget cs (rest_of rl key a) a.now t' o.2 good)

-- From the time `start` to `end`, at most the capacity and the refills of the time's full periods
-- are admitted for a key that has no bucket yet, whatever comes for other keys in between, where
-- the period is not zero and the numbers are too small to wrap.
pub admitted-le :
    (key : String) (start end : ℕ) (cs : List Attempt) (rl : TokenBucketLimiter)
    → IsTame rl end
    → Ordered start end cs
    → lookup key rl.buckets ≡ none
    → admitted key cs rl ≤ rl.capacity + (end - start) / rl.refill_period * rl.refill_rate
admitted-le key start end cs rl t o e =
    let fresh = bucket_for-absent rl key start e in
    let good : IsGood rl start (bucket_for key start rl) = rw fresh (record {
      capacity = refl;
      rate = refl;
      period = refl;
      held = omega arith;
      past = omega arith;
    }) in
    omega (arith, ap (budget end rl) fresh, admitted-le_budget key end cs rl start t o good)

-- How many of a user's login attempts are allowed, among those of all users.
unfoldable pub admitted_logins : String → List Attempt → AuthRateLimiter → ℕ
admitted_logins key [] arl = 0
admitted_logins key (a ∷ cs) arl =
    let (decision, arl') = allow_login a.key a.created a.now arl in
    ite (string_discrete a.key key) (one_if decision) 0 + admitted_logins key cs arl'

admitted_logins-admitted :
    (key : String) (cs : List Attempt) (arl : AuthRateLimiter)
    → admitted_logins key cs arl ≡ admitted key cs arl.login_limiter
unfolding admitted_logins admitted allow_login
admitted_logins-admitted key [] arl = refl
admitted_logins-admitted key (a ∷ cs) arl =
    rw (admitted_logins-admitted key cs (allow_login a.key a.created a.now arl).1)

-- A new limiter lets a user log in at most five times, and five times more for each full minute
-- that passes, whatever the others do, as long as the clock fits a signed word.
pub admitted_logins-le :
    (key : String) (start end : ℕ) (cs : List Attempt)
    → end < 2 ^ 63
    → Ordered start end cs
    → admitted_logins key cs new_auth_rate_limiter ≤ 5 + (end - start) / minute * 5
unfolding new_auth_rate_limiter new_token_bucket_limiter lookup
admitted_logins-le key start end cs h o =
    let tame : IsTame new_auth_rate_limiter.login_limiter end = record {
      positive = omega arith;
      capacity_fits = omega arith;
      refill_fits = omega arith;
    } in
    rw admitted_logins-admitted
      (admitted-le key start end cs new_auth_rate_limiter.login_limiter tame o refl)

-- A key is not starved: once a full period has passed since its bucket was last refilled, its next
-- attempt is allowed, whatever came before, where capacity, rate and period are positive, the
-- bucket has the limiter's settings and no more tokens than they allow, and the numbers are too
-- small to wrap.
pub allow-recovers :
    (rl : TokenBucketLimiter) (key : String) (created now : ℕ) (b : Bucket)
    → IsTame rl now
    → 0 < rl.capacity
    → 0 < rl.refill_rate
    → lookup key rl.buckets ≡ some b
    → IsGood rl now b
    → b.last_refill + rl.refill_period ≤ now
    → (allow key created now rl).0 ≡ allowed
unfolding allow
allow-recovers rl key created now b t c r e g w =
    rw (bucket_for-found rl key created b e) (decide-allowed rl now b t c r g w)
