-- ===== src/Auth/RateLimit.antt =====
-- pkg/auth/ratelimit.go. An `int` is a 64-bit word, kept as the number below 2 ^ 64 that has its
-- bits; a time is its nanoseconds, and the clock is monotonic, so no elapsed time is negative. The
-- mutex makes each method one step; `time.Now()` is an argument.
pub mod Budget
pub mod Bounds
mod Tests
use zenlive.Common.{
  ℕ, ◌+◌, ◌-◌, ◌*◌, ◌/◌, ◌%◌, ◌^◌, String, Bool, true, false, List, [], ◌∷◌, Option, none, some,
  ltb, leb, ◌==◌, if◌then◌else◌, lookup, insert, erase, string_key,
}

abbrev pub word : ℕ → ℕ
word n = n % 2 ^ 64

-- `a < b` of signed words.
abbrev pub signed_lt : ℕ → ℕ → Bool
signed_lt a b = ltb ((a + 2 ^ 63) % 2 ^ 64) ((b + 2 ^ 63) % 2 ^ 64)

pub record Bucket : Type 0 where
  pub tokens : ℕ
  pub last_refill : ℕ
  pub capacity : ℕ
  pub refill_rate : ℕ
  pub refill_period : ℕ

pub record TokenBucketLimiter : Type 0 where
  pub buckets : List (String × Bucket)
  pub capacity : ℕ
  pub refill_rate : ℕ
  pub refill_period : ℕ

unfoldable pub new_token_bucket_limiter : ℕ → ℕ → ℕ → TokenBucketLimiter
new_token_bucket_limiter capacity refill_rate refill_period = record {
  buckets = [];
  capacity = capacity;
  refill_rate = refill_rate;
  refill_period = refill_period;
}

-- `panics`: the division by a `refillPeriod` of zero.
pub data Decision : Type 0 where
  allowed refused panics : Decision

abbrev pub min : ℕ → ℕ → ℕ
min a b = if signed_lt a b then a else b

-- The bucket that `Allow` makes for a key without one.
abbrev pub new_bucket : ℕ → TokenBucketLimiter → Bucket
new_bucket created rl = record {
  tokens = rl.capacity;
  last_refill = created;
  capacity = rl.capacity;
  refill_rate = rl.refill_rate;
  refill_period = rl.refill_period;
}

unfoldable pub bucket_for : String → ℕ → TokenBucketLimiter → Bucket
bucket_for key created rl = elim (lookup key rl.buckets) [
  | some b ↦ b
  | none ↦ new_bucket created rl
]

-- The tokens of the periods since the last refill, where there was one at least.
unfoldable pub refill : ℕ → Bucket → Bucket
refill now b =
    let elapsed : ℕ = now - b.last_refill in
    if leb b.refill_period elapsed
    then record b {
      tokens = min b.capacity (word (b.tokens + word (elapsed / b.refill_period * b.refill_rate)));
      last_refill = now;
    }
    else b

unfoldable pub spend : Bucket → Decision × Bucket
spend b =
    if signed_lt 0 b.tokens
    then (allowed, record b { tokens = word (b.tokens + (2 ^ 64 - 1)) })
    else (refused, b)

-- With a period of zero `elapsed >= b.refillPeriod` holds, and the division panics.
unfoldable pub decide : ℕ → Bucket → Decision × Bucket
decide now b = if b.refill_period == 0 then (panics, b) else spend (refill now b)

-- `created` is the time of a new bucket and `now` that of the refill, not earlier.
unfoldable pub allow : String → ℕ → ℕ → TokenBucketLimiter → Decision × TokenBucketLimiter
allow key created now rl =
    let (decision, b) = decide now (bucket_for key created rl) in
    (decision, record rl { buckets = insert key b rl.buckets })

unfoldable pub reset : String → TokenBucketLimiter → TokenBucketLimiter
reset key rl = record rl { buckets = erase key rl.buckets }

unfoldable pub keep_recent : ℕ → ℕ → List (String × Bucket) → List (String × Bucket)
keep_recent now max_age [] = []
keep_recent now max_age ((key, b) ∷ buckets) =
    let rest = keep_recent now max_age buckets in
    if ltb max_age (now - b.last_refill) then rest else (key, b) ∷ rest

unfoldable pub cleanup_old_buckets : ℕ → ℕ → TokenBucketLimiter → TokenBucketLimiter
cleanup_old_buckets now max_age rl = record rl { buckets = keep_recent now max_age rl.buckets }

abbrev pub minute : ℕ
minute = 60000000000

pub record AuthRateLimiter : Type 0 where
  pub login_limiter : TokenBucketLimiter
  pub token_limiter : TokenBucketLimiter
  pub general_limiter : TokenBucketLimiter

unfoldable pub new_auth_rate_limiter : AuthRateLimiter
new_auth_rate_limiter = record {
  login_limiter = new_token_bucket_limiter 5 5 minute;
  token_limiter = new_token_bucket_limiter 10 10 minute;
  general_limiter = new_token_bucket_limiter 100 100 minute;
}

-- `AllowLogin` and the two after it return an error exactly where the decision is `refused`.
unfoldable pub allow_login : String → ℕ → ℕ → AuthRateLimiter → Decision × AuthRateLimiter
allow_login key created now arl =
    let (decision, rl) = allow key created now arl.login_limiter in
    (decision, record arl { login_limiter = rl })

unfoldable pub allow_token_refresh : String → ℕ → ℕ → AuthRateLimiter → Decision × AuthRateLimiter
allow_token_refresh user_id created now arl =
    let (decision, rl) = allow user_id created now arl.token_limiter in
    (decision, record arl { token_limiter = rl })

unfoldable pub allow_general_auth : String → ℕ → ℕ → AuthRateLimiter → Decision × AuthRateLimiter
allow_general_auth user_id created now arl =
    let (decision, rl) = allow user_id created now arl.general_limiter in
    (decision, record arl { general_limiter = rl })

abbrev pub reset_login : String → AuthRateLimiter → AuthRateLimiter
reset_login key arl = record arl { login_limiter = reset key arl.login_limiter }

abbrev pub reset_token_refresh : String → AuthRateLimiter → AuthRateLimiter
reset_token_refresh user_id arl = record arl { token_limiter = reset user_id arl.token_limiter }

abbrev pub reset_general_auth : String → AuthRateLimiter → AuthRateLimiter
reset_general_auth user_id arl = record arl { general_limiter = reset user_id arl.general_limiter }
