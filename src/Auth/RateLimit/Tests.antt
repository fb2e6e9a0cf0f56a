-- ===== src/Auth/RateLimit/Tests.antt =====
-- Two users and their attempts to log in.
use zenlive.Common.{
  ℕ, ◌+◌, ◌-◌, ◌*◌, ◌/◌, ◌≤◌, ◌≡◌, refl, string_discrete, List, [], ◌∷◌, none, some, lookup, insert,
  erase, string_key, arith,
}
use zenlive.Auth.RateLimit.{
  Bucket, TokenBucketLimiter, allowed, panics, new_token_bucket_limiter, bucket_for, refill, spend,
  decide, allow, new_auth_rate_limiter, allow_login,
}
use zenlive.Auth.RateLimit.Bounds.{
  Attempt, Ordered, admitted, admitted_logins, admitted-le, allow-recovers,
}
use zenlive.Auth.RateLimit.Budget.{IsGood, IsTame}

program : Unit {0}
unfolding new_token_bucket_limiter bucket_for refill spend decide allow new_auth_rate_limiter
    allow_login admitted admitted_logins string_discrete lookup insert erase
program = tt

abbrev at : ℕ → Attempt
at time = record { key = "anna"; created = time; now = time }

-- Two tokens, and one more for every ten units of time.
abbrev small : TokenBucketLimiter
small = record { buckets = []; capacity = 2; refill_rate = 1; refill_period = 10 }

abbrev tries : List Attempt
tries = at 0 ∷ at 1 ∷ record { key = "ben"; created = 2; now = 2 } ∷ at 3 ∷ at 12 ∷ at 13 ∷ []

three_of_five : admitted "anna" tries small ≡ 3
unfolding program
three_of_five = refl

small-IsTame : IsTame small 15
small-IsTame = record {
  positive = omega arith;
  capacity_fits = omega arith;
  refill_fits = omega arith;
}

tries-Ordered : Ordered 0 15 tries
tries-Ordered = (
  omega arith,
  omega arith,
  (
    omega arith,
    omega arith,
    (
      omega arith,
      omega arith,
      (
        omega arith,
        omega arith,
        (omega arith, omega arith, (omega arith, omega arith, omega arith)),
      ),
    ),
  ),
)

none_yet : lookup "anna" small.buckets ≡ none
unfolding program
none_yet = refl

admitted-le_example : admitted "anna" tries small ≤ 2 + (15 - 0) / 10 * 1
admitted-le_example = admitted-le "anna" 0 15 tries small small-IsTame tries-Ordered none_yet

abbrev spent : Bucket
spent = record { tokens = 0; last_refill = 3; capacity = 2; refill_rate = 1; refill_period = 10 }

abbrev strained : TokenBucketLimiter
strained = record small { buckets = ("anna", spent) ∷ [] }

spent-IsGood : IsGood strained 15 spent
spent-IsGood = record {
  capacity = refl;
  rate = refl;
  period = refl;
  held = omega arith;
  past = omega arith;
}

strained-IsTame : IsTame strained 15
strained-IsTame = record {
  positive = omega arith;
  capacity_fits = omega arith;
  refill_fits = omega arith;
}

spent_there : lookup "anna" strained.buckets ≡ some spent
unfolding program
spent_there = refl

allow-recovers_example : (allow "anna" 14 15 strained).0 ≡ allowed
allow-recovers_example =
    allow-recovers strained "anna" 14 15 spent strained-IsTame (omega arith) (omega arith)
      spent_there spent-IsGood (omega arith)

zero_period : (allow "anna" 0 0 (new_token_bucket_limiter 5 5 0)).0 ≡ panics
unfolding program
zero_period = refl
