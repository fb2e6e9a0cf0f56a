-- ===== src/Cache.antt =====
-- `InMemoryCache` of pkg/cache/cache.go. The mutex makes each method one step, and the times that
-- `time.Now()` returns are arguments. Durations are taken as not negative, and the counters, which
-- count calls, as below 2 ^ 63. The cleanup goroutine is a call of `cleanup` among the others.
pub mod Victim
pub mod Lookup
pub mod Bounds
pub mod Interface
pub mod MultiLevel
pub mod Promotion
mod Tests
mod LevelTests
use zenlive.Common.{
  ℕ, ◌+◌, String, Bool, true, false, not, ◌&&◌, ◌||◌, List, [], ◌∷◌, Option, none, some, map,
  length, ltb, leb, ◌==◌, if◌then◌else◌, lookup, insert, erase, string_key,
}
use text.Mathlib.Text.{◌==◌ as str_eq}

pub record CacheEntry (V : Type 0) : Type 0 where
  pub key : String
  pub value : V
  pub expires_at : ℕ
  pub created_at : ℕ
  pub access_count : ℕ
  pub last_access : ℕ

unfoldable pub is_expired : {V : Type 0} → ℕ → CacheEntry V → Bool
is_expired now entry = ltb entry.expires_at now

-- The policy is a string; `other` stands for any but the three that the code knows.
pub data EvictionPolicy : Type 0 where
  lru lfu fifo : EvictionPolicy
  other : String → EvictionPolicy

pub record InMemoryCache (V : Type 0) : Type 0 where
  pub entries : List (String × CacheEntry V)
  pub max_size : ℕ
  pub default_ttl : ℕ
  pub eviction_policy : EvictionPolicy
  pub hits : ℕ
  pub misses : ℕ
  pub evictions : ℕ
  pub running : Bool

-- The statistics; `HitRate` is the quotient of `hits` and `hits + misses`, in floating point.
pub record CacheStats : Type 0 where
  pub hits : ℕ
  pub misses : ℕ
  pub evictions : ℕ
  pub size : ℕ

pub data Reply (V : Type 0) : Type 0 where
  found : V → Reply V
  key_not_found key_expired : Reply V

module _ {V : Type 0} where
  unfoldable pub new_in_memory_cache : ℕ → ℕ → EvictionPolicy → InMemoryCache V
  new_in_memory_cache max_size default_ttl eviction_policy = record {
    entries = [];
    max_size = max_size;
    default_ttl = default_ttl;
    eviction_policy = eviction_policy;
    hits = 0;
    misses = 0;
    evictions = 0;
    running = false;
  }

  -- `Start` and `Stop`: whether the cleanup goroutine runs.
  unfoldable pub start : InMemoryCache V → InMemoryCache V
  start c = record c { running = true }

  unfoldable pub stop : InMemoryCache V → InMemoryCache V
  stop c = record c { running = false }

  -- An entry that is there: `now` is when it is checked, `later` the time of the access.
  unfoldable pub access :
      String → ℕ → ℕ → CacheEntry V → InMemoryCache V → Reply V × InMemoryCache V
  access key now later entry c =
      if is_expired now entry
      then (key_expired, record c { entries = erase key c.entries; misses = c.misses + 1 })
      else (
        found entry.value,
        record c {
          entries =
              insert key
                (record entry { access_count = entry.access_count + 1; last_access = later })
                c.entries;
          hits = c.hits + 1;
        },
      )

  unfoldable pub get : String → ℕ → ℕ → InMemoryCache V → Reply V × InMemoryCache V
  get key now later c = elim (lookup key c.entries) [
    | none ↦ (key_not_found, record c { misses = c.misses + 1 })
    | some entry ↦ access key now later entry c
  ]

  -- The loops of `evictLRU` and `evictFIFO`, which differ in the time that they compare.
  unfoldable pub earliest : (CacheEntry V → ℕ) → String → ℕ → List (String × CacheEntry V) → String
  earliest time victim_key oldest [] = victim_key
  earliest time victim_key oldest ((key, entry) ∷ entries) =
      if str_eq victim_key "" || ltb (time entry) oldest
      then earliest time key (time entry) entries
      else earliest time victim_key oldest entries

  -- The loop of `evictLFU`; `lowest` is none for -1.
  unfoldable pub least_used : String → Option ℕ → List (String × CacheEntry V) → String
  least_used victim_key lowest [] = victim_key
  least_used victim_key none ((key, entry) ∷ entries) =
      least_used key (some entry.access_count) entries
  least_used victim_key (some count) ((key, entry) ∷ entries) =
      if ltb entry.access_count count
      then least_used key (some entry.access_count) entries
      else least_used victim_key (some count) entries

  unfoldable pub victim : InMemoryCache V → String
  victim c = elim c.eviction_policy [
    | lru ↦ earliest (λ e. e.last_access) "" 0 c.entries
    | lfu ↦ least_used "" none c.entries
    | fifo ↦ earliest (λ e. e.created_at) "" 0 c.entries
    | other _ ↦ earliest (λ e. e.last_access) "" 0 c.entries
  ]

  unfoldable pub evict : InMemoryCache V → InMemoryCache V
  evict c =
      if (length c.entries == 0) || str_eq (victim c) ""
      then c
      else record c { entries = erase (victim c) c.entries; evictions = c.evictions + 1 }

  -- The eviction in `Set`: the cache is full and the key is new.
  unfoldable pub make_room : String → InMemoryCache V → InMemoryCache V
  make_room key c =
      if leb c.max_size (length c.entries)
      then elim (lookup key c.entries) [ some _ ↦ c | none ↦ evict c ]
      else c

  abbrev pub new_entry : String → V → ℕ → ℕ → CacheEntry V
  new_entry key value ttl now = record {
    key = key;
    value = value;
    expires_at = now + ttl;
    created_at = now;
    access_count = 0;
    last_access = now;
  }

  unfoldable pub set : String → V → ℕ → ℕ → InMemoryCache V → InMemoryCache V
  set key value ttl now c =
      let ttl' = if ttl == 0 then c.default_ttl else ttl in
      let c' = make_room key c in
      record c' { entries = insert key (new_entry key value ttl' now) c'.entries }

  unfoldable pub delete : String → InMemoryCache V → InMemoryCache V
  delete key c = record c { entries = erase key c.entries }

  unfoldable pub exists : String → ℕ → InMemoryCache V → Bool
  exists key now c = elim (lookup key c.entries) [
    | none ↦ false
    | some entry ↦ not (is_expired now entry)
  ]

  unfoldable pub clear : InMemoryCache V → InMemoryCache V
  clear c = record c { entries = [] }

  unfoldable pub keys : InMemoryCache V → List String
  keys c = map (λ e. e.0) c.entries

  unfoldable pub stats : InMemoryCache V → CacheStats
  stats c = record {
    hits = c.hits;
    misses = c.misses;
    evictions = c.evictions;
    size = length c.entries;
  }

  unfoldable pub unexpired : ℕ → List (String × CacheEntry V) → List (String × CacheEntry V)
  unexpired now [] = []
  unexpired now ((key, entry) ∷ entries) =
      let rest = unexpired now entries in if is_expired now entry then rest else (key, entry) ∷ rest

  unfoldable pub cleanup : ℕ → InMemoryCache V → InMemoryCache V
  cleanup now c = record c { entries = unexpired now c.entries }

-- A call of one of the methods that change the entries, and the cache after it.
pub data Call (V : Type 0) : Type 0 where
  gets : String → ℕ → ℕ → Call V
  sets : String → V → ℕ → ℕ → Call V
  deletes : String → Call V
  clears : Call V
  cleans : ℕ → Call V

unfoldable pub step : {V : Type 0} → Call V → InMemoryCache V → InMemoryCache V
step (gets key now later) c = (get key now later c).1
step (sets key value ttl now) c = set key value ttl now c
step (deletes key) c = delete key c
step clears c = clear c
step (cleans now) c = cleanup now c

unfoldable pub run : {V : Type 0} → List (Call V) → InMemoryCache V → InMemoryCache V
run [] c = c
run (call ∷ calls) c = run calls (step call c)
