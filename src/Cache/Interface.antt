-- ===== src/Cache/Interface.antt =====
-- The interface `Cache` of pkg/cache/cache.go. `S` is the state of a cache and `Env` what a call reads
-- besides, such as the time. An error is none; the errors of `Set`, `Delete` and `Clear`, which its
-- client `MultiLevelCache` ignores, are left out.
use zenlive.Common.{
  ℕ, ◌+◌, ◌≤◌, ◌≡◌, refl, ap, String, string_key, Bool, true, false, List, Option, none, some,
  Option-cases, Bool-cases, lookup, lookup-erase_self, inl, inr, if◌then◌else◌, ◌==◌,
}
use zenlive.Cache.{
  InMemoryCache, CacheStats, is_expired, access, Reply, found, key_not_found, key_expired, get, set,
  exists, delete, clear, keys, stats,
}
use zenlive.Cache.Lookup.{get-set, get-absent, get-present}

pub record Cache (S V Env : Type 0) : Type 0 where
  pub get : Env → String → S → Option V × S
  pub set : Env → String → V → ℕ → S → S
  pub delete : String → S → S
  pub exists : Env → String → S → Option Bool
  pub clear : S → S
  pub keys : S → Option (List String)
  pub stats : S → Option CacheStats

abbrev pub is_some : {A : Type 0} → Option A → Bool
is_some none = false
is_some (some _) = true

-- The laws of a cache. `lives e ttl e' s` says that what a call at `e` sets in `s` is still there
-- for a call at `e'`.
pub record IsCache {S V Env : Type 0} (c : Cache S V Env) (lives : Env → ℕ → Env → S → Type 0)
    : Type 0 where
  pub get_set :
      (e e' : Env) (key : String) (value : V) (ttl : ℕ) (s : S)
      → lives e ttl e' s
      → (c.get e' key (c.set e key value ttl s)).0 ≡ some value
  pub get_delete : (e : Env) (key : String) (s : S) → (c.get e key (c.delete key s)).0 ≡ none
  pub get_clear : (e : Env) (key : String) (s : S) → (c.get e key (c.clear s)).0 ≡ none
  pub exists_get :
      (e : Env) (key : String) (s : S) → c.exists e key s ≡ some (is_some (c.get e key s).0)

-- The value and the nil error, or an error.
abbrev pub value_of : {V : Type 0} → Reply V → Option V
value_of (found v) = some v
value_of key_not_found = none
value_of key_expired = none

-- `InMemoryCache` as a `Cache`: a call reads the time, and `Get` reads it twice.
abbrev pub in_memory : {V : Type 0} → Cache (InMemoryCache V) V (ℕ × ℕ)
in_memory = record {
  get = λ (now, later) key c. let (reply, c') = get key now later c in (value_of reply, c');
  set = λ (now, _) key value ttl c. set key value ttl now c;
  delete = delete;
  exists = λ (now, _) key c. some (exists key now c);
  clear = clear;
  keys = λ c. some (keys c);
  stats = λ c. some (stats c);
}

-- A time up to the end of the lifetime of what is set at the other.
abbrev pub InTime : {V : Type 0} → ℕ × ℕ → ℕ → ℕ × ℕ → InMemoryCache V → Type 0
InTime (now, _) ttl (at, _) c = at ≤ now + (if ttl == 0 then c.default_ttl else ttl)

module _ {V : Type 0} where
  exists-get :
      (now later : ℕ) (key : String) (c : InMemoryCache V)
      → exists key now c ≡ is_some (value_of (get key now later c).0)
  unfolding exists access
  exists-get now later key c = elim (Option-cases (lookup key c.entries)) [
    | inl n ↦ rw (get-absent key now later c n, exists, n) refl
    | inr (e, p) ↦ elim (Bool-cases (is_expired now e)) [
      | inl t ↦ rw (get-present key now later c e p, exists, p, t) refl
      | inr f ↦ rw (get-present key now later c e p, exists, p, f) refl
    ]
  ]

  pub in_memory-IsCache : IsCache (in_memory {V = V}) InTime
  unfolding delete clear lookup
  in_memory-IsCache = record {
    get_set = λ (now, _) (at, later) key value ttl c h.
        ap value_of ((get-set key value ttl now c at later).0 h).0;
    get_delete = λ (at, later) key c.
        ap value_of (get-absent key at later (delete key c) (lookup-erase_self key c.entries));
    get_clear = λ (at, later) key c. ap value_of (get-absent key at later (clear c) refl);
    exists_get = λ (now, later) key c. ap some (exists-get now later key c);
  }
