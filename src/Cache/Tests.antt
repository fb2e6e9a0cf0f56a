-- ===== src/Cache/Tests.antt =====
-- A small cache that is filled, read and cleaned.
use text.Mathlib.Text.{◌==◌ as str_eq}
use text.Mathlib.TextEquality.{eq_iff}
use zenlive.Common.{
  ℕ, ◌+◌, ◌<◌, ◌≤◌, ◌≡◌, ◌≢◌, refl, String, string_discrete, true, false, [], ◌∷◌, List, lookup,
  insert, erase, Distinct, string_key, arith,
}
use zenlive.Cache.{
  CacheEntry, EvictionPolicy, lru, fifo, InMemoryCache, found, key_not_found, key_expired,
  new_in_memory_cache, is_expired, access, get, earliest, least_used, victim, evict, make_room, set,
  unexpired, exists, cleanup, Call, gets, sets, step, run,
}
use zenlive.Cache.Bounds.{IsBounded, run-new_in_memory_cache-IsBounded}
use zenlive.Cache.Lookup.{get-set}
use zenlive.Cache.Victim.{IsLeast, figure, victim-IsLeast}

program : Unit {0}
unfolding new_in_memory_cache is_expired access get earliest least_used victim evict make_room set
    unexpired exists cleanup step run string_discrete lookup insert erase
program = tt

-- Three keys for two places; the first is used again before the third comes.
abbrev day : List (Call ℕ)
day = sets "a" 10 0 1 ∷ sets "b" 20 0 2 ∷ gets "a" 3 3 ∷ sets "c" 30 0 4 ∷ []

abbrev after_day : EvictionPolicy → InMemoryCache ℕ
after_day policy = run day (new_in_memory_cache 2 5 policy)

lru_day :
    ((get "a" 5 5 (after_day lru)).0 ≡ found 10) × ((get "b" 5 5 (after_day lru)).0 ≡ key_not_found)
unfolding program
lru_day = (refl, refl)

fifo_day : (get "a" 5 5 (after_day fifo)).0 ≡ key_not_found
unfolding program
fifo_day = refl

named : (s : String) → str_eq s "" ≡ false → s ≢ ""
named s h e = let t : str_eq s "" ≡ true = (eq_iff s "").1 e in cc

run-new_in_memory_cache-IsBounded_example : IsBounded (run day (new_in_memory_cache 2 5 lru))
run-new_in_memory_cache-IsBounded_example =
    run-new_in_memory_cache-IsBounded 2 5 lru day (omega arith)
      (named "a" refl, (named "b" refl, (tt, (named "c" refl, tt))))

abbrev entry : String → ℕ → ℕ → CacheEntry ℕ
entry key used count = record {
  key = key;
  value = 7;
  expires_at = 6;
  created_at = 1;
  access_count = count;
  last_access = used;
}

abbrev two : InMemoryCache ℕ
two = record {
  entries = ("a", entry "a" 3 1) ∷ ("b", entry "b" 2 4) ∷ [];
  max_size = 2;
  default_ttl = 5;
  eviction_policy = lru;
  hits = 0;
  misses = 0;
  evictions = 0;
  running = false;
}

two-Distinct : Distinct two.entries
unfolding program
two-Distinct = (refl, (refl, tt))

victim-IsLeast_example : IsLeast (figure lru) (victim two) two.entries
victim-IsLeast_example =
    victim-IsLeast two (omega arith) (named "a" refl, (named "b" refl, tt)) two-Distinct

get-set_example :
    let (reply, c') = get "c" 8 8 (set "c" 30 0 4 two) in
    (8 ≤ 4 + 5 → (reply ≡ found 30) × (exists "c" 8 c' ≡ true))
    × (4 + 5 < 8 → (reply ≡ key_expired) × ((get "c" 8 8 c').0 ≡ key_not_found))
get-set_example = get-set "c" 30 0 4 two 8 8
