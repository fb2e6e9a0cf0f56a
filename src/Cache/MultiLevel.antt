-- ===== src/Cache/MultiLevel.antt =====
-- `MultiLevelCache` of pkg/cache/cache.go, a client of the interface `Cache`. The levels are different
-- objects, of one type of states (a sum where they are of several kinds), and `env i` is what the
-- call number `i` of a level reads. A sum of counters stays below 2 ^ 63.
use zenlive.Common.{
  ℕ, zero, suc, ◌+◌, String, Bool, true, false, List, [], ◌∷◌, Option, none, some, map,
}
use zenlive.Cache.{CacheStats}
use zenlive.Cache.Interface.{Cache}

-- The statistics that `Stats` starts from.
abbrev pub no_stats : CacheStats
no_stats = record { hits = 0; misses = 0; evictions = 0; size = 0 }

abbrev pub plus : CacheStats → CacheStats → CacheStats
plus a b = record {
  hits = a.hits + b.hits;
  misses = a.misses + b.misses;
  evictions = a.evictions + b.evictions;
  size = a.size + b.size;
}

module _ {S V Env : Type 0} (c : Cache S V Env) (env : ℕ → Env) where
  -- The loop of `Get` from level `i` on: the value with its level, and the levels after the calls.
  unfoldable pub first_found : ℕ → String → List S → Option (V × ℕ) × List S
  first_found i key [] = (none, [])
  first_found i key (s ∷ levels) =
      let (reply, s') = c.get (env i) key s in
      elim reply [
        | some value ↦ (some (value, i), s' ∷ levels)
        | none ↦ let (answer, rest) = first_found (suc i) key levels in (answer, s' ∷ rest)
      ]

  -- `Set` on the first `count` levels; `n` is the number of the next call.
  unfoldable pub promote : ℕ → ℕ → String → V → List S → List S
  promote n zero key value levels = levels
  promote n (suc count) key value [] = []
  promote n (suc count) key value (s ∷ levels) =
      c.set (env n) key value 0 s ∷ promote (suc n) count key value levels

  unfoldable pub get : String → List S → Option V × List S
  get key levels =
      let (answer, levels') = first_found 0 key levels in
      elim answer [
        | some (value, i) ↦ (some value, promote (suc i) i key value levels')
        | none ↦ (none, levels')
      ]

  unfoldable pub set_from : ℕ → String → V → ℕ → List S → List S
  set_from i key value ttl [] = []
  set_from i key value ttl (s ∷ levels) =
      c.set (env i) key value ttl s ∷ set_from (suc i) key value ttl levels

  unfoldable pub set : String → V → ℕ → List S → List S
  set key value ttl levels = set_from 0 key value ttl levels

  unfoldable pub exists_from : ℕ → String → List S → Bool
  exists_from i key [] = false
  exists_from i key (s ∷ levels) =
      let rest = exists_from (suc i) key levels in
      elim (c.exists (env i) key s) [ some true ↦ true | some false ↦ rest | none ↦ rest ]

  unfoldable pub exists : String → List S → Bool
  exists key levels = exists_from 0 key levels

module _ {S V Env : Type 0} (c : Cache S V Env) where
  unfoldable pub delete : String → List S → List S
  delete key levels = map (c.delete key) levels

  unfoldable pub clear : List S → List S
  clear levels = map c.clear levels

  -- The keys of the first level; without one, an error.
  unfoldable pub keys : List S → Option (List String)
  keys [] = none
  keys (s ∷ levels) = c.keys s

  -- The loop of `Stats`: a level that reports an error is passed over.
  unfoldable pub stats_from : CacheStats → List S → CacheStats
  stats_from aggregated [] = aggregated
  stats_from aggregated (s ∷ levels) = elim (c.stats s) [
    | some stats ↦ stats_from (plus aggregated stats) levels
    | none ↦ stats_from aggregated levels
  ]

  unfoldable pub stats : List S → CacheStats
  stats levels = stats_from no_stats levels
