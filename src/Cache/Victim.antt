-- ===== src/Cache/Victim.antt =====
-- Which entry the cache of cache.go evicts.
use text.Mathlib.Text.{◌==◌ as str_eq}
use text.Mathlib.TextEquality.{eq_iff}
use zenlive.Common.{
  Bool-cases, ℕ, ◌<◌, ◌≤◌, ◌≡◌, ◌≢◌, ◌⊎◌, refl, ◌∙◌, String, string_discrete, string_key, false,
  List, [], ◌∷◌, none, some, ltb, lookup, Distinct, AllEntries, if_cases, if_pos, if_neg, inl, inr,
  length, arith,
}
use zenlive.Cache.{
  CacheEntry, earliest, least_used, EvictionPolicy, lru, lfu, fifo, other, InMemoryCache, victim,
}

pub not_empty : (s : String) → s ≢ "" → str_eq s "" ≡ false
not_empty s n = elim (Bool-cases (str_eq s "")) [
  | inl e ↦ absurd (n ((eq_iff s "").0 e))
  | inr e ↦ e
]

module _ {V : Type 0} where
  -- The key is an entry's, and no entry has a smaller figure.
  abbrev pub IsLeast : (CacheEntry V → ℕ) → String → List (String × CacheEntry V) → Type 0
  IsLeast f key entries =
      (e : CacheEntry V) × (lookup key entries ≡ some e) × AllEntries (λ _ e'. f e ≤ f e') entries

  -- No key is empty.
  abbrev pub AreNamed : List (String × CacheEntry V) → Type 0
  AreNamed entries = AllEntries (λ key _. key ≢ "") entries

  -- What a loop returns that has the candidate `key` with the figure `n`: the candidate, or the
  -- key of a smaller entry.
  abbrev Found : (CacheEntry V → ℕ) → String → ℕ → String → List (String × CacheEntry V) → Type 0
  Found f key n result entries =
      ((result ≡ key) × AllEntries (λ _ e. n ≤ f e) entries)
      ⊎ ((e : CacheEntry V) × (lookup result entries ≡ some e)
          × (f e ≤ n)
          × AllEntries (λ _ e'. f e ≤ f e') entries)

  all-le :
      (f : CacheEntry V → ℕ) (n m : ℕ) (entries : List (String × CacheEntry V))
      → n ≤ m
      → AllEntries (λ _ e. m ≤ f e) entries
      → AllEntries (λ _ e. n ≤ f e) entries
  all-le f n m [] l h = tt
  all-le f n m ((key, e) ∷ entries) l h = (omega (arith, l, h.0), all-le f n m entries l h.1)

  first :
      (key : String) (e : CacheEntry V) (entries : List (String × CacheEntry V))
      → lookup key ((key, e) ∷ entries) ≡ some e
  unfolding lookup
  first key e entries = if_pos (string_discrete key key) refl (some e) (lookup key entries)

  later :
      (key j : String) (e e' : CacheEntry V) (entries : List (String × CacheEntry V))
      → lookup key entries ≡ none
      → lookup j entries ≡ some e'
      → lookup j ((key, e) ∷ entries) ≡ some e'
  unfolding lookup
  later key j e e' entries d h = elim (string_discrete key j) [
    | yes s ↦ absurd (cc)
    | no n ↦ if_neg (string_discrete key j) n (some e) (lookup j entries) ∙ h
  ]

  -- The loop takes the next entry, which is smaller.
  taken :
      (f : CacheEntry V → ℕ) (key k : String) (n : ℕ) (e : CacheEntry V) (result : String)
      (entries : List (String × CacheEntry V))
      → lookup k entries ≡ none
      → f e ≤ n
      → Found f k (f e) result entries
      → Found f key n result ((k, e) ∷ entries)
  taken f key k n e result entries d l (inl (s, h)) =
      inr (e, rw s (first k e entries), l, (omega arith, h))
  taken f key k n e result entries d l (inr (e', h, m, all)) =
      inr (e', later k result e e' entries d h, omega arith, (m, all))

  -- The loop passes over the next entry.
  passed :
      (f : CacheEntry V → ℕ) (key k : String) (n : ℕ) (e : CacheEntry V) (result : String)
      (entries : List (String × CacheEntry V))
      → lookup k entries ≡ none
      → n ≤ f e
      → Found f key n result entries
      → Found f key n result ((k, e) ∷ entries)
  passed f key k n e result entries d l (inl (s, h)) = inl (s, (l, h))
  passed f key k n e result entries d l (inr (e', h, m, all)) =
      inr (e', later k result e e' entries d h, m, (omega arith, all))

  earliest-Found :
      (f : CacheEntry V → ℕ) (key : String) (n : ℕ) (entries : List (String × CacheEntry V))
      → key ≢ ""
      → AreNamed entries
      → Distinct entries
      → Found f key n (earliest f key n entries) entries
  unfolding earliest
  earliest-Found f key n [] named all d = inl (refl, tt)
  earliest-Found f key n ((k, e) ∷ entries) named all d = rw (not_empty key named) (
      if_cases (λ r. Found f key n r ((k, e) ∷ entries)) (ltb (f e) n) _ _
        (λ l.
          taken f key k n e _ entries d.0 (ground arith)
            (earliest-Found f k (f e) entries all.0 all.1 d.1))
        (λ l.
          passed f key k n e _ entries d.0 (ground arith)
            (earliest-Found f key n entries named all.1 d.1)))

  least_used-Found :
      (key : String) (n : ℕ) (entries : List (String × CacheEntry V))
      → Distinct entries
      → Found (λ e. e.access_count) key n (least_used key (some n) entries) entries
  unfolding least_used
  least_used-Found key n [] d = inl (refl, tt)
  least_used-Found key n ((k, e) ∷ entries) d =
      if_cases (λ r. Found (λ x. x.access_count) key n r ((k, e) ∷ entries)) (ltb e.access_count n)
        _ _
        (λ l.
          taken (λ x. x.access_count) key k n e _ entries d.0 (ground arith)
            (least_used-Found k e.access_count entries d.1))
        (λ l.
          passed (λ x. x.access_count) key k n e _ entries d.0 (ground arith)
            (least_used-Found key n entries d.1))

  settle :
      (f : CacheEntry V → ℕ) (k : String) (e : CacheEntry V) (result : String)
      (entries : List (String × CacheEntry V))
      → lookup k entries ≡ none
      → Found f k (f e) result entries
      → IsLeast f result ((k, e) ∷ entries)
  settle f k e result entries d (inl (s, h)) = (e, rw s (first k e entries), (omega arith, h))
  settle f k e result entries d (inr (e', h, m, all)) =
      (e', later k result e e' entries d h, (m, all))

  -- The figure by which a policy chooses.
  abbrev pub figure : EvictionPolicy → CacheEntry V → ℕ
  figure lfu e = e.access_count
  figure fifo e = e.created_at
  figure _ e = e.last_access

  earliest-IsLeast :
      (f : CacheEntry V → ℕ) (entries : List (String × CacheEntry V))
      → 0 < length entries
      → AreNamed entries
      → Distinct entries
      → IsLeast f (earliest f "" 0 entries) entries
  unfolding earliest
  earliest-IsLeast f [] l all d = absurd (omega arith)
  earliest-IsLeast f ((k, e) ∷ entries) l all d =
      settle f k e _ entries d.0 (earliest-Found f k (f e) entries all.0 all.1 d.1)

  least_used-IsLeast :
      (entries : List (String × CacheEntry V))
      → 0 < length entries
      → Distinct entries
      → IsLeast (λ e. e.access_count) (least_used "" none entries) entries
  unfolding least_used
  least_used-IsLeast [] l d = absurd (omega arith)
  least_used-IsLeast ((k, e) ∷ entries) l d =
      settle (λ x. x.access_count) k e _ entries d.0 (least_used-Found k e.access_count entries d.1)

  victim_of :
      (policy : EvictionPolicy) (c : InMemoryCache V)
      → c.eviction_policy ≡ policy
      → 0 < length c.entries
      → AreNamed c.entries
      → Distinct c.entries
      → IsLeast (figure policy) (victim c) c.entries
  unfolding victim
  victim_of lru c e l all d = rw e (earliest-IsLeast (λ x. x.last_access) c.entries l all d)
  victim_of lfu c e l all d = rw e (least_used-IsLeast c.entries l d)
  victim_of fifo c e l all d = rw e (earliest-IsLeast (λ x. x.created_at) c.entries l all d)
  victim_of (other _) c e l all d = rw e (earliest-IsLeast (λ x. x.last_access) c.entries l all d)

  -- In a cache that is not empty, whose keys are distinct and none the empty string, the victim is
  -- an entry's key, and by the policy no entry was used less recently (LRU and unknown policies),
  -- used less often (LFU) or created earlier (FIFO).
  pub victim-IsLeast :
      (c : InMemoryCache V)
      → 0 < length c.entries
      → AreNamed c.entries
      → Distinct c.entries
      → IsLeast (figure c.eviction_policy) (victim c) c.entries
  victim-IsLeast c l all d = victim_of c.eviction_policy c refl l all d
