-- ===== src/Cache/Bounds.antt =====
-- The size of the cache of cache.go.
use text.Mathlib.Text.{◌==◌ as str_eq}
use zenlive.Common.{
  ℕ, ◌+◌, ◌<◌, ◌≤◌, ◌≡◌, ◌≢◌, refl, String, string_key, false, List, [], ◌∷◌, none, some, leb, ◌==◌,
  ◌||◌, All, lookup, insert, erase, Distinct, insert-Distinct, erase-Distinct, insert-AllEntries,
  erase-AllEntries, lookup-AllEntries, length-insert_new, length-insert_old, length-erase,
  length-erase-le, lookup-erase, if_cases, Option-cases, inl, inr, length, arith,
}
use zenlive.Cache.{
  CacheEntry, Reply, EvictionPolicy, InMemoryCache, new_in_memory_cache, is_expired, access, get,
  victim, evict, make_room, set, delete, clear, unexpired, cleanup, Call, gets, sets, deletes,
  clears, cleans, step, run,
}
use zenlive.Cache.Lookup.{get-present, unexpired-absent}
use zenlive.Cache.Victim.{AreNamed, victim-IsLeast, not_empty}

-- Every key stands once and is not empty, and there are no more entries than the cache may have.
pub record IsBounded {V : Type 0} (c : InMemoryCache V) : Type 0 where
  pub distinct : Distinct c.entries
  pub named : AreNamed c.entries
  pub bounded : length c.entries ≤ c.max_size

-- A call that sets an entry has a key that is not empty.
abbrev pub IsNamed : {V : Type 0} → Call V → Type 0
IsNamed (sets key value ttl now) = key ≢ ""
IsNamed _ = Unit {0}

module _ {V : Type 0} where
  erased :
      (key : String) (c : InMemoryCache V)
      → IsBounded c
      → IsBounded (record c { entries = erase key c.entries })
  erased key c b = record {
    distinct = erase-Distinct key c.entries b.distinct;
    named = erase-AllEntries (λ k _. k ≢ "") key c.entries b.named;
    bounded = omega (arith, length-erase-le key c.entries, b.bounded);
  }

  evict-length :
      (c : InMemoryCache V)
      → 0 < length c.entries
      → IsBounded c
      → length (evict c).entries + 1 ≡ length c.entries
  unfolding evict
  evict-length c l b =
      let (e, h, least) = victim-IsLeast c l b.named b.distinct in
      let z : (length c.entries == 0) ≡ false = ground arith in
      let n : str_eq (victim c) "" ≡ false =
        not_empty (victim c) (lookup-AllEntries (λ k _. k ≢ "") (victim c) e c.entries b.named h) in
      rw (z, n) (length-erase (victim c) e c.entries b.distinct h)

  evict-IsBounded : (c : InMemoryCache V) → IsBounded c → IsBounded (evict c)
  unfolding evict
  evict-IsBounded c b =
      if_cases IsBounded ((length c.entries == 0) || str_eq (victim c) "") _ _ (λ _. b)
        λ _.
          let e = erased (victim c) c b in
          record { distinct = e.distinct; named = e.named; bounded = e.bounded }

  evict-max_size : (c : InMemoryCache V) → (evict c).max_size ≡ c.max_size
  unfolding evict
  evict-max_size c =
      if_cases (λ (x : InMemoryCache V). x.max_size ≡ c.max_size)
        ((length c.entries == 0) || str_eq (victim c) "") _ _ (λ _. refl) (λ _. refl)

  evict-absent :
      (c : InMemoryCache V) (key : String)
      → lookup key c.entries ≡ none
      → lookup key (evict c).entries ≡ none
  unfolding evict
  evict-absent c key h =
      if_cases (λ (x : InMemoryCache V). lookup key x.entries ≡ none)
        ((length c.entries == 0) || str_eq (victim c) "") _ _ (λ _. h)
        λ _. ground (arith, lookup-erase (victim c) key c.entries)

  -- The cache takes an entry under the key.
  record HasRoom (key : String) (c : InMemoryCache V) : Type 0 where
    valid : IsBounded c
    spare : lookup key c.entries ≡ none → length c.entries < c.max_size

  make_room-HasRoom :
      (key : String) (c : InMemoryCache V)
      → 0 < c.max_size
      → IsBounded c
      → HasRoom key (make_room key c)
  unfolding make_room
  make_room-HasRoom key c p b =
      if_cases (HasRoom key) (leb c.max_size (length c.entries)) _ _
        (λ full. elim (Option-cases (lookup key c.entries)) [
          | inl e ↦ rw e (
              let l : 0 < length c.entries = ground (arith, p) in
              record {
                valid = evict-IsBounded c b;
                spare = λ _. omega (arith, evict-length c l b, evict-max_size c, b.bounded);
              })
          | inr (x, e) ↦ rw e (record { valid = b; spare = λ h. absurd (cc) })
        ])
        (λ spare. record { valid = b; spare = λ _. ground (arith, spare) })

  put-IsBounded :
      (key : String) (entry : CacheEntry V) (c : InMemoryCache V)
      → key ≢ ""
      → HasRoom key c
      → IsBounded (record c { entries = insert key entry c.entries })
  put-IsBounded key entry c n h = record {
    distinct = insert-Distinct key entry c.entries h.valid.distinct;
    named = insert-AllEntries (λ k _. k ≢ "") key entry c.entries n h.valid.named;
    bounded = elim (Option-cases (lookup key c.entries)) [
      | inl e ↦ omega (arith, length-insert_new key entry c.entries e, h.spare e)
      | inr (x, e) ↦ omega (arith, length-insert_old key entry x c.entries e, h.valid.bounded)
    ];
  }

  set-IsBounded :
      (key : String) (value : V) (ttl now : ℕ) (c : InMemoryCache V)
      → 0 < c.max_size
      → key ≢ ""
      → IsBounded c
      → IsBounded (set key value ttl now c)
  unfolding set
  set-IsBounded key value ttl now c p n b =
      put-IsBounded key _ (make_room key c) n (make_room-HasRoom key c p b)

  access-IsBounded :
      (key : String) (now later : ℕ) (x : CacheEntry V) (c : InMemoryCache V)
      → lookup key c.entries ≡ some x
      → IsBounded c
      → IsBounded (access key now later x c).1
  unfolding access
  access-IsBounded key now later x c e b =
      if_cases (λ (r : Reply V × InMemoryCache V). IsBounded r.1) (is_expired now x) _ _
        (λ _.
          let y = erased key c b in
          record { distinct = y.distinct; named = y.named; bounded = y.bounded })
        (λ _.
          let n : key ≢ "" = lookup-AllEntries (λ k _. k ≢ "") key x c.entries b.named e in
          let y =
            put-IsBounded key (record x { access_count = x.access_count + 1; last_access = later })
              c n (record { valid = b; spare = λ h. absurd cc }) in
          record { distinct = y.distinct; named = y.named; bounded = y.bounded })

  get-IsBounded :
      (key : String) (now later : ℕ) (c : InMemoryCache V)
      → IsBounded c
      → IsBounded (get key now later c).1
  unfolding get
  get-IsBounded key now later c b = elim (Option-cases (lookup key c.entries)) [
    | inl e ↦ rw (get, e) (record { distinct = b.distinct; named = b.named; bounded = b.bounded })
    | inr (x, e) ↦ rw (get-present key now later c x e) (access-IsBounded key now later x c e b)
  ]

  unexpired-Distinct :
      (now : ℕ) (entries : List (String × CacheEntry V))
      → Distinct entries
      → Distinct (unexpired now entries)
  unfolding unexpired
  unexpired-Distinct now [] d = tt
  unexpired-Distinct now ((k, e) ∷ entries) d =
      if_cases Distinct (is_expired now e) _ _ (λ _. unexpired-Distinct now entries d.1)
        (λ _. (unexpired-absent now k entries d.0, unexpired-Distinct now entries d.1))

  unexpired-AreNamed :
      (now : ℕ) (entries : List (String × CacheEntry V))
      → AreNamed entries
      → AreNamed (unexpired now entries)
  unfolding unexpired
  unexpired-AreNamed now [] d = tt
  unexpired-AreNamed now ((k, e) ∷ entries) d =
      if_cases AreNamed (is_expired now e) _ _ (λ _. unexpired-AreNamed now entries d.1)
        (λ _. (d.0, unexpired-AreNamed now entries d.1))

  length-unexpired-le :
      (now : ℕ) (entries : List (String × CacheEntry V))
      → length (unexpired now entries) ≤ length entries
  unfolding unexpired
  length-unexpired-le now [] = omega arith
  length-unexpired-le now ((k, e) ∷ entries) = ground (arith, length-unexpired-le now entries)

  step-IsBounded :
      (call : Call V) (c : InMemoryCache V)
      → 0 < c.max_size
      → IsNamed call
      → IsBounded c
      → IsBounded (step call c)
  unfolding step delete clear cleanup
  step-IsBounded (gets key now later) c p n b = get-IsBounded key now later c b
  step-IsBounded (sets key value ttl now) c p n b = set-IsBounded key value ttl now c p n b
  step-IsBounded (deletes key) c p n b = erased key c b
  step-IsBounded clears c p n b = record { distinct = tt; named = tt; bounded = omega arith }
  step-IsBounded (cleans now) c p n b = record {
    distinct = unexpired-Distinct now c.entries b.distinct;
    named = unexpired-AreNamed now c.entries b.named;
    bounded = omega (arith, length-unexpired-le now c.entries, b.bounded);
  }

  step-max_size : (call : Call V) (c : InMemoryCache V) → (step call c).max_size ≡ c.max_size
  unfolding step delete clear cleanup get access set make_room
  step-max_size (gets key now later) c = ground arith
  step-max_size (sets key value ttl now) c = ground (arith, evict-max_size c)
  step-max_size (deletes key) c = refl
  step-max_size clears c = refl
  step-max_size (cleans now) c = refl

  run-IsBounded :
      (calls : List (Call V)) (c : InMemoryCache V)
      → 0 < c.max_size
      → All IsNamed calls
      → IsBounded c
      → IsBounded (run calls c)
  unfolding run
  run-IsBounded [] c p n b = b
  run-IsBounded (call ∷ calls) c p n b =
      run-IsBounded calls (step call c) (rw step-max_size p) n.1 (step-IsBounded call c p n.0 b)

  -- After every history of calls with keys that are not empty, a cache with room for an entry has
  -- no more entries than its maximum, whatever the policy, each under a key that stands once.
  pub run-new_in_memory_cache-IsBounded :
      (max_size default_ttl : ℕ) (policy : EvictionPolicy) (calls : List (Call V))
      → 0 < max_size
      → All IsNamed calls
      → IsBounded (run calls (new_in_memory_cache max_size default_ttl policy))
  unfolding new_in_memory_cache
  run-new_in_memory_cache-IsBounded max_size default_ttl policy calls p n =
      run-IsBounded calls _ p n (record { distinct = tt; named = tt; bounded = omega arith })
