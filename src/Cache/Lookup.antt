-- ===== src/Cache/Lookup.antt =====
-- What the cache of cache.go returns after `Set`.
use zenlive.Common.{
  ℕ, ◌+◌, ◌<◌, ◌≤◌, ◌≡◌, refl, sym, ap, ◌≢◌, Option, ◌∙◌, Distinct, string_discrete, if_pos, if_neg,
  Bool, not, [], ◌∷◌, if_cases, String, string_key, true, false, List, none, some, ◌==◌,
  if◌then◌else◌, lookup, lookup-insert_self, lookup-erase_self, arith,
}
use zenlive.Cache.{
  InMemoryCache, found, key_not_found, key_expired, is_expired, access, get, set, exists, unexpired,
  cleanup, new_entry, CacheEntry,
}

module _ {V : Type 0} (key : String) (at later : ℕ) (c : InMemoryCache V) where
  pub get-absent : lookup key c.entries ≡ none → (get key at later c).0 ≡ key_not_found
  unfolding get
  get-absent h = rw (get, h)

  pub get-present :
      (e : CacheEntry V)
      → lookup key c.entries ≡ some e
      → get key at later c ≡ access key at later e c
  unfolding get
  get-present e h = rw (get, h)

  access-fresh :
      (e : CacheEntry V)
      → is_expired at e ≡ false
      → ((access key at later e c).0 ≡ found e.value)
        × (exists key at (access key at later e c).1 ≡ true)
  unfolding access exists is_expired
  access-fresh e h = rw (h, exists, lookup-insert_self, h) (refl, refl)

  access-stale :
      (e : CacheEntry V)
      → is_expired at e ≡ true
      → ((access key at later e c).0 ≡ key_expired)
        × (lookup key (access key at later e c).1.entries ≡ none)
  unfolding access
  access-stale e h = rw (h, lookup-erase_self) (refl, refl)

module _ {V : Type 0} (key : String) (value : V) (ttl now : ℕ) (c : InMemoryCache V) where
  entry_set : CacheEntry V
  entry_set = new_entry key value (if ttl == 0 then c.default_ttl else ttl) now

  lookup-set : lookup key (set key value ttl now c).entries ≡ some entry_set
  unfolding set entry_set
  lookup-set = lookup-insert_self key _ _

  -- A Get that follows directly on a Set of its key finds the value, whatever else the cache holds
  -- or had to evict, up to the end of its lifetime, which is the default one for a `ttl` of zero;
  -- after that it reports it as expired, and a second Get does not find it.
  pub get-set :
      (at later : ℕ)
      → let life = if ttl == 0 then c.default_ttl else ttl in
        let (reply, c') = get key at later (set key value ttl now c) in
        (at ≤ now + life → (reply ≡ found value) × (exists key at c' ≡ true))
        × (now + life < at → (reply ≡ key_expired) × ((get key at later c').0 ≡ key_not_found))
  unfolding entry_set is_expired
  get-set at later =
      let c' = set key value ttl now c in
      rw (get-present key at later c' entry_set lookup-set) (
        λ l. access-fresh key at later c' entry_set (ground (arith, l)),
        λ l.
            let (r, gone) = access-stale key at later c' entry_set (ground (arith, l)) in
            (r, get-absent key at later (access key at later entry_set c').1 gone),
      )

module _ {V : Type 0} where
  pub unexpired-absent :
      (now : ℕ) (key : String) (entries : List (String × CacheEntry V))
      → lookup key entries ≡ none
      → lookup key (unexpired now entries) ≡ none
  unfolding unexpired lookup
  unexpired-absent now key [] h = refl
  unexpired-absent now key ((k, e) ∷ entries) h = ground (arith, unexpired-absent now key entries)

module _ {V : Type 0} (key : String) (now at : ℕ) (order : now ≤ at) where
  -- Whether the key has an entry that has not expired at the time `at`.
  abbrev alive_of : Option (CacheEntry V) → Bool
  alive_of none = false
  alive_of (some e) = not (is_expired at e)

  abbrev alive : List (String × CacheEntry V) → Bool
  alive entries = alive_of (lookup key entries)

  alive_here :
      (k : String) (e : CacheEntry V) (entries : List (String × CacheEntry V))
      → k ≡ key
      → alive ((k, e) ∷ entries) ≡ not (is_expired at e)
  unfolding lookup
  alive_here k e entries p =
      ap alive_of (if_pos (string_discrete k key) p (some e) (lookup key entries))

  alive_there :
      (k : String) (e : CacheEntry V) (entries : List (String × CacheEntry V))
      → k ≢ key
      → alive ((k, e) ∷ entries) ≡ alive entries
  unfolding lookup
  alive_there k e entries n =
      ap alive_of (if_neg (string_discrete k key) n (some e) (lookup key entries))

  expired_then : (e : CacheEntry V) → is_expired now e ≡ true → not (is_expired at e) ≡ false
  unfolding is_expired
  expired_then e h = ground (arith, order)

  unexpired-alive :
      (entries : List (String × CacheEntry V))
      → Distinct entries
      → alive (unexpired now entries) ≡ alive entries
  unfolding unexpired
  unexpired-alive [] d = refl
  unexpired-alive ((k, e) ∷ entries) d = elim (string_discrete k key) [
    | yes p ↦ rw (alive_here k e entries p) (
        if_cases (λ x. alive x ≡ not (is_expired at e)) (is_expired now e) _ _
          (λ h.
            ap alive_of (unexpired-absent now key entries (rw (← p) d.0)) ∙ sym (expired_then e h))
          (λ _. alive_here k e (unexpired now entries) p))
    | no n ↦ rw (alive_there k e entries n) (
        if_cases (λ x. alive x ≡ alive entries) (is_expired now e) _ _
          (λ _. unexpired-alive entries d.1)
          (λ _. alive_there k e (unexpired now entries) n ∙ unexpired-alive entries d.1))
  ]

  -- A cleanup does not change which keys exist, at its time or later, where no key stands twice.
  pub exists-cleanup :
      (c : InMemoryCache V) → Distinct c.entries → exists key at (cleanup now c) ≡ exists key at c
  unfolding exists cleanup
  exists-cleanup c d = unexpired-alive c.entries d
