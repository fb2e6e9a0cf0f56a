-- ===== src/Cache/Promotion.antt =====
-- What `MultiLevelCache` of pkg/cache/cache.go finds, over levels that keep the laws of a cache.
use mathlib.Core.Path.{subst}
use zenlive.Common.{
  ℕ, suc, ◌+◌, ◌≡◌, refl, sym, ap, ◌∙◌, String, string_key, List, [], ◌∷◌, ◌++◌, none, some,
  Option-cases, inl, inr, length, map, arith,
}
use zenlive.Cache.Interface.{Cache, is_some, IsCache}
use zenlive.Cache.MultiLevel
use zenlive.Cache.MultiLevel.{first_found, promote, set_from, exists_from}

module _ {S V Env : Type 0} (c : Cache S V Env) where
  -- The levels, from number `i` on, do not have the key when they are asked for it in turn.
  abbrev pub Misses : (ℕ → Env) → ℕ → String → List S → Type 0
  Misses env i key [] = Unit {0}
  Misses env i key (s ∷ above) = ((c.get (env i) key s).0 ≡ none) × Misses env (suc i) key above

  -- The levels after they were asked.
  abbrev pub asked : (ℕ → Env) → ℕ → String → List S → List S
  asked env i key [] = []
  asked env i key (s ∷ above) = (c.get (env i) key s).1 ∷ asked env (suc i) key above

  abbrev pub Have : Env → String → V → List S → Type 0
  Have e key value [] = Unit {0}
  Have e key value (s ∷ levels) = ((c.get e key s).0 ≡ some value) × Have e key value levels

module _ {S Env : Type 0} (lives : Env → ℕ → Env → S → Type 0) where
  -- What the calls from number `n` on set in the levels in turn, with the default lifetime, is
  -- there for a call at `e`.
  abbrev pub Live : (ℕ → Env) → ℕ → Env → List S → Type 0
  Live env n e [] = Unit {0}
  Live env n e (s ∷ above) = lives (env n) 0 e s × Live env (suc n) e above

module _ {S V Env : Type 0} (c : Cache S V Env) (lives : Env → ℕ → Env → S → Type 0)
    (laws : IsCache c lives) where
  found_here :
      (env : ℕ → Env) (i : ℕ) (key : String) (value : V) (s : S) (levels : List S)
      → (c.get (env i) key s).0 ≡ some value
      → first_found c env i key (s ∷ levels) ≡ (some (value, i), (c.get (env i) key s).1 ∷ levels)
  unfolding first_found
  found_here env i key value s levels h = rw (first_found, h)

  found_later :
      (env : ℕ → Env) (i : ℕ) (key : String) (s : S) (levels : List S)
      → (c.get (env i) key s).0 ≡ none
      → first_found c env i key (s ∷ levels) ≡ (
        (first_found c env (suc i) key levels).0,
        (c.get (env i) key s).1 ∷ (first_found c env (suc i) key levels).1,
      )
  unfolding first_found
  found_later env i key s levels h = rw (first_found, h)

  exists_from-first_found :
      (env : ℕ → Env) (i : ℕ) (key : String) (levels : List S)
      → exists_from c env i key levels ≡ is_some (first_found c env i key levels).0
  unfolding exists_from first_found
  exists_from-first_found env i key [] = refl
  exists_from-first_found env i key (s ∷ levels) = elim (Option-cases (c.get (env i) key s).0) [
    | inl n ↦
        rw (found_later env i key s levels n, exists_from, laws.exists_get (env i) key s, n)
          (exists_from-first_found env (suc i) key levels)
    | inr (value, p) ↦
        rw (found_here env i key value s levels p, exists_from, laws.exists_get (env i) key s, p)
          refl
  ]

  get-is_some :
      (env : ℕ → Env) (key : String) (levels : List S)
      → is_some (MultiLevel.get c env key levels).0 ≡ is_some (first_found c env 0 key levels).0
  unfolding MultiLevel.get
  get-is_some env key levels = elim (Option-cases (first_found c env 0 key levels).0) [
    | inl n ↦ rw (MultiLevel.get, n) refl
    | inr (_, p) ↦ rw (MultiLevel.get, p) refl
  ]

  get-none :
      (env : ℕ → Env) (key : String) (levels : List S)
      → (first_found c env 0 key levels).0 ≡ none
      → (MultiLevel.get c env key levels).0 ≡ none
  unfolding MultiLevel.get
  get-none env key levels n = rw (MultiLevel.get, n) refl

  get-found :
      (env : ℕ → Env) (key : String) (value : V) (i : ℕ) (levels after : List S)
      → first_found c env 0 key levels ≡ (some (value, i), after)
      → MultiLevel.get c env key levels ≡ (some value, promote c env (suc i) i key value after)
  unfolding MultiLevel.get
  get-found env key value i levels after h =
      rw (MultiLevel.get, h)
        (ap (λ a. (some value, promote c env (suc i) i key value a)) (ap (λ r. r.1) h))

  -- A step of every level after which none has the key.
  without-none :
      (f : S → S) (key : String)
      → ((e : Env) (s : S) → (c.get e key (f s)).0 ≡ none)
      → (env : ℕ → Env) (i : ℕ) (levels : List S)
      → (first_found c env i key (map f levels)).0 ≡ none
  unfolding first_found
  without-none f key gone env i [] = refl
  without-none f key gone env i (s ∷ levels) =
      rw (found_later env i key (f s) (map f levels) (gone (env i) s))
        (without-none f key gone env (suc i) levels)

  -- Over levels that keep the laws, whether a multi-level cache has a key is what Get finds at the
  -- same times; a value that was set is found as long as it lives at the first level, and after
  -- Delete or Clear nothing is.
  pub get-IsCache :
      (env env' : ℕ → Env) (key : String) (value : V) (ttl : ℕ) (s : S) (levels : List S)
      → lives (env 0) ttl (env' 0) s
      → (MultiLevel.exists c env' key (s ∷ levels)
          ≡ is_some (MultiLevel.get c env' key (s ∷ levels)).0)
        × ((MultiLevel.get c env' key (MultiLevel.set c env key value ttl (s ∷ levels))).0
            ≡ some value)
        × ((MultiLevel.get c env' key (MultiLevel.delete c key (s ∷ levels))).0 ≡ none)
        × ((MultiLevel.get c env' key (MultiLevel.clear c (s ∷ levels))).0 ≡ none)
  unfolding MultiLevel.exists MultiLevel.set MultiLevel.delete MultiLevel.clear set_from
  get-IsCache env env' key value ttl s levels l = (
    exists_from-first_found env' 0 key (s ∷ levels) ∙ sym (get-is_some env' key (s ∷ levels)),
    ap (λ r. r.0)
        (get-found env' key value 0 _ _ (
          found_here env' 0 key value (c.set (env 0) key value ttl s)
            (set_from c env 1 key value ttl levels)
            (laws.get_set (env 0) (env' 0) key value ttl s l))),
    get-none env' key _
        (without-none (c.delete key) key (λ e t. laws.get_delete e key t) env' 0 (s ∷ levels)),
    get-none env' key _
        (without-none c.clear key (λ e t. laws.get_clear e key t) env' 0 (s ∷ levels)),
  )

  first_found-append :
      (env : ℕ → Env) (i j : ℕ) (key : String) (value : V) (above below : List S) (s : S)
      → j ≡ i + length above
      → Misses c env i key above
      → (c.get (env j) key s).0 ≡ some value
      → first_found c env i key (above ++ s ∷ below)
        ≡ (some (value, j), asked c env i key above ++ (c.get (env j) key s).1 ∷ below)
  first_found-append env i j key value [] below s p misses h =
      subst
        (λ x.
          first_found c env x key (s ∷ below) ≡ (some (value, j), (c.get (env j) key s).1 ∷ below))
        (omega (arith, p)) (found_here env j key value s below h)
  first_found-append env i j key value (t ∷ above) below s p (miss, misses) h =
      found_later env i key t (above ++ s ∷ below) miss
      ∙ ap (λ r. (r.0, (c.get (env i) key t).1 ∷ r.1))
          (first_found-append env (suc i) j key value above below s (omega (arith, p)) misses h)

  promote-append :
      (env : ℕ → Env) (n : ℕ) (key : String) (value : V) (above below : List S)
      → promote c env n (length above) key value (above ++ below)
        ≡ set_from c env n key value 0 above ++ below
  unfolding promote set_from
  promote-append env n key value [] below = refl
  promote-append env n key value (s ∷ above) below =
      ap (λ r. c.set (env n) key value 0 s ∷ r) (promote-append env (suc n) key value above below)

  set_from-Have :
      (env : ℕ → Env) (n : ℕ) (e : Env) (key : String) (value : V) (above : List S)
      → Live lives env n e above
      → Have c e key value (set_from c env n key value 0 above)
  unfolding set_from
  set_from-Have env n e key value [] l = tt
  set_from-Have env n e key value (s ∷ above) (l, ls) =
      (laws.get_set (env n) e key value 0 s l, set_from-Have env (suc n) e key value above ls)

  length-asked :
      (env : ℕ → Env) (i : ℕ) (key : String) (above : List S)
      → length (asked c env i key above) ≡ length above
  length-asked env i key [] = refl
  length-asked env i key (s ∷ above) = ap suc (length-asked env (suc i) key above)

  -- Over levels that keep the laws, of which none above has a key and the next one has it, Get
  -- returns its value and puts it into every level above, which finds it as long as what was set
  -- there lives; the levels below stay as they are.
  pub get-promotes :
      (env : ℕ → Env) (e : Env) (key : String) (value : V) (above below : List S) (s : S)
      → Misses c env 0 key above
      → (c.get (env (length above)) key s).0 ≡ some value
      → Live lives env (suc (length above)) e (asked c env 0 key above)
      → let (reply, levels) = MultiLevel.get c env key (above ++ s ∷ below) in
        (reply ≡ some value)
        × (above' : List S) × (levels ≡ above' ++ (c.get (env (length above)) key s).1 ∷ below)
        × Have c e key value above'
  get-promotes env e key value above below s misses h l =
      let s' : S = (c.get (env (length above)) key s).1 in
      let got =
        get-found env key value (length above) (above ++ s ∷ below)
          (asked c env 0 key above ++ s' ∷ below)
          (first_found-append env 0 (length above) key value above below s (omega arith) misses
            h) in
      let set_above =
        promote-append env (suc (length above)) key value (asked c env 0 key above) (s' ∷ below) in
      (
        ap (λ r. r.0) got,
        set_from c env (suc (length above)) key value 0 (asked c env 0 key above),
        ap (λ r. r.1) got
            ∙ subst
                (λ n.
                  promote c env (suc (length above)) n key value
                    (asked c env 0 key above ++ s' ∷ below)
                  ≡ set_from c env (suc (length above)) key value 0 (asked c env 0 key above)
                    ++ s' ∷ below)
                (length-asked env 0 key above) set_above,
        set_from-Have env (suc (length above)) e key value (asked c env 0 key above) l,
      )
