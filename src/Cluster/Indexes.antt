-- ===== src/Cluster/Indexes.antt =====
-- The indexes of `InMemorySessionManager`, pkg/cluster/session.go.
use zenlive.Common.{
  ℕ, String, ◌+◌, ◌-◌, ◌≡◌, refl, ap, ◌∙◌, List, [], ◌∷◌, ◌++◌, Option, none, some, ite, lookup,
  insert, erase, string_key, string_discrete, lookup-insert, lookup-erase, arith,
}
use zenlive.Cluster.Sessions.{
  Index, ids_of, add_to_index, without_first, put_ids, remove_from_index,
}

-- How often an id stands in a list.
unfoldable pub times : String → List String → ℕ
times j [] = 0
times j (i ∷ ids) = ite (string_discrete i j) 1 0 + times j ids

times-append : (j : String) (xs ys : List String) → times j (xs ++ ys) ≡ times j xs + times j ys
unfolding times
times-append j [] ys = omega arith
times-append j (i ∷ xs) ys = omega (arith, times-append j xs ys)

times-without_first :
    (j session_id : String) (ids : List String)
    → times j (without_first session_id ids) ≡ times j ids - ite (string_discrete session_id j) 1 0
unfolding times without_first
times-without_first j session_id [] = omega arith
times-without_first j session_id (i ∷ ids) = ground (arith, times-without_first j session_id ids)

-- How often a session stands in the index under a key.
abbrev pub listed : String → String → Index → ℕ
listed key j index = times j (ids_of (lookup key index))

-- How often it should: once under its own key, unless that is empty.
abbrev pub expected : String → Option String → ℕ
expected key none = 0
expected key (some own) = ite (string_discrete own "") 0 (ite (string_discrete own key) 1 0)

same_ids : (a b j : String) (index : Index) → a ≡ b → listed a j index ≡ listed b j index
same_ids a b j index p = ap (λ k. listed k j index) p

listed-insert :
    (key own j : String) (ids : List String) (index : Index)
    → listed key j (insert own ids index)
      ≡ ite (string_discrete own key) (times j ids) (listed key j index)
listed-insert key own j ids index =
    ap (λ o. times j (ids_of o)) (lookup-insert own key ids index)
    ∙ ids-ite (string_discrete own key) (lookup key index)
  where
    ids-ite :
        {P : Type 0} (d : Dec P) (o : Option (List String))
        → times j (ids_of (ite d (some ids) o)) ≡ ite d (times j ids) (times j (ids_of o))
    ids-ite (yes p) o = refl
    ids-ite (no n) o = refl

ids-none :
    {P : Type 0} (j : String) (d : Dec P) (o : Option (List String))
    → times j (ids_of (ite d none o)) ≡ ite d 0 (times j (ids_of o))
unfolding times
ids-none j (yes p) o = refl
ids-none j (no n) o = refl

listed-erase :
    (key own j : String) (index : Index)
    → listed key j (erase own index) ≡ ite (string_discrete own key) 0 (listed key j index)
unfolding times
listed-erase key own j index =
    ap (λ o. times j (ids_of o)) (lookup-erase own key index)
    ∙ ids-none j (string_discrete own key) (lookup key index)

pub listed-add_to_index :
    (key own j session_id : String) (index : Index)
    → listed key j (add_to_index own session_id index)
      ≡ listed key j index + ite (string_discrete session_id j) (expected key (some own)) 0
unfolding add_to_index times
listed-add_to_index key own j session_id index =
    let ids = ids_of (lookup own index) in
    ground (
      arith,
      listed-insert key own j (ids ++ (session_id ∷ [])) index,
      times-append j ids (session_id ∷ []),
      same_ids own key j index,
    )

listed-put_ids :
    (key own j : String) (ids : List String) (index : Index)
    → listed key j (put_ids own ids index)
      ≡ ite (string_discrete own key) (times j ids) (listed key j index)
unfolding times
listed-put_ids key own j [] index = listed-erase key own j index
listed-put_ids key own j (i ∷ ids) index = listed-insert key own j (i ∷ ids) index

pub listed-remove_from_index :
    (key own j session_id : String) (index : Index)
    → listed key j (remove_from_index own session_id index)
      ≡ listed key j index - ite (string_discrete session_id j) (expected key (some own)) 0
unfolding remove_from_index
listed-remove_from_index key own j session_id index =
    let ids = ids_of (lookup own index) in
    ground (
      arith,
      listed-put_ids key own j (without_first session_id ids) index,
      times-without_first j session_id ids,
      same_ids own key j index,
    )
