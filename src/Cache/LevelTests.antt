-- ===== src/Cache/LevelTests.antt =====
-- A cache of two levels, of which the second has a value.
use zenlive.Common.{
  ℕ, ◌+◌, ◌≡◌, refl, string_discrete, string_key, [], ◌∷◌, ◌++◌, List, some, none, lookup, insert,
  erase, arith,
}
use zenlive.Cache.{
  lru, InMemoryCache, new_in_memory_cache, is_expired, access, make_room, new_entry, get, set,
  exists, stats, keys,
}
use zenlive.Cache.Interface.{in_memory, InTime, in_memory-IsCache, is_some}
use zenlive.Cache.MultiLevel
use zenlive.Cache.MultiLevel.{first_found, promote, set_from, exists_from, stats_from}
use zenlive.Cache.Promotion.{get-promotes, get-IsCache, Have}

program : Unit {0}
unfolding new_in_memory_cache is_expired access make_room get set exists stats keys first_found
    promote set_from exists_from stats_from MultiLevel.get MultiLevel.set MultiLevel.exists
    MultiLevel.stats MultiLevel.keys string_discrete lookup insert erase
program = tt

abbrev small : InMemoryCache ℕ
small = new_in_memory_cache 2 5 lru

abbrev large : InMemoryCache ℕ
large = record small { entries = ("a", new_entry "a" 7 50 1) ∷ []; max_size = 9 }

abbrev clock : ℕ → ℕ × ℕ
clock i = (i + 3, i + 3)

abbrev levels : List (InMemoryCache ℕ)
levels = small ∷ large ∷ []

-- The first `Get` finds the value at the second level, and the next one at the first.
two_gets :
    let (reply, levels') = MultiLevel.get in_memory clock "a" levels in
    (reply ≡ some 7)
    × (MultiLevel.keys in_memory levels ≡ some [])
    × (MultiLevel.keys in_memory levels' ≡ some ("a" ∷ []))
    × ((MultiLevel.stats in_memory levels').misses ≡ 1)
    × ((MultiLevel.stats in_memory levels').size ≡ 2)
unfolding program
two_gets = (refl, refl, refl, refl, refl)

small_misses : (in_memory.get (clock 0) "a" small).0 ≡ none
unfolding program
small_misses = refl

large_has : (in_memory.get (clock 1) "a" large).0 ≡ some 7
unfolding program
large_has = refl

lives_on : InTime (clock 2) 0 (9, 9) (in_memory.get (clock 0) "a" small).1
unfolding program
lives_on = omega arith

get-promotes_example :
    let (reply, levels') = MultiLevel.get in_memory clock "a" (small ∷ large ∷ []) in
    (reply ≡ some 7)
    × (above : List (InMemoryCache ℕ)) × (levels'
        ≡ above ++ (in_memory.get (clock 1) "a" large).1 ∷ [])
    × Have in_memory (9, 9) "a" 7 above
get-promotes_example =
    get-promotes in_memory InTime in_memory-IsCache clock (9, 9) "a" 7 (small ∷ []) [] large
      (small_misses, tt) large_has (lives_on, tt)

lives_now : InTime (clock 0) 20 (9, 9) small
unfolding program
lives_now = omega arith

get-IsCache_example :
    (MultiLevel.exists in_memory (λ i. (i + 9, i + 9)) "b" (small ∷ large ∷ [])
      ≡ is_some (MultiLevel.get in_memory (λ i. (i + 9, i + 9)) "b" (small ∷ large ∷ [])).0)
    × ((MultiLevel.get in_memory
          (λ i. (i + 9, i + 9))
          "b"
          (MultiLevel.set in_memory clock "b" 8 20 (small ∷ large ∷ []))).0
        ≡ some 8)
    × ((MultiLevel.get in_memory
          (λ i. (i + 9, i + 9))
          "b"
          (MultiLevel.delete in_memory "b" (small ∷ large ∷ []))).0
        ≡ none)
    × ((MultiLevel.get in_memory
          (λ i. (i + 9, i + 9))
          "b"
          (MultiLevel.clear in_memory (small ∷ large ∷ []))).0
        ≡ none)
get-IsCache_example =
    get-IsCache in_memory InTime in_memory-IsCache clock (λ i. (i + 9, i + 9)) "b" 8 20 small
      (large ∷ []) lives_now
