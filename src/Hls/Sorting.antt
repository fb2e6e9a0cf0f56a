-- ===== src/Hls/Sorting.antt =====
-- `SortVariantsByBandwidth` of pkg/streaming/hls/playlist.go sorts.
use mathlib.Core.List.Perm
use mathlib.Core.List.{Perm, append-nil}
use mathlib.Core.Path.{subst}
use zenlive.Common.{
  ℕ, zero, suc, ◌-◌, ◌≤◌, ◌≡◌, refl, sym, ap, List, [], ◌∷◌, ◌++◌, ltb, if◌then◌else◌, length, All,
  Descending, inl, inr, Bool-cases, if_cases, arith,
}
use zenlive.Hls.Variants.{
  Variant, MasterPlaylist, bubble, bubble_rounds, sort_variants_by_bandwidth,
}

bubble-perm : (n : ℕ) (l : List Variant) → Perm (bubble n l) l
unfolding bubble
bubble-perm zero l = Perm.refl l
bubble-perm (suc n) [] = Perm.refl []
bubble-perm (suc n) (x ∷ []) = Perm.refl (x ∷ [])
bubble-perm (suc n) (x ∷ y ∷ l) = elim (Bool-cases (ltb x.bandwidth y.bandwidth)) [
  | inl less ↦ rw less (Perm.trans (Perm.cons y (bubble-perm n (x ∷ l))) (Perm.swap x y l))
  | inr more ↦ rw more (Perm.cons x (bubble-perm n (y ∷ l)))
]

bubble_rounds-perm : (n : ℕ) (l : List Variant) → Perm (bubble_rounds n l) l
unfolding bubble_rounds
bubble_rounds-perm zero l = Perm.refl l
bubble_rounds-perm (suc n) l =
    Perm.trans (bubble_rounds-perm n (bubble (suc n) l)) (bubble-perm (suc n) l)

-- A round over the front of a list: the least of it comes to its end, the rest is as good.
record Round (P : Variant → Type 0) (x : Variant) (n : ℕ) (r l : List Variant) : Type 0 where
  front : List Variant
  least : Variant
  size : length front ≡ n
  shape : l ≡ front ++ least ∷ r
  below : least.bandwidth ≤ x.bandwidth
  smallest : All (λ (v : Variant). least.bandwidth ≤ v.bandwidth) front
  front_good : All P front
  least_good : P least

bubble-Round :
    (P : Variant → Type 0) (n : ℕ) (x : Variant) (xs r : List Variant)
    → length xs ≡ n
    → P x
    → All P xs
    → Round P x n r (bubble n (x ∷ (xs ++ r)))
unfolding bubble
bubble-Round P zero x [] r e p h = record {
  front = [];
  least = x;
  size = refl;
  shape = refl;
  below = omega arith;
  smallest = tt;
  front_good = tt;
  least_good = p;
}
bubble-Round P zero x (y ∷ xs) r e p h = absurd (omega arith)
bubble-Round P (suc n) x [] r e p h = absurd (omega arith)
bubble-Round P (suc n) x (y ∷ xs) r e p h =
    let less = ltb x.bandwidth y.bandwidth in
    let high = if less then y else x in
    let low = if less then x else y in
    let low_below : low.bandwidth ≤ x.bandwidth = ground arith in
    let low_high : low.bandwidth ≤ high.bandwidth = ground arith in
    let round =
      bubble-Round P n low xs r (omega arith) (if_cases P less x y (λ _. p) (λ _. h.0)) h.1 in
    record {
      front = high ∷ round.front;
      least = round.least;
      size = ap suc round.size;
      shape = ap (◌∷◌ high) round.shape;
      below = omega (arith, round.below);
      smallest = (omega (arith, round.below), round.smallest);
      front_good = (if_cases P less y x (λ _. h.0) (λ _. p), round.front_good);
      least_good = round.least_good;
    }

-- The front stays above the rest that is already in order.
All-both :
    (least : Variant) (r front : List Variant)
    → All (λ (v : Variant). least.bandwidth ≤ v.bandwidth) front
    → All (λ (v : Variant). All (λ (u : Variant). u.bandwidth ≤ v.bandwidth) r) front
    → All (λ (v : Variant). All (λ (u : Variant). u.bandwidth ≤ v.bandwidth) (least ∷ r)) front
All-both least r [] h k = tt
All-both least r (v ∷ front) h k = ((h.0, k.0), All-both least r front h.1 k.1)

abbrev pub IsSorted : List Variant → Type 0
IsSorted = Descending (λ v. v.bandwidth)

bubble_rounds-IsSorted :
    (n : ℕ) (p r : List Variant)
    → length p ≡ suc n
    → IsSorted r
    → All (λ (v : Variant). All (λ (u : Variant). u.bandwidth ≤ v.bandwidth) r) p
    → IsSorted (bubble_rounds n (p ++ r))
unfolding bubble_rounds
bubble_rounds-IsSorted n [] r e d h = absurd (omega arith)
bubble_rounds-IsSorted zero (x ∷ []) r e d h = (h.0, d)
bubble_rounds-IsSorted zero (x ∷ y ∷ p) r e d h = absurd (omega arith)
bubble_rounds-IsSorted (suc n) (x ∷ xs) r e d h =
    let round =
      bubble-Round (λ v. All (λ (u : Variant). u.bandwidth ≤ v.bandwidth) r) (suc n) x xs r
        (omega arith) h.0 h.1 in
    subst (λ l. IsSorted (bubble_rounds n l)) (sym round.shape)
      (bubble_rounds-IsSorted n round.front (round.least ∷ r) round.size (round.least_good, d)
        (All-both round.least r round.front round.smallest round.front_good))

nothing_below :
    (p : List Variant)
    → All (λ (v : Variant). All (λ (u : Variant). u.bandwidth ≤ v.bandwidth) []) p
nothing_below [] = tt
nothing_below (v ∷ p) = (tt, nothing_below p)

all_in_order : (l : List Variant) → IsSorted (bubble_rounds (length l - 1) l)
unfolding bubble_rounds
all_in_order [] = tt
all_in_order (x ∷ xs) =
    let n : length xs ≡ length (x ∷ xs) - 1 = omega arith in
    subst (λ k. IsSorted (bubble_rounds k (x ∷ xs))) n
      (subst (λ l. IsSorted (bubble_rounds (length xs) l)) (append-nil (x ∷ xs))
        (bubble_rounds-IsSorted (length xs) (x ∷ xs) [] refl tt (nothing_below (x ∷ xs))))

-- `SortVariantsByBandwidth` leaves the variants as they were, in descending order of bandwidth.
pub sort_variants_by_bandwidth-IsSorted :
    (m : MasterPlaylist)
    → IsSorted (sort_variants_by_bandwidth m).variants
      × Perm (sort_variants_by_bandwidth m).variants m.variants
unfolding sort_variants_by_bandwidth
sort_variants_by_bandwidth-IsSorted m =
    (all_in_order m.variants, bubble_rounds-perm (length m.variants - 1) m.variants)
