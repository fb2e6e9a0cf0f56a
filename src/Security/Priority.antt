-- ===== src/Security/Priority.antt =====
-- The list of the rules of pkg/security/firewall.go has all rules of the map, the highest priority
-- first.
use mathlib.Core.List.Perm
use mathlib.Core.List.{Perm}
use zenlive.Common.{
  ℕ, zero, suc, ◌≤◌, ◌≡◌, refl, ap, List, [], ◌∷◌, ltb, if◌then◌else◌, length, All, Descending, inl,
  inr, Bool-cases, if_cases, arith,
}
use zenlive.Security.Firewall.{
  Range, Firewall, IpRule, exchange, sort_rules, values, rebuild_rules_list,
}

length-exchange : (r : IpRule) (l : List IpRule) → length (exchange r l).1 ≡ length l
unfolding exchange
length-exchange r [] = refl
length-exchange r (s ∷ l) = ap suc (length-exchange (if ltb r.priority s.priority then s else r) l)

exchange-perm : (r : IpRule) (l : List IpRule) → Perm ((exchange r l).0 ∷ (exchange r l).1) (r ∷ l)
unfolding exchange
exchange-perm r [] = Perm.refl (r ∷ [])
exchange-perm r (s ∷ l) = elim (Bool-cases (ltb r.priority s.priority)) [
  | inl less ↦
      rw less (
        Perm.trans (Perm.swap r (exchange s l).0 (exchange s l).1)
          (Perm.cons r (exchange-perm s l)))
  | inr more ↦ rw more (
      Perm.trans (Perm.swap s (exchange r l).0 (exchange r l).1)
        (Perm.trans (Perm.cons s (exchange-perm r l)) (Perm.swap r s l)))
]

-- The rule that comes to the place is not below any other.
exchange-top :
    (r : IpRule) (l : List IpRule)
    → (r.priority ≤ (exchange r l).0.priority)
      × All (λ (s : IpRule). s.priority ≤ (exchange r l).0.priority) (exchange r l).1
unfolding exchange
exchange-top r [] = (omega arith, tt)
exchange-top r (s ∷ l) =
    let high = if ltb r.priority s.priority then s else r in
    let low = if ltb r.priority s.priority then r else s in
    let low_high : low.priority ≤ high.priority = ground arith in
    let below : r.priority ≤ high.priority = ground arith in
    let (top, rest) = exchange-top high l in (omega (arith, top), (omega (arith, top), rest))

-- A bound on the priorities of a list holds of what an exchange leaves of it.
exchange-All :
    (P : IpRule → Type 0) (r : IpRule) (l : List IpRule)
    → P r
    → All P l
    → P (exchange r l).0 × All P (exchange r l).1
unfolding exchange
exchange-All P r [] p h = (p, tt)
exchange-All P r (s ∷ l) p h =
    let swap = ltb r.priority s.priority in
    let (top, rest) =
      exchange-All P (if swap then s else r) l (if_cases P swap s r (λ _. h.0) (λ _. p)) h.1 in
    (top, (if_cases P swap r s (λ _. p) (λ _. h.0), rest))

sort_rules-All : (P : IpRule → Type 0) (n : ℕ) (l : List IpRule) → All P l → All P (sort_rules n l)
unfolding sort_rules
sort_rules-All P zero l h = h
sort_rules-All P (suc n) [] h = tt
sort_rules-All P (suc n) (r ∷ l) h =
    let (top, rest) = exchange-All P r l h.0 h.1 in (top, sort_rules-All P n (exchange r l).1 rest)

abbrev pub IsSorted : List IpRule → Type 0
IsSorted = Descending (λ r. r.priority)

sort_rules-IsSorted : (n : ℕ) (l : List IpRule) → length l ≤ n → IsSorted (sort_rules n l)
unfolding sort_rules
sort_rules-IsSorted zero [] h = tt
sort_rules-IsSorted zero (r ∷ l) h = absurd (omega arith)
sort_rules-IsSorted (suc n) [] h = tt
sort_rules-IsSorted (suc n) (r ∷ l) h = (
  sort_rules-All (λ s. s.priority ≤ (exchange r l).0.priority) n (exchange r l).1
      (exchange-top r l).1,
  sort_rules-IsSorted n (exchange r l).1 (omega (arith, length-exchange r l)),
)

sort_rules-perm : (n : ℕ) (l : List IpRule) → Perm (sort_rules n l) l
unfolding sort_rules
sort_rules-perm zero l = Perm.refl l
sort_rules-perm (suc n) [] = Perm.refl []
sort_rules-perm (suc n) (r ∷ l) =
    Perm.trans (Perm.cons (exchange r l).0 (sort_rules-perm n (exchange r l).1)) (exchange-perm r l)

-- The list has the rules of the map, in descending order of priority.
abbrev pub IsOrdered : Firewall → Type 0
IsOrdered fw = IsSorted fw.rules_list × Perm fw.rules_list (values fw.rules)

pub rebuild_rules_list-IsOrdered :
    (range : Range) (fw : Firewall) → IsOrdered (rebuild_rules_list range fw)
unfolding rebuild_rules_list
rebuild_rules_list-IsOrdered range fw =
    let list = range.arrange (values fw.rules) in
    (
      sort_rules-IsSorted (length list) list (omega arith),
      Perm.trans (sort_rules-perm (length list) list) (range.arranged (values fw.rules)),
    )
