-- ===== src/Cluster/Selection.antt =====
-- Which node the strategies of pkg/cluster/loadbalancer.go select.
use mathlib.Core.Path.{subst}
use native.Mathlib.Nat.{mod-lt}
use zenlive.Common.{
  if_true, if_false, ℕ, zero, suc, Bool, true, false, not, ◌+◌, ◌-◌, ◌%◌, ◌^◌, ◌<◌, ◌≤◌, ◌&&◌, ◌≡◌,
  refl, ◌⊎◌, inl, inr, List, [], ◌∷◌, ◌==◌, if_cases, Bool-cases, length, arith,
}
use zenlive.Cluster.Balancer.{
  weighted_choice, select_by, round_robin, least_connections, weighted_round_robin, ip_hash, other,
  LoadBalancingStrategy, Node, LoadBalancer, Selection, selected, no_healthy_nodes, panicked,
  is_overloaded, is_usable, usable, get_healthy_nodes, node_at, node_modulo, next_index, advance,
  if_any, lt_int64, select_round_robin, least, select_least_connections, total_weight, weighed,
  select_weighted_round_robin, hash_of, select_ip_hash, select_node,
}

abbrev pub IsIn : Node → List Node → Type 0
IsIn n [] = ⊥
IsIn n (m ∷ nodes) = (m ≡ n) ⊎ IsIn n nodes

usable-IsIn :
    (n : Node) (nodes : List Node) → IsIn n (usable nodes) → IsIn n nodes × (is_usable n ≡ true)
unfolding usable
usable-IsIn n [] h = absurd h
usable-IsIn n (m ∷ nodes) h = elim (Bool-cases (is_usable m)) [
  | inl e ↦ elim (subst (λ x. IsIn n x) (if_true _ (m ∷ usable nodes) (usable nodes) e) h) [
    | inl p ↦ (inl p, subst (λ (x : Node). is_usable x ≡ true) p e)
    | inr h' ↦ (let (i, u) = usable-IsIn n nodes h' in (inr i, u))
  ]
  | inr e ↦
      let (i, u) =
        usable-IsIn n nodes
          (subst (λ x. IsIn n x) (if_false _ (m ∷ usable nodes) (usable nodes) e) h) in
      (inr i, u)
]

-- The selection of a node from a list that has one.
abbrev Chosen : List Node → Selection → Type 0
Chosen nodes (selected n) = IsIn n nodes
Chosen nodes no_healthy_nodes = ⊥
Chosen nodes panicked = ⊥

Chosen-later :
    (m : Node) (nodes : List Node) (s : Selection) → Chosen nodes s → Chosen (m ∷ nodes) s
Chosen-later m nodes (selected n) h = inr h
Chosen-later m nodes no_healthy_nodes h = h
Chosen-later m nodes panicked h = h

node_at-Chosen : (nodes : List Node) (i : ℕ) → i < length nodes → Chosen nodes (node_at nodes i)
unfolding node_at
node_at-Chosen [] i h = absurd (omega (arith, h))
node_at-Chosen (n ∷ nodes) zero h = inl refl
node_at-Chosen (n ∷ nodes) (suc i) h =
    Chosen-later n nodes (node_at nodes i) (node_at-Chosen nodes i (omega (arith, h)))

node_modulo-Chosen :
    (nodes : List Node) (index n : ℕ)
    → 0 < n
    → n ≤ length nodes
    → n < 2 ^ 32
    → Chosen nodes (node_modulo nodes index n)
node_modulo-Chosen nodes index n p l b =
    let e : n % 2 ^ 32 ≡ n = omega arith in
    let z : (n == 0) ≡ false = ground arith in
    rw (e, z) (node_at-Chosen nodes (index % n) (omega (arith, mod-lt index p)))

-- The nodes of the rest are nodes of the whole.
abbrev Within : List Node → List Node → Type 0
Within nodes whole = (n : Node) → IsIn n nodes → IsIn n whole

least-Chosen :
    (whole nodes : List Node) (min : ℕ) (best : Selection)
    → Within nodes whole
    → Chosen whole best
    → Chosen whole (least min best nodes)
unfolding least
least-Chosen whole [] min best w h = h
least-Chosen whole (n ∷ nodes) min best w h =
    if_cases (Chosen whole) _ (least n.active_connections (selected n) nodes) (least min best nodes)
      (λ _. least-Chosen whole nodes _ _ (λ m i. w m (inr i)) (w n (inl refl)))
      (λ _. least-Chosen whole nodes min best (λ m i. w m (inr i)) h)

weighed-Chosen :
    (whole nodes : List Node) (target current : ℕ) (first : Selection)
    → Within nodes whole
    → Chosen whole first
    → Chosen whole (weighed target current nodes first)
unfolding weighed
weighed-Chosen whole [] target current first w h = h
weighed-Chosen whole (n ∷ nodes) target current first w h =
    let reached = (current + n.weight) % 2 ^ 64 in
    if_cases (Chosen whole) (lt_int64 target reached) (selected n)
      (weighed target reached nodes first) (λ _. w n (inl refl))
      (λ _. weighed-Chosen whole nodes target reached first (λ m i. w m (inr i)) h)

-- The sum of the weights, as it is without an overflow.
abbrev pub weight_sum : List Node → ℕ
weight_sum [] = 0
weight_sum (n ∷ nodes) = n.weight + weight_sum nodes

pub total_weight_lem :
    (total : ℕ) (nodes : List Node)
    → total + weight_sum nodes < 2 ^ 64
    → total_weight total nodes ≡ total + weight_sum nodes
unfolding total_weight
total_weight_lem total [] h = omega arith
total_weight_lem total (n ∷ nodes) h =
    let e : (total + n.weight) % 2 ^ 64 ≡ total + n.weight = omega (arith, h) in
    rw e (omega (arith, total_weight_lem (total + n.weight) nodes (omega (arith, h))))

-- The answer of a selection: a usable node of the balancer, or that it has none. The nodes stay.
abbrev pub Answers : LoadBalancer → Selection × LoadBalancer → Type 0
Answers lb (selected n, lb') =
    IsIn n lb.nodes × (n.healthy ≡ true) × (is_overloaded n ≡ false) × (lb'.nodes ≡ lb.nodes)
Answers lb (no_healthy_nodes, lb') = (get_healthy_nodes lb ≡ []) × (lb' ≡ lb)
Answers lb (panicked, lb') = ⊥

both_parts : (a b : Bool) → (a && not b) ≡ true → (a ≡ true) × (b ≡ false)
both_parts true false h = (refl, refl)
both_parts true true h = cc
both_parts false b h = cc

Chosen-Answers :
    (lb lb' : LoadBalancer) (s : Selection)
    → lb'.nodes ≡ lb.nodes
    → Chosen (get_healthy_nodes lb) s
    → Answers lb (s, lb')
unfolding get_healthy_nodes
Chosen-Answers lb lb' (selected n) e h =
    let (i, u) = usable-IsIn n lb.nodes h in
    let (a, b) = both_parts n.healthy (is_overloaded n) u in (i, a, b, e)
Chosen-Answers lb lb' no_healthy_nodes e h = absurd h
Chosen-Answers lb lb' panicked e h = h

if_any-Answers :
    (lb : LoadBalancer) (nodes : List Node) (r : Selection × LoadBalancer)
    → get_healthy_nodes lb ≡ nodes
    → (0 < length nodes → Answers lb r)
    → Answers lb (if_any nodes (no_healthy_nodes, lb) r)
if_any-Answers lb [] r q h = (q, refl)
if_any-Answers lb (n ∷ nodes) r q h = h (omega arith)

select_round_robin-Answers :
    (lb : LoadBalancer)
    → length (get_healthy_nodes lb) < 2 ^ 32
    → Answers lb (select_round_robin lb)
unfolding select_round_robin
select_round_robin-Answers lb b =
    let nodes = get_healthy_nodes lb in
    if_any-Answers lb nodes _ refl (λ p.
      Chosen-Answers lb (advance lb) _ refl
        (node_modulo-Chosen nodes (next_index lb) (length nodes) p (omega arith) b))

least_first-Chosen :
    (nodes : List Node) → 0 < length nodes → Chosen nodes (least (2 ^ 32 - 1) panicked nodes)
unfolding least
least_first-Chosen [] p = absurd (omega (arith, p))
least_first-Chosen (n ∷ nodes) p =
    least-Chosen (n ∷ nodes) nodes n.active_connections (selected n) (λ m i. inr i) (inl refl)

weighted_choice-Chosen :
    (index total : ℕ) (nodes : List Node)
    → 0 < length nodes
    → 0 < total
    → total < 2 ^ 32
    → Chosen nodes (weighted_choice index total nodes)
unfolding weighted_choice
weighted_choice-Chosen index total nodes p z b =
    let e : total % 2 ^ 32 ≡ total = omega arith in
    let n : (total == 0) ≡ false = ground arith in
    rw (e, n)
      (weighed-Chosen nodes nodes (index % total) 0 (node_at nodes 0) (λ m i. i)
        (node_at-Chosen nodes 0 p))

select_weighted_round_robin-Answers :
    (lb : LoadBalancer)
    → length (get_healthy_nodes lb) < 2 ^ 32
    → weight_sum (get_healthy_nodes lb) < 2 ^ 32
    → Answers lb (select_weighted_round_robin lb)
unfolding select_weighted_round_robin
select_weighted_round_robin-Answers lb b s =
    let nodes = get_healthy_nodes lb in
    let total : total_weight 0 nodes ≡ weight_sum nodes =
      omega (arith, total_weight_lem 0 nodes (omega arith)) in
    if_any-Answers lb nodes _ refl (λ p.
      if_cases (Answers lb) (total_weight 0 nodes == 0) (select_round_robin lb)
        (weighted_choice (next_index lb) (total_weight 0 nodes) nodes, advance lb)
        (λ _. select_round_robin-Answers lb b)
        (λ z. Chosen-Answers lb (advance lb) _ refl (
          weighted_choice-Chosen (next_index lb) (total_weight 0 nodes) nodes p (ground arith)
            (omega arith))))

select_by-Answers :
    (strategy : LoadBalancingStrategy) (client_id : List ℕ) (lb : LoadBalancer)
    → length (get_healthy_nodes lb) < 2 ^ 32
    → weight_sum (get_healthy_nodes lb) < 2 ^ 32
    → Answers lb (select_by strategy client_id lb)
unfolding select_by select_least_connections select_ip_hash
select_by-Answers round_robin client_id lb b s = select_round_robin-Answers lb b
select_by-Answers least_connections client_id lb b s =
    if_any-Answers lb (get_healthy_nodes lb) _ refl
      (λ p. Chosen-Answers lb lb _ refl (least_first-Chosen (get_healthy_nodes lb) p))
select_by-Answers weighted_round_robin client_id lb b s = select_weighted_round_robin-Answers lb b s
select_by-Answers ip_hash client_id lb b s =
    let nodes = get_healthy_nodes lb in
    if_any-Answers lb nodes _ refl (λ p.
      Chosen-Answers lb lb _ refl
        (node_modulo-Chosen nodes (hash_of 0 client_id) (length nodes) p (omega arith) b))
select_by-Answers (other _) client_id lb b s = select_round_robin-Answers lb b

-- Where fewer than 2 ^ 32 nodes are usable and their weights add up to less, `SelectNode` selects
-- under every strategy a node of the balancer that is healthy and not overloaded, or reports that
-- there is none, in which case there is none; it never panics and keeps the nodes.
pub select_node-Answers :
    (client_id : List ℕ) (lb : LoadBalancer)
    → length (get_healthy_nodes lb) < 2 ^ 32
    → weight_sum (get_healthy_nodes lb) < 2 ^ 32
    → Answers lb (select_node client_id lb)
unfolding select_node
select_node-Answers client_id lb b s = select_by-Answers lb.strategy client_id lb b s
