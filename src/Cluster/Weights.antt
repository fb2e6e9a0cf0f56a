-- ===== src/Cluster/Weights.antt =====
-- The weighted selection of pkg/cluster/loadbalancer.go.
use zenlive.Common.{
  ℕ, zero, suc, true, false, ◌+◌, ◌-◌, ◌%◌, ◌^◌, ◌<◌, ◌≡◌, refl, sym, ap, ◌∙◌, inl, inr, List, [],
  ◌∷◌, ltb, ◌==◌, Bool-cases, arith,
}
use native.Mathlib.Nat.{mod-lt, zero-add, suc-add}
use zenlive.Cluster.Balancer.{
  Node, LoadBalancer, Selection, selected, get_healthy_nodes, node_at, next_index, advance, if_any,
  lt_int64, total_weight, weighed, weighted_choice, select_weighted_round_robin,
}
use zenlive.Cluster.Selection.{weight_sum, total_weight_lem}

abbrev copies : ℕ → Node → List Node → List Node
copies zero n rest = rest
copies (suc w) n rest = n ∷ copies w n rest

-- Each node as many times as its weight says, in the order of the nodes.
abbrev pub spread : List Node → List Node
spread [] = []
spread (n ∷ nodes) = copies n.weight n (spread nodes)

node_at-copies_low :
    (w i : ℕ) (n : Node) (rest : List Node) → i < w → node_at (copies w n rest) i ≡ selected n
unfolding node_at
node_at-copies_low zero i n rest h = absurd (omega (arith, h))
node_at-copies_low (suc w) zero n rest h = refl
node_at-copies_low (suc w) (suc i) n rest h = node_at-copies_low w i n rest (omega (arith, h))

node_at-copies_high :
    (w i : ℕ) (n : Node) (rest : List Node) → node_at (copies w n rest) (w + i) ≡ node_at rest i
unfolding node_at
node_at-copies_high zero i n rest = rw zero-add refl
node_at-copies_high (suc w) i n rest = rw suc-add (node_at-copies_high w i n rest)

weighed-spread :
    (nodes : List Node) (current i : ℕ) (first : Selection)
    → i < weight_sum nodes
    → current + weight_sum nodes < 2 ^ 32
    → weighed (current + i) current nodes first ≡ node_at (spread nodes) i
unfolding weighed
weighed-spread [] current i first l b = absurd (omega (arith, l))
weighed-spread (n ∷ nodes) current i first l b =
    let reached : (current + n.weight) % 2 ^ 64 ≡ current + n.weight = omega (arith, b) in
    elim (Bool-cases (ltb i n.weight)) [
      | inl e ↦
          let test : lt_int64 (current + i) (current + n.weight) ≡ true = ground (arith, b, l) in
          rw (reached, test) (sym (node_at-copies_low n.weight i n (spread nodes) (ground arith)))
      | inr e ↦
          let test : lt_int64 (current + i) (current + n.weight) ≡ false = ground (arith, b, l) in
          let k : i ≡ n.weight + (i - n.weight) = ground arith in
          let k' : current + i ≡ (current + n.weight) + (i - n.weight) = omega (arith, k) in
          rw (reached, test)
            (ap (λ t. weighed t (current + n.weight) nodes first) k'
              ∙ weighed-spread nodes (current + n.weight) (i - n.weight) first (omega (arith, k, l))
                  (omega (arith, b))
              ∙ sym (node_at-copies_high n.weight (i - n.weight) n (spread nodes))
              ∙ ap (λ t. node_at (copies n.weight n (spread nodes)) t) (sym k))
    ]

weighted_choice-spread :
    (index : ℕ) (nodes : List Node)
    → 0 < weight_sum nodes
    → weight_sum nodes < 2 ^ 32
    → weighted_choice index (weight_sum nodes) nodes
      ≡ node_at (spread nodes) (index % weight_sum nodes)
unfolding weighted_choice
weighted_choice-spread index nodes p b =
    let e : weight_sum nodes % 2 ^ 32 ≡ weight_sum nodes = omega arith in
    let z : (weight_sum nodes == 0) ≡ false = ground arith in
    let i = index % weight_sum nodes in
    let start : 0 + i ≡ i = omega arith in
    rw (e, z)
      (ap (λ t. weighed t 0 nodes (node_at nodes 0)) (sym start)
        ∙ weighed-spread nodes 0 i (node_at nodes 0) (omega (arith, mod-lt index p)) (omega arith))

if_any-weights {ℓ} :
    {A : Type ℓ} (nodes : List Node) (x y : A) → 0 < weight_sum nodes → if_any nodes x y ≡ y
if_any-weights [] x y p = absurd (omega (arith, p))
if_any-weights (n ∷ nodes) x y p = refl

-- The weighted selection takes the nodes in turn, each as often as its weight says: it is the
-- selection by the next index from the list that repeats each usable node as often, where their
-- weights add up to a positive number below 2 ^ 32.
pub select_weighted_round_robin-spread :
    (lb : LoadBalancer)
    → 0 < weight_sum (get_healthy_nodes lb)
    → weight_sum (get_healthy_nodes lb) < 2 ^ 32
    → let nodes = get_healthy_nodes lb in
      select_weighted_round_robin lb
      ≡ (node_at (spread nodes) (next_index lb % weight_sum nodes), advance lb)
unfolding select_weighted_round_robin
select_weighted_round_robin-spread lb p b =
    let nodes = get_healthy_nodes lb in
    let total : total_weight 0 nodes ≡ weight_sum nodes =
      omega (arith, total_weight_lem 0 nodes (omega arith)) in
    let z : (weight_sum nodes == 0) ≡ false = ground arith in
    if_any-weights nodes _ _ p
    ∙ rw (total, z) (ap (λ s. (s, advance lb)) (weighted_choice-spread (next_index lb) nodes p b))
