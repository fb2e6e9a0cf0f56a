-- ===== src/Cluster/Least.antt =====
-- The least connections of pkg/cluster/loadbalancer.go.
use zenlive.Common.{
  false, ◌-◌, ◌^◌, ◌<◌, ◌≤◌, ◌≡◌, refl, inl, inr, List, [], ◌∷◌, ◌==◌, Bool-cases, length, All,
  arith,
}
use zenlive.Cluster.Balancer.{
  Node, LoadBalancer, Selection, selected, panicked, no_healthy_nodes, get_healthy_nodes, if_any,
  lt_int32, least, select_least_connections,
}

-- The number of connections is not negative.
abbrev pub Counted : Node → Type 0
Counted n = n.active_connections < 2 ^ 31

-- The selection is a node with no more connections than any of the list.
abbrev pub Least : List Node → Selection → Type 0
Least nodes s =
    (n : Node) × (s ≡ selected n) × All (λ m. n.active_connections ≤ m.active_connections) nodes

least-Least :
    (best : Node) (nodes : List Node)
    → Counted best
    → All Counted nodes
    → Least (best ∷ nodes) (least best.active_connections (selected best) nodes)
unfolding least
least-Least best [] b h = (best, refl, (omega arith, tt))
least-Least best (m ∷ nodes) b h =
    let real : (best.active_connections == 2 ^ 32 - 1) ≡ false = ground (arith, b) in
    elim (Bool-cases (lt_int32 m.active_connections best.active_connections)) [
      | inl e ↦
          let (n, s, l) = least-Least m nodes h.0 h.1 in
          let less : m.active_connections < best.active_connections = ground (arith, b, h.0) in
          rw (real, e) (n, s, (omega (arith, l.0, less), (l.0, l.1)))
      | inr e ↦
          let (n, s, l) = least-Least best nodes b h.1 in
          let more : best.active_connections ≤ m.active_connections = ground (arith, b, h.0) in
          rw (real, e) (n, s, (l.0, (omega (arith, l.0, more), l.1)))
    ]

least_first-Least :
    (nodes : List Node) (lb : LoadBalancer)
    → 0 < length nodes
    → All Counted nodes
    → Least nodes
        (if_any {A = Selection × LoadBalancer} nodes
          (no_healthy_nodes, lb)
          (least (2 ^ 32 - 1) panicked nodes, lb)).0
unfolding least
least_first-Least [] lb p h = absurd (omega (arith, p))
least_first-Least (n ∷ nodes) lb p h = least-Least n nodes h.0 h.1

-- Where a node is usable, and no usable node has a negative number of connections, the least
-- connections strategy selects a node with as few connections as any usable node has.
pub select_least_connections-Least :
    (lb : LoadBalancer)
    → 0 < length (get_healthy_nodes lb)
    → All Counted (get_healthy_nodes lb)
    → Least (get_healthy_nodes lb) (select_least_connections lb).0
unfolding select_least_connections
select_least_connections-Least lb p h = least_first-Least (get_healthy_nodes lb) lb p h
