-- ===== src/Cluster/Balancer.antt =====
-- The load balancer of pkg/cluster/loadbalancer.go. An int32 and a uint32 are words below 2 ^ 32,
-- an int and an int64 words below 2 ^ 64, signed ones in two's complement. A node that the caller
-- holds is the node of the list. Times are arguments, and so is the average of latencies, which is
-- computed in float64.
use zenlive.Common.{
  ℕ, String, Bool, true, not, ◌+◌, ◌*◌, ◌%◌, ◌^◌, ◌&&◌, ◌||◌, zero, suc, ◌-◌, List, [], ◌∷◌, ◌++◌,
  Option, none, some, ltb, ◌==◌, if◌then◌else◌, length,
}
use text.Mathlib.Text.{◌==◌ as str_eq}

pub data LoadBalancingStrategy : Type 0 where
  round_robin least_connections weighted_round_robin ip_hash : LoadBalancingStrategy
  other : String → LoadBalancingStrategy

pub record Node : Type 0 where
  pub id : String
  pub address : String
  pub weight : ℕ
  pub max_connections : ℕ
  pub healthy : Bool
  pub last_health_check : ℕ
  pub active_connections : ℕ
  pub total_requests : ℕ
  pub failed_requests : ℕ
  pub average_latency : ℕ

unfoldable pub new_node : String → String → ℕ → ℕ → Node
new_node id address weight now = record {
  id = id;
  address = address;
  weight = weight;
  max_connections = 1000;
  healthy = true;
  last_health_check = now;
  active_connections = 0;
  total_requests = 0;
  failed_requests = 0;
  average_latency = 0;
}

unfoldable pub increment_connections : Node → Node
increment_connections n = record n { active_connections = (n.active_connections + 1) % 2 ^ 32 }

unfoldable pub decrement_connections : Node → Node
decrement_connections n = record n {
  active_connections = (n.active_connections + (2 ^ 32 - 1)) % 2 ^ 32;
}

unfoldable pub record_request : (ℕ → ℕ → ℕ) → ℕ → Node → Node
record_request average latency n = record n {
  total_requests = (n.total_requests + 1) % 2 ^ 64;
  average_latency = if n.average_latency == 0 then latency else average n.average_latency latency;
}

unfoldable pub record_failure : Node → Node
record_failure n = record n { failed_requests = (n.failed_requests + 1) % 2 ^ 64 }

unfoldable pub set_healthy : Bool → ℕ → Node → Node
set_healthy healthy now n = record n { healthy = healthy; last_health_check = now }

-- `a < b` of signed words of 32 and of 64 bits.
abbrev pub lt_int32 : ℕ → ℕ → Bool
lt_int32 a b = ltb ((a + 2 ^ 31) % 2 ^ 32) ((b + 2 ^ 31) % 2 ^ 32)

abbrev pub lt_int64 : ℕ → ℕ → Bool
lt_int64 a b = ltb ((a + 2 ^ 63) % 2 ^ 64) ((b + 2 ^ 63) % 2 ^ 64)

abbrev pub is_overloaded : Node → Bool
is_overloaded n = not (lt_int32 n.active_connections (n.max_connections % 2 ^ 32))

pub record LoadBalancer : Type 0 where
  pub nodes : List Node
  pub strategy : LoadBalancingStrategy
  pub rr_index : ℕ

unfoldable pub new_load_balancer : LoadBalancingStrategy → LoadBalancer
new_load_balancer strategy = record { nodes = []; strategy = strategy; rr_index = 0 }

unfoldable pub add_node : Node → LoadBalancer → LoadBalancer
add_node node lb = record lb { nodes = lb.nodes ++ (node ∷ []) }

unfoldable pub without : String → List Node → List Node
without node_id [] = []
without node_id (node ∷ nodes) =
    if str_eq node.id node_id then nodes else node ∷ without node_id nodes

unfoldable pub remove_node : String → LoadBalancer → LoadBalancer
remove_node node_id lb = record lb { nodes = without node_id lb.nodes }

unfoldable pub find_node : String → List Node → Option Node
find_node node_id [] = none
find_node node_id (node ∷ nodes) =
    if str_eq node.id node_id then some node else find_node node_id nodes

unfoldable pub get_node : String → LoadBalancer → Option Node
get_node node_id lb = find_node node_id lb.nodes

abbrev pub is_usable : Node → Bool
is_usable n = n.healthy && not (is_overloaded n)

unfoldable pub usable : List Node → List Node
usable [] = []
usable (node ∷ nodes) = if is_usable node then node ∷ usable nodes else usable nodes

unfoldable pub get_healthy_nodes : LoadBalancer → List Node
get_healthy_nodes lb = usable lb.nodes

-- `panicked`: an index out of range, or a division by zero.
pub data Selection : Type 0 where
  selected : Node → Selection
  no_healthy_nodes panicked : Selection

unfoldable pub node_at : List Node → ℕ → Selection
node_at [] i = panicked
node_at (node ∷ nodes) zero = selected node
node_at (node ∷ nodes) (suc i) = node_at nodes i

-- `nodes[index % uint32(n)]`
abbrev pub node_modulo : List Node → ℕ → ℕ → Selection
node_modulo nodes index n =
    if n % 2 ^ 32 == 0 then panicked else node_at nodes (index % (n % 2 ^ 32))

-- `atomic.AddUint32(&lb.rrIndex, 1)`
abbrev pub next_index : LoadBalancer → ℕ
next_index lb = (lb.rr_index + 1) % 2 ^ 32

abbrev pub advance : LoadBalancer → LoadBalancer
advance lb = record lb { rr_index = next_index lb }

abbrev pub if_any {ℓ} : {A : Type ℓ} → List Node → A → A → A
if_any [] x y = x
if_any (_ ∷ _) x y = y

unfoldable pub select_round_robin : LoadBalancer → Selection × LoadBalancer
select_round_robin lb =
    let nodes = get_healthy_nodes lb in
    if_any nodes (no_healthy_nodes, lb)
      (node_modulo nodes (next_index lb) (length nodes), advance lb)

-- The loop of `selectLeastConnections`, with `minConnections` and `selectedNode`.
unfoldable pub least : ℕ → Selection → List Node → Selection
least min best [] = best
least min best (node ∷ nodes) =
    if (min == 2 ^ 32 - 1) || lt_int32 node.active_connections min
    then least node.active_connections (selected node) nodes
    else least min best nodes

-- A nil `selectedNode` is `panicked`: the caller would follow it.
unfoldable pub select_least_connections : LoadBalancer → Selection × LoadBalancer
select_least_connections lb =
    let nodes = get_healthy_nodes lb in
    if_any nodes (no_healthy_nodes, lb) (least (2 ^ 32 - 1) panicked nodes, lb)

unfoldable pub total_weight : ℕ → List Node → ℕ
total_weight total [] = total
total_weight total (node ∷ nodes) = total_weight ((total + node.weight) % 2 ^ 64) nodes

-- The loop over the weights; the last argument is `healthyNodes[0]`.
unfoldable pub weighed : ℕ → ℕ → List Node → Selection → Selection
weighed target current [] first = first
weighed target current (node ∷ nodes) first =
    let reached = (current + node.weight) % 2 ^ 64 in
    let rest = weighed target reached nodes first in
    if lt_int64 target reached then selected node else rest

-- The choice by the index, for a total weight that is not 0.
unfoldable pub weighted_choice : ℕ → ℕ → List Node → Selection
weighted_choice index total nodes =
    if total % 2 ^ 32 == 0
    then panicked
    else weighed (index % (total % 2 ^ 32)) 0 nodes (node_at nodes 0)

unfoldable pub select_weighted_round_robin : LoadBalancer → Selection × LoadBalancer
select_weighted_round_robin lb =
    let nodes = get_healthy_nodes lb in
    let total = total_weight 0 nodes in
    if_any nodes (no_healthy_nodes, lb)
      (if total == 0
        then select_round_robin lb
        else (weighted_choice (next_index lb) total nodes, advance lb))

-- The runes of the client's id.
unfoldable pub hash_of : ℕ → List ℕ → ℕ
hash_of hash [] = hash
hash_of hash (char ∷ chars) = hash_of ((hash * 31 + char) % 2 ^ 32) chars

unfoldable pub select_ip_hash : List ℕ → LoadBalancer → Selection × LoadBalancer
select_ip_hash client_id lb =
    let nodes = get_healthy_nodes lb in
    if_any nodes (no_healthy_nodes, lb) (node_modulo nodes (hash_of 0 client_id) (length nodes), lb)

unfoldable pub select_by : LoadBalancingStrategy → List ℕ → LoadBalancer → Selection × LoadBalancer
select_by round_robin client_id lb = select_round_robin lb
select_by least_connections client_id lb = select_least_connections lb
select_by weighted_round_robin client_id lb = select_weighted_round_robin lb
select_by ip_hash client_id lb = select_ip_hash client_id lb
select_by (other _) client_id lb = select_round_robin lb

unfoldable pub select_node : List ℕ → LoadBalancer → Selection × LoadBalancer
select_node client_id lb = select_by lb.strategy client_id lb

-- `checkAllNodes`: the check of each node, and the time of it.
unfoldable pub check_all_nodes : (Node → Bool) → (ℕ → ℕ) → List Node → List Node
check_all_nodes check clock [] = []
check_all_nodes check clock (node ∷ nodes) =
    set_healthy (check node) (clock 0) node ∷ check_all_nodes check (λ i. clock (i + 1)) nodes
