-- ===== src/Cluster/Stats.antt =====
-- The statistics of pkg/cluster/loadbalancer.go. Sums are words of 64 bits; the latencies are not
-- negative, so their division is that of numbers.
use zenlive.Common.{
  ℕ, String, Bool, ◌+◌, ◌/◌, ◌%◌, ◌^◌, ◌==◌, List, [], ◌∷◌, ◌++◌, if◌then◌else◌, length,
}
use zenlive.Cluster.Balancer.{Node, LoadBalancer}

pub record NodeStats : Type 0 where
  pub node_id : String
  pub address : String
  pub healthy : Bool
  pub active_connections : ℕ
  pub total_requests : ℕ
  pub failed_requests : ℕ
  pub average_latency : ℕ
  pub weight : ℕ

pub record LoadBalancerStats : Type 0 where
  pub total_nodes : ℕ
  pub healthy_nodes : ℕ
  pub total_requests : ℕ
  pub failed_requests : ℕ
  pub average_latency : ℕ
  pub nodes_stats : List NodeStats

unfoldable pub stats_of : Node → NodeStats
stats_of node = record {
  node_id = node.id;
  address = node.address;
  healthy = node.healthy;
  active_connections = node.active_connections;
  total_requests = node.total_requests;
  failed_requests = node.failed_requests;
  average_latency = node.average_latency;
  weight = node.weight;
}

-- The loop, with `totalLatency` in the place of the average.
unfoldable pub add_stats : List Node → LoadBalancerStats → LoadBalancerStats
add_stats [] stats = stats
add_stats (node ∷ nodes) stats = add_stats nodes (record {
  total_nodes = stats.total_nodes;
  healthy_nodes = if node.healthy then stats.healthy_nodes + 1 else stats.healthy_nodes;
  total_requests = (stats.total_requests + node.total_requests) % 2 ^ 64;
  failed_requests = (stats.failed_requests + node.failed_requests) % 2 ^ 64;
  average_latency = (stats.average_latency + node.average_latency) % 2 ^ 64;
  nodes_stats = stats.nodes_stats ++ (stats_of node ∷ []);
})

unfoldable pub get_stats : LoadBalancer → LoadBalancerStats
get_stats lb =
    let total = add_stats lb.nodes (record {
      total_nodes = length lb.nodes;
      healthy_nodes = 0;
      total_requests = 0;
      failed_requests = 0;
      average_latency = 0;
      nodes_stats = [];
    }) in
    if length lb.nodes == 0
    then total
    else record total { average_latency = total.average_latency / length lb.nodes }
