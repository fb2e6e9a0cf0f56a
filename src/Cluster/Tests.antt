-- ===== src/Cluster/Tests.antt =====
-- A balancer of three nodes, one of them not healthy.
use zenlive.Common.{
  true, false, suc, ◌≡◌, ◌<◌, ◌%◌, ◌+◌, ◌^◌, ◌++◌, [], ◌∷◌, map, take, drop, length, All, arith,
}
use zenlive.Cluster.Balancer.{
  Node, LoadBalancer, selected, weighted_round_robin, usable, get_healthy_nodes, node_at,
  next_index, advance, select_node, select_weighted_round_robin,
}
use zenlive.Cluster.Selection.{Answers, weight_sum, select_node-Answers}
use zenlive.Cluster.Least.{Counted}
use zenlive.Cluster.Rotation.{selections, selections-rotation}
use zenlive.Cluster.Weights.{spread, select_weighted_round_robin-spread}

program : Unit {0}
unfolding usable get_healthy_nodes
program = tt

abbrev small : Node
small = record {
  id = "small";
  address = "10.0.0.1:80";
  weight = 1;
  max_connections = 1000;
  healthy = true;
  last_health_check = 0;
  active_connections = 7;
  total_requests = 0;
  failed_requests = 0;
  average_latency = 0;
}

abbrev large : Node
large = record small { id = "large"; weight = 2; active_connections = 3 }

abbrev ill : Node
ill = record small { id = "ill"; healthy = false; active_connections = 0 }

abbrev trio : LoadBalancer
trio = record { nodes = small ∷ ill ∷ large ∷ []; strategy = weighted_round_robin; rr_index = 6 }

two_usable : length (get_healthy_nodes trio) < 2 ^ 32
unfolding program
two_usable = omega arith

weights_small : weight_sum (get_healthy_nodes trio) < 2 ^ 32
unfolding program
weights_small = omega arith

weights_positive : 0 < weight_sum (get_healthy_nodes trio)
unfolding program
weights_positive = omega arith

some_usable : 0 < length (get_healthy_nodes trio)
unfolding program
some_usable = omega arith

select_node-Answers_example : Answers trio (select_node (49 ∷ 50 ∷ []) trio)
select_node-Answers_example = select_node-Answers (49 ∷ 50 ∷ []) trio two_usable weights_small

select_weighted_round_robin-spread_example :
    let nodes = get_healthy_nodes trio in
    select_weighted_round_robin trio
    ≡ (node_at (spread nodes) (next_index trio % weight_sum nodes), advance trio)
select_weighted_round_robin-spread_example =
    select_weighted_round_robin-spread trio weights_positive weights_small

room_for_two : trio.rr_index + length (get_healthy_nodes trio) < 2 ^ 32
unfolding program
room_for_two = omega arith

selections-rotation_example :
    let nodes = get_healthy_nodes trio in
    let start = suc trio.rr_index % length nodes in
    selections (length nodes) trio ≡ map selected (drop start nodes ++ take start nodes)
selections-rotation_example = selections-rotation trio some_usable room_for_two

trio-Counted : All Counted (get_healthy_nodes trio)
unfolding program
trio-Counted = (omega arith, (omega arith, tt))
