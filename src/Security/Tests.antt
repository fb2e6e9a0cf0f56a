-- ===== src/Security/Tests.antt =====
-- A firewall with a few rules, a ban, and connections at the limit.
use mathlib.Core.List.Perm
use mathlib.Core.List.{Perm}
use zenlive.Common.{
  [], ◌∷◌, ◌+◌, length, arith, ℕ, String, ◌≤◌, ◌≡◌, refl, none, some, Bool, true, false, lookup,
  insert, erase, string_key, string_discrete,
}
use zenlive.Security.Firewall.{
  Net, Range, IpRule, ConnectionLimitConfig, allow, block, blocked, new_firewall, values, exchange,
  sort_rules, rebuild_rules_list, list_pattern, remove_rule, increment_connection,
  decrement_connection, blocks_pattern, unbanned, unban_ip, expire, cleanup,
}
use zenlive.Security.Checks.{
  is_valid_ip_pattern, in_network, matches_pattern, add_rule, check_rules, check_ip, ban_ip,
  check_connection_limit,
}
use zenlive.Security.Tracker.{
  Connection, ConnectionTracker, limit_exceeded, new_connection_tracker, track, untrack,
  remove_connection, get_connection_count, total_of, get_total_connections, add_within_limit,
  add_connection,
}
use zenlive.Security.Verdicts.{Judges}
use zenlive.Security.Priority.{IsOrdered, IsSorted}
use zenlive.Security.Bans.{Unblocked, unban_ip-ban_ip}
use zenlive.Security.RuleCalls.{add, perform}
use zenlive.Security.Slack.{waiting}
use zenlive.Security.Races.{Races, begins, passes, counts, Races-le}
use zenlive.Security.History.{Reach, start, added, ruled, get_total_connections-le, check_ip_lem}

program : Unit {0}
unfolding new_firewall values exchange sort_rules rebuild_rules_list list_pattern remove_rule
    increment_connection decrement_connection blocks_pattern unbanned unban_ip expire cleanup
    is_valid_ip_pattern in_network matches_pattern add_rule check_rules check_ip ban_ip
    check_connection_limit new_connection_tracker track untrack remove_connection
    get_connection_count total_of get_total_connections add_within_limit add_connection perform
    string_discrete lookup insert erase
program = tt

abbrev in_order : Range
in_order = record { arrange = λ rules. rules; arranged = λ rules. Perm.refl rules }

-- Every text is an address, the text "any" is also the network of all of them.
abbrev texts : Net
texts = record {
  Address = String;
  Network = Unit {0};
  parse_ip = λ s. some s;
  parse_cidr = λ s. elim (string_discrete s "any") [ yes p ↦ some tt | no n ↦ none ];
  contains = λ n a. true;
  ban_id = λ ip now. ip;
}

abbrev rule : String → String → ℕ → Bool → IpRule
rule id pattern_of priority allows = record {
  id = id;
  pattern_of = pattern_of;
  action = elim allows [ true ↦ allow | false ↦ block ];
  reason = "no";
  created_at = 0;
  expires_at = 0;
  priority = priority;
}

abbrev limit : ConnectionLimitConfig
limit = record {
  max_connections_per_ip = 1;
  max_connections_global = 2;
  max_connection_rate = 9;
  ban_duration = 5;
}

abbrev visit : String → String → Connection
visit id ip = record {
  id = id;
  ip = ip;
  user_id = "u";
  start_time = 0;
  last_seen = 0;
  bytes_sent = 0;
  bytes_recv = 0;
}

abbrev fresh : ConnectionTracker
fresh = new_connection_tracker (new_firewall (some limit))

-- All addresses are blocked with priority 1, and those of "any" are allowed with priority 2.
abbrev guarded : ConnectionTracker
guarded = record fresh {
  firewall = perform texts (add in_order 1 (rule "r" "any" 1 false)) fresh.firewall;
}

abbrev busy : ConnectionTracker
busy = (add_connection texts in_order 3 (visit "x" "b") fresh).0

guarded-Reach : Reach texts limit guarded
guarded-Reach = ruled (add in_order 1 (rule "r" "any" 1 false)) start

busy-Reach : Reach texts limit busy
unfolding program
busy-Reach = added in_order 3 (visit "x" "b") start refl

busy_full :
    (get_connection_count "b" busy ≡ 1)
    × ((add_connection texts in_order 4 (visit "y" "b") busy).1 ≡ limit_exceeded)
unfolding program
busy_full = (refl, refl)

get_total_connections-le_example :
    (get_total_connections busy ≤ 2) × (get_connection_count "b" busy ≤ 1)
get_total_connections-le_example = get_total_connections-le texts limit "b" busy-Reach

-- Two calls at once pass the checks for the only place of their address.
abbrev crowded : ConnectionTracker
crowded = track (visit "y" "b") (track (visit "x" "b") fresh)

crowded-Races : Races texts limit 1 crowded []
unfolding program
crowded-Races =
    counts [] [] (visit "y" "b")
      (counts (visit "y" "b" ∷ []) [] (visit "x" "b")
        (passes in_order 4 (visit "y" "b")
          (passes in_order 3 (visit "x" "b") begins (omega arith) refl) (omega arith) refl)
        refl)
      refl

crowded_over : get_connection_count "b" crowded ≡ 2
unfolding program
crowded_over = refl

Races-le_example :
    (get_total_connections crowded + length {A = Connection} [] ≤ 2 + 1)
    × (get_connection_count "b" crowded + waiting "b" [] ≤ 1 + 1)
Races-le_example = Races-le texts limit 1 "b" crowded-Races

guarded_white : lookup "a" guarded.firewall.whitelist ≡ none
unfolding program
guarded_white = refl

guarded_black : lookup "a" guarded.firewall.blacklist ≡ none
unfolding program
guarded_black = refl

guarded_verdict : check_ip texts 9 "a" guarded.firewall ≡ blocked "no"
unfolding program
guarded_verdict = refl

check_ip_lem_example :
    Perm guarded.firewall.rules_list (values guarded.firewall.rules)
    × Judges texts 9 "a" guarded.firewall.rules_list (check_ip texts 9 "a" guarded.firewall)
check_ip_lem_example = check_ip_lem texts limit 9 "a" guarded-Reach guarded_white guarded_black

fresh_white : lookup "a" fresh.firewall.whitelist ≡ none
unfolding program
fresh_white = refl

fresh_black : lookup "a" fresh.firewall.blacklist ≡ none
unfolding program
fresh_black = refl

fresh_rules : lookup "a" fresh.firewall.rules ≡ none
unfolding program
fresh_rules = refl

fresh-IsOrdered : IsOrdered fresh.firewall
unfolding program
fresh-IsOrdered = (tt, Perm.refl [])

fresh-Unblocked : Unblocked "a" fresh.firewall.rules
unfolding program
fresh-Unblocked = tt

unban_ip-ban_ip_example :
    let fw' = unban_ip in_order "a" (ban_ip texts in_order 1 "a" "spam" 5 fresh.firewall) in
    (fw' ≡ record fresh.firewall { rules_list = fw'.rules_list })
    × IsSorted fw'.rules_list
    × Perm fw'.rules_list fresh.firewall.rules_list
unban_ip-ban_ip_example =
    unban_ip-ban_ip texts in_order in_order 1 "a" "spam" 5 fresh.firewall fresh-IsOrdered
      fresh_black fresh_rules fresh-Unblocked
