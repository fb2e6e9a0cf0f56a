-- ===== src/Security/History.antt =====
-- Every history of calls of a firewall and its connection tracker: pkg/security/firewall.go.
use mathlib.Core.List.Perm
use mathlib.Core.List.{Perm}
use zenlive.Common.{ℕ, String, ◌≤◌, ◌≡◌, refl, [], none, some, lookup, string_key, arith}
use zenlive.Security.Firewall.{Net, Range, ConnectionLimitConfig, new_firewall, values}
use zenlive.Security.Checks.{check_ip}
use zenlive.Security.Tracker.{
  Connection, ConnectionTracker, new_connection_tracker, remove_connection, add_connection,
  get_total_connections, get_connection_count, total_of,
}
use zenlive.Security.Priority.{IsOrdered}
use zenlive.Security.Verdicts.{Judges, check_ip-Judges}
use zenlive.Security.Connections.{IsCounted, at, remove_connection-IsCounted}
use zenlive.Security.RuleCalls.{RuleCall, perform, perform-SameCounts, perform-IsOrdered}
use zenlive.Security.Admission.{
  refire-IsCounted, add_connection-IsCounted, add_connection-IsOrdered, remove_connection-IsOrdered,
}

-- Every history of calls, one after the other, of a tracker and of the rules of its firewall, from a
-- new tracker with a new firewall of these limits; nobody else counts connections in the firewall.
-- Each connection that is added has a new id for its address, and each that is
-- removed is there.
pub data Reach (net : Net) (limit : ConnectionLimitConfig) : ConnectionTracker → Type 0 where
  start : Reach net limit (new_connection_tracker (new_firewall (some limit)))
  added :
      {ct : ConnectionTracker} (range : Range) (now : ℕ) (conn : Connection)
      → Reach net limit ct
      → lookup conn.id (at conn.ip ct) ≡ none
      → Reach net limit (add_connection net range now conn ct).0
  removed :
      {ct : ConnectionTracker} (ip conn_id : String) (conn : Connection)
      → Reach net limit ct
      → lookup conn_id (at ip ct) ≡ some conn
      → Reach net limit (remove_connection ip conn_id ct)
  ruled :
      {ct : ConnectionTracker} (c : RuleCall)
      → Reach net limit ct
      → Reach net limit (record ct { firewall = perform net c ct.firewall })

pub start-IsCounted :
    (limit : ConnectionLimitConfig)
    → IsCounted limit (new_connection_tracker (new_firewall (some limit)))
unfolding new_connection_tracker new_firewall total_of lookup
start-IsCounted limit = record {
  counted = λ ip. refl;
  summed = refl;
  distinct = tt;
  each_distinct = λ ip. tt;
  limited = refl;
  within_global = omega arith;
  within_each = λ ip. omega arith;
}

pub Reach-IsCounted :
    (net : Net) (limit : ConnectionLimitConfig) {ct : ConnectionTracker}
    → Reach net limit ct
    → IsCounted limit ct
Reach-IsCounted net limit start = start-IsCounted limit
Reach-IsCounted net limit (added {ct} range now conn r new) =
    add_connection-IsCounted net range now conn ct (Reach-IsCounted net limit r) new
Reach-IsCounted net limit (removed {ct} ip conn_id conn r present) =
    remove_connection-IsCounted conn ip conn_id ct (Reach-IsCounted net limit r) present
Reach-IsCounted net limit (ruled {ct} c r) =
    refire-IsCounted ct (perform net c ct.firewall) (perform-SameCounts net c ct.firewall)
      (Reach-IsCounted net limit r)

-- After every history of AddConnection and RemoveConnection of a new tracker and calls that change
-- the rules of its new firewall, one after the other, the connections of the tracker are within the
-- limits of the firewall, in all and of each address, where each connection that is added has a new
-- id for its address, each that is removed is there, and only the tracker calls
-- IncrementConnection and DecrementConnection of the firewall.
pub get_total_connections-le :
    (net : Net) (limit : ConnectionLimitConfig) {ct : ConnectionTracker} (ip : String)
    → Reach net limit ct
    → (get_total_connections ct ≤ limit.max_connections_global)
      × (get_connection_count ip ct ≤ limit.max_connections_per_ip)
unfolding get_total_connections get_connection_count
get_total_connections-le net limit {ct} ip r =
    let v = Reach-IsCounted net limit r in
    (omega (arith, v.summed, v.within_global), omega (arith, v.counted ip, v.within_each ip))

start-IsOrdered : (limit : ConnectionLimitConfig) → IsOrdered (new_firewall (some limit))
unfolding new_firewall values
start-IsOrdered limit = (tt, Perm.refl [])

Reach-IsOrdered :
    (net : Net) (limit : ConnectionLimitConfig) {ct : ConnectionTracker}
    → Reach net limit ct
    → IsOrdered ct.firewall
unfolding new_connection_tracker
Reach-IsOrdered net limit start = start-IsOrdered limit
Reach-IsOrdered net limit (added {ct} range now conn r new) =
    add_connection-IsOrdered net range now conn ct (Reach-IsOrdered net limit r)
Reach-IsOrdered net limit (removed {ct} ip conn_id conn r present) =
    remove_connection-IsOrdered ip conn_id ct (Reach-IsOrdered net limit r)
Reach-IsOrdered net limit (ruled {ct} c r) =
    perform-IsOrdered net c ct.firewall (Reach-IsOrdered net limit r)

-- After every such history the firewall has all its rules in its list, and judges an address that
-- neither of its two lists has by the rules that match it and are not expired: it is blocked by a
-- rule above which no rule allows it, with its reason, and allowed if each rule that blocks it has
-- at most the priority of one that allows it.
pub check_ip_lem :
    (net : Net) (limit : ConnectionLimitConfig) {ct : ConnectionTracker} (now : ℕ) (ip : String)
    → Reach net limit ct
    → lookup ip ct.firewall.whitelist ≡ none
    → lookup ip ct.firewall.blacklist ≡ none
    → Perm ct.firewall.rules_list (values ct.firewall.rules)
      × Judges net now ip ct.firewall.rules_list (check_ip net now ip ct.firewall)
check_ip_lem net limit {ct} now ip r white black =
    let (sorted, all) = Reach-IsOrdered net limit r in
    (all, check_ip-Judges net now ip ct.firewall sorted white black)
