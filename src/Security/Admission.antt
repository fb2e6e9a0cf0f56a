-- ===== src/Security/Admission.antt =====
-- `AddConnection` and `RemoveConnection` of pkg/security/firewall.go keep the counts of the firewall
-- those of the tracker, within the limits, and the list of the rules in order.
use zenlive.Common.{
  ℕ, String, ◌<◌, ◌≡◌, ◌⊎◌, refl, ap, ◌∙◌, none, Bool, true, false, leb, lookup, string_key, inl,
  inr, Bool-cases, Option-cases, arith,
}
use zenlive.Security.Firewall.{
  Net, Range, Firewall, ConnectionLimitConfig, Verdict, allowed, blocked, rebuild_rules_list,
  count_of, increment_connection, decrement_connection,
}
use zenlive.Security.Checks.{ban_ip, check_ip, check_connection_limit}
use zenlive.Security.Tracker.{
  Connection, ConnectionTracker, track, untrack, remove_connection, add_connection,
  add_within_limit,
}
use zenlive.Security.Priority.{IsOrdered, rebuild_rules_list-IsOrdered}
use zenlive.Security.Connections.{IsCounted, at, track-IsCounted}
use zenlive.Security.RuleCalls.{SameCounts}

Verdict-cases : (v : Verdict) → (v ≡ allowed) ⊎ ((reason : String) × (v ≡ blocked reason))
Verdict-cases allowed = inl refl
Verdict-cases (blocked reason) = inr (reason, refl)

-- The tracker with a firewall whose counts are the same.
pub refire-IsCounted :
    {limit : ConnectionLimitConfig} (ct : ConnectionTracker) (fw : Firewall)
    → SameCounts ct.firewall fw
    → IsCounted limit ct
    → IsCounted limit (record ct { firewall = fw })
refire-IsCounted ct fw same v =
    let counts = λ (ip : String). ap (λ m. count_of (lookup ip m)) same.0 in
    record {
      counted = λ ip. counts ip ∙ v.counted ip;
      summed = same.1 ∙ v.summed;
      distinct = v.distinct;
      each_distinct = v.each_distinct;
      limited = same.2 ∙ v.limited;
      within_global = omega (arith, same.1, v.within_global);
      within_each = λ ip. omega (arith, counts ip, v.within_each ip);
    }

-- The limits are checked against the counts, and a ban changes only the rules.
pub check_connection_limit_lem :
    (net : Net) (range : Range) (now : ℕ) (ip : String) (fw : Firewall)
    → SameCounts fw (check_connection_limit net range now ip fw).0
unfolding check_connection_limit ban_ip rebuild_rules_list
check_connection_limit_lem net range now ip fw = ground arith

pub within_limit :
    (net : Net) (range : Range) (now : ℕ) (ip : String) (fw : Firewall)
    → (check_connection_limit net range now ip fw).1 ≡ true
    → (fw.global_conn_count < fw.conn_limit.max_connections_global)
      × (count_of (lookup ip fw.connection_counts) < fw.conn_limit.max_connections_per_ip)
unfolding check_connection_limit
within_limit net range now ip fw ok = ground arith

-- Room for one more connection of the address.
abbrev HasRoom : String → Firewall → Type 0
HasRoom ip fw =
    (fw.global_conn_count < fw.conn_limit.max_connections_global)
    × (count_of (lookup ip fw.connection_counts) < fw.conn_limit.max_connections_per_ip)

add_within_limit-IsCounted :
    {limit : ConnectionLimitConfig} (net : Net) (conn : Connection) (ct : ConnectionTracker)
    (r : Firewall × Bool)
    → IsCounted limit ct
    → lookup conn.id (at conn.ip ct) ≡ none
    → SameCounts ct.firewall r.0
    → (r.1 ≡ true → HasRoom conn.ip ct.firewall)
    → IsCounted limit (add_within_limit net conn ct r).0
unfolding add_within_limit
add_within_limit-IsCounted net conn ct (fw, false) v new same room = refire-IsCounted ct fw same v
add_within_limit-IsCounted {limit} net conn ct (fw, true) v new same room =
    let count_same = ap (λ m. count_of (lookup conn.ip m)) same.0 in
    let global_limit = ap (λ (l : ConnectionLimitConfig). l.max_connections_global) v.limited in
    let each_limit = ap (λ (l : ConnectionLimitConfig). l.max_connections_per_ip) v.limited in
    track-IsCounted conn (record ct { firewall = fw }) (refire-IsCounted ct fw same v) new
      (omega (arith, same.1, global_limit, (room refl).0))
      (omega (arith, count_same, each_limit, (room refl).1))

-- A connection with a new id, whatever the checks say of it.
pub add_connection-IsCounted :
    {limit : ConnectionLimitConfig} (net : Net) (range : Range) (now : ℕ) (conn : Connection)
    (ct : ConnectionTracker)
    → IsCounted limit ct
    → lookup conn.id (at conn.ip ct) ≡ none
    → IsCounted limit (add_connection net range now conn ct).0
unfolding add_connection
add_connection-IsCounted {limit} net range now conn ct v new =
    elim (Verdict-cases (check_ip net now conn.ip ct.firewall)) [
      | inl ok ↦
          rw (ok, add_connection)
            (add_within_limit-IsCounted net conn ct
              (check_connection_limit net range now conn.ip ct.firewall) v new
              (check_connection_limit_lem net range now conn.ip ct.firewall)
              (within_limit net range now conn.ip ct.firewall))
      | inr (reason, e) ↦ rw (e, add_connection) v
    ]

check_connection_limit-IsOrdered :
    (net : Net) (range : Range) (now : ℕ) (ip : String) (fw : Firewall)
    → IsOrdered fw
    → IsOrdered (check_connection_limit net range now ip fw).0
unfolding check_connection_limit ban_ip
check_connection_limit-IsOrdered net range now ip fw h =
    elim (Bool-cases (leb fw.conn_limit.max_connections_global fw.global_conn_count)) [
      | inl full ↦ rw full h
      | inr room ↦
          rw room
            (elim (Bool-cases (
              leb fw.conn_limit.max_connections_per_ip
                (count_of (lookup ip fw.connection_counts)))) [
                  | inl many ↦ rw many (rebuild_rules_list-IsOrdered range _)
                  | inr few ↦ rw few h
                ])
    ]

add_within_limit-IsOrdered :
    (net : Net) (conn : Connection) (ct : ConnectionTracker) (r : Firewall × Bool)
    → IsOrdered r.0
    → IsOrdered (add_within_limit net conn ct r).0.firewall
unfolding add_within_limit track increment_connection
add_within_limit-IsOrdered net conn ct (fw, true) h = h
add_within_limit-IsOrdered net conn ct (fw, false) h = h

pub add_connection-IsOrdered :
    (net : Net) (range : Range) (now : ℕ) (conn : Connection) (ct : ConnectionTracker)
    → IsOrdered ct.firewall
    → IsOrdered (add_connection net range now conn ct).0.firewall
unfolding add_connection
add_connection-IsOrdered net range now conn ct h =
    elim (Verdict-cases (check_ip net now conn.ip ct.firewall)) [
      | inl ok ↦
          rw (ok, add_connection)
            (add_within_limit-IsOrdered net conn ct
              (check_connection_limit net range now conn.ip ct.firewall)
              (check_connection_limit-IsOrdered net range now conn.ip ct.firewall h))
      | inr (reason, e) ↦ rw (e, add_connection) h
    ]

pub remove_connection-IsOrdered :
    (ip conn_id : String) (ct : ConnectionTracker)
    → IsOrdered ct.firewall
    → IsOrdered (remove_connection ip conn_id ct).firewall
unfolding remove_connection untrack decrement_connection
remove_connection-IsOrdered ip conn_id ct h = elim (Option-cases (lookup ip ct.connections)) [
  | inl absent ↦ rw (absent, remove_connection) h
  | inr (c, e) ↦ rw (e, remove_connection) h
]
