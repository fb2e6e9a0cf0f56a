-- ===== src/Security/Checks.antt =====
-- The operations of `Firewall` of pkg/security/firewall.go that read addresses and networks: adding a
-- rule, the checks, and bans.
use zenlive.Common.{
  ℕ, String, ◌+◌, List, [], ◌∷◌, Option, none, some, Bool, true, false, ltb, leb, ◌&&◌, ◌||◌,
  if◌then◌else◌, not, ite, lookup, insert, string_key, string_discrete,
}
use zenlive.Security.Firewall.{
  Net, Range, Firewall, IpRule, block, Verdict, allowed, blocked, or_verdict, decision, is_some,
  is_set, is_expired, count_of, list_pattern, rebuild_rules_list,
}

module _ (net : Net) where
  open net use {parse_ip, parse_cidr, contains, ban_id}

  unfoldable pub is_valid_ip_pattern : String → Bool
  is_valid_ip_pattern pattern_of = is_some (parse_ip pattern_of) || is_some (parse_cidr pattern_of)

  unfoldable pub in_network : Option net.Network → Option net.Address → Bool
  in_network none address = false
  in_network (some network) none = false
  in_network (some network) (some address) = contains network address

  unfoldable pub matches_pattern : String → String → Bool
  matches_pattern ip pattern_of =
      ite (string_discrete ip pattern_of) true (in_network (parse_cidr pattern_of) (parse_ip ip))

  -- `none` is `ErrInvalidIPPattern`.
  unfoldable pub add_rule : Range → ℕ → IpRule → Firewall → Option Firewall
  add_rule range now rule fw =
      if is_valid_ip_pattern rule.pattern_of
      then some (
          list_pattern rule.action rule.pattern_of (
            rebuild_rules_list range
              (record fw { rules = insert rule.id (record rule { created_at = now }) fw.rules })))
      else none

  -- The loop over the rules, in their order.
  unfoldable pub check_rules : ℕ → String → List IpRule → Verdict
  check_rules now ip [] = allowed
  check_rules now ip (r ∷ rules) =
      let rest = check_rules now ip rules in
      if not (is_expired now r) && matches_pattern ip r.pattern_of
      then or_verdict (decision r.action r.reason) rest
      else rest

  unfoldable pub check_ip : ℕ → String → Firewall → Verdict
  check_ip now ip fw =
      if is_set (lookup ip fw.whitelist)
      then allowed
      else (if is_set (lookup ip fw.blacklist)
          then blocked "IP is blacklisted"
          else check_rules now ip fw.rules_list)

  unfoldable pub ban_ip : Range → ℕ → String → String → ℕ → Firewall → Firewall
  ban_ip range now ip reason duration fw = rebuild_rules_list range (record fw {
    rules =
        insert (ban_id ip now)
          (record {
            id = ban_id ip now;
            pattern_of = ip;
            action = block;
            reason = reason;
            created_at = now;
            expires_at = if ltb 0 duration then now + duration else 0;
            priority = 1000;
          })
          fw.rules;
    blacklist = insert ip true fw.blacklist;
  })

  -- The firewall, and whether the connection is within the limits.
  unfoldable pub check_connection_limit : Range → ℕ → String → Firewall → Firewall × Bool
  check_connection_limit range now ip fw =
      if leb fw.conn_limit.max_connections_global fw.global_conn_count
      then (fw, false)
      else (if leb fw.conn_limit.max_connections_per_ip (count_of (lookup ip fw.connection_counts))
          then (
            ban_ip range now ip "Exceeded connection limit" fw.conn_limit.ban_duration fw,
            false,
          )
          else (fw, true))
