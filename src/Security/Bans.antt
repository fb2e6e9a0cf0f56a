-- ===== src/Security/Bans.antt =====
-- Bans of pkg/security/firewall.go, and the list of the rules after every history of calls.
use mathlib.Core.List.Perm
use mathlib.Core.List.{Perm}
use mathlib.Core.Path.{subst}
use zenlive.Common.{
  ℕ, String, ◌+◌, ◌≡◌, refl, sym, ap, List, [], ◌∷◌, none, true, false, ltb, if◌then◌else◌, lookup,
  insert, string_key, string_discrete, lookup-insert_self, erase-insert_absent, arith, AllEntries,
  if_pos, if_neg,
}
use zenlive.Security.Firewall.{
  Net, Range, Firewall, IpRule, block, blocked, unban_ip, unbanned, blocks_pattern,
  rebuild_rules_list,
}
use zenlive.Security.Checks.{check_ip, ban_ip}
use zenlive.Security.Priority.{IsOrdered, IsSorted, rebuild_rules_list-IsOrdered}

-- A banned address that is not on the whitelist is blocked at every time, also after the end of
-- the ban, as long as the firewall stays as the ban left it.
pub check_ip-ban_ip :
    (net : Net) (range : Range) (now later : ℕ) (ip reason : String) (duration : ℕ) (fw : Firewall)
    → lookup ip fw.whitelist ≡ none
    → check_ip net later ip (ban_ip net range now ip reason duration fw)
      ≡ blocked "IP is blacklisted"
unfolding check_ip ban_ip rebuild_rules_list
check_ip-ban_ip net range now later ip reason duration fw white =
    rw (white, lookup-insert_self ip true fw.blacklist)

-- No rule of the map blocks exactly this address.
abbrev pub Unblocked : String → List (String × IpRule) → Type 0
Unblocked ip = AllEntries (λ k r. blocks_pattern ip r ≡ false)

unbanned-Unblocked :
    (ip : String) (rules : List (String × IpRule)) → Unblocked ip rules → unbanned ip rules ≡ rules
unfolding unbanned
unbanned-Unblocked ip [] h = refl
unbanned-Unblocked ip ((k, r) ∷ rules) h =
    rw h.0 (ap (◌∷◌ (k, r)) (unbanned-Unblocked ip rules h.1))

unbanned-insert :
    (ip id : String) (ban : IpRule) (rules : List (String × IpRule))
    → blocks_pattern ip ban ≡ true
    → lookup id rules ≡ none
    → Unblocked ip rules
    → unbanned ip (insert id ban rules) ≡ rules
unfolding unbanned insert lookup
unbanned-insert ip id ban [] b new h = rw b
unbanned-insert ip id ban ((k, r) ∷ rules) b new h = elim (string_discrete k id) [
  | yes p ↦ absurd (ground arith)
  | no n ↦
      rw (if_neg (string_discrete k id) n)
        (rw h.0 (ap (◌∷◌ (k, r)) (unbanned-insert ip id ban rules b (ground arith) h.1)))
]

same_but_list :
    (range : Range) (fw : Firewall)
    → rebuild_rules_list range fw
      ≡ record fw { rules_list = (rebuild_rules_list range fw).rules_list }
unfolding rebuild_rules_list
same_but_list range fw = refl

-- A ban that is taken back leaves a list of the rules that is made anew.
unbanned_again :
    (net : Net) (range range' : Range) (now : ℕ) (ip reason : String) (duration : ℕ) (fw : Firewall)
    → lookup ip fw.blacklist ≡ none
    → lookup (net.ban_id ip now) fw.rules ≡ none
    → Unblocked ip fw.rules
    → unban_ip range' ip (ban_ip net range now ip reason duration fw) ≡ rebuild_rules_list range' fw
unfolding unban_ip ban_ip rebuild_rules_list blocks_pattern
unbanned_again net range range' now ip reason duration fw black new h =
    let ban : IpRule = record {
      id = net.ban_id ip now;
      pattern_of = ip;
      action = block;
      reason = reason;
      created_at = now;
      expires_at = if ltb 0 duration then now + duration else 0;
      priority = 1000;
    } in
    rw (
      unbanned-insert ip (net.ban_id ip now) ban fw.rules
          (if_pos (string_discrete ip ip) refl true false) new h,
      erase-insert_absent ip true fw.blacklist black,
    )

-- To ban an address and unban it leads back to the firewall there was, up to the order of rules of
-- the same priority in its list, where the list had the rules in order, the address was not blocked
-- before, and the ban has a new id: each of the two calls goes through the rules in an order of its
-- own.
pub unban_ip-ban_ip :
    (net : Net) (range range' : Range) (now : ℕ) (ip reason : String) (duration : ℕ) (fw : Firewall)
    → IsOrdered fw
    → lookup ip fw.blacklist ≡ none
    → lookup (net.ban_id ip now) fw.rules ≡ none
    → Unblocked ip fw.rules
    → let fw' = unban_ip range' ip (ban_ip net range now ip reason duration fw) in
      (fw' ≡ record fw { rules_list = fw'.rules_list })
      × IsSorted fw'.rules_list
      × Perm fw'.rules_list fw.rules_list
unfolding rebuild_rules_list
unban_ip-ban_ip net range range' now ip reason duration fw (sorted, all) black new h =
    let back = unbanned_again net range range' now ip reason duration fw black new h in
    let (sorted', all') = rebuild_rules_list-IsOrdered range' fw in
    subst
      (λ fw'.
        (fw' ≡ record fw { rules_list = fw'.rules_list })
        × IsSorted fw'.rules_list
        × Perm fw'.rules_list fw.rules_list)
      (sym back) (same_but_list range' fw, sorted', Perm.trans all' (Perm.symm all))
