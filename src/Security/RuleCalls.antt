-- ===== src/Security/RuleCalls.antt =====
-- The calls that change the rules of the firewall of pkg/security/firewall.go keep its list in order,
-- and its counts as they are.
use mathlib.Core.Path.{subst}
use zenlive.Common.{
  ℕ, String, ◌≡◌, refl, sym, ap, ◌∙◌, List, [], ◌∷◌, Option, none, some, true, false, if◌then◌else◌,
  lookup, insert, erase, string_key, if_cases, inl, inr, Bool-cases, Option-cases,
}
use zenlive.Security.Firewall.{
  Net, Range, Firewall, IpRule, IpAction, allow, block, rate_limit, list_pattern, remove_rule,
  unban_ip, cleanup, expire, is_expired, rebuild_rules_list,
}
use zenlive.Security.Checks.{add_rule, ban_ip, is_valid_ip_pattern}
use zenlive.Security.Priority.{IsOrdered, rebuild_rules_list-IsOrdered}

-- The calls that change the rules.
pub data RuleCall : Type 0 where
  add : Range → (now : ℕ) → IpRule → RuleCall
  remove : Range → (id : String) → RuleCall
  ban : Range → (now : ℕ) (ip reason : String) (duration : ℕ) → RuleCall
  unban : Range → (ip : String) → RuleCall
  tick : Range → (now : ℕ) → RuleCall

-- A rule with an invalid pattern changes nothing.
abbrev or_same : Firewall → Option Firewall → Firewall
or_same fw none = fw
or_same fw (some fw') = fw'

unfoldable pub perform : Net → RuleCall → Firewall → Firewall
perform net (add range now rule) fw = or_same fw (add_rule net range now rule fw)
perform net (remove range id) fw = remove_rule range id fw
perform net (ban range now ip reason duration) fw = ban_ip net range now ip reason duration fw
perform net (unban range ip) fw = unban_ip range ip fw
perform net (tick range now) fw = cleanup range now fw

-- What concerns the connections is the same.
abbrev pub SameCounts : Firewall → Firewall → Type 0
SameCounts fw fw' =
    (fw'.connection_counts ≡ fw.connection_counts)
    × (fw'.global_conn_count ≡ fw.global_conn_count)
    × (fw'.conn_limit ≡ fw.conn_limit)

list_pattern-SameCounts :
    (a : IpAction) (pattern_of : String) (fw : Firewall)
    → SameCounts fw (list_pattern a pattern_of fw)
unfolding list_pattern
list_pattern-SameCounts allow pattern_of fw = (refl, refl, refl)
list_pattern-SameCounts block pattern_of fw = (refl, refl, refl)
list_pattern-SameCounts rate_limit pattern_of fw = (refl, refl, refl)

SameCounts-trans : (a b c : Firewall) → SameCounts a b → SameCounts b c → SameCounts a c
SameCounts-trans a b c h k = (k.0 ∙ h.0, k.1 ∙ h.1, k.2 ∙ h.2)

expire-SameCounts :
    (now : ℕ) (rules : List (String × IpRule)) (fw : Firewall) → SameCounts fw (expire now rules fw)
unfolding expire
expire-SameCounts now [] fw = (refl, refl, refl)
expire-SameCounts now ((k, r) ∷ rules) fw =
    let without : Firewall = record fw {
      rules = erase k fw.rules;
      blacklist = erase r.pattern_of fw.blacklist;
      whitelist = erase r.pattern_of fw.whitelist;
    } in
    let next = if is_expired now r then without else fw in
    SameCounts-trans fw next (expire now rules next)
      (if_cases (SameCounts fw) (is_expired now r) without fw (λ _. (refl, refl, refl))
        (λ _. (refl, refl, refl)))
      (expire-SameCounts now rules next)

-- A rule that is added, with the list that is rebuilt.
module _ (net : Net) (range : Range) (now : ℕ) (rule : IpRule) (fw : Firewall) where
  abbrev with_rule : Firewall
  with_rule =
      rebuild_rules_list range
        (record fw { rules = insert rule.id (record rule { created_at = now }) fw.rules })

  add_rule_valid :
      is_valid_ip_pattern net rule.pattern_of ≡ true
      → add_rule net range now rule fw ≡ some (list_pattern rule.action rule.pattern_of with_rule)
  unfolding add_rule
  add_rule_valid valid = rw valid

  add_rule_invalid :
      is_valid_ip_pattern net rule.pattern_of ≡ false → add_rule net range now rule fw ≡ none
  unfolding add_rule
  add_rule_invalid invalid = rw invalid

  with_rule-SameCounts : SameCounts fw with_rule
  unfolding rebuild_rules_list
  with_rule-SameCounts = (refl, refl, refl)

  or_same-add_rule :
      (P : Firewall → Type 0)
      → P fw
      → P (list_pattern rule.action rule.pattern_of with_rule)
      → P (or_same fw (add_rule net range now rule fw))
  or_same-add_rule P before after = elim (Bool-cases (is_valid_ip_pattern net rule.pattern_of)) [
    | inl valid ↦ subst P (ap (or_same fw) (sym (add_rule_valid valid))) after
    | inr invalid ↦ subst P (ap (or_same fw) (sym (add_rule_invalid invalid))) before
  ]

pub perform-SameCounts :
    (net : Net) (c : RuleCall) (fw : Firewall) → SameCounts fw (perform net c fw)
unfolding perform remove_rule ban_ip unban_ip cleanup rebuild_rules_list
perform-SameCounts net (add range now rule) fw =
    or_same-add_rule net range now rule fw (SameCounts fw) (refl, refl, refl)
      (SameCounts-trans fw (with_rule net range now rule fw)
        (list_pattern rule.action rule.pattern_of (with_rule net range now rule fw))
        (with_rule-SameCounts net range now rule fw)
        (list_pattern-SameCounts rule.action rule.pattern_of (with_rule net range now rule fw)))
perform-SameCounts net (remove range id) fw = elim (Option-cases (lookup id fw.rules)) [
  | inl absent ↦ rw (absent, remove_rule) (refl, refl, refl)
  | inr (rule, e) ↦ rw (e, remove_rule) (refl, refl, refl)
]
perform-SameCounts net (ban range now ip reason duration) fw = (refl, refl, refl)
perform-SameCounts net (unban range ip) fw = (refl, refl, refl)
perform-SameCounts net (tick range now) fw = expire-SameCounts now fw.rules fw

list_pattern-IsOrdered :
    (a : IpAction) (pattern_of : String) (fw : Firewall)
    → IsOrdered fw
    → IsOrdered (list_pattern a pattern_of fw)
unfolding list_pattern
list_pattern-IsOrdered allow pattern_of fw h = h
list_pattern-IsOrdered block pattern_of fw h = h
list_pattern-IsOrdered rate_limit pattern_of fw h = h

pub perform-IsOrdered :
    (net : Net) (c : RuleCall) (fw : Firewall) → IsOrdered fw → IsOrdered (perform net c fw)
unfolding perform remove_rule ban_ip unban_ip cleanup
perform-IsOrdered net (add range now rule) fw h =
    or_same-add_rule net range now rule fw IsOrdered h (
      list_pattern-IsOrdered rule.action rule.pattern_of (with_rule net range now rule fw)
        (rebuild_rules_list-IsOrdered range _))
perform-IsOrdered net (remove range id) fw h = elim (Option-cases (lookup id fw.rules)) [
  | inl absent ↦ rw (absent, remove_rule) h
  | inr (rule, e) ↦
      rw (e, remove_rule)
        (rebuild_rules_list-IsOrdered range (record fw {
          rules = erase id fw.rules;
          whitelist = erase rule.pattern_of fw.whitelist;
          blacklist = erase rule.pattern_of fw.blacklist;
        }))
]
perform-IsOrdered net (ban range now ip reason duration) fw h = rebuild_rules_list-IsOrdered range _
perform-IsOrdered net (unban range ip) fw h = rebuild_rules_list-IsOrdered range _
perform-IsOrdered net (tick range now) fw h = rebuild_rules_list-IsOrdered range _
