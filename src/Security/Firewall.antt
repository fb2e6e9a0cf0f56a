-- ===== src/Security/Firewall.antt =====
-- `Firewall` of pkg/security/firewall.go. The time that a call reads is an argument, in nanoseconds,
-- 0 is the zero time, and a duration that is not positive is 0. Addresses and networks are package
-- net's, and the id of a ban rule has the time in a format: parameters. The callback for a
-- blocked address is left out; its reason is part of the verdict. Priorities are not negative.
use mathlib.Core.List.{Perm}
use zenlive.Common.{
  ℕ, zero, suc, String, ◌+◌, ◌-◌, List, [], ◌∷◌, Option, none, some, Bool, true, false, ltb, ◌==◌,
  ◌&&◌, if◌then◌else◌, not, ite, length, lookup, insert, erase, string_key, string_discrete,
}

-- `net.ParseIP`, `net.ParseCIDR` and `IPNet.Contains`, and the id of a ban at a time.
pub record Net : Type 1 where
  pub Address : Type 0
  pub Network : Type 0
  pub parse_ip : String → Option Address
  pub parse_cidr : String → Option Network
  pub contains : Network → Address → Bool
  pub ban_id : String → ℕ → String

pub data IpAction : Type 0 where
  allow block rate_limit : IpAction

pub record IpRule : Type 0 where
  pub id : String
  pub pattern_of : String
  pub action : IpAction
  pub reason : String
  pub created_at : ℕ
  pub expires_at : ℕ
  pub priority : ℕ

pub record ConnectionLimitConfig : Type 0 where
  pub max_connections_per_ip : ℕ
  pub max_connections_global : ℕ
  pub max_connection_rate : ℕ
  pub ban_duration : ℕ

pub record Firewall : Type 0 where
  pub rules : List (String × IpRule)
  pub rules_list : List IpRule
  pub whitelist : List (String × Bool)
  pub blacklist : List (String × Bool)
  pub connection_counts : List (String × ℕ)
  pub global_conn_count : ℕ
  pub conn_limit : ConnectionLimitConfig

abbrev pub default_limit : ConnectionLimitConfig
default_limit = record {
  max_connections_per_ip = 100;
  max_connections_global = 10_000;
  max_connection_rate = 100;
  ban_duration = 3_600_000_000_000;
}

abbrev pub limit_or_default : Option ConnectionLimitConfig → ConnectionLimitConfig
limit_or_default none = default_limit
limit_or_default (some config) = config

unfoldable pub new_firewall : Option ConnectionLimitConfig → Firewall
new_firewall config = record {
  rules = [];
  rules_list = [];
  whitelist = ("127.0.0.1", true) ∷ ("::1", true) ∷ [];
  blacklist = [];
  connection_counts = [];
  global_conn_count = 0;
  conn_limit = limit_or_default config;
}

-- `m[k]` of a map to bool.
abbrev pub is_set : Option Bool → Bool
is_set none = false
is_set (some b) = b

-- `m[k]` of a map to int.
abbrev pub count_of : Option ℕ → ℕ
count_of none = 0
count_of (some n) = n

unfoldable pub values : List (String × IpRule) → List IpRule
values [] = []
values ((k, r) ∷ rules) = r ∷ values rules

-- The inner loop of the sort: the rule at the place, and the rules after it, of which each that has
-- a higher priority is swapped with it.
unfoldable pub exchange : IpRule → List IpRule → IpRule × List IpRule
exchange r [] = (r, [])
exchange r (s ∷ rules) =
    let swap = ltb r.priority s.priority in
    let rest = exchange (if swap then s else r) rules in (rest.0, (if swap then r else s) ∷ rest.1)

-- The outer loop, for the next `n` places.
unfoldable pub sort_rules : ℕ → List IpRule → List IpRule
sort_rules zero rules = rules
sort_rules (suc n) [] = []
sort_rules (suc n) (r ∷ rules) = (exchange r rules).0 ∷ sort_rules n (exchange r rules).1

-- The order in which a range over the map of rules goes, which is another one every time.
pub record Range : Type 0 where
  pub arrange : List IpRule → List IpRule
  pub arranged : (rules : List IpRule) → Perm (arrange rules) rules

unfoldable pub rebuild_rules_list : Range → Firewall → Firewall
rebuild_rules_list range fw =
    let list = range.arrange (values fw.rules) in
    record fw { rules_list = sort_rules (length list) list }

-- Whether the rule has an end, and it has passed.
abbrev pub is_expired : ℕ → IpRule → Bool
is_expired now r = not (r.expires_at == 0) && ltb r.expires_at now

-- The lists for the quick lookup after a rule was added.
unfoldable pub list_pattern : IpAction → String → Firewall → Firewall
list_pattern allow pattern_of fw = record fw { whitelist = insert pattern_of true fw.whitelist }
list_pattern block pattern_of fw = record fw { blacklist = insert pattern_of true fw.blacklist }
list_pattern rate_limit pattern_of fw = fw

-- `nil` or an `ErrIPBlocked`, for which the callback is told the reason.
pub data Verdict : Type 0 where
  allowed : Verdict
  blocked : String → Verdict

-- What a rule that matches decides: `none` goes on to the next rule.
abbrev pub decision : IpAction → String → Option Verdict
decision allow reason = some allowed
decision block reason = some (blocked reason)
decision rate_limit reason = none

abbrev pub or_verdict : Option Verdict → Verdict → Verdict
or_verdict none later = later
or_verdict (some v) later = v

abbrev pub is_some {ℓ} : {A : Type ℓ} → Option A → Bool
is_some none = false
is_some (some a) = true

unfoldable pub remove_rule : Range → String → Firewall → Firewall
remove_rule range id fw = elim (lookup id fw.rules) [
  | none ↦ fw
  | some rule ↦ rebuild_rules_list range (record fw {
    rules = erase id fw.rules;
    whitelist = erase rule.pattern_of fw.whitelist;
    blacklist = erase rule.pattern_of fw.blacklist;
  })
]

unfoldable pub increment_connection : String → Firewall → Firewall
increment_connection ip fw = record fw {
  connection_counts =
      insert ip (count_of (lookup ip fw.connection_counts) + 1) fw.connection_counts;
  global_conn_count = fw.global_conn_count + 1;
}

-- The count of the address goes down if it is positive, and is deleted if it is 0 then.
unfoldable pub decrement_connection : String → Firewall → Firewall
decrement_connection ip fw =
    let count = count_of (lookup ip fw.connection_counts) - 1 in
    record fw {
      connection_counts =
          if count == 0
          then erase ip fw.connection_counts
          else insert ip count fw.connection_counts;
      global_conn_count = fw.global_conn_count - 1;
    }

-- A rule that blocks exactly this address.
unfoldable pub blocks_pattern : String → IpRule → Bool
blocks_pattern ip r = elim r.action [
  | block ↦ ite (string_discrete r.pattern_of ip) true false
  | allow ↦ false
  | rate_limit ↦ false
]

-- The rules that the loop of `UnbanIP` leaves.
unfoldable pub unbanned : String → List (String × IpRule) → List (String × IpRule)
unbanned ip [] = []
unbanned ip ((k, r) ∷ rules) =
    let rest = unbanned ip rules in if blocks_pattern ip r then rest else (k, r) ∷ rest

unfoldable pub unban_ip : Range → String → Firewall → Firewall
unban_ip range ip fw =
    rebuild_rules_list range
      (record fw { blacklist = erase ip fw.blacklist; rules = unbanned ip fw.rules })

pub record FirewallStats : Type 0 where
  pub total_rules : ℕ
  pub whitelisted_ips : ℕ
  pub blacklisted_ips : ℕ
  pub active_connections : ℕ
  pub max_connections : ℕ
  pub connection_per_ip : ℕ

unfoldable pub get_stats : Firewall → FirewallStats
get_stats fw = record {
  total_rules = length fw.rules;
  whitelisted_ips = length fw.whitelist;
  blacklisted_ips = length fw.blacklist;
  active_connections = fw.global_conn_count;
  max_connections = fw.conn_limit.max_connections_global;
  connection_per_ip = length fw.connection_counts;
}

-- The loop of `cleanup` over the rules: each expired one goes, with its pattern in both lists.
unfoldable pub expire : ℕ → List (String × IpRule) → Firewall → Firewall
expire now [] fw = fw
expire now ((k, r) ∷ rules) fw = expire now rules (
    if is_expired now r
    then record fw {
      rules = erase k fw.rules;
      blacklist = erase r.pattern_of fw.blacklist;
      whitelist = erase r.pattern_of fw.whitelist;
    }
    else fw)

-- One tick of `cleanup`.
unfoldable pub cleanup : Range → ℕ → Firewall → Firewall
cleanup range now fw = rebuild_rules_list range (expire now fw.rules fw)
