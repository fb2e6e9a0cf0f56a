-- ===== src/Security/Verdicts.antt =====
-- The verdict of `CheckIP` of pkg/security/firewall.go: the rule of the highest priority decides.
use mathlib.Core.List.{Mem, mem-cons_self}
use mathlib.Core.Path.{subst}
use zenlive.Common.{
  ℕ, String, ◌≤◌, ◌≡◌, refl, sym, List, [], ◌∷◌, none, Bool, true, false, not, ◌&&◌, if◌then◌else◌,
  All, inl, inr, Bool-cases, lookup, string_key,
}
use zenlive.Security.Firewall.{
  Net, Firewall, IpRule, IpAction, allow, block, rate_limit, is_expired, decision, or_verdict,
  Verdict, allowed, blocked,
}
use zenlive.Security.Checks.{matches_pattern, check_rules, check_ip}
use zenlive.Security.Priority.{IsSorted}

pub is_allow : IpAction → Bool
is_allow allow = true
is_allow block = false
is_allow rate_limit = false

pub is_block : IpAction → Bool
is_block allow = false
is_block block = true
is_block rate_limit = false

-- The rules with an action of the kind that are not expired and match the address.
pub applying : Net → ℕ → String → (IpAction → Bool) → List IpRule → List IpRule
applying net now ip kind [] = []
applying net now ip kind (r ∷ rules) =
    let rest = applying net now ip kind rules in
    if not (is_expired now r) && matches_pattern net ip r.pattern_of
    then if kind r.action then r ∷ rest else rest
    else rest

applying-All :
    (P : IpRule → Type 0) (net : Net) (now : ℕ) (ip : String) (kind : IpAction → Bool)
    (rules : List IpRule)
    → All P rules
    → All P (applying net now ip kind rules)
unfolding applying
applying-All P net now ip kind [] h = tt
applying-All P net now ip kind (r ∷ rules) h =
    let rest = applying-All P net now ip kind rules h.1 in
    elim (Bool-cases (not (is_expired now r) && matches_pattern net ip r.pattern_of)) [
      | inl live ↦ elim (Bool-cases (kind r.action)) [
        | inl is_kind ↦ rw (live, is_kind) (h.0, rest)
        | inr other ↦ rw (live, other) rest
      ]
      | inr past ↦ rw past rest
    ]

-- A verdict, by the rules that allow the address and those that block it. It is blocked by a rule
-- that blocks it, with its reason, and no rule that allows it has a higher priority. It is
-- allowed if each rule that blocks it has at most the priority of one that allows it.
abbrev pub JudgedBy : List IpRule → List IpRule → Verdict → Type 0
JudgedBy allowing blocking allowed =
    All (λ (s : IpRule). (t : IpRule) × Mem t allowing × (s.priority ≤ t.priority)) blocking
JudgedBy allowing blocking (blocked reason) =
    (r : IpRule) × Mem r blocking
    × (r.reason ≡ reason)
    × All (λ (s : IpRule). s.priority ≤ r.priority) allowing

abbrev pub Judges : Net → ℕ → String → List IpRule → Verdict → Type 0
Judges net now ip rules v =
    JudgedBy (applying net now ip is_allow rules) (applying net now ip is_block rules) v

JudgedBy-eq :
    {a a' b b' : List IpRule} {v v' : Verdict}
    → a ≡ a'
    → b ≡ b'
    → v ≡ v'
    → JudgedBy a' b' v'
    → JudgedBy a b v
JudgedBy-eq {a} {a'} {b} {b'} {v} {v'} e f g h =
    subst (λ x. JudgedBy x b v) (sym e)
      (subst (λ x. JudgedBy a' x v) (sym f) (subst (JudgedBy a' b') (sym g) h))

outranked :
    (t : IpRule) (allowing blocking : List IpRule)
    → All (λ (s : IpRule). s.priority ≤ t.priority) blocking
    → All (λ (s : IpRule). (u : IpRule) × Mem u (t ∷ allowing) × (s.priority ≤ u.priority)) blocking
outranked t allowing [] h = tt
outranked t allowing (s ∷ blocking) h = ((t, mem-cons_self, h.0), outranked t allowing blocking h.1)

module _ (net : Net) (now : ℕ) (ip : String) (r : IpRule) (rules : List IpRule) where
  abbrev IsMatched : Bool → Type 0
  IsMatched b = (not (is_expired now r) && matches_pattern net ip r.pattern_of) ≡ b

  applying_past :
      (kind : IpAction → Bool)
      → IsMatched false
      → applying net now ip kind (r ∷ rules) ≡ applying net now ip kind rules
  unfolding applying
  applying_past kind past = rw past

  applying_live :
      (kind : IpAction → Bool)
      → IsMatched true
      → applying net now ip kind (r ∷ rules) ≡ (
          if kind r.action
          then r ∷ applying net now ip kind rules
          else applying net now ip kind rules)
  unfolding applying
  applying_live kind live = rw live

  check_rules_past :
      IsMatched false → check_rules net now ip (r ∷ rules) ≡ check_rules net now ip rules
  unfolding check_rules
  check_rules_past past = rw past

  check_rules_live :
      IsMatched true
      → check_rules net now ip (r ∷ rules)
        ≡ or_verdict (decision r.action r.reason) (check_rules net now ip rules)
  unfolding check_rules
  check_rules_live live = rw live

  -- The rule at the front decides by its action, or leaves it to the others.
  judged :
      (a : IpAction)
      → All (λ (s : IpRule). s.priority ≤ r.priority) rules
      → Judges net now ip rules (check_rules net now ip rules)
      → JudgedBy
          (if is_allow a
            then r ∷ applying net now ip is_allow rules
            else applying net now ip is_allow rules)
          (if is_block a
            then r ∷ applying net now ip is_block rules
            else applying net now ip is_block rules)
          (or_verdict (decision a r.reason) (check_rules net now ip rules))
  unfolding is_allow is_block
  judged allow h rest =
      outranked r (applying net now ip is_allow rules) (applying net now ip is_block rules)
        (applying-All (λ s. s.priority ≤ r.priority) net now ip is_block rules h)
  judged block h rest = (
    r,
    mem-cons_self,
    refl,
    applying-All (λ s. s.priority ≤ r.priority) net now ip is_allow rules h,
  )
  judged rate_limit h rest = rest

  check_rules_step :
      All (λ (s : IpRule). s.priority ≤ r.priority) rules
      → Judges net now ip rules (check_rules net now ip rules)
      → Judges net now ip (r ∷ rules) (check_rules net now ip (r ∷ rules))
  check_rules_step h rest =
      elim (Bool-cases (not (is_expired now r) && matches_pattern net ip r.pattern_of)) [
        | inl live ↦
            JudgedBy-eq (applying_live is_allow live) (applying_live is_block live)
              (check_rules_live live) (judged r.action h rest)
        | inr past ↦
            JudgedBy-eq (applying_past is_allow past) (applying_past is_block past)
              (check_rules_past past) rest
      ]

pub check_rules-Judges :
    (net : Net) (now : ℕ) (ip : String) (rules : List IpRule)
    → IsSorted rules
    → Judges net now ip rules (check_rules net now ip rules)
unfolding check_rules applying
check_rules-Judges net now ip [] h = tt
check_rules-Judges net now ip (r ∷ rules) h =
    check_rules_step net now ip r rules h.0 (check_rules-Judges net now ip rules h.1)

-- `CheckIP` of an address that neither of the two lists has is the verdict of the rules.
pub check_ip-Judges :
    (net : Net) (now : ℕ) (ip : String) (fw : Firewall)
    → IsSorted fw.rules_list
    → lookup ip fw.whitelist ≡ none
    → lookup ip fw.blacklist ≡ none
    → Judges net now ip fw.rules_list (check_ip net now ip fw)
unfolding check_ip
check_ip-Judges net now ip fw sorted white black =
    rw (white, black) (check_rules-Judges net now ip fw.rules_list sorted)
