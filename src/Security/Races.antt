-- ===== src/Security/Races.antt =====
-- Calls at once of a connection tracker of pkg/security/firewall.go: between the checks of an
-- `AddConnection` and the count of its connection come the steps of other calls.
use zenlive.Common.{
  ℕ, String, ◌+◌, ◌≤◌, ◌≡◌, List, [], ◌∷◌, ◌++◌, none, some, true, length, lookup, string_key,
  arith,
}
use zenlive.Security.Firewall.{Net, Range, ConnectionLimitConfig, new_firewall}
use zenlive.Security.Checks.{check_connection_limit}
use zenlive.Security.Tracker.{
  Connection, ConnectionTracker, new_connection_tracker, track, remove_connection,
  get_total_connections, get_connection_count,
}
use zenlive.Security.Connections.{at}
use zenlive.Security.RuleCalls.{RuleCall, perform, perform-SameCounts}
use zenlive.Security.Admission.{check_connection_limit_lem, within_limit}
use zenlive.Security.Slack.{
  waiting, IsBounded, refire-IsBounded, passes-IsBounded, counts-IsBounded, leaves-IsBounded,
  begins-IsBounded,
}

-- Every interleaving of the steps of calls of a new tracker, with the calls whose connection has
-- passed the checks and is not counted yet. At most `others` of them are there when one more passes.
-- `CheckIP` reads the rules alone, and may have read them at any time before.
pub data Races (net : Net) (limit : ConnectionLimitConfig) (others : ℕ)
    : ConnectionTracker → List Connection → Type 0 where
  begins : Races net limit others (new_connection_tracker (new_firewall (some limit))) []
  passes :
      {ct : ConnectionTracker} {calls : List Connection} (range : Range) (now : ℕ)
      (conn : Connection)
      → Races net limit others ct calls
      → length calls ≤ others
      → (check_connection_limit net range now conn.ip ct.firewall).1 ≡ true
      → Races net limit others
          (record ct { firewall = (check_connection_limit net range now conn.ip ct.firewall).0 })
          (conn ∷ calls)
  fails :
      {ct : ConnectionTracker} {calls : List Connection} (range : Range) (now : ℕ) (ip : String)
      → Races net limit others ct calls
      → Races net limit others
          (record ct { firewall = (check_connection_limit net range now ip ct.firewall).0 })
          calls
  counts :
      {ct : ConnectionTracker} (before after : List Connection) (conn : Connection)
      → Races net limit others ct (before ++ conn ∷ after)
      → lookup conn.id (at conn.ip ct) ≡ none
      → Races net limit others (track conn ct) (before ++ after)
  leaves :
      {ct : ConnectionTracker} {calls : List Connection} (ip conn_id : String) (conn : Connection)
      → Races net limit others ct calls
      → lookup conn_id (at ip ct) ≡ some conn
      → Races net limit others (remove_connection ip conn_id ct) calls
  rules :
      {ct : ConnectionTracker} {calls : List Connection} (c : RuleCall)
      → Races net limit others ct calls
      → Races net limit others (record ct { firewall = perform net c ct.firewall }) calls

module _ (limit : ConnectionLimitConfig) (others : ℕ) where
  Races-IsBounded :
      (net : Net) {ct : ConnectionTracker} {calls : List Connection}
      → Races net limit others ct calls
      → IsBounded limit others ct calls
  Races-IsBounded net begins = begins-IsBounded limit others
  Races-IsBounded net (passes {ct} {calls} range now conn r few ok) =
      refire-IsBounded limit others ct (conn ∷ calls) _
        (check_connection_limit_lem net range now conn.ip ct.firewall)
        (passes-IsBounded limit others ct calls conn (Races-IsBounded net r) few
          (within_limit net range now conn.ip ct.firewall ok))
  Races-IsBounded net (fails {ct} {calls} range now ip r) =
      refire-IsBounded limit others ct calls _
        (check_connection_limit_lem net range now ip ct.firewall) (Races-IsBounded net r)
  Races-IsBounded net (counts {ct} before after conn r new) =
      counts-IsBounded limit others ct before after conn (Races-IsBounded net r) new
  Races-IsBounded net (leaves {ct} {calls} ip conn_id conn r present) =
      leaves-IsBounded limit others ct calls ip conn_id conn (Races-IsBounded net r) present
  Races-IsBounded net (rules {ct} {calls} c r) =
      refire-IsBounded limit others ct calls _ (perform-SameCounts net c ct.firewall)
        (Races-IsBounded net r)

-- After every interleaving of the steps of AddConnection, RemoveConnection and calls that change the
-- rules of the firewall, from a new tracker with a new firewall, where a connection passes the
-- limits only while at most `others` have passed and are not counted yet, the connections and
-- those that have passed are within each limit plus `others`, in all and of each address; so they
-- are within the limits where no two calls are at once. Each connection has a new id for its
-- address when it is counted, each that is removed is there, and only the tracker calls
-- IncrementConnection and DecrementConnection.
pub Races-le :
    (net : Net) (limit : ConnectionLimitConfig) (others : ℕ) {ct : ConnectionTracker}
    {calls : List Connection} (ip : String)
    → Races net limit others ct calls
    → (get_total_connections ct + length calls ≤ limit.max_connections_global + others)
      × (get_connection_count ip ct + waiting ip calls ≤ limit.max_connections_per_ip + others)
unfolding get_total_connections get_connection_count
Races-le net limit others {ct} ip r =
    let v = Races-IsBounded limit others net r in
    (omega (arith, v.held.summed, v.all), omega (arith, v.held.counted ip, v.each ip))
