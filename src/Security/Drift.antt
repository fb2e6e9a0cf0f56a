-- ===== src/Security/Drift.antt =====
-- Where the counts of the firewall leave the connections of the tracker: an id that is there already,
-- or one that is not there. pkg/security/firewall.go.
use zenlive.Common.{
  String, ◌+◌, ◌<◌, ◌==◌, ◌≡◌, false, ap, none, some, length, lookup, insert, string_key,
  length-insert_old, erase_absent, arith,
}
use zenlive.Security.Firewall.{ConnectionLimitConfig, increment_connection, decrement_connection}
use zenlive.Security.Tracker.{
  Connection, Connections, ConnectionTracker, of_address, track, untrack, remove_connection,
  get_total_connections,
}
use zenlive.Security.Connections.{IsCounted, at, total_of-insert, total_of-erase}

-- A connection whose id its address has already is counted again, and replaces the other one: the
-- firewall counts one connection more than there is.
pub track_again :
    {limit : ConnectionLimitConfig} (conn old : Connection) (ct : ConnectionTracker)
    → IsCounted limit ct
    → lookup conn.id (at conn.ip ct) ≡ some old
    → (track conn ct).firewall.global_conn_count ≡ get_total_connections (track conn ct) + 1
unfolding track increment_connection get_total_connections
track_again conn old ct v present = omega (
  arith,
  v.summed,
  total_of-insert conn.ip (insert conn.id conn (at conn.ip ct)) ct.connections,
  length-insert_old conn.id conn old (at conn.ip ct) present,
)

-- A connection that is not there, of an address that has others, is taken off the count: the
-- firewall counts one connection less than there is, and so admits more than its limit.
pub remove_connection_unknown :
    {limit : ConnectionLimitConfig} (ip conn_id : String) (c : Connections) (ct : ConnectionTracker)
    → IsCounted limit ct
    → lookup ip ct.connections ≡ some c
    → 0 < length c
    → lookup conn_id c ≡ none
    → (remove_connection ip conn_id ct).firewall.global_conn_count + 1
      ≡ get_total_connections (remove_connection ip conn_id ct)
unfolding remove_connection get_total_connections untrack decrement_connection
remove_connection_unknown ip conn_id c ct v others some_there unknown =
    let there : at ip ct ≡ c = ap of_address others in
    let kept : (length c == 0) ≡ false = ground arith in
    rw (others, remove_connection)
      (rw (erase_absent conn_id c unknown) (
        rw kept (
          omega (
            arith,
            v.summed,
            total_of-insert ip c ct.connections,
            total_of-erase ip ct.connections v.distinct,
            ap (λ (d : Connections). length d) there,
          ))))
