-- ===== src/Security/Tracker.antt =====
-- `ConnectionTracker` of pkg/security/firewall.go, with the firewall that it counts its connections in.
-- One time stands for the readings of the clock of a call. `AddConnection` checks under a lock and
-- keeps and counts the connection under another one: `check_connection_limit` and `track` are its
-- steps, and `add_connection` is both where no other call comes in between.
use zenlive.Common.{
  ℕ, String, ◌+◌, List, [], ◌∷◌, Option, none, some, Bool, true, false, ◌==◌, if◌then◌else◌, length,
  lookup, insert, erase, string_key,
}
use zenlive.Security.Firewall.{
  Net, Range, Firewall, allowed, blocked, increment_connection, decrement_connection,
}
use zenlive.Security.Checks.{check_ip, check_connection_limit}

pub record Connection : Type 0 where
  pub id : String
  pub ip : String
  pub user_id : String
  pub start_time : ℕ
  pub last_seen : ℕ
  pub bytes_sent : ℕ
  pub bytes_recv : ℕ

-- The connections of an address by their ids.
abbrev pub Connections : Type 0
Connections = List (String × Connection)

pub record ConnectionTracker : Type 0 where
  pub connections : List (String × Connections)
  pub firewall : Firewall

unfoldable pub new_connection_tracker : Firewall → ConnectionTracker
new_connection_tracker fw = record { connections = []; firewall = fw }

abbrev pub of_address : Option Connections → Connections
of_address none = []
of_address (some c) = c

-- A nil error, or the error of one of the two checks.
pub data Admission : Type 0 where
  admitted ip_blocked limit_exceeded : Admission

-- The rest of `AddConnection`, after the checks.
unfoldable pub track : Connection → ConnectionTracker → ConnectionTracker
track conn ct = record {
  connections =
      insert conn.ip (insert conn.id conn (of_address (lookup conn.ip ct.connections)))
        ct.connections;
  firewall = increment_connection conn.ip ct.firewall;
}

-- The rest of `RemoveConnection` for an address with connections, of which these are left.
unfoldable pub untrack : String → Connections → ConnectionTracker → ConnectionTracker
untrack ip left ct = record {
  connections = if length left == 0 then erase ip ct.connections else insert ip left ct.connections;
  firewall = decrement_connection ip ct.firewall;
}

unfoldable pub remove_connection : String → String → ConnectionTracker → ConnectionTracker
remove_connection ip conn_id ct = elim (lookup ip ct.connections) [
  | none ↦ ct
  | some connections ↦ untrack ip (erase conn_id connections) ct
]

unfoldable pub get_connection_count : String → ConnectionTracker → ℕ
get_connection_count ip ct = length (of_address (lookup ip ct.connections))

unfoldable pub total_of : List (String × Connections) → ℕ
total_of [] = 0
total_of ((ip, c) ∷ connections) = length c + total_of connections

unfoldable pub get_total_connections : ConnectionTracker → ℕ
get_total_connections ct = total_of ct.connections

module _ (net : Net) where
  unfoldable pub add_within_limit :
      Connection → ConnectionTracker → Firewall × Bool → ConnectionTracker × Admission
  add_within_limit conn ct (fw, true) = (track conn (record ct { firewall = fw }), admitted)
  add_within_limit conn ct (fw, false) = (record ct { firewall = fw }, limit_exceeded)

  unfoldable pub add_connection :
      Range → ℕ → Connection → ConnectionTracker → ConnectionTracker × Admission
  add_connection range now conn ct = elim (check_ip net now conn.ip ct.firewall) [
    | allowed ↦ add_within_limit conn ct (check_connection_limit net range now conn.ip ct.firewall)
    | blocked reason ↦ (ct, ip_blocked)
  ]
