-- ===== src/Security/Slack.antt =====
-- The limits of pkg/security/firewall.go with calls at once, which have passed the checks of
-- `AddConnection` and are not counted yet.
use mathlib.Core.Path.{subst}
use zenlive.Common.{
  ℕ, suc, String, sym, ◌+◌, ◌≤◌, ◌<◌, ◌≡◌, refl, ap, ◌∙◌, List, [], ◌∷◌, ◌++◌, ◌-◌, none, some,
  length, lookup, string_key, string_discrete, ite, Option-cases, inl, inr, arith,
}
use zenlive.Security.Firewall.{
  Firewall, ConnectionLimitConfig, new_firewall, count_of, increment_connection,
  decrement_connection,
}
use zenlive.Security.Tracker.{
  Connection, ConnectionTracker, new_connection_tracker, track, untrack, remove_connection,
}
use zenlive.Security.Connections.{
  IsCounted, count, at, count-insert, count-erase, track-IsCounted, remove_connection-IsCounted,
}
use zenlive.Security.RuleCalls.{SameCounts}
use zenlive.Security.Admission.{refire-IsCounted}
use zenlive.Security.History.{start-IsCounted}

-- The calls that wait from this address.
unfoldable pub waiting : String → List Connection → ℕ
waiting ip [] = 0
waiting ip (conn ∷ calls) = ite (string_discrete conn.ip ip) 1 0 + waiting ip calls

waiting-le : (ip : String) (calls : List Connection) → waiting ip calls ≤ length calls
unfolding waiting
waiting-le ip [] = omega arith
waiting-le ip (conn ∷ calls) = ground (arith, waiting-le ip calls)

waiting-middle :
    (ip : String) (before after : List Connection) (conn : Connection)
    → waiting ip (before ++ conn ∷ after)
      ≡ ite (string_discrete conn.ip ip) 1 0 + waiting ip (before ++ after)
unfolding waiting
waiting-middle ip [] after conn = refl
waiting-middle ip (c ∷ before) after conn = omega (arith, waiting-middle ip before after conn)

length-middle :
    (before after : List Connection) (conn : Connection)
    → length (before ++ conn ∷ after) ≡ suc (length (before ++ after))
length-middle [] after conn = refl
length-middle (c ∷ before) after conn = omega (arith, length-middle before after conn)

-- No count of the firewall rises.
decrement_connection-le :
    (i ip : String) (fw : Firewall)
    → count_of (lookup i (decrement_connection ip fw).connection_counts)
      ≤ count_of (lookup i fw.connection_counts)
unfolding decrement_connection
decrement_connection-le i ip fw =
    let less = count_of (lookup ip fw.connection_counts) - 1 in
    ground
      (arith, count-insert ip i less fw.connection_counts, count-erase ip i fw.connection_counts)

decrement_connection-global_le :
    (ip : String) (fw : Firewall)
    → (decrement_connection ip fw).global_conn_count ≤ fw.global_conn_count
unfolding decrement_connection
decrement_connection-global_le ip fw = omega arith

remove_connection-le :
    (i ip conn_id : String) (ct : ConnectionTracker)
    → (count i (remove_connection ip conn_id ct) ≤ count i ct)
      × ((remove_connection ip conn_id ct).firewall.global_conn_count
          ≤ ct.firewall.global_conn_count)
unfolding remove_connection untrack
remove_connection-le i ip conn_id ct = elim (Option-cases (lookup ip ct.connections)) [
  | inl e ↦ rw (e, remove_connection) (omega arith, omega arith)
  | inr (c, e) ↦
      rw (e, remove_connection, untrack)
        (decrement_connection-le i ip ct.firewall, decrement_connection-global_le ip ct.firewall)
]

limited-remove_connection :
    (ip conn_id : String) (ct : ConnectionTracker)
    → (remove_connection ip conn_id ct).firewall.conn_limit ≡ ct.firewall.conn_limit
unfolding remove_connection untrack decrement_connection
limited-remove_connection ip conn_id ct = elim (Option-cases (lookup ip ct.connections)) [
  | inl e ↦ rw (e, remove_connection) refl
  | inr (c, e) ↦ rw (e, remove_connection) refl
]

module _ (limit : ConnectionLimitConfig) (others : ℕ) where
  -- The limits with room for the calls at once.
  abbrev loose : ConnectionLimitConfig
  loose = record limit {
    max_connections_per_ip = limit.max_connections_per_ip + others;
    max_connections_global = limit.max_connections_global + others;
  }

  abbrev loosen : ConnectionTracker → ConnectionTracker
  loosen ct = record ct { firewall = record ct.firewall { conn_limit = loose } }

  -- The counts are those of the connections, and within the limits together with the calls that
  -- have passed the checks, less those that were there at most when one passed.
  pub record IsBounded (ct : ConnectionTracker) (calls : List Connection) : Type 0 where
    pub held : IsCounted loose (loosen ct)
    pub limited : ct.firewall.conn_limit ≡ limit
    pub all : ct.firewall.global_conn_count + length calls ≤ limit.max_connections_global + others
    pub each :
        (ip : String) → count ip ct + waiting ip calls ≤ limit.max_connections_per_ip + others

  loosen-remove_connection :
      (ip conn_id : String) (ct : ConnectionTracker)
      → loosen (remove_connection ip conn_id ct) ≡ remove_connection ip conn_id (loosen ct)
  unfolding remove_connection untrack decrement_connection
  loosen-remove_connection ip conn_id ct = elim (Option-cases (lookup ip ct.connections)) [
    | inl e ↦ rw (e, remove_connection) refl
    | inr (c, e) ↦ rw (e, remove_connection) refl
  ]

  -- A firewall with the same counts.
  pub refire-IsBounded :
      (ct : ConnectionTracker) (calls : List Connection) (fw : Firewall)
      → SameCounts ct.firewall fw
      → IsBounded ct calls
      → IsBounded (record ct { firewall = fw }) calls
  refire-IsBounded ct calls fw same v =
      let counts = λ (ip : String). ap (λ m. count_of (lookup ip m)) same.0 in
      record {
        held =
            refire-IsCounted (loosen ct) (record fw { conn_limit = loose }) (same.0, same.1, refl)
              v.held;
        limited = same.2 ∙ v.limited;
        all = omega (arith, same.1, v.all);
        each = λ ip. omega (arith, counts ip, v.each ip);
      }

  pub passes-IsBounded :
      (ct : ConnectionTracker) (calls : List Connection) (conn : Connection)
      → IsBounded ct calls
      → length calls ≤ others
      → (ct.firewall.global_conn_count < ct.firewall.conn_limit.max_connections_global)
        × (count conn.ip ct < ct.firewall.conn_limit.max_connections_per_ip)
      → IsBounded ct (conn ∷ calls)
  unfolding waiting
  passes-IsBounded ct calls conn v few room =
      let all_limit = ap (λ (l : ConnectionLimitConfig). l.max_connections_global) v.limited in
      let each_limit = ap (λ (l : ConnectionLimitConfig). l.max_connections_per_ip) v.limited in
      record {
        held = v.held;
        limited = v.limited;
        all = omega (arith, all_limit, room.0);
        each = λ ip. ground (arith, each_limit, room.1, v.each ip, waiting-le ip calls);
      }

  pub counts-IsBounded :
      (ct : ConnectionTracker) (before after : List Connection) (conn : Connection)
      → IsBounded ct (before ++ conn ∷ after)
      → lookup conn.id (at conn.ip ct) ≡ none
      → IsBounded (track conn ct) (before ++ after)
  unfolding track increment_connection
  counts-IsBounded ct before after conn v new =
      let one = length-middle before after conn in
      record {
        held =
            track-IsCounted conn (loosen ct) v.held new (omega (arith, one, v.all))
              (ground (arith, v.each conn.ip, waiting-middle conn.ip before after conn));
        limited = v.limited;
        all = omega (arith, one, v.all);
        each = λ ip. ground (
          arith,
          v.each ip,
          waiting-middle ip before after conn,
          count-insert conn.ip ip (count conn.ip ct + 1) ct.firewall.connection_counts,
        );
      }

  pub leaves-IsBounded :
      (ct : ConnectionTracker) (calls : List Connection) (ip conn_id : String) (conn : Connection)
      → IsBounded ct calls
      → lookup conn_id (at ip ct) ≡ some conn
      → IsBounded (remove_connection ip conn_id ct) calls
  leaves-IsBounded ct calls ip conn_id conn v present = record {
    held =
        subst (IsCounted loose) (sym (loosen-remove_connection ip conn_id ct))
          (remove_connection-IsCounted conn ip conn_id (loosen ct) v.held present);
    limited = limited-remove_connection ip conn_id ct ∙ v.limited;
    all = omega (arith, (remove_connection-le ip ip conn_id ct).1, v.all);
    each = λ i. omega (arith, (remove_connection-le i ip conn_id ct).0, v.each i);
  }

  pub begins-IsBounded : IsBounded (new_connection_tracker (new_firewall (some limit))) []
  unfolding new_connection_tracker new_firewall waiting lookup
  begins-IsBounded = record {
    held = start-IsCounted loose;
    limited = refl;
    all = omega arith;
    each = λ ip. omega arith;
  }
