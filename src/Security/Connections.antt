-- ===== src/Security/Connections.antt =====
-- The counts of the firewall are those of the connections of its tracker, and stay within the
-- limits: pkg/security/firewall.go.
use mathlib.Core.Path.{subst}
use zenlive.Common.{
  ℕ, String, ◌+◌, ◌-◌, ◌≤◌, ◌<◌, ◌≡◌, refl, sym, ap, ◌∙◌, List, [], ◌∷◌, none, some, true, false,
  ◌==◌, length, lookup, insert, erase, string_key, string_discrete, lookup-insert, lookup-erase,
  erase_absent, length-insert_new, length-erase, Distinct, insert-Distinct, erase-Distinct, inl,
  inr, Option-cases, ite, if_pos, if_neg, dec_lt, arith,
}
use zenlive.Security.Firewall.{
  ConnectionLimitConfig, increment_connection, decrement_connection, count_of,
}
use zenlive.Security.Tracker.{
  Connection, Connections, ConnectionTracker, of_address, track, untrack, remove_connection,
  total_of,
}

-- The count of an address in the firewall.
abbrev pub count : String → ConnectionTracker → ℕ
count ip ct = count_of (lookup ip ct.firewall.connection_counts)

-- The connections of an address in the tracker.
abbrev pub at : String → ConnectionTracker → Connections
at ip ct = of_address (lookup ip ct.connections)

-- The counts are those of the connections, and within the limits; no key stands twice.
pub record IsCounted (limit : ConnectionLimitConfig) (ct : ConnectionTracker) : Type 0 where
  pub counted : (ip : String) → count ip ct ≡ length (at ip ct)
  pub summed : ct.firewall.global_conn_count ≡ total_of ct.connections
  pub distinct : Distinct ct.connections
  pub each_distinct : (ip : String) → Distinct (at ip ct)
  pub limited : ct.firewall.conn_limit ≡ limit
  pub within_global : ct.firewall.global_conn_count ≤ limit.max_connections_global
  pub within_each : (ip : String) → count ip ct ≤ limit.max_connections_per_ip

pub total_of-insert :
    (ip : String) (c : Connections) (m : List (String × Connections))
    → total_of (insert ip c m) + length (of_address (lookup ip m)) ≡ total_of m + length c
unfolding total_of insert lookup
total_of-insert ip c [] = omega arith
total_of-insert ip c ((k, d) ∷ m) = ground (arith, total_of-insert ip c m)

pub total_of-erase :
    (ip : String) (m : List (String × Connections))
    → Distinct m
    → total_of (erase ip m) + length (of_address (lookup ip m)) ≡ total_of m
unfolding total_of erase lookup
total_of-erase ip [] d = refl
total_of-erase ip ((k, c) ∷ m) d = ground (arith, total_of-erase ip m d.1, erase_absent ip m)

-- Reads of a map after a write, with the value of a missing key.
module _ (k ip : String) where
  pub count-insert :
      (n : ℕ) (m : List (String × ℕ))
      → count_of (lookup ip (insert k n m)) ≡ ite (string_discrete k ip) n (count_of (lookup ip m))
  count-insert n m = ground (arith, lookup-insert k ip n m)

  pub count-erase :
      (m : List (String × ℕ))
      → count_of (lookup ip (erase k m)) ≡ ite (string_discrete k ip) 0 (count_of (lookup ip m))
  count-erase m = ground (arith, lookup-erase k ip m)

  at-insert :
      (c : Connections) (m : List (String × Connections))
      → of_address (lookup ip (insert k c m))
        ≡ ite (string_discrete k ip) c (of_address (lookup ip m))
  at-insert c m = ground (arith, lookup-insert k ip c m)

  at-erase :
      (m : List (String × Connections))
      → of_address (lookup ip (erase k m))
        ≡ ite (string_discrete k ip) [] (of_address (lookup ip m))
  at-erase m = ground (arith, lookup-erase k ip m)

-- One of two collections, both of which have distinct ids.
ite-Distinct :
    (k ip : String) (c d : Connections)
    → Distinct c
    → Distinct d
    → Distinct (ite (string_discrete k ip) c d)
ite-Distinct k ip c d h g = elim (string_discrete k ip) [
  | yes p ↦ rw (if_pos (string_discrete k ip) p c d) h
  | no n ↦ rw (if_neg (string_discrete k ip) n c d) g
]

-- A connection with a new id, from an address below its limit, in a firewall below its limit.
pub track-IsCounted :
    {limit : ConnectionLimitConfig} (conn : Connection) (ct : ConnectionTracker)
    → IsCounted limit ct
    → lookup conn.id (at conn.ip ct) ≡ none
    → ct.firewall.global_conn_count < limit.max_connections_global
    → count conn.ip ct < limit.max_connections_per_ip
    → IsCounted limit (track conn ct)
unfolding track increment_connection
track-IsCounted {limit} conn ct v new room room_each =
    let more = insert conn.id conn (at conn.ip ct) in
    let one_more = length-insert_new conn.id conn (at conn.ip ct) new in
    let counts = λ (ip : String).
      count-insert conn.ip ip (count conn.ip ct + 1) ct.firewall.connection_counts in
    let here = λ (ip : String). at-insert conn.ip ip more ct.connections in
    record {
      counted = λ ip. ground (arith, counts ip, here ip, v.counted ip, v.counted conn.ip, one_more);
      summed = omega (arith, v.summed, total_of-insert conn.ip more ct.connections, one_more);
      distinct = insert-Distinct conn.ip more ct.connections v.distinct;
      each_distinct = λ ip. subst Distinct (sym (here ip)) (
          ite-Distinct conn.ip ip more (at ip ct)
            (insert-Distinct conn.id conn (at conn.ip ct) (v.each_distinct conn.ip))
            (v.each_distinct ip));
      limited = v.limited;
      within_global = omega (arith, room);
      within_each = λ ip. ground (arith, counts ip, v.within_each ip);
    }

-- The address keeps one connection less, or none.
module _ (ip : String) (left : Connections) (ct : ConnectionTracker) where
  untrack_last :
      count ip ct ≡ 1
      → length left ≡ 0
      → untrack ip left ct ≡ record {
        connections = erase ip ct.connections;
        firewall = record ct.firewall {
          connection_counts = erase ip ct.firewall.connection_counts;
          global_conn_count = ct.firewall.global_conn_count - 1;
        };
      }
  unfolding untrack decrement_connection
  untrack_last one empty =
      let gone : (count ip ct - 1 == 0) ≡ true = ground arith in
      let none_left : (length left == 0) ≡ true = ground arith in rw (gone, none_left)

  pub untrack_other :
      count ip ct ≡ length left + 1
      → 0 < length left
      → untrack ip left ct ≡ record {
        connections = insert ip left ct.connections;
        firewall = record ct.firewall {
          connection_counts = insert ip (count ip ct - 1) ct.firewall.connection_counts;
          global_conn_count = ct.firewall.global_conn_count - 1;
        };
      }
  unfolding untrack decrement_connection
  untrack_other more some_left =
      let kept : (count ip ct - 1 == 0) ≡ false = ground arith in
      let not_none : (length left == 0) ≡ false = ground arith in rw (kept, not_none)

  untrack-IsCounted :
      {limit : ConnectionLimitConfig}
      → IsCounted limit ct
      → length left + 1 ≡ length (at ip ct)
      → Distinct left
      → IsCounted limit (untrack ip left ct)
  untrack-IsCounted {limit} v less d = elim (dec_lt 0 (length left)) [
    | yes some_left ↦
        let counts =
          λ (i : String). count-insert ip i (count ip ct - 1) ct.firewall.connection_counts in
        let here = λ (i : String). at-insert ip i left ct.connections in
        subst (IsCounted limit) (sym (untrack_other (omega (arith, v.counted ip)) some_left))
          (record {
            counted = λ i. ground (arith, counts i, here i, v.counted i, v.counted ip);
            summed = omega (arith, v.summed, total_of-insert ip left ct.connections);
            distinct = insert-Distinct ip left ct.connections v.distinct;
            each_distinct = λ i.
                subst Distinct (sym (here i))
                  (ite-Distinct ip i left (at i ct) d (v.each_distinct i));
            limited = v.limited;
            within_global = omega (arith, v.within_global);
            within_each = λ i. ground (arith, counts i, v.within_each i);
          })
    | no none_left ↦
        let counts = λ (i : String). count-erase ip i ct.firewall.connection_counts in
        let here = λ (i : String). at-erase ip i ct.connections in
        subst (IsCounted limit) (sym (untrack_last (omega (arith, v.counted ip)) (omega arith)))
          (record {
            counted = λ i. ground (arith, counts i, here i, v.counted i, v.counted ip);
            summed = omega (arith, v.summed, total_of-erase ip ct.connections v.distinct);
            distinct = erase-Distinct ip ct.connections v.distinct;
            each_distinct = λ i.
                subst Distinct (sym (here i))
                  (ite-Distinct ip i [] (at i ct) tt (v.each_distinct i));
            limited = v.limited;
            within_global = omega (arith, v.within_global);
            within_each = λ i. ground (arith, counts i, v.within_each i);
          })
  ]

-- A connection that is there is taken away.
pub remove_connection-IsCounted :
    {limit : ConnectionLimitConfig} (conn : Connection) (ip conn_id : String)
    (ct : ConnectionTracker)
    → IsCounted limit ct
    → lookup conn_id (at ip ct) ≡ some conn
    → IsCounted limit (remove_connection ip conn_id ct)
unfolding remove_connection
remove_connection-IsCounted {limit} conn ip conn_id ct v present =
    elim (Option-cases (lookup ip ct.connections)) [
      | inl gone ↦ rw (gone, remove_connection) v
      | inr (c, e) ↦
          let there : at ip ct ≡ c = ap of_address e in
          let distinct : Distinct c = subst Distinct there (v.each_distinct ip) in
          let found : lookup conn_id c ≡ some conn = ap (lookup conn_id) (sym there) ∙ present in
          rw (e, remove_connection)
            (untrack-IsCounted ip (erase conn_id c) ct v
              (length-erase conn_id conn c distinct found ∙ ap length (sym there))
              (erase-Distinct conn_id c distinct))
    ]
