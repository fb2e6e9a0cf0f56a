-- ===== src/Cluster/Rotation.antt =====
-- The round robin of pkg/cluster/loadbalancer.go.
use mathlib.Core.List.{append_assoc, map-append}
use native.Mathlib.Nat.{mod-lt, suc-mod, mod_self, mod-eq_of_lt, zero-add, suc-add}
use zenlive.Common.{
  length-append, take-append-drop, length-take, length-drop, ℕ, zero, suc, true, false, ◌+◌, ◌%◌,
  ◌^◌, ◌<◌, ◌≡◌, refl, ap, ◌∙◌, inl, inr, List, [], ◌∷◌, ◌++◌, map, take, drop, ◌==◌, if◌then◌else◌,
  Bool-cases, length, arith,
}
use zenlive.Cluster.Balancer.{
  Node, LoadBalancer, Selection, selected, get_healthy_nodes, node_at, next_index, if_any,
  select_round_robin,
}

-- The selections of as many calls, one after the other.
unfoldable pub selections : ℕ → LoadBalancer → List Selection
selections zero lb = []
selections (suc k) lb = (select_round_robin lb).0 ∷ selections k (select_round_robin lb).1

-- The nodes from a position on, and from the first one after the last.
unfoldable cycle : ℕ → List Node → ℕ → List Selection
cycle zero nodes i = []
cycle (suc k) nodes i = node_at nodes i ∷ cycle k nodes (if suc i == length nodes then 0 else suc i)

if_any-some {ℓ} :
    {A : Type ℓ} (nodes : List Node) (x y : A) → 0 < length nodes → if_any nodes x y ≡ y
if_any-some [] x y p = absurd (omega (arith, p))
if_any-some (n ∷ nodes) x y p = refl

next_mod : (m n : ℕ) → 0 < n → suc m % n ≡ (if suc (m % n) == n then 0 else suc (m % n))
next_mod m n p = elim (Bool-cases (suc (m % n) == n)) [
  | inl e ↦
      let q : suc (m % n) ≡ n = ground arith in rw e (suc-mod m n ∙ ap (λ t. t % n) q ∙ mod_self n)
  | inr e ↦
      let l : suc (m % n) < n = ground (arith, mod-lt m p) in rw e (suc-mod m n ∙ mod-eq_of_lt l)
]

one_round :
    (lb : LoadBalancer)
    → 0 < length (get_healthy_nodes lb)
    → length (get_healthy_nodes lb) < 2 ^ 32
    → suc lb.rr_index < 2 ^ 32
    → select_round_robin lb ≡ (
      node_at (get_healthy_nodes lb) (suc lb.rr_index % length (get_healthy_nodes lb)),
      record lb { rr_index = suc lb.rr_index },
    )
unfolding select_round_robin
one_round lb p l b =
    let nodes = get_healthy_nodes lb in
    let index : next_index lb ≡ suc lb.rr_index = omega (arith, b) in
    let e : length nodes % 2 ^ 32 ≡ length nodes = omega (arith, l) in
    let z : (length nodes == 0) ≡ false = ground (arith, p) in
    if_any-some nodes _ _ p ∙ rw (index, e, z) refl

selections-cycle :
    (k : ℕ) (lb : LoadBalancer)
    → 0 < length (get_healthy_nodes lb)
    → length (get_healthy_nodes lb) < 2 ^ 32
    → lb.rr_index + k < 2 ^ 32
    → selections k lb
      ≡ cycle k (get_healthy_nodes lb) (suc lb.rr_index % length (get_healthy_nodes lb))
unfolding selections cycle get_healthy_nodes
selections-cycle zero lb p l b = refl
selections-cycle (suc k) lb p l b =
    let nodes = get_healthy_nodes lb in
    let lb' : LoadBalancer = record lb { rr_index = suc lb.rr_index } in
    rw (one_round lb p l (omega (arith, b))) (
      ap (λ t. node_at nodes (suc lb.rr_index % length nodes) ∷ t)
        (selections-cycle k lb' p l (omega (arith, b))
          ∙ ap (cycle k nodes) (next_mod (suc lb.rr_index) (length nodes) p)))

node_at-append :
    (pre : List Node) (x : Node) (post : List Node)
    → node_at (pre ++ (x ∷ post)) (length pre) ≡ selected x
unfolding node_at
node_at-append [] x post = refl
node_at-append (y ∷ pre) x post = node_at-append pre x post

-- From a position on to the end, and again from the start.
cycle-end :
    (pre : List Node) (x : Node) (post : List Node) (k : ℕ)
    → cycle (suc (length post + k)) (pre ++ (x ∷ post)) (length pre)
      ≡ map selected (x ∷ post) ++ cycle k (pre ++ (x ∷ post)) 0
unfolding cycle
cycle-end pre x [] k =
    let last : (suc (length pre) == length (pre ++ (x ∷ []))) ≡ true =
      ground (arith, length-append pre (x ∷ [])) in
    rw (node_at-append pre x [], last, zero-add) refl
cycle-end pre x (y ∷ post) k =
    let inner : (suc (length pre) == length (pre ++ (x ∷ y ∷ post))) ≡ false =
      ground (arith, length-append pre (x ∷ y ∷ post)) in
    let len : length (pre ++ (x ∷ [])) ≡ suc (length pre) =
      omega (arith, length-append pre (x ∷ [])) in
    let rest = cycle-end (pre ++ (x ∷ [])) y post k in
    rw (node_at-append pre x (y ∷ post), inner, suc-add)
      (ap (λ t. selected x ∷ t) (rw (append_assoc pre (x ∷ []) (y ∷ post), len) at rest))

cycle-inner :
    (pre a rest : List Node) → cycle (length a) (pre ++ (a ++ rest)) (length pre) ≡ map selected a
unfolding cycle
cycle-inner pre [] rest = refl
cycle-inner pre (x ∷ []) rest = rw (node_at-append pre x rest) refl
cycle-inner pre (x ∷ y ∷ a) rest =
    let nodes = pre ++ (x ∷ y ∷ (a ++ rest)) in
    let inner : (suc (length pre) == length nodes) ≡ false =
      ground (arith, length-append pre (x ∷ y ∷ (a ++ rest))) in
    let len : length (pre ++ (x ∷ [])) ≡ suc (length pre) =
      omega (arith, length-append pre (x ∷ [])) in
    let later = cycle-inner (pre ++ (x ∷ [])) (y ∷ a) rest in
    rw (node_at-append pre x (y ∷ (a ++ rest)), inner)
      (ap (λ t. selected x ∷ t) (rw (append_assoc pre (x ∷ []) (y ∷ (a ++ rest)), len) at later))

-- A full turn from any position meets each node once.
turn-append :
    (pre post : List Node)
    → 0 < length post
    → cycle (length (pre ++ post)) (pre ++ post) (length pre) ≡ map selected (post ++ pre)
turn-append pre [] p = absurd (omega (arith, p))
turn-append pre (x ∷ post) p =
    let len : length (pre ++ (x ∷ post)) ≡ suc (length post + length pre) =
      omega (arith, length-append pre (x ∷ post)) in
    rw (len, map-append)
      (cycle-end pre x post (length pre)
        ∙ ap (λ t. map selected (x ∷ post) ++ t) (cycle-inner [] pre (x ∷ post)))

-- As many round robin calls as there are usable nodes select each of them exactly once, in the
-- order of the nodes from the next index on, as long as the index does not wrap.
pub selections-rotation :
    (lb : LoadBalancer)
    → let nodes = get_healthy_nodes lb in
      0 < length nodes
      → lb.rr_index + length nodes < 2 ^ 32
      → let start = suc lb.rr_index % length nodes in
        selections (length nodes) lb ≡ map selected (drop start nodes ++ take start nodes)
selections-rotation lb p b =
    let nodes = get_healthy_nodes lb in
    let start = suc lb.rr_index % length nodes in
    let low : start < length nodes = mod-lt (suc lb.rr_index) p in
    let taken : length (take start nodes) ≡ start = omega (arith, length-take start nodes, low) in
    let left : 0 < length (drop start nodes) = omega (arith, length-drop start nodes, low) in
    let turn = turn-append (take start nodes) (drop start nodes) left in
    selections-cycle (length nodes) lb p (omega (arith, b)) b
    ∙ (rw (take-append-drop start nodes, taken) at turn)
