-- ===== src/Common/Maps.antt =====
-- Go maps as association lists. The order of the list stands for the unspecified order in which
-- `range` visits a map: a statement about every list is a statement about every order.
use Prim.Native.Nat.{ℕ, ◌+◌, ◌≤◌}
use Prim.Native.String.{String}
use mathlib.Core.Path.{◌≡◌, refl, subst₂}
use mathlib.Core.Logic.{◌↔◌, ite, if_pos, if_neg}
use mathlib.Core.Bool.{Bool, true, false}
use mathlib.Core.Option.{Option, none, some}
use mathlib.Core.List.{List, [], ◌∷◌}
use native.Mathlib.Omega.{arith}
unfoldable use native.Mathlib.Decide.{ℕ_discrete}
use text.Mathlib.Text.{◌==◌ as str_eq}
use text.Mathlib.TextEquality.{eq_iff}
use zenlive.Common.Lists.{length}

-- A type of keys: its equality is decided.
pub record Key (K : Type 0) : Type 0 where
  pub same : Discrete K

decide_by : {P : Type 0} (b : Bool) → (b ≡ true) ↔ P → Dec P
decide_by true h = yes (h.0 refl)
decide_by false h = no (λ p. cc (h.1 p))

unfoldable pub string_discrete : Discrete String
unfolding decide_by
string_discrete a b = decide_by (str_eq a b) (eq_iff a b)

instance abbrev pub string_key : Key String
string_key = record { same = string_discrete }

instance abbrev pub nat_key : Key ℕ
nat_key = record { same = ℕ_discrete }

module _ {ℓ} {K : Type 0} {V : Type ℓ} ⦃key : Key K⦄ where
  -- `v, ok := m[k]`
  unfoldable pub lookup : K → List (K × V) → Option V
  lookup k [] = none
  lookup k ((j, v) ∷ m) = ite (key.same j k) (some v) (lookup k m)

  -- `m[k] = v`
  unfoldable pub insert : K → V → List (K × V) → List (K × V)
  insert k v [] = (k, v) ∷ []
  insert k v ((j, w) ∷ m) = ite (key.same j k) ((k, v) ∷ m) ((j, w) ∷ insert k v m)

  -- `delete(m, k)`
  unfoldable pub erase : K → List (K × V) → List (K × V)
  erase k [] = []
  erase k ((j, w) ∷ m) = ite (key.same j k) (erase k m) ((j, w) ∷ erase k m)

  -- No key stands twice.
  abbrev pub Distinct : List (K × V) → Type ℓ
  Distinct [] = Unit {ℓ}
  Distinct ((k, v) ∷ m) = (lookup k m ≡ none) × Distinct m

  pub lookup-insert :
      (k j : K) (v : V) (m : List (K × V))
      → lookup j (insert k v m) ≡ ite (key.same k j) (some v) (lookup j m)
  unfolding lookup insert
  lookup-insert k j v [] = refl
  lookup-insert k j v ((i, w) ∷ m) = ground (arith, lookup-insert k j v m)

  pub lookup-insert_self : (k : K) (v : V) (m : List (K × V)) → lookup k (insert k v m) ≡ some v
  lookup-insert_self k v m = ground (arith, lookup-insert k k v m)

  pub lookup-erase :
      (k j : K) (m : List (K × V)) → lookup j (erase k m) ≡ ite (key.same k j) none (lookup j m)
  unfolding lookup erase
  lookup-erase k j [] = ground arith
  lookup-erase k j ((i, w) ∷ m) = ground (arith, lookup-erase k j m)

  pub lookup-erase_self : (k : K) (m : List (K × V)) → lookup k (erase k m) ≡ none
  lookup-erase_self k m = ground (arith, lookup-erase k k m)

  pub insert-Distinct : (k : K) (v : V) (m : List (K × V)) → Distinct m → Distinct (insert k v m)
  unfolding lookup insert
  insert-Distinct k v [] d = (refl, tt)
  insert-Distinct k v ((i, w) ∷ m) d =
      ground (arith, lookup-insert k i v m, insert-Distinct k v m d.1)

  pub erase-Distinct : (k : K) (m : List (K × V)) → Distinct m → Distinct (erase k m)
  unfolding lookup erase
  erase-Distinct k [] d = tt
  erase-Distinct k ((i, w) ∷ m) d = ground (arith, lookup-erase k i m, erase-Distinct k m d.1)

  pub erase_absent : (k : K) (m : List (K × V)) → lookup k m ≡ none → erase k m ≡ m
  unfolding lookup erase
  erase_absent k [] h = refl
  erase_absent k ((i, w) ∷ m) h = ground (arith, erase_absent k m)

  pub length-insert_new :
      (k : K) (v : V) (m : List (K × V)) → lookup k m ≡ none → length (insert k v m) ≡ length m + 1
  unfolding lookup insert
  length-insert_new k v [] h = omega arith
  length-insert_new k v ((i, w) ∷ m) h = ground (arith, length-insert_new k v m)

  pub length-insert_old :
      (k : K) (v u : V) (m : List (K × V)) → lookup k m ≡ some u → length (insert k v m) ≡ length m
  unfolding lookup insert
  length-insert_old k v u [] h = cc
  length-insert_old k v u ((i, w) ∷ m) h = ground (arith, length-insert_old k v u m)

  pub length-erase :
      (k : K) (u : V) (m : List (K × V))
      → Distinct m
      → lookup k m ≡ some u
      → length (erase k m) + 1 ≡ length m
  unfolding lookup erase
  length-erase k u [] d h = cc
  length-erase k u ((i, w) ∷ m) d h = ground (arith, length-erase k u m d.1, erase_absent k m)

  pub length-erase-le : (k : K) (m : List (K × V)) → length (erase k m) ≤ length m
  unfolding erase
  length-erase-le k [] = omega arith
  length-erase-le k ((i, w) ∷ m) = ground (arith, length-erase-le k m)

  -- Every entry satisfies `P`.
  abbrev pub AllEntries {κ} : (K → V → Type κ) → List (K × V) → Type κ
  AllEntries P [] = Unit {κ}
  AllEntries P ((k, v) ∷ m) = P k v × AllEntries P m

  pub insert-AllEntries {κ} :
      (P : K → V → Type κ) (k : K) (v : V) (m : List (K × V))
      → P k v
      → AllEntries P m
      → AllEntries P (insert k v m)
  unfolding insert
  insert-AllEntries P k v [] p h = (p, tt)
  insert-AllEntries P k v ((i, w) ∷ m) p h = elim (key.same i k) [
    | yes e ↦ rw (if_pos _ e) (p, h.1)
    | no n ↦ rw (if_neg _ n) (h.0, insert-AllEntries P k v m p h.1)
  ]

  pub erase-AllEntries {κ} :
      (P : K → V → Type κ) (k : K) (m : List (K × V)) → AllEntries P m → AllEntries P (erase k m)
  unfolding erase
  erase-AllEntries P k [] h = tt
  erase-AllEntries P k ((i, w) ∷ m) h = elim (key.same i k) [
    | yes e ↦ rw (if_pos _ e) (erase-AllEntries P k m h.1)
    | no n ↦ rw (if_neg _ n) (h.0, erase-AllEntries P k m h.1)
  ]

  pub lookup-AllEntries {κ} :
      (P : K → V → Type κ) (k : K) (v : V) (m : List (K × V))
      → AllEntries P m
      → lookup k m ≡ some v
      → P k v
  unfolding lookup
  lookup-AllEntries P k v [] h e = absurd (ground arith)
  lookup-AllEntries P k v ((i, w) ∷ m) h e = elim (key.same i k) [
    | yes p ↦ subst₂ P p (ground arith) h.0
    | no n ↦ lookup-AllEntries P k v m h.1 (rw (if_neg _ n) at e)
  ]

  pub insert-insert :
      (k : K) (u v : V) (m : List (K × V)) → insert k v (insert k u m) ≡ insert k v m
  unfolding insert
  insert-insert k u v [] = ground arith
  insert-insert k u v ((i, w) ∷ m) = ground (arith, insert-insert k u v m)

  pub erase-insert_absent :
      (k : K) (v : V) (m : List (K × V)) → lookup k m ≡ none → erase k (insert k v m) ≡ m
  unfolding lookup insert erase
  erase-insert_absent k v [] h = ground arith
  erase-insert_absent k v ((i, w) ∷ m) h = ground (arith, erase-insert_absent k v m)

  pub insert_same : (k : K) (v : V) (m : List (K × V)) → lookup k m ≡ some v → insert k v m ≡ m
  unfolding lookup insert
  insert_same k v [] h = absurd (ground arith)
  insert_same k v ((i, w) ∷ m) h = ground (arith, insert_same k v m)
