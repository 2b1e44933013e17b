-- ===== src/Prelude/Maps.antt =====
-- A Go map as an association list with one entry for a key. `insert` overwrites in place.
use Prim.Native.Nat.{◌+◌}
use mathlib.Core.Path.{◌≡◌, refl, subst}
use mathlib.Core.Logic.{inl, inr}
use go_lobby.Prelude.Tests.{Bool-cases}
use mathlib.Core.Bool.{Bool, true, false}
use mathlib.Core.List.{List, [], ◌∷◌, map}
use mathlib.Core.Option.{Option, none, some}
use native.Mathlib.Omega.{arith}
use go_lobby.Prelude.Tests.{Eq, ◌==◌, if◌then◌else◌}
use go_lobby.Prelude.Lists.{length}

abbrev pub has_value {ℓ} : {V : Type ℓ} → Option V → Bool
has_value none = false
has_value (some v) = true

module _ {ℓ κ} {K : Type ℓ} {V : Type κ} where
  abbrev pub keys : List (K × V) → List K
  keys = map (λ p. p.0)

  abbrev pub values : List (K × V) → List V
  values = map (λ p. p.1)

module _ {ℓ κ} {K : Type ℓ} {V : Type κ} ⦃e : Eq K⦄ where
  unfoldable pub lookup : K → List (K × V) → Option V
  lookup k [] = none
  lookup k ((j, v) ∷ m) = if j == k then some v else lookup k m

  unfoldable pub insert : K → V → List (K × V) → List (K × V)
  insert k v [] = (k, v) ∷ []
  insert k v ((j, w) ∷ m) = if j == k then (k, v) ∷ m else (j, w) ∷ insert k v m

  unfoldable pub delete : K → List (K × V) → List (K × V)
  delete k [] = []
  delete k ((j, w) ∷ m) = if j == k then delete k m else (j, w) ∷ delete k m

  pub lookup-insert :
      (key k : K) (new : V) (m : List (K × V))
      → lookup k (insert key new m) ≡ (if key == k then some new else lookup k m)
  unfolding lookup insert
  lookup-insert key k new ((i, old) ∷ m) =
      ground (arith, e.beq_iff key k, e.beq_iff i key, e.beq_iff i k, lookup-insert key k new m)
  lookup-insert key k new [] = refl

  pub lookup-delete :
      (k j : K) (m : List (K × V)) → lookup j (delete k m) ≡ (if k == j then none else lookup j m)
  unfolding lookup delete
  lookup-delete k j [] = ground arith
  lookup-delete k j ((i, w) ∷ m) =
      ground (arith, e.beq_iff k j, e.beq_iff i k, e.beq_iff i j, lookup-delete k j m)

  -- A key that is not there is added at the end; one that is there keeps the size.
  pub length-insert :
      (k : K) (v : V) (m : List (K × V))
      → length (insert k v m) ≡ length m + (if has_value (lookup k m) then 0 else 1)
  unfolding lookup insert
  length-insert k v [] = refl
  length-insert k v ((j, w) ∷ m) = ground (arith, length-insert k v m)

  -- Deleting a key that is not there changes nothing.
  pub delete_absent : (k : K) (m : List (K × V)) → lookup k m ≡ none → delete k m ≡ m
  unfolding lookup delete
  delete_absent k [] h = refl
  delete_absent k ((j, w) ∷ m) h = ground (arith, delete_absent k m)

  -- One entry for a key.
  unfoldable pub IsMap : List (K × V) → Type (ℓ ⊔ κ)
  IsMap [] = Unit
  IsMap ((k, v) ∷ m) = (lookup k m ≡ none) × IsMap m

  still_new :
      (k : K) (v : V) (j : K) (m : List (K × V))
      → (j == k) ≡ false
      → lookup j m ≡ none
      → lookup j (insert k v m) ≡ none
  unfolding lookup
  still_new k v j m other new = ground (arith, lookup-insert k j v m, e.beq_iff j k, e.beq_iff k j)

  pub insert-IsMap : (k : K) (v : V) (m : List (K × V)) → IsMap m → IsMap (insert k v m)
  unfolding IsMap insert lookup
  insert-IsMap k v [] i = (refl, tt)
  insert-IsMap k v ((j, w) ∷ m) (new, i) = elim (Bool-cases (j == k)) [
    | inl same ↦ rw same (subst (λ l. lookup l m ≡ none) ((e.beq_iff j k).0 same) new, i)
    | inr other ↦ rw other (still_new k v j m other new, insert-IsMap k v m i)
  ]

  pub delete-IsMap : (k : K) (m : List (K × V)) → IsMap m → IsMap (delete k m)
  unfolding IsMap delete lookup
  delete-IsMap k [] i = tt
  delete-IsMap k ((j, w) ∷ m) (new, i) = elim (Bool-cases (j == k)) [
    | inl same ↦ rw same (delete-IsMap k m i)
    | inr other ↦ rw other (ground (arith, lookup-delete k j m, new), delete-IsMap k m i)
  ]
