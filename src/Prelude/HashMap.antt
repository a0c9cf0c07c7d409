-- ===== src/Prelude/HashMap.antt =====
-- `std::collections::HashMap` as an association list in the order of iteration, which the
-- standard library leaves open. A key occurs once in a map built by these operations.
use mathlib.Core.Path.{◌≡◌, refl}
use mathlib.Core.Bool.{Bool, true, false, ◌&&◌}
use mathlib.Core.List.{List, [], ◌∷◌}
use mathlib.Core.Option.{Option, none, some}
use native.Mathlib.Omega.{arith}
use r_mini_k8s.Prelude.Tests.{nat_beq, if◌then◌else◌}
use r_mini_k8s.Prelude.Equality.{Eq, option_beq}
use r_mini_k8s.Prelude.Lists.{length}

abbrev pub HashMap {ℓ κ} : Type ℓ → Type κ → Type (ℓ ⊔ κ)
HashMap K V = List (K × V)

-- As the standard library has it.
abbrev pub HashSet : Type 0 → Type 0
HashSet A = HashMap A (Unit {0})

abbrev pub keys {ℓ κ} : {K : Type ℓ} {V : Type κ} → HashMap K V → List K
keys [] = []
keys ((k, v) ∷ m) = k ∷ keys m

abbrev pub values {ℓ κ} : {K : Type ℓ} {V : Type κ} → HashMap K V → List V
values [] = []
values ((k, v) ∷ m) = v ∷ values m

module _ {ℓ κ} {K : Type ℓ} ⦃e : Eq K⦄ {V : Type κ} where
  unfoldable pub get : K → HashMap K V → Option V
  get k [] = none
  get k ((j, v) ∷ m) = if e.beq j k then some v else get k m

  unfoldable pub insert : K → V → HashMap K V → HashMap K V
  insert k v [] = (k, v) ∷ []
  insert k v ((j, w) ∷ m) = if e.beq j k then (j, v) ∷ m else (j, w) ∷ insert k v m

  unfoldable pub remove : K → HashMap K V → HashMap K V
  remove k [] = []
  remove k ((j, v) ∷ m) = let rest = remove k m in if e.beq j k then rest else (j, v) ∷ rest

  unfoldable pub contains_key : K → HashMap K V → Bool
  unfolding get
  contains_key k m = elim (get k m) [ none ↦ false | some _ ↦ true ]

  pub get-insert :
      (k j : K) (v : V) (m : HashMap K V)
      → get j (insert k v m) ≡ (if e.beq k j then some v else get j m)
  unfolding get insert
  get-insert k j v [] = refl
  get-insert k j v ((i, w) ∷ m) =
      ground (arith, e.beq_iff k j, e.beq_iff i k, e.beq_iff i j, get-insert k j v m)

  pub get-remove :
      (k j : K) (m : HashMap K V) → get j (remove k m) ≡ (if e.beq k j then none else get j m)
  unfolding get remove
  get-remove k j [] = ground arith
  get-remove k j ((i, w) ∷ m) =
      ground (arith, e.beq_iff k j, e.beq_iff i k, e.beq_iff i j, get-remove k j m)

  pub get-insert_self : (k : K) (v : V) (m : HashMap K V) → get k (insert k v m) ≡ some v
  get-insert_self k v m = ground (arith, get-insert k k v m, e.beq_iff k k)

  -- No key occurs twice.
  abbrev pub IsMap : HashMap K V → Type κ
  IsMap [] = Unit
  IsMap ((k, v) ∷ m) = (get k m ≡ none) × IsMap m

  pub insert-IsMap : (k : K) (v : V) (m : HashMap K V) → IsMap m → IsMap (insert k v m)
  unfolding insert get
  insert-IsMap k v [] h = (refl, tt)
  insert-IsMap k v ((j, w) ∷ m) h =
      ground (arith, insert-IsMap k v m, get-insert k j v m, e.beq_iff j k, e.beq_iff k j)

  pub remove-IsMap : (k : K) (m : HashMap K V) → IsMap m → IsMap (remove k m)
  unfolding remove get
  remove-IsMap k [] h = tt
  remove-IsMap k ((j, w) ∷ m) h = ground (arith, remove-IsMap k m, get-remove k j m)

  -- Each entry of the first map is an entry of the second.
  unfoldable pub includes : ⦃f : Eq V⦄ → HashMap K V → HashMap K V → Bool
  unfolding get
  includes [] n = true
  includes ((k, v) ∷ m) n = option_beq (get k n) (some v) && includes m n

  -- `HashMap::eq`: as many entries, and each entry of the one is in the other.
  unfoldable pub map_eq : ⦃f : Eq V⦄ → HashMap K V → HashMap K V → Bool
  unfolding includes
  map_eq m n = nat_beq (length m) (length n) && includes m n
