-- ===== src/Prelude/MapEquality.antt =====
-- `HashMap::eq` decides whether two maps have the same entries.
use Prim.Native.Nat.{suc}
use mathlib.Core.Path.{◌≡◌, refl, sym}
use mathlib.Core.Bool.{true}
use mathlib.Core.List.{[], ◌∷◌}
use mathlib.Core.Option.{none, some}
use native.Mathlib.Omega.{arith}
use r_mini_k8s.Prelude.Equality.{Eq, option_beq_iff}
use r_mini_k8s.Prelude.Lists.{length, All}
use r_mini_k8s.Prelude.HashMap.{
  HashMap, get, remove, get-remove, IsMap, remove-IsMap, map_eq, includes,
}

module _ {K : Type 0} ⦃e : Eq K⦄ {V : Type 0} where
  pub remove_absent : (k : K) (m : HashMap K V) → get k m ≡ none → remove k m ≡ m
  unfolding get remove
  remove_absent k [] h = refl
  remove_absent k ((j, v) ∷ m) h = ground (arith, remove_absent k m)

  length-remove :
      (k : K) (v : V) (m : HashMap K V)
      → IsMap m
      → get k m ≡ some v
      → length m ≡ suc (length (remove k m))
  unfolding get remove
  length-remove k v [] d h = cc
  length-remove k v ((j, w) ∷ m) d h =
      ground (arith, length-remove k v m, remove_absent k m, e.beq_iff j k)

  -- Each entry of `m` is an entry of `n`.
  abbrev pub Within : HashMap K V → HashMap K V → Type 0
  Within m n = All (λ (k, v). get k n ≡ some v) m

  Within-remove : (k : K) (m n : HashMap K V) → get k m ≡ none → Within m n → Within m (remove k n)
  unfolding get
  Within-remove k [] n h w = tt
  Within-remove k ((j, v) ∷ m) n h w =
      ground (arith, get-remove k j n, e.beq_iff k j, e.beq_iff j k, Within-remove k m n)

  get-eq_of_Within :
      (m n : HashMap K V)
      → IsMap m
      → IsMap n
      → Within m n
      → length m ≡ length n
      → (j : K) → get j n ≡ get j m
  unfolding get
  get-eq_of_Within [] [] dm dn w l j = refl
  get-eq_of_Within [] (x ∷ n) dm dn w l j = absurd (omega arith)
  get-eq_of_Within ((k, v) ∷ m) n dm dn w l j = ground (
    arith,
    get-eq_of_Within m (remove k n) dm.1 (remove-IsMap k n dn) (Within-remove k m n dm.0 w.1)
        (omega (arith, length-remove k v n dn w.0)) j,
    get-remove k j n,
    e.beq_iff k j,
  )

  module _ ⦃f : Eq V⦄ where
    Within-includes : (m n : HashMap K V) → includes m n ≡ true → Within m n
    unfolding includes
    Within-includes [] n h = tt
    Within-includes ((k, v) ∷ m) n h =
        ground (arith, option_beq_iff (get k n) (some v), Within-includes m n)

    -- Maps that the test finds equal answer every `get` alike.
    pub get-eq_of_map_eq :
        (m n : HashMap K V) → IsMap m → IsMap n → map_eq m n ≡ true → (k : K) → get k m ≡ get k n
    unfolding map_eq
    get-eq_of_map_eq m n dm dn h k =
        sym (get-eq_of_Within m n dm dn (Within-includes m n (ground arith)) (ground arith) k)
