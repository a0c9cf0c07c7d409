-- ===== src/Objects/Selector.antt =====
-- `Labels::matches` (objects/mod.rs), against the inclusion of maps that it tests.
use r_mini_k8s.Prelude.{
  String, Bool, true, ◌≡◌, refl, some, [], ◌∷◌, arith, all, option_beq, string_eq, option_beq_iff,
  ◌↔◌,
}
use r_mini_k8s.Prelude.HashMap.{get, IsMap}
use r_mini_k8s.Objects.Meta.{Labels}

-- `self.matches(labels)`: each entry of `labels` is an entry of `self`.
unfoldable pub matches : Labels → Labels → Bool
unfolding all get
matches self labels = all (λ (k, v). option_beq (get k self) (some v)) labels

-- Every entry of `m` is one of `self`.
pub IncludedIn : Labels → Labels → Type 0
IncludedIn m self = (k v : String) → get k m ≡ some v → get k self ≡ some v

get_all :
    (self m : Labels) (k v : String)
    → matches self m ≡ true
    → get k m ≡ some v
    → get k self ≡ some v
unfolding matches
get_all self [] k v h g = cc
get_all self ((j, w) ∷ m) k v h g =
    ground (arith, string_eq.beq_iff j k, option_beq_iff (get j self) (some w), get_all self m k v)

all_get : (self m : Labels) → IsMap m → IncludedIn m self → matches self m ≡ true
unfolding matches IncludedIn
all_get self [] d h = refl
all_get self ((j, w) ∷ m) d h = ground (
  arith,
  option_beq_iff (get j self) (some w),
  h j w,
  string_eq.beq_iff j j,
  all_get self m d.1 (λ k v g. h k v (ground (arith, string_eq.beq_iff j k, d.0, g))),
)

-- For a selector without duplicate keys, `matches` holds exactly when every entry of the
-- selector is an entry of the labels.
pub matches_iff :
    (self selector : Labels)
    → IsMap selector
    → (matches self selector ≡ true) ↔ IncludedIn selector self
unfolding IncludedIn
matches_iff self selector d =
    (λ h k v g. get_all self selector k v h g, λ h. all_get self selector d h)
