-- ===== src/Scheduler/Least.antt =====
-- What `simple` chooses.
use r_mini_k8s.Prelude.{
  ◌≤◌, true, false, ◌≡◌, refl, Option, none, some, List, [], ◌∷◌, ◌⊎◌, inl, inr, arith, All, In,
}
use r_mini_k8s.Prelude.HashMap.{values}
use r_mini_k8s.Objects.{Pod}
use r_mini_k8s.Scheduler.Cache.{NodeState, Cache}
use r_mini_k8s.Scheduler.Algorithm.{
  choose, consider, eligible, is_better_than, simple, reference_of,
}

-- `best` is an eligible state of the list, and no eligible one runs fewer pods.
pub record IsLeast (pod : Pod) (states : List NodeState) (best : NodeState) : Type 0 where
  pub present : In best states
  pub fits : eligible pod best ≡ true
  pub least : All (λ s. eligible pod s ≡ true → best.pod_count ≤ s.pod_count) states

-- What the loop yields from a candidate that was found before.
abbrev Yields : Pod → Option NodeState → List NodeState → Option NodeState → Type 0
Yields pod candidate states none = (candidate ≡ none) × All (λ s. eligible pod s ≡ false) states
Yields pod candidate states (some best) =
    ((candidate ≡ some best) ⊎ (In best states × (eligible pod best ≡ true)))
    × ((c : NodeState) → candidate ≡ some c → best.pod_count ≤ c.pod_count)
    × All (λ s. eligible pod s ≡ true → best.pod_count ≤ s.pod_count) states

Yields-cons :
    (pod : Pod) (candidate : Option NodeState) (s : NodeState) (ss : List NodeState)
    (r : Option NodeState)
    → Yields pod (consider pod candidate s) ss r
    → Yields pod candidate (s ∷ ss) r
unfolding consider is_better_than
Yields-cons pod none s ss none y = ground arith
Yields-cons pod (some c) s ss none y = ground arith
Yields-cons pod none s ss (some b) y = (ground arith, λ c q. ground arith, ground (arith, y.1 s))
Yields-cons pod (some c) s ss (some b) y =
    (ground arith, λ d q. ground (arith, y.1 s, y.1 c), ground (arith, y.1 s, y.1 c))

choose-Yields :
    (pod : Pod) (candidate : Option NodeState) (states : List NodeState)
    → Yields pod candidate states (choose pod candidate states)
unfolding choose
choose-Yields pod none [] = ground arith
choose-Yields pod (some c) [] = (inl refl, λ d q. ground arith, tt)
choose-Yields pod candidate (s ∷ ss) =
    Yields-cons pod candidate s ss _ (choose-Yields pod (consider pod candidate s) ss)

-- The algorithm answers nothing exactly when no state is eligible; otherwise it names a ready node
-- whose labels match the pod's selector, and no other such node runs fewer pods.
pub simple-IsLeast :
    (pod : Pod) (cache : Cache)
    → ((simple pod cache ≡ none) × All (λ s. eligible pod s ≡ false) (values cache.node_states))
      ⊎ ((best : NodeState) × (simple pod cache ≡ some (record { kind = "node"; name = best.name }))
          × IsLeast pod (values cache.node_states) best)
unfolding simple
simple-IsLeast pod cache =
    from (choose pod none (values cache.node_states))
      (choose-Yields pod none (values cache.node_states))
  where
    from :
        (r : Option NodeState)
        → Yields pod none (values cache.node_states) r
        → ((reference_of r ≡ none) × All (λ s. eligible pod s ≡ false) (values cache.node_states))
          ⊎ ((best : NodeState) × (reference_of r
                ≡ some (record { kind = "node"; name = best.name }))
              × IsLeast pod (values cache.node_states) best)
    from none y = inl (refl, y.1)
    from (some best) y =
        inr (best, refl, record { present = ground arith; fits = ground arith; least = y.2 })
