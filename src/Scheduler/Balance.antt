-- ===== src/Scheduler/Balance.antt =====
-- Scheduling pods one after the other spreads them evenly.
use r_mini_k8s.Prelude.{
  ℕ, ◌+◌, ◌≤◌, ◌<◌, String, ◌≡◌, inl, inr, none, some, List, [], ◌∷◌, arith, true, string_eq,
  u32_mod, add_u32, All, All_of_In, In, length,
}
use r_mini_k8s.Prelude.HashMap.{HashMap, values, get, insert, IsMap, insert-IsMap}
use r_mini_k8s.Objects.{Pod}
use r_mini_k8s.Scheduler.Cache
use r_mini_k8s.Scheduler.Cache.{NodeState, Cache}
use r_mini_k8s.Scheduler.Algorithm.{eligible, simple}
use r_mini_k8s.Scheduler.Least.{IsLeast, simple-IsLeast}
use r_mini_k8s.Scheduler.Run.{accepted, handle_pod_add}

-- Each state is filed under its own name.
abbrev pub StatesFiled : HashMap String NodeState → Type 0
StatesFiled [] = Unit
StatesFiled ((k, s) ∷ m) = (s.name ≡ k) × StatesFiled m

get_of_In :
    (m : HashMap String NodeState) (s : NodeState)
    → IsMap m
    → StatesFiled m
    → In s (values m)
    → get s.name m ≡ some s
unfolding get
get_of_In [] s d f i = elim i [ ]
get_of_In ((k, t) ∷ m) s d f (inl e) = ground (arith, e, f.0, string_eq.beq_iff k s.name)
get_of_In ((k, t) ∷ m) s d f (inr i) =
    ground (arith, get_of_In m s d.1 f.1 i, d.0, string_eq.beq_iff k s.name)

insert-StatesFiled :
    (s : NodeState) (m : HashMap String NodeState) → StatesFiled m → StatesFiled (insert s.name s m)
unfolding insert
insert-StatesFiled s [] f = ground arith
insert-StatesFiled s ((k, t) ∷ m) f =
    ground (arith, insert-StatesFiled s m f.1, string_eq.beq_iff k s.name)

All-insert :
    (P : NodeState → Type 0) (k : String) (s : NodeState) (m : HashMap String NodeState)
    → P s
    → All P (values m)
    → All P (values (insert k s m))
unfolding insert
All-insert P k s [] p h = (p, tt)
All-insert P k s ((j, t) ∷ m) p h = ground (arith, All-insert P k s m p h.1)

-- The count is `low` or `low + 1`.
abbrev pub Near : ℕ → NodeState → Type 0
Near low s = (low ≤ s.pod_count) × (s.pod_count ≤ low + 1)

-- The states are a map under their names, every node is eligible for each of the pods, and no node
-- runs more than one pod more than another: all counts are `low` or `low + 1`.
pub record IsBalanced (pods : List Pod) (low : ℕ) (states : HashMap String NodeState) : Type 0 where
  pub distinct : IsMap states
  pub filed : StatesFiled states
  pub fit : All (λ pod. All (λ s. eligible pod s ≡ true) (values states)) pods
  pub level : All (Near low) (values states)

abbrev bump : NodeState → NodeState
bump s = record s { pod_count = add_u32 s.pod_count 1 }

bump-fit :
    (s : NodeState) (pods : List Pod) (m : HashMap String NodeState)
    → In s (values m)
    → All (λ pod. All (λ s. eligible pod s ≡ true) (values m)) pods
    → All (λ pod. All (λ s. eligible pod s ≡ true) (values (insert s.name (bump s) m))) pods
unfolding eligible
bump-fit s [] m i h = tt
bump-fit s (pod ∷ pods) m i h = (
  All-insert (λ t. eligible pod t ≡ true) s.name (bump s) m
      (All_of_In (λ t. eligible pod t ≡ true) s (values m) h.0 i) h.0,
  bump-fit s pods m i h.1,
)

level_above :
    (low : ℕ) (s : NodeState) (pod : Pod) (m : List NodeState)
    → low ≤ s.pod_count
    → All (λ t. eligible pod t ≡ true) m
    → All (λ t. eligible pod t ≡ true → s.pod_count ≤ t.pod_count) m
    → All (Near low) m
    → All (Near s.pod_count) m
level_above low s pod [] b f l h = tt
level_above low s pod (t ∷ m) b f l h =
    ((l.0 f.0, omega arith), level_above low s pod m b f.1 l.1 h.1)

place :
    (pods : List Pod) (pod : Pod) (low : ℕ) (s : NodeState) (m : HashMap String NodeState)
    → low + 2 < u32_mod
    → IsBalanced (pod ∷ pods) low m
    → IsLeast pod (values m) s
    → IsBalanced pods s.pod_count (insert s.name (bump s) m) × (s.pod_count ≤ low + 1)
place pods pod low s m small b l =
    let near = All_of_In (Near low) s (values m) b.level l.present in
    (
      record {
        distinct = insert-IsMap s.name (bump s) m b.distinct;
        filed = insert-StatesFiled (bump s) m b.filed;
        fit = bump-fit s pods m l.present b.fit.1;
        level =
            All-insert (Near s.pod_count) s.name (bump s) m (omega arith, omega arith)
              (level_above low s pod (values m) near.0 b.fit.0 l.least b.level);
      },
      near.1,
    )

add-unplaced :
    (cache : Cache) (pod : Pod)
    → pod.spec.node_name ≡ none
    → simple pod cache ≡ none
    → (handle_pod_add simple cache pod accepted).0 ≡ cache
unfolding handle_pod_add
add-unplaced cache pod u e = rw (u, handle_pod_add, e)

add-placed :
    (cache : Cache) (pod : Pod) (best : NodeState)
    → pod.spec.node_name ≡ none
    → simple pod cache ≡ some (record { kind = "node"; name = best.name })
    → get best.name cache.node_states ≡ some best
    → (handle_pod_add simple cache pod accepted).0.node_states
      ≡ insert best.name (bump best) cache.node_states
unfolding handle_pod_add
add-placed cache pod best u e g = rw (u, handle_pod_add, e) (rw (g, Cache.handle_pod_add))

-- The scheduler's handling of pods that arrive one after the other and whose bindings succeed.
pub add_all : Cache → List Pod → Cache
add_all cache [] = cache
add_all cache (pod ∷ pods) = add_all (handle_pod_add simple cache pod accepted).0 pods

-- Pods with no node yet, each of which fits every node, are scheduled one after the other, and every
-- binding is accepted: if all counts are `low` or `low + 1` before, then they differ by at most one
-- afterwards. The states are filed under the names of their nodes, and `low` with the number of pods
-- stays below 2^32 - 2.
pub add_all-IsBalanced :
    (pods : List Pod) (low : ℕ) (cache : Cache)
    → All (λ pod. pod.spec.node_name ≡ none) pods
    → low + length pods + 2 < u32_mod
    → IsBalanced pods low cache.node_states
    → (low' : ℕ) × IsBalanced [] low' (add_all cache pods).node_states
unfolding add_all
add_all-IsBalanced [] low cache u h b = (low, b)
add_all-IsBalanced (pod ∷ pods) low cache u h b = elim (simple-IsLeast pod cache) [
  | inl (unplaced, _) ↦
      rw (add-unplaced cache pod u.0 unplaced, add_all)
        (add_all-IsBalanced pods low cache u.1 (omega arith)
          (record { distinct = b.distinct; filed = b.filed; fit = b.fit.1; level = b.level }))
  | inr (best, placed, least) ↦
      let next = place pods pod low best cache.node_states (omega arith) b least in
      add_all-IsBalanced pods best.pod_count (handle_pod_add simple cache pod accepted).0 u.1
        (omega (arith, next.1))
        (rw
          (add-placed cache pod best u.0 placed
            (get_of_In cache.node_states best b.distinct b.filed least.present))
          next.0)
]
