-- ===== src/ReplicaSetController/Converge.antt =====
-- The control loop reaches the wanted number of pods.
use r_mini_k8s.Prelude.{
  Outcome, ok, error, panics, ◌>>=◌, ◌⊎◌, ◌-◌, ◌<◌, ◌≤◌, ◌≡◌, refl, sym, ap, ◌∙◌, ℕ, zero, suc,
  arith, String, true, some, List, [], ◌∷◌, string_eq, length-filter, if◌then◌else◌, inl, inr,
  u32_mod,
}
use r_mini_k8s.Prelude.HashMap.{HashMap, values, get, insert-IsMap, remove-IsMap}
use r_mini_k8s.Objects.{Pod, matches, ReplicaSet}
use r_mini_k8s.ReplicaSetController.Defs.{
  Request, post_pod, delete_pod, calculate_status, get_pods, get_pod_to_delete, new_pod, reconcile,
}
use r_mini_k8s.ReplicaSetController.Victim.{get_pod_to_delete-IsFirst}
use r_mini_k8s.ReplicaSetController.Turn.{
  observed, pod_uri, Turn, created, deleted, idle, matching, gap, IsStore, count-insert,
  count-remove, In-filter, get_of_In,
}
use r_mini_k8s.ReplicaSetController.Stores.{
  insert-PodsFiled, insert-HaveStatus, All-remove, remove-HaveStatus,
}

-- The three branches of `reconcile` on an up-to-date status, by the number of pods that match.
unfoldable pub Branches : ReplicaSet → HashMap String Pod → Outcome (List Request) → Type 0
Branches rs store r =
    ((matching rs store < rs.spec.replicas)
      × (r ≡ ok (post_pod (new_pod (observed store rs)) ∷ [])))
    ⊎ ((rs.spec.replicas < matching rs store)
        × (r ≡ (get_pod_to_delete store (observed store rs) >>= λ name. ok (delete_pod name ∷ []))))
    ⊎ ((matching rs store ≡ rs.spec.replicas) × (r ≡ ok []))

status-matching :
    (rs : ReplicaSet) (store : HashMap String Pod)
    → matching rs store < u32_mod
    → (calculate_status store rs).replicas ≡ matching rs store
unfolding calculate_status get_pods matching
status-matching rs store lt =
    omega (
      arith,
      length-filter (λ pod. matches pod.metadata.labels rs.spec.selector) (values store),
      lt,
    )

pub reconcile-Branches :
    (rs : ReplicaSet) (store : HashMap String Pod)
    → matching rs store < u32_mod
    → Branches rs store (reconcile store (observed store rs))
unfolding reconcile Branches
reconcile-Branches rs store lt = ground (arith, status-matching rs store lt)

Outcome-cases :
    (o : Outcome String) → ((name : String) × (o ≡ ok name)) ⊎ ((o ≡ error) ⊎ (o ≡ panics))
Outcome-cases (ok name) = inl (name, refl)
Outcome-cases error = inr (inl refl)
Outcome-cases panics = inr (inr refl)

named :
    (o : Outcome String) (name : String)
    → (o >>= λ n. ok (delete_pod n ∷ [])) ≡ ok (delete_pod name ∷ [])
    → o ≡ ok name
named (ok n) name e = cc
named error name e = ground arith
named panics name e = ground arith

-- The pod that a turn deletes is in the store and matches the selector.
deleted-present :
    (rs : ReplicaSet) (store : HashMap String Pod) (name : String)
    → IsStore rs store
    → get_pod_to_delete store (observed store rs) ≡ ok name
    → (pod : Pod) × (get (pod_uri name) store ≡ some pod)
      × (matches pod.metadata.labels rs.spec.selector ≡ true)
unfolding get_pods
deleted-present rs store name w e =
    let (pod, n, first) = get_pod_to_delete-IsFirst store (observed store rs) name e in
    let (i, m) =
      In-filter (λ pod. matches pod.metadata.labels rs.spec.selector) pod (values store)
        first.present in
    (pod, rw (sym n) (get_of_In pod store w.distinct w.filed i), m)

created-short :
    (rs : ReplicaSet) (store : HashMap String Pod) (r : Outcome (List Request)) (pod : Pod)
    → Branches rs store r
    → r ≡ ok (post_pod pod ∷ [])
    → matching rs store < rs.spec.replicas
unfolding Branches
created-short rs store r pod (inl b) e = b.0
created-short rs store r pod (inr (inl (b, q))) e =
    elim (Outcome-cases (get_pod_to_delete store (observed store rs))) [
      | inl (name, n) ↦ ground (arith, n)
      | inr other ↦ ground (arith, other)
    ]
created-short rs store r pod (inr (inr b)) e = ground (arith, b)

deleted-long :
    (rs : ReplicaSet) (store : HashMap String Pod) (r : Outcome (List Request)) (name : String)
    → Branches rs store r
    → r ≡ ok (delete_pod name ∷ [])
    → (rs.spec.replicas < matching rs store)
      × (get_pod_to_delete store (observed store rs) ≡ ok name)
unfolding Branches
deleted-long rs store r name (inl b) e = ground (arith, b)
deleted-long rs store r name (inr (inl (b, q))) e = (b, named _ name (sym q ∙ e))
deleted-long rs store r name (inr (inr b)) e = ground (arith, b)

idle-equal :
    (rs : ReplicaSet) (store : HashMap String Pod) (r : Outcome (List Request))
    → Branches rs store r
    → r ≡ ok []
    → matching rs store ≡ rs.spec.replicas
unfolding Branches
idle-equal rs store r (inl b) e = ground (arith, b)
idle-equal rs store r (inr (inl (b, q))) e =
    elim (Outcome-cases (get_pod_to_delete store (observed store rs))) [
      | inl (name, n) ↦ ground (arith, n)
      | inr other ↦ ground (arith, other)
    ]
idle-equal rs store r (inr (inr b)) e = b.0

-- For a replica set whose template matches its selector and that wants fewer than 2^32 pods: a
-- turn keeps a well-formed store well-formed, and it brings the number of pods that match one
-- closer to the wanted number until it is reached.
pub turn-IsStore :
    (rs : ReplicaSet) (store store' : HashMap String Pod)
    → matches rs.spec.template.metadata.labels rs.spec.selector ≡ true
    → rs.spec.replicas < u32_mod
    → IsStore rs store
    → Turn rs store store'
    → IsStore rs store' × (gap rs store' ≡ gap rs store - 1)
unfolding matching gap new_pod
turn-IsStore rs store store' t lt w (created e pod fresh l s) =
    let counted =
      count-insert (λ pod. matches pod.metadata.labels rs.spec.selector) (pod_uri pod.metadata.name)
        pod store fresh in
    let short = created-short rs store _ _ (reconcile-Branches rs store w.fits) e in
    let m : matches pod.metadata.labels rs.spec.selector ≡ true =
      ap (λ labels. matches labels rs.spec.selector) l ∙ t in
    let one = ap {B = ℕ} (λ b. if b then 1 else 0) m in
    (
      record {
        distinct = insert-IsMap (pod_uri pod.metadata.name) pod store w.distinct;
        filed = insert-PodsFiled pod store w.filed;
        statuses = insert-HaveStatus (pod_uri pod.metadata.name) pod store s w.statuses;
        fits = omega (arith, counted, one, short, lt);
      },
      omega (arith, counted, one, short),
    )
turn-IsStore rs store store' t lt w (deleted {name = name} e) =
    let (long, g) = deleted-long rs store _ name (reconcile-Branches rs store w.fits) e in
    let (pod, at, m) = deleted-present rs store name w g in
    let counted =
      count-remove (λ pod. matches pod.metadata.labels rs.spec.selector) (pod_uri name) pod store
        w.distinct at in
    let one = ap {B = ℕ} (λ b. if b then 1 else 0) m in
    (
      record {
        distinct = remove-IsMap (pod_uri name) store w.distinct;
        filed = All-remove _ (pod_uri name) store w.filed;
        statuses = remove-HaveStatus (pod_uri name) store w.statuses;
        fits = omega (arith, counted, one, w.fits);
      },
      omega (arith, counted, one, long),
    )
turn-IsStore rs store store' t lt w (idle e) =
    let equal = idle-equal rs store _ (reconcile-Branches rs store w.fits) e in
    (w, omega (arith, equal))

-- `n` turns.
pub data Turns (rs : ReplicaSet) : ℕ → HashMap String Pod → HashMap String Pod → Type 0 where
  done : {store : HashMap String Pod} → Turns rs 0 store store
  next :
      {n : ℕ} {store store' last : HashMap String Pod}
      → Turn rs store store'
      → Turns rs n store' last
      → Turns rs (suc n) store last

-- For a replica set whose template matches its selector and that wants fewer than 2^32 pods, on
-- a well-formed store: after as many turns as pods are missing or too many, or more, exactly
-- the wanted number of pods matches.
pub Turns-matching :
    (rs : ReplicaSet) (n : ℕ) (store last : HashMap String Pod)
    → matches rs.spec.template.metadata.labels rs.spec.selector ≡ true
    → rs.spec.replicas < u32_mod
    → IsStore rs store
    → gap rs store ≤ n
    → Turns rs n store last
    → matching rs last ≡ rs.spec.replicas
unfolding gap
Turns-matching rs zero store last t lt w g done = omega (arith, g)
Turns-matching rs (suc n) store last t lt w g (next {store' = store'} turn turns) =
    let (w', g') = turn-IsStore rs store store' t lt w turn in
    Turns-matching rs n store' last t lt w' (omega (arith, g, g')) turns
