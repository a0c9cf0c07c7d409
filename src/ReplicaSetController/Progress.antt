-- ===== src/ReplicaSetController/Progress.antt =====
-- The controller does not panic on pods that have a status, so a turn can always be taken.
use r_mini_k8s.Prelude.{
  ok, ◌≢◌, ◌<◌, ◌≡◌, refl, ap, ◌∙◌, arith, String, Bool, none, some, List, [], ◌∷◌, filter, length,
  length-filter, inl, inr, Bool-cases, string_eq,
}
use r_mini_k8s.Prelude.HashMap.{HashMap, values, get}
use r_mini_k8s.Objects.{Pod, PodStatus, matches, ReplicaSet}
use r_mini_k8s.ReplicaSetController.Defs.{
  insert_sorted, sort_pods, with_statuses, first_sorted, first_name, least_of, get_pods,
  get_pod_to_delete, new_pod, compare_pods, is_greater,
}
use r_mini_k8s.ReplicaSetController.Victim.{HaveStatus, Paired, with_statuses-Paired}
use r_mini_k8s.ReplicaSetController.Turn.{pod_uri, Turn, created, deleted, idle, matching, IsStore}
use r_mini_k8s.ReplicaSetController.Converge.{Branches, reconcile-Branches}

insert_sorted-first :
    (p : Pod × PodStatus) (ps : List (Pod × PodStatus))
    → (name : String) × (first_name (insert_sorted p ps) ≡ ok name)
unfolding insert_sorted
insert_sorted-first p [] = (_, refl)
insert_sorted-first p (q ∷ ps) = elim (Bool-cases (is_greater (compare_pods p q))) [
  | inl greater ↦ (q.0.metadata.name, ground (arith, greater))
  | inr not_greater ↦ (p.0.metadata.name, ground (arith, not_greater))
]

least_of-ok :
    (pods : List Pod)
    → HaveStatus pods
    → 0 < length pods
    → (name : String) × (least_of pods ≡ ok name)
unfolding least_of first_sorted sort_pods
least_of-ok [] h lt = ground arith
least_of-ok (pod ∷ []) h lt = (pod.metadata.name, refl)
least_of-ok (p ∷ q ∷ pods) h lt = from (with_statuses-Paired (p ∷ q ∷ pods) h)
  where
    from :
        ((ps : List (Pod × PodStatus)) × (with_statuses (p ∷ q ∷ pods) ≡ some ps)
          × Paired (p ∷ q ∷ pods) ps)
        → (name : String) × (first_sorted (with_statuses (p ∷ q ∷ pods)) ≡ ok name)
    from ([], w, d) = elim d [ ]
    from (r ∷ ps, w, d) =
        let (name, f) = insert_sorted-first r (sort_pods ps) in (name, ap first_sorted w ∙ f)

filter-HaveStatus :
    (p : Pod → Bool) (pods : List Pod) → HaveStatus pods → HaveStatus (filter p pods)
unfolding filter
filter-HaveStatus p [] h = tt
filter-HaveStatus p (pod ∷ pods) h = ground (arith, filter-HaveStatus p pods h.1)

-- A well-formed store has a turn, if there is a pod with the labels of the template, a status
-- and a name that is not taken, which the API server can store for a creation.
pub turn_exists :
    (rs : ReplicaSet) (store : HashMap String Pod) (fresh : Pod)
    → IsStore rs store
    → get (pod_uri fresh.metadata.name) store ≡ none
    → fresh.metadata.labels ≡ rs.spec.template.metadata.labels
    → fresh.status ≢ none
    → (store' : HashMap String Pod) × Turn rs store store'
unfolding Branches new_pod get_pods get_pod_to_delete matching
turn_exists rs store fresh w free l s = elim (reconcile-Branches rs store w.fits) [
  | inl (short, e) ↦ (_, created e fresh free l s)
  | inr (inl (long, e)) ↦
      let m = λ (pod : Pod). matches pod.metadata.labels rs.spec.selector in
      let (name, g) =
        least_of-ok (filter m (values store)) (filter-HaveStatus m (values store) w.statuses)
          (omega (arith, long, length-filter m (values store))) in
      (_, deleted {name = name} (rw (e, g) refl))
  | inr (inr (equal, e)) ↦ (store, idle e)
]
