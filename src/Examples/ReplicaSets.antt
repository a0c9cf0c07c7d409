-- ===== src/Examples/ReplicaSets.antt =====
-- A replica set with a running and a failed pod that is scaled down to one.
use r_mini_k8s.Prelude.{
  ◌-◌, ◌≤◌, String, true, ◌≡◌, refl, [], ◌∷◌, string_eq, arith, ok, all, filter, count,
}
use r_mini_k8s.Prelude.HashMap.{HashMap, get, remove}
use r_mini_k8s.Objects.{Pod, matches, is_ready}
use r_mini_k8s.ReplicaSetController.Defs.{
  get_pods, get_pod_to_delete, least_of, with_statuses, first_sorted, sort_pods, insert_sorted,
  compare_pods, phase_order, reconcile, calculate_status,
}
use r_mini_k8s.ReplicaSetController.Victim.{IsFirst, get_pod_to_delete-IsFirst}
use r_mini_k8s.ReplicaSetController.Turn.{Turn, deleted, pod_uri, matching, gap, IsStore}
use r_mini_k8s.ReplicaSetController.Converge.{done, next, turn-IsStore, Turns-matching}
use r_mini_k8s.ReplicaSetController.Progress.{turn_exists}
use r_mini_k8s.Examples.Data.{web, running_pod, failed_pod, web_rs}

abbrev two_pods : HashMap String Pod
two_pods = (pod_uri "web-2", running_pod) ∷ (pod_uri "web-3", failed_pod) ∷ []

abbrev one_pod : HashMap String Pod
one_pod = (pod_uri "web-2", running_pod) ∷ []

victim : get_pod_to_delete two_pods (web_rs 1) ≡ ok "web-3"
unfolding get_pod_to_delete get_pods least_of with_statuses first_sorted sort_pods insert_sorted
    compare_pods phase_order filter matches all get is_ready
victim = refl

get_pod_to_delete-IsFirst_example :
    (pod : Pod) × (pod.metadata.name ≡ "web-3") × IsFirst (get_pods two_pods (web_rs 1)) pod
get_pod_to_delete-IsFirst_example = get_pod_to_delete-IsFirst two_pods (web_rs 1) "web-3" victim

two_pods-IsStore : IsStore (web_rs 1) two_pods
unfolding get matching matches all count
two_pods-IsStore = record {
  distinct = (refl, (refl, tt));
  filed = (refl, (refl, tt));
  statuses = (λ e. ground arith, (λ e. ground arith, tt));
  fits = ground arith;
}

one_turn : Turn (web_rs 1) two_pods (remove (pod_uri "web-3") two_pods)
unfolding reconcile calculate_status get_pod_to_delete get_pods least_of with_statuses first_sorted
    sort_pods insert_sorted compare_pods phase_order filter count matches all get is_ready
one_turn = deleted {name = "web-3"} refl

template_matches : matches web web ≡ true
unfolding matches all get
template_matches = refl

turn-IsStore_example :
    IsStore (web_rs 1) (remove (pod_uri "web-3") two_pods)
    × (gap (web_rs 1) (remove (pod_uri "web-3") two_pods) ≡ gap (web_rs 1) two_pods - 1)
turn-IsStore_example =
    turn-IsStore (web_rs 1) two_pods (remove (pod_uri "web-3") two_pods) template_matches
      (ground arith) two_pods-IsStore one_turn

gap_is_one : gap (web_rs 1) two_pods ≤ 1
unfolding gap matching matches all count get
gap_is_one = ground arith

Turns-matching_example : matching (web_rs 1) (remove (pod_uri "web-3") two_pods) ≡ 1
Turns-matching_example =
    Turns-matching (web_rs 1) 1 two_pods (remove (pod_uri "web-3") two_pods) template_matches
      (ground arith) two_pods-IsStore gap_is_one (next one_turn done)

abbrev spare : Pod
spare = record running_pod { metadata = record (running_pod.metadata) { name = "web-x4k2p" } }

turn_exists_example : (store' : HashMap String Pod) × Turn (web_rs 1) two_pods store'
unfolding get
turn_exists_example =
    turn_exists (web_rs 1) two_pods spare two_pods-IsStore refl refl (λ e. ground arith)
