-- ===== src/NodeAgent/Restart.antt =====
-- Which containers a reconciliation starts, and when it does nothing.
use r_mini_k8s.Prelude.{
  ◌≡◌, refl, ◌⊎◌, inl, inr, nat_eq, string_eq, ok, List, [], ◌∷◌, ◌++◌, arith, Option, none, some,
  false, All, ℕ,
}
use r_mini_k8s.Objects.{
  Container, ContainerStatus, ContainerState, terminated, waiting, RestartPolicy, Uuid, find_status,
  container_state, ContainerInspectResponse, state_eq,
}
use r_mini_k8s.NodeAgent.Docker.{
  Host, answered, Call, inspect_container, inspect, join_all, first_error_or_ok, remove_all,
}
use r_mini_k8s.NodeAgent.Status.{should_restart_container}
use r_mini_k8s.NodeAgent.Naming.{NodePod, containers}
use r_mini_k8s.NodeAgent.Pods.{start_containers}
use r_mini_k8s.NodeAgent.Lifecycle.{
  containers_to_restart, is_terminated, actions_for, compute_pod_actions, reconcile,
}
use r_mini_k8s.NodeAgent.Teardown.{sandbox_id, names_of-ids, sandbox-sandbox_id}

-- A container that has a status and is not to be restarted.
abbrev pub IsSettled : RestartPolicy → Option ContainerStatus → Type 0
IsSettled policy none = ⊥
IsSettled policy (some status) =
    (status.state ≡ ContainerState.running)
    ⊎ (status.state ≡ waiting)
    ⊎ ((exit_code : ℕ) × (status.state ≡ terminated exit_code)
        × ((policy ≡ RestartPolicy.never) ⊎ (policy ≡ RestartPolicy.on_failure) × (exit_code ≡ 0)))

abbrev pub Settled : NodePod → Type 0
Settled pod =
    All
      (λ (c : Container).
        IsSettled pod.spec.restart_policy (find_status c.name pod.status.container_statuses))
      pod.spec.containers

not_restarted :
    (policy : RestartPolicy) (status : Option ContainerStatus)
    → IsSettled policy status
    → should_restart_container policy status ≡ false
unfolding should_restart_container
not_restarted policy none h = absurd h
not_restarted policy (some status) (inl e) = rw e refl
not_restarted policy (some status) (inr (inl e)) = rw e refl
not_restarted policy (some status) (inr (inr (exit_code, e, p))) = rw e (by_policy p)
  where
    by_policy :
        (policy ≡ RestartPolicy.never) ⊎ (policy ≡ RestartPolicy.on_failure) × (exit_code ≡ 0)
        → should_restart_container policy (some record status { state = terminated exit_code })
          ≡ false
    by_policy q = ground arith

containers_to_restart-Settled :
    (policy : RestartPolicy) (statuses : List ContainerStatus) (cs : List Container)
    → All (λ (c : Container). IsSettled policy (find_status c.name statuses)) cs
    → containers_to_restart policy statuses cs ≡ []
unfolding containers_to_restart
containers_to_restart-Settled policy statuses [] h = refl
containers_to_restart-Settled policy statuses (c ∷ cs) h =
    let e = not_restarted policy (find_status c.name statuses) h.0 in
    let r = containers_to_restart-Settled policy statuses cs h.1 in rw (e, r) (ground arith)

module _ (host : Host) where
  -- A loaded pod with a uid whose sandbox docker finds and reports running or waiting, and each of
  -- whose containers has in the status a state that asks for no restart, is left alone by a
  -- reconciliation: it only inspects the sandbox, and ends without an error.
  pub reconcile-Settled :
      (uid : Uuid) (pod : NodePod) (response : ContainerInspectResponse) (calls : List Call)
      → pod.metadata.uid ≡ some uid
      → host.inspects calls (sandbox_id host uid pod) ≡ answered response
      → is_terminated (container_state response.state) ≡ false
      → Settled pod
      → reconcile host pod calls
        ≡ (ok tt, calls ++ inspect_container (sandbox_id host uid pod) ∷ [])
  unfolding reconcile compute_pod_actions containers actions_for start_containers join_all
      first_error_or_ok remove_all inspect
  reconcile-Settled uid pod response calls e found up settled =
      rw
        (
          names_of-ids host uid pod.metadata pod.spec.containers e,
          sandbox-sandbox_id host uid pod e,
          found,
          containers_to_restart-Settled _ _ _ settled,
          up,
        )
        refl
