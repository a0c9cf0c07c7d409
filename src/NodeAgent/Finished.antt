-- ===== src/NodeAgent/Finished.antt =====
-- A pod that has finished is not restarted: the phase against the restarts.
use r_mini_k8s.Prelude.{
  ◌≡◌, ◌≢◌, refl, ◌⊎◌, inl, inr, nat_eq, string_eq, ok, List, [], ◌∷◌, ◌++◌, arith, some, Bool,
  true, false, All, ◌<◌, length, all, String,
}
use r_mini_k8s.Objects.{
  Container, ContainerStatus, ContainerState, terminated, PodPhase, failed, succeeded,
  RestartPolicy, Uuid, find_status, container_state, ContainerInspectResponse,
}
use r_mini_k8s.NodeAgent.Docker.{Host, answered, Call, inspect_container}
use r_mini_k8s.NodeAgent.Status.{compute_phase}
use r_mini_k8s.NodeAgent.Naming.{NodePod}
use r_mini_k8s.NodeAgent.Lifecycle.{is_terminated, reconcile}
use r_mini_k8s.NodeAgent.Phase.{compute_phase_iff, has_stopped, has_succeeded, all_states}
use r_mini_k8s.NodeAgent.Teardown.{sandbox_id}
use r_mini_k8s.NodeAgent.Restart.{IsSettled, reconcile-Settled}

all-find_status :
    (p : ContainerState → Bool) (name : String) (ss : List ContainerStatus) (s : ContainerStatus)
    → all_states p ss ≡ true
    → find_status name ss ≡ some s
    → p s.state ≡ true
unfolding all find_status
all-find_status p name [] s h e = ground arith
all-find_status p name (s' ∷ ss) s h e = grind (arith, all-find_status p name ss s)

-- All containers have exited with 0, or they have stopped and are never restarted.
abbrev Finished : RestartPolicy → List ContainerStatus → Type 0
Finished policy ss =
    ((all_states has_succeeded ss ≡ true) × (policy ≢ RestartPolicy.always))
    ⊎ ((all_states has_stopped ss ≡ true) × (policy ≡ RestartPolicy.never))

stopped-IsSettled :
    (policy : RestartPolicy) (s : ContainerStatus)
    → ((has_succeeded s.state ≡ true) × (policy ≢ RestartPolicy.always))
      ⊎ ((has_stopped s.state ≡ true) × (policy ≡ RestartPolicy.never))
    → IsSettled policy (some s)
stopped-IsSettled policy s h = by_state s.state refl h
  where
    by_state :
        (state : ContainerState)
        → s.state ≡ state
        → ((has_succeeded state ≡ true) × (policy ≢ RestartPolicy.always))
          ⊎ ((has_stopped state ≡ true) × (policy ≡ RestartPolicy.never))
        → IsSettled policy (some s)
    by_state ContainerState.running e q = inl e
    by_state ContainerState.waiting e q = inr (inl e)
    by_state (terminated n) e q = inr (inr (n, e, by_policy policy q))
      where
        by_policy :
            (p : RestartPolicy)
            → ((has_succeeded (terminated n) ≡ true) × (p ≢ RestartPolicy.always))
              ⊎ ((has_stopped (terminated n) ≡ true) × (p ≡ RestartPolicy.never))
            → (p ≡ RestartPolicy.never) ⊎ (p ≡ RestartPolicy.on_failure) × (n ≡ 0)
        by_policy RestartPolicy.always q = ground arith
        by_policy RestartPolicy.never q = ground arith
        by_policy RestartPolicy.on_failure q = ground arith

compute_phase-Finished :
    (policy : RestartPolicy) (ss : List ContainerStatus) (phase : PodPhase)
    → length ss < 2_147_483_648
    → compute_phase policy ss ≡ phase
    → (phase ≡ succeeded) ⊎ (phase ≡ failed)
    → Finished policy ss
compute_phase-Finished policy ss succeeded h e _ =
    let d = (compute_phase_iff policy ss succeeded h).0 e in inl (d.1, d.2)
compute_phase-Finished policy ss failed h e _ =
    let d = (compute_phase_iff policy ss failed h).0 e in inr (d.0, d.2)
compute_phase-Finished policy ss PodPhase.pending h e q = ground arith
compute_phase-Finished policy ss PodPhase.running h e q = ground arith

abbrev pub HasStatus : List ContainerStatus → List Container → Type 0
HasStatus ss cs =
    All (λ (c : Container). (s : ContainerStatus) × (find_status c.name ss ≡ some s)) cs

Finished-IsSettled :
    (policy : RestartPolicy) (ss : List ContainerStatus) (cs : List Container)
    → Finished policy ss
    → HasStatus ss cs
    → All (λ (c : Container). IsSettled policy (find_status c.name ss)) cs
Finished-IsSettled policy ss [] f h = tt
Finished-IsSettled policy ss (c ∷ cs) f ((s, e), rest) =
    (rw e (stopped-IsSettled policy s (one f)), Finished-IsSettled policy ss cs f rest)
  where
    one :
        Finished policy ss
        → ((has_succeeded s.state ≡ true) × (policy ≢ RestartPolicy.always))
          ⊎ ((has_stopped s.state ≡ true) × (policy ≡ RestartPolicy.never))
    one (inl (a, p)) = inl (all-find_status has_succeeded c.name ss s a e, p)
    one (inr (a, p)) = inr (all-find_status has_stopped c.name ss s a e, p)

module _ (host : Host) where
  -- A loaded pod with a uid, whose phase is succeeded or failed as computed from its fewer than 2^31
  -- container statuses, with a status for each container, and whose sandbox docker finds and does
  -- not report terminated, is not restarted: a reconciliation only inspects the sandbox.
  pub reconcile-finished :
      (uid : Uuid) (pod : NodePod) (response : ContainerInspectResponse) (calls : List Call)
      → pod.metadata.uid ≡ some uid
      → host.inspects calls (sandbox_id host uid pod) ≡ answered response
      → is_terminated (container_state response.state) ≡ false
      → length pod.status.container_statuses < 2_147_483_648
      → compute_phase pod.spec.restart_policy pod.status.container_statuses ≡ pod.status.phase
      → (pod.status.phase ≡ succeeded) ⊎ (pod.status.phase ≡ failed)
      → HasStatus pod.status.container_statuses pod.spec.containers
      → reconcile host pod calls
        ≡ (ok tt, calls ++ inspect_container (sandbox_id host uid pod) ∷ [])
  reconcile-finished uid pod response calls e found up n computed phase has =
      reconcile-Settled host uid pod response calls e found up
        (Finished-IsSettled _ _ _ (compute_phase-Finished _ _ _ n computed phase) has)
