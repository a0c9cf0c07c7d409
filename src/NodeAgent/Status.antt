-- ===== src/NodeAgent/Status.antt =====
-- The phase and the conditions of a pod from the states of its containers (pod.rs).
use r_mini_k8s.Prelude.{
  ℕ, ◌%◌, Bool, true, false, ◌&&◌, not, Option, none, some, List, [], ◌∷◌, nat_eq, ◌==◌, count,
  length, u32_mod, add_u32, ltb, if◌then◌else◌,
}
use r_mini_k8s.Prelude.HashMap.{HashMap, insert}
use r_mini_k8s.Objects.{
  PodSpec, PodPhase, failed, pending, running, succeeded, RestartPolicy, policy_eq, ContainerStatus,
  ContainerState, terminated, waiting, state_eq, PodCondition, PodConditionType, containers_ready,
  ready, condition_eq,
}

-- The four counters of `compute_phase`, which are `i32`.
pub record Tally : Type 0 where
  pub running : ℕ
  pub waiting : ℕ
  pub stopped : ℕ
  pub succeeded : ℕ

-- `n > 0` for an `i32`
abbrev pub positive_i32 : ℕ → Bool
positive_i32 n = ltb 0 n && ltb n 2_147_483_648

-- One round of the loop of `compute_phase`
unfoldable pub tally_state : ContainerState → Tally → Tally
tally_state ContainerState.running t = record t { running = add_u32 t.running 1 }
tally_state waiting t = record t { waiting = add_u32 t.waiting 1 }
tally_state (terminated exit_code) t = record t {
  stopped = add_u32 t.stopped 1;
  succeeded = if exit_code == 0 then add_u32 t.succeeded 1 else t.succeeded;
}

unfoldable pub tally : Tally → List ContainerStatus → Tally
unfolding tally_state
tally t [] = t
tally t (status ∷ statuses) = tally (tally_state status.state t) statuses

abbrev pub no_tally : Tally
no_tally = record { running = 0; waiting = 0; stopped = 0; succeeded = 0 }

unfoldable pub stopped_phase : RestartPolicy → Tally → PodPhase
stopped_phase policy t =
    if policy == RestartPolicy.always
    then running
    else if t.stopped == t.succeeded
    then succeeded
    else if policy == RestartPolicy.never
    then failed
    else running

unfoldable pub phase_of : RestartPolicy → Tally → PodPhase
unfolding stopped_phase
phase_of policy t =
    if positive_i32 t.waiting
    then pending
    else if positive_i32 t.running
    then running
    else if t.running == 0 && positive_i32 t.stopped
    then stopped_phase policy t
    else pending

unfoldable pub compute_phase : RestartPolicy → List ContainerStatus → PodPhase
unfolding phase_of tally
compute_phase policy containers = phase_of policy (tally no_tally containers)

abbrev pub is_running : ContainerStatus → Bool
is_running status = status.state == ContainerState.running

-- The conditions of the status before are kept, but for these two.
unfoldable pub determine_conditions :
    PodSpec
    → HashMap PodConditionType PodCondition
    → List ContainerStatus
    → HashMap PodConditionType PodCondition
unfolding insert count
determine_conditions spec conditions containers =
    let ready_count = count is_running containers % u32_mod in
    let all_ready = ready_count == length spec.containers % u32_mod in
    insert ready (record { status = all_ready })
      (insert containers_ready (record { status = all_ready }) conditions)

unfoldable pub should_restart_container : RestartPolicy → Option ContainerStatus → Bool
should_restart_container policy none = true
should_restart_container policy (some status) = elim status.state [
  | ContainerState.running ↦ false
  | waiting ↦ false
  | terminated exit_code ↦ elim policy [
    | RestartPolicy.always ↦ true
    | RestartPolicy.never ↦ false
    | RestartPolicy.on_failure ↦ not (exit_code == 0)
  ]
]
