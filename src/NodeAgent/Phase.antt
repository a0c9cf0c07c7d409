-- ===== src/NodeAgent/Phase.antt =====
-- What the computed phase says of the containers, and that it agrees with the restarts.
use r_mini_k8s.Prelude.{
  ℕ, suc, ◌+◌, ◌<◌, ◌≤◌, Bool, true, false, List, [], ◌∷◌, ◌≡◌, ◌≢◌, ◌↔◌, ◌⊎◌, refl, arith, nat_eq,
  ◌==◌, nat_beq, count, length, any, all, ltb,
}
use r_mini_k8s.Objects.{
  PodPhase, failed, pending, running, succeeded, RestartPolicy, ContainerStatus, ContainerState,
  terminated, waiting, state_eq,
}
use r_mini_k8s.NodeAgent.Status.{
  Tally, tally, tally_state, no_tally, stopped_phase, phase_of, compute_phase,
}

abbrev pub runs : ContainerState → Bool
runs ContainerState.running = true
runs _ = false

abbrev pub waits : ContainerState → Bool
waits waiting = true
waits _ = false

abbrev pub has_stopped : ContainerState → Bool
has_stopped (terminated _) = true
has_stopped _ = false

abbrev pub has_succeeded : ContainerState → Bool
has_succeeded (terminated exit_code) = exit_code == 0
has_succeeded _ = false

abbrev of_state : (ContainerState → Bool) → List ContainerStatus → ℕ
of_state p ss = count (λ (s : ContainerStatus). p s.state) ss

abbrev pub some_state : (ContainerState → Bool) → List ContainerStatus → Bool
unfolding any
some_state p ss = any (λ (s : ContainerStatus). p s.state) ss

abbrev pub all_states : (ContainerState → Bool) → List ContainerStatus → Bool
unfolding all
all_states p ss = all (λ (s : ContainerStatus). p s.state) ss

abbrev one_if : Bool → ℕ
one_if true = 1
one_if false = 0

-- Each counter is less than `n`.
abbrev Below : ℕ → Tally → Type 0
Below n t = (t.running < n) × (t.waiting < n) × (t.stopped < n) × (t.succeeded < n)

-- Each counter has grown by so much.
abbrev Grown : Tally → Tally → ℕ → ℕ → ℕ → ℕ → Type 0
Grown t t' r w s d =
    (t'.running ≡ t.running + r)
    × (t'.waiting ≡ t.waiting + w)
    × (t'.stopped ≡ t.stopped + s)
    × (t'.succeeded ≡ t.succeeded + d)

tally_state-Grown :
    (state : ContainerState) (t : Tally)
    → Below 4_294_967_295 t
    → Grown t
        (tally_state state t)
        (one_if (runs state))
        (one_if (waits state))
        (one_if (has_stopped state))
        (one_if (has_succeeded state))
unfolding tally_state
tally_state-Grown ContainerState.running t b = ground arith
tally_state-Grown waiting t b = ground arith
tally_state-Grown (terminated exit_code) t b = ground arith

of_state_cons :
    (p : ContainerState → Bool) (s : ContainerStatus) (ss : List ContainerStatus)
    → of_state p (s ∷ ss) ≡ one_if (p s.state) + of_state p ss
unfolding count
of_state_cons p s ss = ground arith

one_if_le : (b : Bool) → one_if b ≤ 1
one_if_le b = ground arith

tally-Grown :
    (n : ℕ) (ss : List ContainerStatus) (t : Tally)
    → Below n t
    → n + length ss ≤ 4_294_967_295
    → Grown t
        (tally t ss)
        (of_state runs ss)
        (of_state waits ss)
        (of_state has_stopped ss)
        (of_state has_succeeded ss)
unfolding tally count
tally-Grown n [] t b h = ground arith
tally-Grown n (s ∷ ss) t b h =
    let t' = tally_state s.state t in
    let g = tally_state-Grown s.state t (omega arith, omega arith, omega arith, omega arith) in
    let b' : Below (suc n) t' = (
      omega (arith, one_if_le (runs s.state)),
      omega (arith, one_if_le (waits s.state)),
      omega (arith, one_if_le (has_stopped s.state)),
      omega (arith, one_if_le (has_succeeded s.state)),
    ) in
    let rest = tally-Grown (suc n) ss t' b' (omega arith) in
    (
      omega (arith, of_state_cons runs s ss),
      omega (arith, of_state_cons waits s ss),
      omega (arith, of_state_cons has_stopped s ss),
      omega (arith, of_state_cons has_succeeded s ss),
    )

some_state_lem :
    (p : ContainerState → Bool) (ss : List ContainerStatus)
    → some_state p ss ≡ ltb 0 (of_state p ss)
unfolding any count
some_state_lem p [] = refl
some_state_lem p (s ∷ ss) = ground (arith, some_state_lem p ss)

of_state_le : (p : ContainerState → Bool) (ss : List ContainerStatus) → of_state p ss ≤ length ss
unfolding count
of_state_le p [] = omega arith
of_state_le p (s ∷ ss) = ground (arith, of_state_le p ss)

all_states_lem :
    (p : ContainerState → Bool) (ss : List ContainerStatus)
    → all_states p ss ≡ nat_beq (of_state p ss) (length ss)
unfolding all count
all_states_lem p [] = refl
all_states_lem p (s ∷ ss) = ground (arith, all_states_lem p ss, of_state_le p ss)

one_state :
    (state : ContainerState)
    → (one_if (runs state) + one_if (waits state) + one_if (has_stopped state) ≡ 1)
      × (one_if (has_succeeded state) ≤ one_if (has_stopped state))
one_state state = ground arith

-- Every container is in one state, and only stopped ones have succeeded.
of_state_sum :
    (ss : List ContainerStatus)
    → (of_state runs ss + of_state waits ss + of_state has_stopped ss ≡ length ss)
      × (of_state has_succeeded ss ≤ of_state has_stopped ss)
unfolding count
of_state_sum [] = (omega arith, omega arith)
of_state_sum (s ∷ ss) = ground (
  arith,
  of_state_sum ss,
  one_state s.state,
  of_state_cons runs s ss,
  of_state_cons waits s ss,
  of_state_cons has_stopped s ss,
  of_state_cons has_succeeded s ss,
)

-- What a phase says of the counters of `n` containers.
abbrev Counted : RestartPolicy → ℕ → Tally → PodPhase → Type 0
Counted policy n t pending = (0 < t.waiting) ⊎ (n ≡ 0)
Counted policy n t running =
    (t.waiting ≡ 0)
    × (0 < n)
    × ((0 < t.running)
        ⊎ (policy ≡ RestartPolicy.always)
        ⊎ (policy ≡ RestartPolicy.on_failure) × (t.succeeded ≢ n))
Counted policy n t succeeded = (0 < n) × (t.succeeded ≡ n) × (policy ≢ RestartPolicy.always)
Counted policy n t failed = (t.stopped ≡ n) × (t.succeeded ≢ n) × (policy ≡ RestartPolicy.never)

phase_of-Counted :
    (policy : RestartPolicy) (n : ℕ) (t : Tally)
    → n < 2_147_483_648
    → t.running + t.waiting + t.stopped ≡ n
    → t.succeeded ≤ t.stopped
    → Counted policy n t (phase_of policy t)
unfolding phase_of stopped_phase
phase_of-Counted policy n t h e d = ground arith

-- At most one phase fits the counters.
Counted-unique :
    (policy : RestartPolicy) (n : ℕ) (t : Tally) (p q : PodPhase)
    → t.running + t.waiting + t.stopped ≡ n
    → t.succeeded ≤ t.stopped
    → Counted policy n t p
    → Counted policy n t q
    → p ≡ q
Counted-unique policy n t p q e d hp hq = ground arith

-- The same of the containers.
abbrev pub Describes : RestartPolicy → List ContainerStatus → PodPhase → Type 0
Describes policy ss pending = (some_state waits ss ≡ true) ⊎ (length ss ≡ 0)
Describes policy ss running =
    (some_state waits ss ≡ false)
    × (0 < length ss)
    × ((some_state runs ss ≡ true)
        ⊎ (policy ≡ RestartPolicy.always)
        ⊎ (policy ≡ RestartPolicy.on_failure) × (all_states has_succeeded ss ≡ false))
Describes policy ss succeeded =
    (0 < length ss) × (all_states has_succeeded ss ≡ true) × (policy ≢ RestartPolicy.always)
Describes policy ss failed =
    (all_states has_stopped ss ≡ true)
    × (all_states has_succeeded ss ≡ false)
    × (policy ≡ RestartPolicy.never)

Counted-Describes :
    (policy : RestartPolicy) (ss : List ContainerStatus) (t : Tally) (p : PodPhase)
    → Grown no_tally t
        (of_state runs ss)
        (of_state waits ss)
        (of_state has_stopped ss)
        (of_state has_succeeded ss)
    → Counted policy (length ss) t p ↔ Describes policy ss p
Counted-Describes policy ss t pending g = ground (arith, some_state_lem waits ss)
Counted-Describes policy ss t running g =
    ground (arith, some_state_lem waits ss, some_state_lem runs ss, all_states_lem has_succeeded ss)
Counted-Describes policy ss t succeeded g = ground (arith, all_states_lem has_succeeded ss)
Counted-Describes policy ss t failed g =
    ground (arith, all_states_lem has_stopped ss, all_states_lem has_succeeded ss)

-- For fewer than 2^31 inspected containers, the computed phase is pending if and only if one of them
-- waits or there are none; running if and only if none waits, there is one, and one runs or the
-- policy is always or it is on-failure and one has not succeeded; succeeded if and only if there is
-- one, all have succeeded and the policy is not always; failed if and only if all have stopped, one
-- has not succeeded and the policy is never. So a container that docker is restarting, which counts
-- as waiting, makes the pod pending even if another runs, unlike the description of `PodPhase`.
pub compute_phase_iff :
    (policy : RestartPolicy) (ss : List ContainerStatus) (p : PodPhase)
    → length ss < 2_147_483_648
    → (compute_phase policy ss ≡ p) ↔ Describes policy ss p
unfolding compute_phase
compute_phase_iff policy ss p h = (
  λ e. (Counted-Describes policy ss t p grown).0 (rw (← e) found),
  λ d.
      Counted-unique policy (length ss) t (phase_of policy t) p
        (ground (arith, grown, of_state_sum ss)) (ground (arith, grown, of_state_sum ss)) found
        ((Counted-Describes policy ss t p grown).1 d),
)
  where
    t : Tally
    t = tally no_tally ss

    grown :
        Grown no_tally t
          (of_state runs ss)
          (of_state waits ss)
          (of_state has_stopped ss)
          (of_state has_succeeded ss)
    grown = tally-Grown 1 ss no_tally (ground arith) (omega arith)

    found : Counted policy (length ss) t (phase_of policy t)
    found =
        phase_of-Counted policy (length ss) t h (ground (arith, grown, of_state_sum ss))
          (ground (arith, grown, of_state_sum ss))
