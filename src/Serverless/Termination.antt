-- ===== src/Serverless/Termination.antt =====
-- A workflow without cycles comes to its end.
use r_mini_k8s.Prelude.{
  ℕ, suc, zero, ◌<◌, ◌+◌, ◌≡◌, ◌⊎◌, inl, inr, refl, sym, ap, ◌∙◌, String, Option, none, some, List,
  [], ◌∷◌, map, In, string_eq, arith, Outcome, ok, panics, Option-cases, Bool-cases,
}
use mathlib.Core.Path.{subst}
use r_mini_k8s.Prelude.HashMap.{HashMap, get}
use r_mini_k8s.Objects.{
  Function, FunctionStatus, Workflow, State, task, choice, Task, ChoiceRule, Value, match_with,
  workflow,
}
use r_mini_k8s.Serverless.Walk.{
  Network, Walk, Turn, continues, breaks, unwraps, Reply, replied, failure, state_at, named, chosen,
  round, after_get, call_task, after_call, walk_on, began, report, reported, handle_workflow,
}

-- The names that a state may go on to.
abbrev pub successors : State → List String
successors (task t) = elim t.next [ none ↦ [] | some name ↦ name ∷ [] ]
successors (choice c) = c.default ∷ map (λ (rule : ChoiceRule). rule.next) c.rules

-- Each state that a state of the workflow goes on to has a smaller rank.
abbrev pub IsAcyclic : HashMap String State → (String → ℕ) → Type 0
IsAcyclic states rank =
    (name name' : String) (state state' : State)
    → get name states ≡ some state
    → In name' (successors state)
    → get name' states ≡ some state'
    → rank name' < rank name

-- The state to go on with is none, or one of these names has it.
abbrev GoesTo : HashMap String State → List String → Option (String × State) → Type 0
GoesTo states names next =
    (next ≡ none)
    ⊎ ((shown name : String) × (state : State) × (next ≡ some (shown, state))
        × In name names
        × (get name states ≡ some state))

-- The API server has answered with a function that has no status.
abbrev pub HasUnset : Network → Type 0
HasUnset network =
    (i : ℕ) × (name : String) × (f : Function) × (network.get_func i name ≡ replied f)
    × (f.status ≡ none)

-- A result, or a panic for want of a status
abbrev pub Ends : {A : Type 0} → Network → Option (Outcome A) → Type 0
Ends {A = A} network result =
    ((a : A) × (result ≡ some (ok a))) ⊎ (result ≡ some panics) × HasUnset network

abbrev Continues : Network → HashMap String State → List String → Turn → Type 0
Continues network states names (continues walk) = GoesTo states names walk.next
Continues network states names (breaks walk) = Unit
Continues network states names unwraps = HasUnset network

named-GoesTo :
    (states : HashMap String State) (names : List String) (shown name : String)
    → In name names
    → GoesTo states names (named shown (get name states))
named-GoesTo states names shown name i = elim (Option-cases (get name states)) [
  | inl e ↦ inl (rw e refl)
  | inr (state, e) ↦ inr (shown, name, state, rw e refl, i, e)
]

chosen-In :
    (read : String → Option (HashMap String Value)) (body default : String)
    (rules : List ChoiceRule)
    → In (chosen read body default rules) (default ∷ map (λ (rule : ChoiceRule). rule.next) rules)
unfolding chosen
chosen-In read body default [] = inl refl
chosen-In read body default (rule ∷ rules) = elim (Bool-cases (match_with read rule body)) [
  | inl e ↦ inr (inl (rw e refl))
  | inr e ↦
      let same : chosen read body default (rule ∷ rules) ≡ chosen read body default rules =
        rw e refl in
      subst (λ name. In name (default ∷ map (λ (rule : ChoiceRule). rule.next) (rule ∷ rules)))
        (sym same) (later (chosen-In read body default rules))
]
  where
    later :
        {name : String}
        → In name (default ∷ map (λ (rule : ChoiceRule). rule.next) rules)
        → In name (default ∷ map (λ (rule : ChoiceRule). rule.next) (rule ∷ rules))
    later (inl e) = inl e
    later (inr i) = inr (inr i)

module _ (network : Network) (w : Workflow) where
  state_at-GoesTo :
      (next : Option String)
      → GoesTo w.spec.states
          (elim next [ none ↦ [] | some name ↦ name ∷ [] ])
          (state_at w.spec.states next)
  unfolding state_at
  state_at-GoesTo none = inl refl
  state_at-GoesTo (some name) = named-GoesTo w.spec.states (name ∷ []) name name (inl refl)

  call-Continues :
      (t : Task) (walk : Walk) (r : Reply String)
      → Continues network w.spec.states (successors (task t)) (after_call network w t walk r)
  unfolding after_call
  call-Continues t walk (replied res) = state_at-GoesTo t.next
  call-Continues t walk (failure e) = tt

  task-Continues :
      (shown : String) (t : Task) (walk : Walk) (f : Function) (status : Option FunctionStatus)
      → network.get_func walk.i t.resource ≡ replied f
      → f.status ≡ status
      → Continues network w.spec.states
          (successors (task t))
          (call_task network w shown t walk f status)
  unfolding call_task
  task-Continues shown t walk f none got e = (walk.i, t.resource, f, got, e)
  task-Continues shown t walk f (some status) got e =
      call-Continues t _ (network.call_func walk.i status.host walk.body)

  get-Continues :
      (shown : String) (t : Task) (walk : Walk) (r : Reply Function)
      → network.get_func walk.i t.resource ≡ r
      → Continues network w.spec.states (successors (task t)) (after_get network w shown t walk r)
  unfolding after_get
  get-Continues shown t walk (replied f) got = task-Continues shown t walk f f.status got refl
  get-Continues shown t walk (failure e) got = tt

  round-Continues :
      (walk : Walk) (shown : String) (state : State)
      → Continues network w.spec.states (successors state) (round network w walk shown state)
  unfolding round
  round-Continues walk shown (choice c) =
      named-GoesTo w.spec.states (successors (choice c)) w.spec.start_at _
        (chosen-In network.read walk.body c.default c.rules)
  round-Continues walk shown (task t) =
      get-Continues shown t walk (network.get_func walk.i t.resource) refl

  -- Any fuel above the ranks of these names is enough to go on with one of them.
  Enough : (String → ℕ) → ℕ → List String → Type 0
  Enough rank fuel names =
      (name : String) (state : State)
      → In name names
      → get name w.spec.states ≡ some state
      → rank name < fuel

  after_round :
      (fuel : ℕ) (names : List String) (turn : Turn)
      → ((walk : Walk)
          → GoesTo w.spec.states names walk.next
          → Ends network (walk_on network w fuel walk walk.next))
      → Continues network w.spec.states names turn
      → Ends network (elim turn as (λ _. Option (Outcome Walk)) [
        | continues walk' ↦ walk_on network w fuel walk' walk'.next
        | breaks walk' ↦ some (ok walk')
        | unwraps ↦ some panics
      ])
  after_round fuel names (continues walk) go c = go walk c
  after_round fuel names (breaks walk) go c = inl (walk, refl)
  after_round fuel names unwraps go c = inr (refl, c)

  walk_on-Ends :
      (rank : String → ℕ) (fuel : ℕ) (names : List String) (walk : Walk)
      (next : Option (String × State))
      → IsAcyclic w.spec.states rank
      → Enough rank fuel names
      → GoesTo w.spec.states names next
      → Ends network (walk_on network w (suc fuel) walk next)
  unfolding walk_on Enough
  walk_on-Ends rank fuel names walk none acyclic enough g = inl (walk, refl)
  walk_on-Ends rank fuel names walk (some n) acyclic enough (inl e) = ground arith
  walk_on-Ends rank zero names walk (some (shown, state)) acyclic enough
        (inr (s', name, state', e, i, h)) =
      absurd (omega (arith, enough name state' i h))
  walk_on-Ends rank (suc fuel) names walk (some (shown, state)) acyclic enough
        (inr (s', name, state', e, i, h)) =
      after_round (suc fuel) (successors state) (round network w walk shown state)
        (λ walk' g. walk_on-Ends rank fuel (successors state) walk' walk'.next acyclic smaller g)
        (round-Continues walk shown state)
    where
      same : state' ≡ state
      same = grind (arith, e)

      smaller : Enough rank fuel (successors state)
      smaller name' state'' i' h' =
          omega (
            arith,
            enough name state' i h,
            acyclic name name' state state'' (h ∙ ap some same) i' h',
          )

  walk_on_from_start :
      (rank : String → ℕ) (fuel : ℕ) (name args : String)
      → IsAcyclic w.spec.states rank
      → rank w.spec.start_at < fuel
      → Ends network (
          walk_on network w (suc fuel) (began network w name args) (began network w name args).next)
  unfolding began Enough
  walk_on_from_start rank fuel name args acyclic h =
      walk_on-Ends rank fuel (w.spec.start_at ∷ []) (began network w name args)
        (began network w name args).next acyclic
        (λ n state i e. elim i [
          | inl same ↦ subst (λ k. rank k < fuel) same h
          | inr none_left ↦ absurd none_left
        ])
        (state_at-GoesTo (some w.spec.start_at))

reported-Ends :
    (network : Network) (result : Option (Outcome Walk))
    → Ends network result
    → Ends network (reported result)
reported-Ends network result (inl (walk, e)) = inl (report walk, ap reported e)
reported-Ends network result (inr (e, unset)) = inr (ap reported e, unset)

-- If each state goes on only to states of smaller rank (no cycle), then, whatever the functions
-- answer, the loop ends within as many rounds as the rank of the first state and one more: either
-- the request for the workflow is answered with a text, or the handler panics, and then the API
-- server has answered with a function that has no status.
pub handle_workflow-Ends :
    (network : Network) (w : Workflow) (rank : String → ℕ) (fuel : ℕ) (name args : String)
    → IsAcyclic w.spec.states rank
    → rank w.spec.start_at + 1 < fuel
    → Ends network (handle_workflow network fuel name args (some (workflow w)))
unfolding handle_workflow
handle_workflow-Ends network w rank zero name args acyclic h = absurd (omega arith)
handle_workflow-Ends network w rank (suc fuel) name args acyclic h =
    reported-Ends network _ (walk_on_from_start network w rank fuel name args acyclic (omega arith))
