-- ===== src/ApiServer/Workflows.antt =====
-- Which workflows are stored.
use r_mini_k8s.Prelude.{
  String, Bool, true, ◌&&◌, ◌≡◌, ◌⊎◌, ◌↔◌, inl, inr, refl, ap, Option, none, some, [], ◌∷◌, In,
  arith, string_eq, Bool-cases,
}
use mathlib.Core.Path.{subst}
use r_mini_k8s.Prelude.HashMap.{HashMap, contains_key}
use r_mini_k8s.Objects.{KubeObject, workflow, State, task, choice, Task, Choice, Workflow, Uuid}
use r_mini_k8s.ApiServer.Etcd.{
  AppState, HandlerResult, success, failure, panicked, internal_server_error, etcd_put,
  etcd_get_object, key_of,
}
use r_mini_k8s.ApiServer.Functions.{
  is_success, next_exists, valid_state, valid_states, validate_workflow, put_if, workflow_create,
}

-- The task runs a stored function, and a state that it names as the next is one of the workflow.
abbrev pub IsSound : AppState → HashMap String State → Task → Type 0
IsSound app states t =
    ((object : KubeObject) × (etcd_get_object app (key_of "functions" t.resource) "function"
        ≡ success object))
    × ((t.next ≡ none)
        ⊎ ((next : String) × (t.next ≡ some next) × (contains_key next states ≡ true)))

is_success_iff :
    (r : HandlerResult KubeObject)
    → (is_success r ≡ true) ↔ ((object : KubeObject) × (r ≡ success object))
is_success_iff (success object) = (λ _. (object, refl), λ _. refl)
is_success_iff (failure code) = (λ e. ground arith, λ (object, e). ground arith)
is_success_iff panicked = (λ e. ground arith, λ (object, e). ground arith)

next_exists_iff :
    (states : HashMap String State) (o : Option String)
    → (next_exists states o ≡ true)
      ↔ ((o ≡ none) ⊎ ((next : String) × (o ≡ some next) × (contains_key next states ≡ true)))
unfolding next_exists
next_exists_iff states none = (λ _. inl refl, λ _. refl)
next_exists_iff states (some next) = (
  λ e. inr (next, refl, e),
  λ h. elim h [
    | inl e ↦ ground arith
    | inr (next', e, c) ↦ let same : next ≡ next' = ground arith in rw same c
  ],
)

and_iff : (a b : Bool) → ((a && b) ≡ true) ↔ ((a ≡ true) × (b ≡ true))
and_iff a b = ground arith

valid_state-IsSound :
    (app : AppState) (states : HashMap String State) (t : Task)
    → (valid_state app states (task t) ≡ true) ↔ IsSound app states t
unfolding valid_state
valid_state-IsSound app states t =
    let found = is_success_iff (etcd_get_object app (key_of "functions" t.resource) "function") in
    let next = next_exists_iff states t.next in
    let both = and_iff _ _ in
    (λ e. (found.0 (both.0 e).0, next.0 (both.0 e).1), λ s. both.1 (found.1 s.0, next.1 s.1))

valid_choice :
    (app : AppState) (states : HashMap String State) (c : Choice)
    → valid_state app states (choice c) ≡ true
unfolding valid_state
valid_choice app states c = refl

-- All tasks among the states.
abbrev pub AllSound : AppState → HashMap String State → HashMap String State → Type 0
AllSound app states rest =
    (name : String) (t : Task) → In (name, task t) rest → IsSound app states t

valid_states-AllSound :
    (app : AppState) (states rest : HashMap String State)
    → (valid_states app states rest ≡ true) ↔ AllSound app states rest
unfolding valid_states
valid_states-AllSound app states [] = (λ _ name t i. absurd i, λ _. refl)
valid_states-AllSound app states ((key, state) ∷ rest) =
    let later = valid_states-AllSound app states rest in
    let both = and_iff (valid_state app states state) (valid_states app states rest) in
    (
      λ e name t i. elim i [
        | inl same ↦
            let state_same : state ≡ task t = ap (λ (pair : String × State). pair.1) same in
            (valid_state-IsSound app states t).0
              (subst (λ s. valid_state app states s ≡ true) state_same (both.0 e).0)
        | inr i' ↦ later.0 (both.0 e).1 name t i'
      ],
      λ s. both.1 (
        one state (λ t e. s key t (inl (ap (λ x. (key, x)) e))),
        later.1 (λ name t i. s name t (inr i)),
      ),
    )
  where
    one :
        (st : State)
        → ((t : Task) → st ≡ task t → IsSound app states t)
        → valid_state app states st ≡ true
    one (task t) h = (valid_state-IsSound app states t).1 (h t refl)
    one (choice c) h = valid_choice app states c

abbrev pub stored_with : Uuid → Workflow → KubeObject
stored_with uid w = workflow (record w { metadata = record (w.metadata) { uid = some uid } })

-- Either each task of the workflow runs a stored function and names no next state or one of the
-- workflow, and then it is answered with success and stored with the new identifier; or this is not
-- so, and then it is answered with an internal error and nothing changes.
pub workflow_create_iff :
    (uid : Uuid) (app : AppState) (w : Workflow)
    → AllSound app w.spec.states w.spec.states
        × (workflow_create uid app (workflow w) ≡ (etcd_put app (stored_with uid w), success tt))
      ⊎ (¬ AllSound app w.spec.states w.spec.states)
        × (workflow_create uid app (workflow w) ≡ (app, failure internal_server_error))
unfolding workflow_create validate_workflow put_if
workflow_create_iff uid app w =
    let check = valid_states-AllSound app w.spec.states w.spec.states in
    elim (Bool-cases (valid_states app w.spec.states w.spec.states)) [
      | inl e ↦ inl (check.0 e, rw e refl)
      | inr e ↦ inr (λ s. ground (arith, check.1 s), rw e refl)
    ]
