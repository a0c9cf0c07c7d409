-- ===== src/Examples/Routers.antt =====
-- The serverless router on concrete inputs.
use r_mini_k8s.Prelude.{
  ℕ, ◌≡◌, ◌≢◌, ◌↔◌, String, none, some, [], ◌∷◌, arith, ok, string_eq, inl, inr, if◌then◌else◌,
  ◌==◌, zero, suc, In, ◌⊎◌, Bool-cases, true, false,
}
use mathlib.Core.Path.{subst}
use r_mini_k8s.Prelude.HashMap.{HashMap, get}
use r_mini_k8s.Objects.{Workflow, State, task, choice, Service, workflow}
use r_mini_k8s.Serverless.Walk.{Network, failure, handle_workflow}
use r_mini_k8s.Serverless.Termination.{handle_workflow-Ends, Ends, IsAcyclic, successors}
use r_mini_k8s.Serverless.Route.{poll, polls}
use r_mini_k8s.Serverless.Activation.{poll_iff, IsFirstReady}
use r_mini_k8s.ApiServer.Etcd.{
  AppState, success, failure as refused, internal_server_error, etcd_put,
}
use r_mini_k8s.ApiServer.Functions.{workflow_create}
use r_mini_k8s.ApiServer.Workflows.{workflow_create_iff, AllSound, stored_with}
use r_mini_k8s.Examples.Data.{meta, web_service}

abbrev offline : Network
offline = record {
  get_func = λ i name. failure "down";
  call_func = λ i host body. failure "down";
  read = λ body. none;
  ordinal = λ i. "1st";
}

-- A choice that leads to a task.
abbrev flow : Workflow
flow = record {
  metadata = meta "flow" [];
  spec = record {
    start_at = "pick";
    states =
        ("pick", choice record { rules = []; default = "run" })
        ∷ ("run", task record { resource = "f"; next = none })
        ∷ [];
  };
}

abbrev rank : String → ℕ
rank name = if name == "pick" then 1 else 0

rank-IsAcyclic : IsAcyclic flow.spec.states rank
unfolding get
rank-IsAcyclic name name' state state' e i e' =
    elim (by_name state name (Bool-cases ("pick" == name)) e) [
      | inl (first, same) ↦ elim (subst (λ s. In name' (successors s)) same i) [
        | inl run ↦ rw (first, ← run) (omega arith)
        | inr i' ↦ absurd i'
      ]
      | inr same ↦ absurd (subst (λ s. In name' (successors s)) same i)
    ]
  where
    by_name :
        (s : State) (n : String)
        → (("pick" == n) ≡ true) ⊎ (("pick" == n) ≡ false)
        → get n flow.spec.states ≡ some s
        → ((n ≡ "pick") × (s ≡ choice record { rules = []; default = "run" }))
          ⊎ (s ≡ task record { resource = "f"; next = none })
    by_name s n (inl t) h = grind (arith, string_eq.beq_iff "pick" n)
    by_name s n (inr f) h = grind arith

handle_workflow-Ends_example :
    Ends offline (handle_workflow offline 3 "flow" "{}" (some (workflow flow)))
handle_workflow-Ends_example =
    handle_workflow-Ends offline flow rank 3 "flow" "{}" rank-IsAcyclic (omega arith)

-- The service has an endpoint from the second round on.
abbrev found : ℕ → Service
found zero = web_service (some 9)
found (suc n) =
    let empty : Service = web_service (some 9) in
    record empty { spec = record (empty.spec) { endpoints = (10, tt) ∷ [] } }

abbrev services : ℕ → HashMap String Service
services n = ("web", found n) ∷ []

poll_iff_example :
    (poll services "web" polls 0 ≢ none)
    × ((k : ℕ) → (poll services "web" polls 0 ≡ some (ok k)) ↔ IsFirstReady services "web" 0 k)
poll_iff_example = poll_iff services "web"

-- Without the function f the workflow is refused.
abbrev empty_server : AppState
empty_server = record { etcd = []; service_ip_pool = [] }

workflow_create_iff_example :
    AllSound empty_server flow.spec.states flow.spec.states
      × (workflow_create 4 empty_server (workflow flow)
          ≡ (etcd_put empty_server (stored_with 4 flow), success tt))
    ⊎ (¬ AllSound empty_server flow.spec.states flow.spec.states)
      × (workflow_create 4 empty_server (workflow flow)
          ≡ (empty_server, refused internal_server_error))
workflow_create_iff_example = workflow_create_iff 4 empty_server flow
