-- ===== src/Serverless/Walk.antt =====
-- `handle_workflow` (workflow.rs). The answers of the API server and of the functions, the reading of
-- JSON and the printing of ordinals are a parameter; an answer may depend on the round of the loop.
-- The loop runs on fuel: it ends only if the states that it goes through do.
use r_mini_k8s.Prelude.{
  ℕ, suc, zero, String, Bool, true, false, Option, none, some, List, [], ◌∷◌, string_eq, add_u32,
  text, if◌then◌else◌, Outcome, ok, error, panics, ◌>>=◌,
}
use r_mini_k8s.Prelude.HashMap.{HashMap, get}
use r_mini_k8s.Objects.{
  Function, FunctionStatus, Workflow, State, task, choice, Task, ChoiceRule, match_with, Value,
  KubeObject, workflow, function,
}

-- An answer, or an error with its text.
pub data Reply (A : Type 0) : Type 0 where
  replied : A → Reply A
  failure : String → Reply A

pub record Network : Type 0 where
  pub get_func : ℕ → String → Reply Function
  pub call_func : ℕ → String → String → Reply String
  pub read : String → Option (HashMap String Value)
  pub ordinal : ℕ → String

-- The variables of the loop. `next` is a name that is printed, with the state.
pub record Walk : Type 0 where
  pub next : Option (String × State)
  pub body : String
  pub final_res : String
  pub i : ℕ
  pub succeed : Bool

-- The end of a round: the loop goes on, breaks, or panics.
pub data Turn : Type 0 where
  continues : Walk → Turn
  breaks : Walk → Turn
  unwraps : Turn

abbrev pub named : String → Option State → Option (String × State)
named name none = none
named name (some state) = some (name, state)

unfoldable pub state_at : HashMap String State → Option String → Option (String × State)
unfolding get
state_at states none = none
state_at states (some name) = named name (get name states)

abbrev say : Walk → List String → Walk
say w pieces = record w { final_res = text (w.final_res ∷ pieces) }

-- The name of the state of the first rule that matches the body, or the default.
unfoldable pub chosen :
    (String → Option (HashMap String Value)) → String → String → List ChoiceRule → String
unfolding match_with
chosen read body default [] = default
chosen read body default (rule ∷ rules) =
    if match_with read rule body then rule.next else chosen read body default rules

unfoldable pub any_match :
    (String → Option (HashMap String Value)) → String → List ChoiceRule → Bool
unfolding match_with
any_match read body [] = false
any_match read body (rule ∷ rules) =
    if match_with read rule body then true else any_match read body rules

module _ (network : Network) (w : Workflow) where
  -- After the call of the function of a task
  unfoldable pub after_call : Task → Walk → Reply String → Turn
  unfolding state_at
  after_call t walk (replied res) = continues record (say walk ("  Succeeded!\n\n\n" ∷ [])) {
    body = res;
    next = state_at w.spec.states t.next;
    i = add_u32 walk.i 1;
  }
  after_call t walk (failure e) =
      breaks record (say walk ("  Failed, caused by: " ∷ e ∷ "\n" ∷ [])) { succeed = false }

  unfoldable pub call_task : String → Task → Walk → Function → Option FunctionStatus → Turn
  unfolding after_call
  call_task state_name t walk func none = unwraps
  call_task state_name t walk func (some status) =
      let said = say walk (
        network.ordinal walk.i
        ∷ " State \""
        ∷ state_name
        ∷ "\": Task, function: "
        ∷ func.metadata.name
        ∷ ", host: "
        ∷ status.host
        ∷ "\n"
        ∷ "  args: "
        ∷ walk.body
        ∷ "\n"
        ∷ []) in
      after_call t said (network.call_func walk.i status.host walk.body)

  -- After the function of a task is asked for; without it the loop is left.
  unfoldable pub after_get : String → Task → Walk → Reply Function → Turn
  unfolding call_task
  after_get state_name t walk (replied func) = call_task state_name t walk func func.status
  after_get state_name t walk (failure e) = breaks (say walk (" Failed, caused by: " ∷ e ∷ []))

  -- The body of the loop
  unfoldable pub round : Walk → String → State → Turn
  unfolding after_get chosen any_match get
  round walk state_name (task t) = after_get state_name t walk (network.get_func walk.i t.resource)
  round walk state_name (choice c) =
      let name = chosen network.read walk.body c.default c.rules in
      continues
        record (say walk (
          network.ordinal walk.i
          ∷ " State \""
          ∷ state_name
          ∷ "\": Choice\n"
          ∷ "  Last response: "
          ∷ walk.body
          ∷ "\n"
          ∷ (if any_match network.read walk.body c.rules
              then "  Rule matched!"
              else "  No Rule matched! Fallback to default.\n\n\n")
          ∷ [])) { next = named w.spec.start_at (get name w.spec.states); i = add_u32 walk.i 1 }

  -- The loop; `none` is that the fuel did not suffice.
  unfoldable pub walk_on : ℕ → Walk → Option (String × State) → Option (Outcome Walk)
  unfolding round
  walk_on zero walk next = none
  walk_on (suc fuel) walk none = some (ok walk)
  walk_on (suc fuel) walk (some (state_name, state)) = elim (round walk state_name state) [
    | continues walk' ↦ walk_on fuel walk' walk'.next
    | breaks walk' ↦ some (ok walk')
    | unwraps ↦ some panics
  ]

  unfoldable pub began : String → String → Walk
  unfolding state_at
  began name init_args = record {
    next = state_at w.spec.states (some w.spec.start_at);
    body = init_args;
    final_res = text ("Workflow \"" ∷ name ∷ "\" begins!\n\n" ∷ []);
    i = 1;
    succeed = true;
  }

-- The text of the response
unfoldable pub report : Walk → String
report walk = text (
    walk.final_res
    ∷ (if walk.succeed
        then text ("Workflow succesfully finished! The final response is:\n  " ∷ walk.body ∷ [])
        else "Workflow failed!\n")
    ∷ [])

-- `get_workflow` and `get_func`, from the object of the response
unfoldable pub as_workflow : Option KubeObject → Outcome Workflow
as_workflow (some (workflow w)) = ok w
as_workflow _ = error

unfoldable pub as_function : Option KubeObject → Outcome Function
as_function (some (function f)) = ok f
as_function _ = error

-- The tasks whose replica sets `optimize_workflow` activates before the walk
unfoldable pub to_activate : HashMap String State → List String
to_activate [] = []
to_activate ((name, task t) ∷ states) = t.resource ∷ to_activate states
to_activate ((name, choice c) ∷ states) = to_activate states

abbrev pub reported : Option (Outcome Walk) → Option (Outcome String)
reported none = none
reported (some result) = some (result >>= λ walk. ok (report walk))

unfoldable pub walked : Network → ℕ → String → String → Outcome Workflow → Option (Outcome String)
unfolding began walk_on
walked network fuel name init_args error = some error
walked network fuel name init_args panics = some panics
walked network fuel name init_args (ok w) =
    let start = began network w name init_args in reported (walk_on network w fuel start start.next)

-- `handle_workflow`, with the object that the API server answers and `fuel` rounds at most
unfoldable pub handle_workflow :
    Network → ℕ → String → String → Option KubeObject → Option (Outcome String)
unfolding as_workflow walked
handle_workflow network fuel name init_args object =
    walked network fuel name init_args (as_workflow object)
