-- ===== src/Objects/Flow.antt =====
-- Workflows: objects/workflow.rs. The text of a response is parsed by `serde_json`, which is a
-- parameter: `read text` is the map that `text` denotes, if it denotes one.
use r_mini_k8s.Prelude.{String, Bool, false, Option, none, some, List, nat_eq, string_eq, ◌==◌, I64}
use r_mini_k8s.Prelude.HashMap.{HashMap, get}
use r_mini_k8s.Objects.Meta.{Metadata}

pub record Task : Type 0 where
  pub resource : String
  pub next : Option String

-- The `i32` of `field_num_equals` is given as the `i64` that it is compared as.
pub data Comparison : Type 0 where
  field_equals : String → String → Comparison
  field_num_equals : String → I64 → Comparison

pub record ChoiceRule : Type 0 where
  pub comparison : Comparison
  pub next : String

pub record Choice : Type 0 where
  pub rules : List ChoiceRule
  pub default : String

pub data State : Type 0 where
  task : Task → State
  choice : Choice → State

pub record WorkflowSpec : Type 0 where
  pub start_at : String
  pub states : HashMap String State

pub record Workflow : Type 0 where
  pub metadata : Metadata
  pub spec : WorkflowSpec

-- A field of a JSON object, as far as `match_with` looks: a text, a number (with its value as an
-- `i64`, if it has one), or something else.
pub data Value : Type 0 where
  text : String → Value
  number : Option I64 → Value
  other : Value

abbrev text_is : String → Option Value → Bool
text_is content (some (text v)) = v == content
text_is content _ = false

abbrev number_is : I64 → Option Value → Bool
number_is content (some (number (some v))) = v == content
number_is content _ = false

abbrev compare_with : Comparison → HashMap String Value → Bool
compare_with (field_equals field content) args = text_is content (get field args)
compare_with (field_num_equals field content) args = number_is content (get field args)

-- `ChoiceRule::match_with`
unfoldable pub match_with : (String → Option (HashMap String Value)) → ChoiceRule → String → Bool
unfolding get
match_with read rule body = elim (read body) [
  | none ↦ false
  | some args ↦ compare_with rule.comparison args
]
