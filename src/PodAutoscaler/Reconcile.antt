-- ===== src/PodAutoscaler/Reconcile.antt =====
-- `PodAutoscaler::reconcile` (horizontal.rs). The scale target, the metrics and the success of each
-- request are what the other components answer, so arguments.
use r_mini_k8s.Prelude.{
  Outcome, ok, error, panics, ℕ, String, Bool, not, Option, none, some, List, [], ◌∷◌, ◌++◌,
  string_eq, nat_eq, ◌==◌, if◌then◌else◌, I64,
}
use r_mini_k8s.Prelude.HashMap.{HashMap, get, insert, contains_key}
use r_mini_k8s.Objects.{
  NaiveDateTime, HorizontalPodAutoscaler, HpaStatus, hpa_status_eq, MetricSource, resource,
  function, average_utilization, average_value, ResourceName, Labels, KubeObject, replica_set, hpa,
  ReplicaSet, Pod,
}
use r_mini_k8s.PodAutoscaler.Float.{Float64}
use r_mini_k8s.PodAutoscaler.Calculator.{
  PodMetricsInfo, calc_replicas_by_utilization, calc_replicas_by_value, calc_function_replicas,
}
use r_mini_k8s.PodAutoscaler.Control.{History, decide, record_scale_event, push_back}

-- What one run of `reconcile` finds outside.
pub record World : Type 0 where
  pub now : NaiveDateTime
  -- `get_scale_target`; `none` is an error
  pub target : Option KubeObject
  pub resource_metrics : ResourceName → Labels → Option PodMetricsInfo
  pub function_metric : String → Option I64
  pub pod_store : HashMap String Pod
  -- do the two calls of `post_update` succeed?
  pub target_posted : Bool
  pub status_posted : Bool

pub record Reconciled : Type 0 where
  pub history : History
  -- the objects put to the API server, in order
  pub posted : List KubeObject
  pub outcome : Outcome Unit

-- `recommendations.entry(name).or_insert_with(LinkedList::new).push_back(…)`
recommend : NaiveDateTime → String → ℕ → History → History
unfolding get insert
recommend now name current h = record h {
  recommendations =
      push_back (λ recs. recs) name (record { replicas = current; time = now }) h.recommendations;
}

-- The two blocks that note the current count before the decision.
unfoldable pub note_current : NaiveDateTime → String → ℕ → HpaStatus → History → History
unfolding recommend contains_key
note_current now name current status h =
    let h' = if contains_key name h.recommendations then h else recommend now name current h in
    if current == status.desired_replicas then h' else recommend now name current h'

-- The status that a run computes.
unfoldable pub status_after : NaiveDateTime → HpaStatus → ℕ → ℕ → HpaStatus
status_after now status current desired = record {
  desired_replicas = desired;
  current_replicas = if desired == 0 then 0 else current;
  last_scale_time = if current == desired then status.last_scale_time else some now;
}

abbrev pub with_replicas : ReplicaSet → ℕ → ReplicaSet
with_replicas rs n = record rs { spec = record (rs.spec) { replicas = n } }

-- The last block: the status is posted if it changed.
unfoldable pub post_status :
    World → HorizontalPodAutoscaler → HpaStatus → HpaStatus → History → List KubeObject → Reconciled
post_status w object status new_status h posted =
    if status == new_status
    then record { history = h; posted = posted; outcome = ok tt }
    else record {
      history = h;
      posted = posted ++ hpa (record object { status = some new_status }) ∷ [];
      outcome = if w.status_posted then ok tt else error;
    }

module _ (f : Float64) where
  -- `compute_resource_replicas` and `compute_function_replicas`
  unfoldable pub compute_replicas : World → MetricSource → ℕ → Labels → Outcome ℕ
  unfolding calc_replicas_by_utilization calc_replicas_by_value calc_function_replicas
  compute_replicas w (resource metrics) current selector = elim metrics.target [
    | average_utilization target ↦
        calc_replicas_by_utilization f w.now (w.resource_metrics metrics.name selector) w.pod_store
          current target metrics.name selector
    | average_value target ↦
        calc_replicas_by_value f w.now (w.resource_metrics metrics.name selector) w.pod_store
          current target selector
  ]
  compute_replicas w (function metrics) current selector =
      calc_function_replicas f (w.function_metric metrics.name) current metrics.target

  -- The block that scales, and what follows it.
  unfoldable pub scale :
      World → HorizontalPodAutoscaler → HpaStatus → ReplicaSet → History → ℕ → Reconciled
  scale w object status rs h desired =
      let current = rs.spec.replicas in
      let new_status = status_after w.now status current desired in
      let scaled = replica_set (with_replicas rs desired) in
      if current == desired
      then post_status w object status new_status h []
      else if not w.target_posted
      then record { history = h; posted = scaled ∷ []; outcome = error }
      else post_status w object status new_status
          (record_scale_event w.now h object.metadata.name object.spec.behavior current desired)
          (scaled ∷ [])

  -- What follows the decision; an error of the calculation ends the run.
  unfoldable pub after_decision :
      World
      → History
      → HorizontalPodAutoscaler
      → HpaStatus
      → ReplicaSet
      → Outcome (History × ℕ)
      → Reconciled
  after_decision w noted object status rs (ok (h, desired)) = scale w object status rs h desired
  after_decision w noted object status rs error = record {
    history = noted;
    posted = [];
    outcome = error;
  }
  after_decision w noted object status rs panics = record {
    history = noted;
    posted = [];
    outcome = panics;
  }

  -- The arm of `match target` for a replica set.
  unfoldable pub reconcile_replica_set :
      World → History → HorizontalPodAutoscaler → HpaStatus → ReplicaSet → Reconciled
  reconcile_replica_set w h object status rs =
      let current = rs.spec.replicas in
      let noted = note_current w.now object.metadata.name current status h in
      after_decision w noted object status rs (
        decide f w.now noted object current
          (compute_replicas w object.spec.metrics current rs.spec.selector))

  -- After `get_scale_target` and the look at the status, each of which may end the run.
  unfoldable pub reconcile_with :
      World → History → HorizontalPodAutoscaler → Option KubeObject → Option HpaStatus → Reconciled
  reconcile_with w h object none _ = record { history = h; posted = []; outcome = error }
  reconcile_with w h object (some _) none = record { history = h; posted = []; outcome = error }
  reconcile_with w h object (some (replica_set rs)) (some status) =
      reconcile_replica_set w h object status rs
  reconcile_with w h object (some _) (some status) = record {
    history = h;
    posted = [];
    outcome = ok tt;
  }

  unfoldable pub reconcile : World → History → HorizontalPodAutoscaler → Reconciled
  unfolding reconcile_with
  reconcile w h object = reconcile_with w h object w.target object.status
