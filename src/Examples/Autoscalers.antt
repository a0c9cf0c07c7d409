-- ===== src/Examples/Autoscalers.antt =====
-- The autoscaler of a replica set, with limits 1 and 10 and at most 2 more pods in 60 seconds.
use r_mini_k8s.Prelude.{
  ◌+◌, ◌≤◌, ◌<◌, true, ◌≡◌, ◌⊎◌, refl, Option, none, some, List, [], ◌∷◌, ◌++◌, string_eq, arith,
  All, inl, min, max,
}
use r_mini_k8s.Prelude.HashMap.{get}
use r_mini_k8s.Objects.{replica_set, HpaScalingPolicy, pods}
use r_mini_k8s.PodAutoscaler.Limits.{
  ScaleEvent, change_since, get_replicas_change_in_period, up_period_limit,
}
use r_mini_k8s.PodAutoscaler.Control.{
  History, Recommendation, stabilize_recommendation, conform_with_behavior, record_scale_event,
}
use r_mini_k8s.PodAutoscaler.Reconcile.{World, reconcile}
use r_mini_k8s.PodAutoscaler.Window.{InWindow, stabilize_recommendation_cautious}
use r_mini_k8s.PodAutoscaler.Rate.{
  noted, record_scale_event_up, up_period_limit_wraps, conform_with_behavior_rate,
}
use r_mini_k8s.PodAutoscaler.Bounds.{IsAllowed, conform_with_behavior_between, reconcile-IsAllowed}
use r_mini_k8s.Examples.Data.{web_rs, web_hpa, rules, fixed_point}

abbrev recs : List Recommendation
recs = record { replicas = 4; time = 90 } ∷ []

abbrev history : History
history = record {
  recommendations = ("web", recs) ∷ [];
  scale_up_events = [];
  scale_down_events = [];
}

abbrev world : World
world = record {
  now = 100;
  target = some (replica_set (web_rs 2));
  resource_metrics = λ _ _. none;
  function_metric = λ _. some 60;
  pod_store = [];
  target_posted = true;
  status_posted = true;
}

reconcile-IsAllowed_example :
    All
      (IsAllowed fixed_point web_hpa (web_rs 2))
      (reconcile fixed_point world history web_hpa).posted
reconcile-IsAllowed_example =
    reconcile-IsAllowed fixed_point world history web_hpa (web_rs 2) (ground arith) refl

conform_with_behavior_between_example :
    let conformed = conform_with_behavior fixed_point 100 history web_hpa 2 7 in
    (min 2 7 ≤ conformed) × (conformed ≤ max 2 7) × (conformed ≤ 10)
conform_with_behavior_between_example =
    conform_with_behavior_between fixed_point 100 history web_hpa 2 7 (ground arith) (ground arith)

abbrev two_more : HpaScalingPolicy
two_more = record { type_ = pods; value = 2; period_seconds = 60 }

conform_with_behavior_rate_example :
    (conform_with_behavior fixed_point 100 history web_hpa 2 7 ≤ 2)
    ⊎ (conform_with_behavior fixed_point 100 history web_hpa 2 7
          + get_replicas_change_in_period 100 60 (get "web" history.scale_up_events)
        ≤ 2 + 2)
unfolding get_replicas_change_in_period get
conform_with_behavior_rate_example =
    conform_with_behavior_rate fixed_point 100 history web_hpa 2 7 two_more (ground arith) refl
      (inl refl) refl (ground arith) (ground arith)

abbrev added_ten : Option (List ScaleEvent)
added_ten = some (record { change = 10; time = 50 } ∷ [])

up_period_limit_wraps_example : 2_147_483_648 ≤ up_period_limit fixed_point 100 2 added_ten two_more
unfolding get_replicas_change_in_period change_since
up_period_limit_wraps_example =
    up_period_limit_wraps fixed_point 100 2 added_ten two_more refl (ground arith) (ground arith)

record_scale_event_up_example :
    All
      (λ policy.
        get_replicas_change_in_period 200 policy.period_seconds (
          get "web"
            (record_scale_event 100 history "web" web_hpa.spec.behavior 2 5).scale_up_events)
        ≡ change_since 200 policy.period_seconds
            (noted (get "web" history.scale_up_events) ++ record { change = 3; time = 100 } ∷ []))
      rules.policies
record_scale_event_up_example =
    record_scale_event_up 100 200 history "web" web_hpa.spec.behavior 2 5 (ground arith)
      (ground arith)

stabilize_recommendation_cautious_example :
    let r = (stabilize_recommendation 100 history "web" 2 7 web_hpa.spec.behavior).1 in
    (2 < r → (r ≤ 7) × All (λ rec. InWindow 100 60 rec → r ≤ rec.replicas) recs)
    × (r < 2 → (7 ≤ r) × All (λ rec. InWindow 100 60 rec → rec.replicas ≤ r) recs)
unfolding get
stabilize_recommendation_cautious_example =
    stabilize_recommendation_cautious 100 history "web" 2 7 web_hpa.spec.behavior recs refl
