-- ===== src/PodAutoscaler/Calculator.antt =====
-- replica_calculator.rs: the replica count that the metrics ask for. What the metrics server
-- answers is an argument, and so are the pods of the shared store.
use r_mini_k8s.Prelude.{
  Outcome, ok, error, panics, ◌>>=◌, ℕ, ◌++◌, String, Bool, true, false, not, ◌&&◌, ◌||◌, Option,
  none, some, List, [], ◌∷◌, string_eq, nat_eq, ◌==◌, filter, map, length, is_empty, if◌then◌else◌,
  ltb, I64, add_i64, mul_i64, div_i64,
}
use r_mini_k8s.Prelude.HashMap.{HashMap, values, get, insert, remove, contains_key}
use r_mini_k8s.Objects.{
  Pod, PodStatus, failed, phase_eq, condition_eq, ready, condition_holds, Labels, matches,
  ResourceName, requests, NaiveDateTime,
}
use r_mini_k8s.PodAutoscaler.Float.{Float64}

pub record PodMetric : Type 0 where
  pub timestamp : NaiveDateTime
  pub window : ℕ
  pub value : I64

abbrev pub PodMetricsInfo : Type 0
PodMetricsInfo = HashMap String PodMetric

-- `get_pods`: the pods whose labels match the selector.
unfoldable pub get_pods : HashMap String Pod → Labels → List Pod
unfolding filter
get_pods store selector = filter (λ pod. matches pod.metadata.labels selector) (values store)

abbrev is_missing : Option PodMetric → Bool
is_missing none = true
is_missing (some _) = false

abbrev is_ignored : PodStatus → Bool
is_ignored status = status.phase == failed || not (condition_holds (get ready status.conditions))

-- The loop of `filter_pods`: the metrics without those of pods that are not ready, and the pods
-- with no metric; an error at the first pod with no status.
unfoldable pub filter_pods :
    PodMetricsInfo → List Pod → List Pod → Outcome (PodMetricsInfo × List Pod)
unfolding get remove
filter_pods metrics missing [] = ok (metrics, missing)
filter_pods metrics missing (pod ∷ pods) = elim pod.status [
  | none ↦ error
  | some status ↦
      let absent = is_missing (get pod.metadata.name metrics) in
      filter_pods
        (if not absent && is_ignored status then remove pod.metadata.name metrics else metrics)
        (if absent then missing ++ pod ∷ [] else missing) pods
]

abbrev sum_i64 : List I64 → I64
sum_i64 [] = 0
sum_i64 (x ∷ xs) = add_i64 x (sum_i64 xs)

-- The loop that inserts an assumed metric for each missing pod.
unfoldable pub assume : NaiveDateTime → (Pod → I64) → PodMetricsInfo → List Pod → PodMetricsInfo
unfolding insert
assume now value metrics [] = metrics
assume now value metrics (pod ∷ pods) =
    assume now value
      (insert pod.metadata.name (record { timestamp = now; window = 60; value = value pod })
        metrics)
      pods

abbrev total : PodMetricsInfo → I64
total metrics = sum_i64 (map (λ (m : PodMetric). m.value) (values metrics))

module _ (f : Float64) where
  open f use {F, of_nat, of_i64, mul, div, lt, ceil_u32}

  unfoldable pub calc_scale_ratio_by_utilization : PodMetricsInfo → List Pod → ℕ → ResourceName → F
  unfolding filter contains_key requests
  calc_scale_ratio_by_utilization metrics pods target_utilization resource =
      let requests_total = sum_i64 (
        map (λ p. requests p resource) (filter (λ p. contains_key p.metadata.name metrics) pods)) in
      if requests_total == 0
      then of_nat 1
      else div (div (of_i64 (mul_i64 (total metrics) 100)) (of_i64 requests_total))
          (of_nat target_utilization)

  -- The integer division by the number of metrics comes before the test of the target.
  unfoldable pub calc_scale_ratio_by_value : PodMetricsInfo → ℕ → Outcome F
  unfolding div_i64
  calc_scale_ratio_by_value metrics target_value =
      if length metrics == 0
      then panics
      else if target_value == 0
      then ok (of_nat 1)
      else ok (div (of_i64 (div_i64 (total metrics) (length metrics))) (of_nat target_value))

  -- The end of both calculations: the new count, unless it goes against the direction.
  unfoldable pub settle : F → F → ℕ → ℕ → ℕ
  settle scale_ratio new_ratio current new_replicas =
      if (lt (of_nat 1) new_ratio && (lt scale_ratio (of_nat 1) || ltb new_replicas current))
        || (lt new_ratio (of_nat 1) && (lt (of_nat 1) scale_ratio || ltb current new_replicas))
      then current
      else new_replicas

  abbrev replicas_for : F → PodMetricsInfo → ℕ
  replicas_for ratio metrics = ceil_u32 (mul ratio (of_nat (length metrics)))

  -- `none` for the metrics is a failed request.
  unfoldable pub calc_replicas_by_utilization :
      NaiveDateTime
      → Option PodMetricsInfo
      → HashMap String Pod
      → ℕ
      → ℕ
      → ResourceName
      → Labels
      → Outcome ℕ
  unfolding get_pods filter_pods calc_scale_ratio_by_utilization assume settle
  calc_replicas_by_utilization now none store current target resource selector = error
  calc_replicas_by_utilization now (some metrics) store current target resource selector =
      let pods = get_pods store selector in
      if is_empty pods then error else do
        (metrics', missing) ← filter_pods metrics [] pods
        let ratio = calc_scale_ratio_by_utilization metrics' pods target resource
        let assumed = λ (p : Pod). if lt ratio (of_nat 1) then requests p resource else 0
        let all_metrics = assume now assumed metrics' missing
        let new_ratio = calc_scale_ratio_by_utilization all_metrics pods target resource
        ok (settle ratio new_ratio current (replicas_for new_ratio all_metrics))

  unfoldable pub calc_replicas_by_value :
      NaiveDateTime → Option PodMetricsInfo → HashMap String Pod → ℕ → ℕ → Labels → Outcome ℕ
  unfolding get_pods filter_pods calc_scale_ratio_by_value assume settle
  calc_replicas_by_value now none store current target selector = error
  calc_replicas_by_value now (some metrics) store current target selector =
      let pods = get_pods store selector in
      if is_empty pods then error else do
        (metrics', missing) ← filter_pods metrics [] pods
        ratio ← calc_scale_ratio_by_value metrics' target
        let assumed = λ (p : Pod). if lt ratio (of_nat 1) then target else 0
        let all_metrics = assume now assumed metrics' missing
        new_ratio ← calc_scale_ratio_by_value all_metrics target
        ok (settle ratio new_ratio current (replicas_for new_ratio all_metrics))

  -- `none` is a failed request; the division by a count of 0 panics.
  unfoldable pub calc_function_replicas : Option I64 → ℕ → ℕ → Outcome ℕ
  unfolding div_i64
  calc_function_replicas none current target = error
  calc_function_replicas (some value) current target =
      if current == 0
      then panics
      else ok
          (ceil_u32 (mul (of_nat current) (div (of_i64 (div_i64 value current)) (of_nat target))))
