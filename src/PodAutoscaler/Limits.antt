-- ===== src/PodAutoscaler/Limits.antt =====
-- How far the scaling policies let one step go: `calc_scale_up_limit`, `calc_scale_down_limit` and
-- the scale events that they count (horizontal.rs).
use r_mini_k8s.Prelude.{
  ℕ, ◌+◌, ◌-◌, Option, none, some, List, [], ◌∷◌, if◌then◌else◌, leb, ltb, add_u32, sub_u32, min,
  max,
}
use r_mini_k8s.Objects.{
  NaiveDateTime, seconds, HpaScalingPolicy, HpaScalingRules, min_change, max_change, disabled, pods,
  percent,
}
use r_mini_k8s.PodAutoscaler.Float.{Float64}

pub record ScaleEvent : Type 0 where
  pub change : ℕ
  pub time : NaiveDateTime

-- The sum of `get_replicas_change_in_period`, over the events with `time >= now - period`.
unfoldable pub change_since : NaiveDateTime → ℕ → List ScaleEvent → ℕ
change_since now period_seconds [] = 0
change_since now period_seconds (event ∷ events) =
    let rest = change_since now period_seconds events in
    if leb now (event.time + seconds period_seconds) then add_u32 event.change rest else rest

unfoldable pub get_replicas_change_in_period : NaiveDateTime → ℕ → Option (List ScaleEvent) → ℕ
unfolding change_since
get_replicas_change_in_period now period_seconds none = 0
get_replicas_change_in_period now period_seconds (some events) =
    change_since now period_seconds events

-- The loop of `discard_outdated_scale_events`: drop from the front while `time < now - period`.
unfoldable pub discard_outdated_scale_events : NaiveDateTime → ℕ → List ScaleEvent → List ScaleEvent
discard_outdated_scale_events now period [] = []
discard_outdated_scale_events now period (event ∷ events) =
    let rest = discard_outdated_scale_events now period events in
    if ltb (event.time + seconds period) now then rest else event ∷ events

abbrev u32_max : ℕ
u32_max = 4_294_967_295

-- The loop over the policies: `result = select_fn(result, period_limit)`.
unfoldable pub select_limit : (HpaScalingPolicy → ℕ) → (ℕ → ℕ → ℕ) → ℕ → List HpaScalingPolicy → ℕ
select_limit limit select result [] = result
select_limit limit select result (policy ∷ policies) =
    select_limit limit select (select result (limit policy)) policies

module _ (f : Float64) where
  open f use {of_nat, add, sub, mul, div, ceil_u32}

  -- The limit that one policy sets on scaling up. The subtraction is on `u32`.
  unfoldable pub up_period_limit :
      NaiveDateTime → ℕ → Option (List ScaleEvent) → HpaScalingPolicy → ℕ
  unfolding get_replicas_change_in_period
  up_period_limit now current events policy =
      let added = get_replicas_change_in_period now policy.period_seconds events in
      let period_start = sub_u32 current added in
      elim policy.type_ [
        | pods ↦ add_u32 period_start policy.value
        | percent ↦
            ceil_u32
              (mul (of_nat period_start) (add (of_nat 1) (div (of_nat policy.value) (of_nat 100))))
      ]

  unfoldable pub down_period_limit :
      NaiveDateTime → ℕ → Option (List ScaleEvent) → HpaScalingPolicy → ℕ
  unfolding get_replicas_change_in_period
  down_period_limit now current events policy =
      let deleted = get_replicas_change_in_period now policy.period_seconds events in
      let period_start = add_u32 current deleted in
      elim policy.type_ [
        | pods ↦ if leb policy.value period_start then period_start - policy.value else 0
        | percent ↦
            ceil_u32
              (mul (of_nat period_start) (sub (of_nat 1) (div (of_nat policy.value) (of_nat 100))))
      ]

  unfoldable pub calc_scale_up_limit :
      NaiveDateTime → ℕ → Option (List ScaleEvent) → HpaScalingRules → ℕ
  unfolding up_period_limit select_limit
  calc_scale_up_limit now current events rules = elim rules.select_policy [
    | disabled ↦ current
    | min_change ↦ select_limit (up_period_limit now current events) min u32_max rules.policies
    | max_change ↦ select_limit (up_period_limit now current events) max 0 rules.policies
  ]

  -- The smallest change is the largest limit.
  unfoldable pub calc_scale_down_limit :
      NaiveDateTime → ℕ → Option (List ScaleEvent) → HpaScalingRules → ℕ
  unfolding down_period_limit select_limit
  calc_scale_down_limit now current events rules = elim rules.select_policy [
    | disabled ↦ current
    | min_change ↦ select_limit (down_period_limit now current events) max 0 rules.policies
    | max_change ↦ select_limit (down_period_limit now current events) min u32_max rules.policies
  ]
