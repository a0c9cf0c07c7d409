-- ===== src/PodAutoscaler/Rate.antt =====
-- The scale events and the limits that they set.
use r_mini_k8s.Prelude.{
  ℕ, ◌+◌, ◌-◌, ◌≤◌, ◌<◌, String, ◌≡◌, ◌⊎◌, refl, Option, none, some, List, [], ◌∷◌, ◌++◌, arith,
  All, In, All_of_In, min, string_eq, u32_mod, inl, inr, Option-cases,
}
use r_mini_k8s.Prelude.HashMap.{get, get-insert_self}
use r_mini_k8s.Objects.{
  NaiveDateTime, HpaBehavior, HpaScalingPolicy, longest_period, longest_period_bound, pods,
  min_change, HorizontalPodAutoscaler,
}
use r_mini_k8s.PodAutoscaler.Float.{Float64}
use r_mini_k8s.PodAutoscaler.Limits.{
  ScaleEvent, change_since, get_replicas_change_in_period, discard_outdated_scale_events,
  up_period_limit, select_limit, calc_scale_up_limit,
}
use r_mini_k8s.PodAutoscaler.Control.{History, record_scale_event, conform_with_behavior}

change_since-discard :
    (now later : NaiveDateTime) (period longest : ℕ) (events more : List ScaleEvent)
    → period ≤ longest
    → now ≤ later
    → change_since later period (discard_outdated_scale_events now longest events ++ more)
      ≡ change_since later period (events ++ more)
unfolding change_since discard_outdated_scale_events
change_since-discard now later period longest [] more p l = refl
change_since-discard now later period longest (event ∷ events) more p l =
    ground (arith, change_since-discard now later period longest events more p l)

-- The events noted for an autoscaler, with none for an unknown one.
abbrev pub noted : Option (List ScaleEvent) → List ScaleEvent
noted none = []
noted (some events) = events

-- When scaling up is recorded, at any later time and for the period of every policy for scaling
-- up, the change counted is that of all the earlier events and of the new one: the events that
-- were discarded would not count.
pub record_scale_event_up :
    (now later : NaiveDateTime) (h : History) (name : String) (behavior : HpaBehavior)
    (prev new : ℕ)
    → prev < new
    → now ≤ later
    → All
        (λ policy.
          get_replicas_change_in_period later policy.period_seconds
            (get name (record_scale_event now h name behavior prev new).scale_up_events)
          ≡ change_since later policy.period_seconds (
              noted (get name h.scale_up_events)
              ++ record { change = new - prev; time = now } ∷ []))
        behavior.scale_up.policies
unfolding record_scale_event get_replicas_change_in_period
record_scale_event_up now later h name behavior prev new p l =
    go behavior.scale_up.policies (longest_period_bound behavior.scale_up)
  where
    event : ScaleEvent
    event = record { change = new - prev; time = now }

    one :
        (period : ℕ)
        → period ≤ longest_period behavior.scale_up
        → get_replicas_change_in_period later period
            (get name (record_scale_event now h name behavior prev new).scale_up_events)
          ≡ change_since later period (noted (get name h.scale_up_events) ++ event ∷ [])
    one period b = elim (Option-cases (get name h.scale_up_events)) [
      | inl g ↦ ground (arith, g, get-insert_self name (event ∷ []) h.scale_up_events)
      | inr (events, g) ↦ ground (
        arith,
        g,
        get-insert_self name
            (discard_outdated_scale_events now (longest_period behavior.scale_up) events
              ++ event ∷ [])
            h.scale_up_events,
        change_since-discard now later period (longest_period behavior.scale_up) events (event ∷ [])
            b l,
      )
    ]

    go :
        (ps : List HpaScalingPolicy)
        → All (λ q. q.period_seconds ≤ longest_period behavior.scale_up) ps
        → All
            (λ policy.
              get_replicas_change_in_period later policy.period_seconds
                (get name (record_scale_event now h name behavior prev new).scale_up_events)
              ≡ change_since later policy.period_seconds
                  (noted (get name h.scale_up_events) ++ event ∷ []))
            ps
    go [] b = tt
    go (q ∷ ps) b = (one q.period_seconds b.0, go ps b.1)

select_limit-min-le :
    (limit : HpaScalingPolicy → ℕ) (r : ℕ) (ps : List HpaScalingPolicy)
    → (select_limit limit min r ps ≤ r) × All (λ p. select_limit limit min r ps ≤ limit p) ps
unfolding select_limit
select_limit-min-le limit r [] = (omega arith, tt)
select_limit-min-le limit r (p ∷ ps) =
    let rest = select_limit-min-le limit (min r (limit p)) ps in
    (omega (arith, rest.0), (omega (arith, rest.0), rest.1))

module _ (f : Float64) where
  up_period_limit-pods :
      (now : NaiveDateTime) (current : ℕ) (events : Option (List ScaleEvent))
      (policy : HpaScalingPolicy)
      → policy.type_ ≡ pods
      → get_replicas_change_in_period now policy.period_seconds events ≤ current
      → current + policy.value < u32_mod
      → up_period_limit f now current events policy
          + get_replicas_change_in_period now policy.period_seconds events
        ≡ current + policy.value
  unfolding up_period_limit
  up_period_limit-pods now current events policy kind added fits =
      rw (kind, up_period_limit) (omega arith)

  -- If more replicas (but at most 2^31) were added in the period of a policy that counts pods
  -- than now run together with its value, the subtraction wraps, and the limit of the policy is
  -- at least 2^31.
  pub up_period_limit_wraps :
      (now : NaiveDateTime) (current : ℕ) (events : Option (List ScaleEvent))
      (policy : HpaScalingPolicy)
      → policy.type_ ≡ pods
      → current + policy.value < get_replicas_change_in_period now policy.period_seconds events
      → get_replicas_change_in_period now policy.period_seconds events ≤ 2_147_483_648
      → 2_147_483_648 ≤ up_period_limit f now current events policy
  unfolding up_period_limit
  up_period_limit_wraps now current events policy kind added small =
      rw (kind, up_period_limit) (omega arith)

  -- Under the selection `Min`, a scale-up respects each policy that counts pods: the new count, with
  -- what was added in the policy's period, is at most the current count plus the policy's value
  -- (or the current count stays), provided that no more was added in the period than now runs and
  -- that the sum fits a `u32`.
  pub conform_with_behavior_rate :
      (now : NaiveDateTime) (h : History) (hpa : HorizontalPodAutoscaler) (current desired : ℕ)
      (policy : HpaScalingPolicy)
      → current < desired
      → hpa.spec.behavior.scale_up.select_policy ≡ min_change
      → In policy hpa.spec.behavior.scale_up.policies
      → policy.type_ ≡ pods
      → get_replicas_change_in_period now policy.period_seconds
          (get hpa.metadata.name h.scale_up_events)
        ≤ current
      → current + policy.value < u32_mod
      → (conform_with_behavior f now h hpa current desired ≤ current)
        ⊎ (conform_with_behavior f now h hpa current desired
              + get_replicas_change_in_period now policy.period_seconds
                  (get hpa.metadata.name h.scale_up_events)
            ≤ current + policy.value)
  unfolding conform_with_behavior calc_scale_up_limit
  conform_with_behavior_rate now h hpa current desired policy up sel member kind added fits =
      let events = get hpa.metadata.name h.scale_up_events in
      let rules = hpa.spec.behavior.scale_up in
      let limit = up_period_limit f now current events in
      let within =
        All_of_In (λ p. select_limit limit min 4_294_967_295 rules.policies ≤ limit p) policy
          rules.policies (select_limit-min-le limit 4_294_967_295 rules.policies).1 member in
      ground (arith, within, up_period_limit-pods now current events policy)
