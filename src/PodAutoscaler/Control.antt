-- ===== src/PodAutoscaler/Control.antt =====
-- horizontal.rs: the state of the autoscaler, `reconcile` and its parts, and the branches of `run`.
-- A map entry of lists is read by `get`; the requests posted to the API server are a result.
use r_mini_k8s.Prelude.{
  Outcome, ok, error, panics, ℕ, ◌+◌, ◌-◌, String, none, some, List, [], ◌∷◌, ◌++◌, ◌&&◌, string_eq,
  nat_eq, ◌==◌, if◌then◌else◌, leb, ltb, min, max,
}
use r_mini_k8s.Prelude.HashMap.{remove, HashMap, get, insert}
use r_mini_k8s.Objects.{
  NaiveDateTime, seconds, HorizontalPodAutoscaler, HpaBehavior, hpa_status_eq, longest_period,
}
use r_mini_k8s.PodAutoscaler.Float.{Float64}
use r_mini_k8s.PodAutoscaler.Limits.{
  ScaleEvent, discard_outdated_scale_events, calc_scale_up_limit, calc_scale_down_limit,
}

pub record Recommendation : Type 0 where
  pub replicas : ℕ
  pub time : NaiveDateTime

-- The fields of `PodAutoscaler` that `reconcile` uses.
pub record History : Type 0 where
  pub recommendations : HashMap String (List Recommendation)
  pub scale_up_events : HashMap String (List ScaleEvent)
  pub scale_down_events : HashMap String (List ScaleEvent)

-- The branch of `run` for an autoscaler that is no longer stored.
unfoldable pub forget : String → History → History
unfolding remove
forget name h = record {
  recommendations = remove name h.recommendations;
  scale_up_events = remove name h.scale_up_events;
  scale_down_events = remove name h.scale_down_events;
}

-- Drop from the front while the time is before both cutoffs.
unfoldable pub drop_outdated : NaiveDateTime → ℕ → ℕ → List Recommendation → List Recommendation
drop_outdated now up_window down_window [] = []
drop_outdated now up_window down_window (rec ∷ recs) =
    let rest = drop_outdated now up_window down_window recs in
    if ltb (rec.time + seconds up_window) now && ltb (rec.time + seconds down_window) now
    then rest
    else rec ∷ recs

-- The loop that finds the bounds: the least recommendation within the window for scaling up.
unfoldable pub least_recommended : NaiveDateTime → ℕ → ℕ → List Recommendation → ℕ
least_recommended now window bound [] = bound
least_recommended now window bound (rec ∷ recs) =
    least_recommended now window
      (if leb now (rec.time + seconds window) then min bound rec.replicas else bound) recs

-- And the greatest within the window for scaling down.
unfoldable pub greatest_recommended : NaiveDateTime → ℕ → ℕ → List Recommendation → ℕ
greatest_recommended now window bound [] = bound
greatest_recommended now window bound (rec ∷ recs) =
    greatest_recommended now window
      (if leb now (rec.time + seconds window) then max bound rec.replicas else bound) recs

-- `stabilize_recommendation`
unfoldable pub stabilize_recommendation :
    NaiveDateTime → History → String → ℕ → ℕ → HpaBehavior → History × ℕ
unfolding get insert drop_outdated least_recommended greatest_recommended
stabilize_recommendation now h name current desired behavior =
    let up_window = behavior.scale_up.stabilization_window_seconds in
    let down_window = behavior.scale_down.stabilization_window_seconds in
    elim (get name h.recommendations) [
      | none ↦ (h, current)
      | some recs ↦
          let kept = drop_outdated now up_window down_window recs in
          (
            record h {
              recommendations =
                  insert name (kept ++ record { replicas = desired; time = now } ∷ [])
                    h.recommendations;
            },
            min (max current (least_recommended now up_window desired kept))
                (greatest_recommended now down_window desired kept),
          )
    ]

-- `or_insert_with(LinkedList::new).push_back(…)`, after `change` on an entry that is there.
abbrev pub push_back :
    {A : Type 0}
    → (List A → List A)
    → String
    → A
    → HashMap String (List A)
    → HashMap String (List A)
push_back change name a m = elim (get name m) [
  | none ↦ insert name (a ∷ []) m
  | some xs ↦ insert name (change xs ++ a ∷ []) m
]

-- `record_scale_event`
unfoldable pub record_scale_event : NaiveDateTime → History → String → HpaBehavior → ℕ → ℕ → History
unfolding get insert discard_outdated_scale_events longest_period
record_scale_event now h name behavior prev new =
    if ltb prev new
    then record h {
      scale_up_events =
          push_back (discard_outdated_scale_events now (longest_period behavior.scale_up)) name
            (record { change = new - prev; time = now }) h.scale_up_events;
    }
    else if ltb new prev
    then record h {
      scale_down_events =
          push_back (discard_outdated_scale_events now (longest_period behavior.scale_down)) name
            (record { change = prev - new; time = now }) h.scale_down_events;
    }
    else h

module _ (f : Float64) where
  -- `conform_with_behavior`
  unfoldable pub conform_with_behavior :
      NaiveDateTime → History → HorizontalPodAutoscaler → ℕ → ℕ → ℕ
  unfolding get calc_scale_up_limit calc_scale_down_limit
  conform_with_behavior now h hpa current desired =
      if ltb current desired
      then (let limit =
            max
              (calc_scale_up_limit f now current (get hpa.metadata.name h.scale_up_events)
                hpa.spec.behavior.scale_up)
              current in
          min desired (if ltb limit hpa.spec.max_replicas then limit else hpa.spec.max_replicas))
      else if ltb desired current
      then (let limit =
            min
              (calc_scale_down_limit f now current (get hpa.metadata.name h.scale_down_events)
                hpa.spec.behavior.scale_down)
              current in
          max desired (if ltb hpa.spec.min_replicas limit then limit else hpa.spec.min_replicas))
      else desired

  -- `normalize_desired_replicas`
  unfoldable pub normalize_desired_replicas :
      NaiveDateTime → History → HorizontalPodAutoscaler → ℕ → ℕ → History × ℕ
  unfolding stabilize_recommendation conform_with_behavior
  normalize_desired_replicas now h hpa current desired =
      let (h', stabilized) =
        stabilize_recommendation now h hpa.metadata.name current desired hpa.spec.behavior in
      (h', max hpa.spec.min_replicas (conform_with_behavior now h' hpa current stabilized))

  -- The chain that decides on the count. `compute` is the calculator's answer for this autoscaler:
  -- a count, an error that ends `reconcile`, or a panic.
  unfoldable pub decide :
      NaiveDateTime → History → HorizontalPodAutoscaler → ℕ → Outcome ℕ → Outcome (History × ℕ)
  unfolding normalize_desired_replicas
  decide now h hpa current compute =
      if current == 0
      then ok (h, 0)
      else if ltb hpa.spec.max_replicas current
      then ok (h, hpa.spec.max_replicas)
      else if ltb current hpa.spec.min_replicas
      then ok (h, hpa.spec.min_replicas)
      else elim compute [
        | ok desired ↦ ok (normalize_desired_replicas now h hpa current desired)
        | error ↦ error
        | panics ↦ panics
      ]
