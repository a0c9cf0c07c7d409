-- ===== src/PodAutoscaler/Window.antt =====
-- The stabilization window: what `stabilize_recommendation` may answer.
use r_mini_k8s.Prelude.{
  ℕ, ◌+◌, ◌≤◌, ◌<◌, String, ◌≡◌, some, List, [], ◌∷◌, ◌++◌, arith, All, if◌then◌else◌, leb, min,
  max, string_eq,
}
use r_mini_k8s.Prelude.HashMap.{get, get-insert_self}
use r_mini_k8s.Objects.{NaiveDateTime, seconds, HpaBehavior}
use r_mini_k8s.PodAutoscaler.Control.{
  Recommendation, History, drop_outdated, least_recommended, greatest_recommended,
  stabilize_recommendation,
}

-- The time of the recommendation is not before `now - window`.
abbrev pub InWindow : NaiveDateTime → ℕ → Recommendation → Type 0
InWindow now window rec = now ≤ rec.time + seconds window

least_recommended-below :
    (now : NaiveDateTime) (window bound r : ℕ) (recs : List Recommendation)
    → r ≤ least_recommended now window bound recs
    → (r ≤ bound) × All (λ rec. InWindow now window rec → r ≤ rec.replicas) recs
unfolding least_recommended
least_recommended-below now window bound r [] h = (h, tt)
least_recommended-below now window bound r (rec ∷ recs) h =
    let bound' = if leb now (rec.time + seconds window) then min bound rec.replicas else bound in
    let rest = least_recommended-below now window bound' r recs h in
    (ground (arith, rest.0), (λ w. ground (arith, rest.0), rest.1))

greatest_recommended-above :
    (now : NaiveDateTime) (window bound r : ℕ) (recs : List Recommendation)
    → greatest_recommended now window bound recs ≤ r
    → (bound ≤ r) × All (λ rec. InWindow now window rec → rec.replicas ≤ r) recs
unfolding greatest_recommended
greatest_recommended-above now window bound r [] h = (h, tt)
greatest_recommended-above now window bound r (rec ∷ recs) h =
    let bound' = if leb now (rec.time + seconds window) then max bound rec.replicas else bound in
    let rest = greatest_recommended-above now window bound' r recs h in
    (ground (arith, rest.0), (λ w. ground (arith, rest.0), rest.1))

-- What the loop drops lies in neither window.
All-drop_outdated :
    (P : Recommendation → Type 0) (now : NaiveDateTime) (up down : ℕ) (recs : List Recommendation)
    → ((rec : Recommendation) → rec.time + seconds up < now → rec.time + seconds down < now → P rec)
    → All P (drop_outdated now up down recs)
    → All P recs
unfolding drop_outdated
All-drop_outdated P now up down [] out h = tt
All-drop_outdated P now up down (rec ∷ recs) out h =
    ground (arith, out rec, All-drop_outdated P now up down recs out)

-- For an autoscaler with recommendations, with `r` the stabilized count: `r` exceeds the current
-- count only if the new recommendation and every earlier one within the window for scaling up ask
-- for `r` at least, and `r` is below the current count only if the new recommendation and every
-- earlier one within the window for scaling down ask for `r` at most.
pub stabilize_recommendation_cautious :
    (now : NaiveDateTime) (h : History) (name : String) (current desired : ℕ)
    (behavior : HpaBehavior) (recs : List Recommendation)
    → get name h.recommendations ≡ some recs
    → let r = (stabilize_recommendation now h name current desired behavior).1 in
      (current < r
        → (r ≤ desired)
          × All
              (λ rec.
                InWindow now behavior.scale_up.stabilization_window_seconds rec → r ≤ rec.replicas)
              recs)
      × (r < current
          → (desired ≤ r)
            × All
                (λ rec.
                  InWindow now behavior.scale_down.stabilization_window_seconds rec
                  → rec.replicas ≤ r)
                recs)
unfolding stabilize_recommendation
stabilize_recommendation_cautious now h name current desired behavior recs found =
    rw (found, stabilize_recommendation) (grows, shrinks)
  where
    up : ℕ
    up = behavior.scale_up.stabilization_window_seconds

    down : ℕ
    down = behavior.scale_down.stabilization_window_seconds

    kept : List Recommendation
    kept = drop_outdated now up down recs

    r : ℕ
    r =
        min (max current (least_recommended now up desired kept))
          (greatest_recommended now down desired kept)

    grows : current < r → (r ≤ desired) × All (λ rec. InWindow now up rec → r ≤ rec.replicas) recs
    grows h =
        let below = least_recommended-below now up desired r kept (omega arith) in
        (below.0, All-drop_outdated _ now up down recs (λ rec u d w. absurd (omega arith)) below.1)

    shrinks :
        r < current → (desired ≤ r) × All (λ rec. InWindow now down rec → rec.replicas ≤ r) recs
    shrinks h =
        let above = greatest_recommended-above now down desired r kept (omega arith) in
        (above.0, All-drop_outdated _ now up down recs (λ rec u d w. absurd (omega arith)) above.1)

-- The new recommendation is kept for later runs, unstabilized, behind the earlier ones that are
-- still in some window.
stabilize_recommendation_records :
    (now : NaiveDateTime) (h : History) (name : String) (current desired : ℕ)
    (behavior : HpaBehavior) (recs : List Recommendation)
    → get name h.recommendations ≡ some recs
    → get name (stabilize_recommendation now h name current desired behavior).0.recommendations
      ≡ some (
          drop_outdated now behavior.scale_up.stabilization_window_seconds
            behavior.scale_down.stabilization_window_seconds recs
          ++ record { replicas = desired; time = now } ∷ [])
unfolding stabilize_recommendation
stabilize_recommendation_records now h name current desired behavior recs found =
    rw (found, stabilize_recommendation) (get-insert_self name _ h.recommendations)
