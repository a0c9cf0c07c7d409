-- ===== src/PodAutoscaler/Bounds.antt =====
-- The counts that the autoscaler decides on and posts stay within the limits of the object.
use r_mini_k8s.Prelude.{
  Outcome, ok, error, panics, ℕ, ◌≤◌, ◌≡◌, ◌≢◌, refl, Option, none, some, List, [], ◌∷◌, arith, All,
  All-append, Bool-cases, inl, inr, min, max, nat_eq,
}
use r_mini_k8s.Objects.{
  NaiveDateTime, HorizontalPodAutoscaler, HpaStatus, hpa_status_eq, hpa_status_beq_iff, KubeObject,
  replica_set, hpa, ReplicaSet,
}
use r_mini_k8s.PodAutoscaler.Float.{Float64}
use r_mini_k8s.PodAutoscaler.Control.{
  History, stabilize_recommendation, conform_with_behavior, normalize_desired_replicas, decide,
  record_scale_event,
}
use r_mini_k8s.PodAutoscaler.Reconcile.{
  World, note_current, compute_replicas, post_status, status_after, scale, after_decision,
  reconcile_replica_set, reconcile_with, reconcile, with_replicas,
}

module _ (f : Float64) where
  -- Within the object's limits, conforming never leaves the range between the current count and the
  -- stabilized one: it moves from the current count towards the stabilized one, and not past it.
  pub conform_with_behavior_between :
      (now : NaiveDateTime) (h : History) (object : HorizontalPodAutoscaler) (current desired : ℕ)
      → object.spec.min_replicas ≤ current
      → current ≤ object.spec.max_replicas
      → let conformed = conform_with_behavior f now h object current desired in
        (min current desired ≤ conformed)
        × (conformed ≤ max current desired)
        × (conformed ≤ object.spec.max_replicas)
  unfolding conform_with_behavior
  conform_with_behavior_between now h object current desired lo hi = ground arith

  normalize-bounds :
      (now : NaiveDateTime) (h : History) (object : HorizontalPodAutoscaler) (current desired : ℕ)
      → object.spec.min_replicas ≤ current
      → current ≤ object.spec.max_replicas
      → (object.spec.min_replicas ≤ (normalize_desired_replicas f now h object current desired).1)
        × ((normalize_desired_replicas f now h object current desired).1 ≤ object.spec.max_replicas)
  unfolding normalize_desired_replicas
  normalize-bounds now h object current desired lo hi =
      let (h', stabilized) =
        stabilize_recommendation now h object.metadata.name current desired object.spec.behavior in
      let (_, _, below) = conform_with_behavior_between now h' object current stabilized lo hi in
      (omega arith, omega (arith, below))

  -- For an object with `min_replicas <= max_replicas`: a count that the autoscaler decides on is
  -- within these limits if the current count is not 0, and it is 0 if the current count is 0.
  pub decide-bounds :
      (now : NaiveDateTime) (h h' : History) (object : HorizontalPodAutoscaler)
      (current desired : ℕ) (compute : Outcome ℕ)
      → object.spec.min_replicas ≤ object.spec.max_replicas
      → decide f now h object current compute ≡ ok (h', desired)
      → (current ≡ 0 → desired ≡ 0)
        × (current ≢ 0
            → (object.spec.min_replicas ≤ desired) × (desired ≤ object.spec.max_replicas))
  unfolding decide
  decide-bounds now h h' object current desired (ok n) le e =
      ground (arith, normalize-bounds now h object current n)
  decide-bounds now h h' object current desired error le e = ground arith
  decide-bounds now h h' object current desired panics le e = ground arith

  -- What a run may post for a scale target `rs`: the target with another count within the limits
  -- and nothing else changed, or the autoscaler itself with a new status and nothing else changed.
  abbrev pub IsAllowed : HorizontalPodAutoscaler → ReplicaSet → KubeObject → Type 0
  IsAllowed object rs (replica_set new) =
      (new ≡ with_replicas rs new.spec.replicas)
      × (new.spec.replicas ≢ rs.spec.replicas)
      × (object.spec.min_replicas ≤ new.spec.replicas)
      × (new.spec.replicas ≤ object.spec.max_replicas)
  IsAllowed object rs (hpa new) =
      (new ≡ record object { status = new.status }) × (new.status ≢ object.status)
  IsAllowed object rs _ = ⊥

  post_status-IsAllowed :
      (w : World) (object : HorizontalPodAutoscaler) (status new_status : HpaStatus) (h : History)
      (rs : ReplicaSet) (posted : List KubeObject)
      → object.status ≡ some status
      → All (IsAllowed object rs) posted
      → All (IsAllowed object rs) (post_status w object status new_status h posted).posted
  unfolding post_status
  post_status-IsAllowed w object status new_status h rs posted s a =
      elim (Bool-cases (hpa_status_eq.beq status new_status)) [
        | inl same ↦ rw (same, post_status) a
        | inr differ ↦
            rw (differ, post_status)
              (All-append (IsAllowed object rs) posted _ a
                ((refl, ground (arith, hpa_status_beq_iff status new_status)), tt))
      ]

  scale-IsAllowed :
      (w : World) (object : HorizontalPodAutoscaler) (status : HpaStatus) (rs : ReplicaSet)
      (h : History) (desired : ℕ)
      → object.status ≡ some status
      → (rs.spec.replicas ≢ desired
          → (object.spec.min_replicas ≤ desired) × (desired ≤ object.spec.max_replicas))
      → All (IsAllowed object rs) (scale f w object status rs h desired).posted
  unfolding scale post_status
  scale-IsAllowed w object status rs h desired s b =
      let new_status = status_after w.now status rs.spec.replicas desired in
      let scaled = replica_set (with_replicas rs desired) in
      let h' =
        record_scale_event w.now h object.metadata.name object.spec.behavior rs.spec.replicas
          desired in
      elim (Bool-cases (nat_eq.beq rs.spec.replicas desired)) [
        | inl same ↦ rw (same, scale) (post_status-IsAllowed w object status _ h rs [] s tt)
        | inr differ ↦
            let target : IsAllowed object rs scaled =
              (refl, ground arith, ground (arith, b), ground (arith, b)) in
            rw (differ, scale)
              (elim (Bool-cases w.target_posted) [
                | inl posted ↦
                    rw (posted, scale)
                      (post_status-IsAllowed w object status new_status h' rs (scaled ∷ []) s
                        (target, tt))
                | inr refused ↦ rw (refused, scale) (target, tt)
              ])
      ]

  decided-IsAllowed :
      (w : World) (noted h : History) (object : HorizontalPodAutoscaler) (status : HpaStatus)
      (rs : ReplicaSet) (o : Outcome (History × ℕ))
      → object.status ≡ some status
      → ((h' : History) (desired : ℕ)
          → o ≡ ok (h', desired)
          → rs.spec.replicas ≢ desired
          → (object.spec.min_replicas ≤ desired) × (desired ≤ object.spec.max_replicas))
      → All (IsAllowed object rs) (after_decision f w noted object status rs o).posted
  unfolding after_decision
  decided-IsAllowed w noted h object status rs (ok (h', desired)) s b =
      scale-IsAllowed w object status rs h' desired s (b h' desired refl)
  decided-IsAllowed w noted h object status rs error s b = tt
  decided-IsAllowed w noted h object status rs panics s b = tt

  arm-IsAllowed :
      (w : World) (h : History) (object : HorizontalPodAutoscaler) (status : HpaStatus)
      (rs : ReplicaSet)
      → object.spec.min_replicas ≤ object.spec.max_replicas
      → object.status ≡ some status
      → All (IsAllowed object rs) (reconcile_replica_set f w h object status rs).posted
  unfolding reconcile_replica_set
  arm-IsAllowed w h object status rs le s =
      let n = rs.spec.replicas in
      let noted = note_current w.now object.metadata.name n status h in
      let computed = compute_replicas f w object.spec.metrics n rs.spec.selector in
      decided-IsAllowed w noted h object status rs (decide f w.now noted object n computed) s
        λ h' desired e differ.
          ground (arith, decide-bounds w.now noted h' object n desired computed le e)

  -- Whatever the metrics, the clock and the API server answer, `reconcile` of an autoscaler with
  -- `min_replicas <= max_replicas` on a replica set posts only what is allowed.
  pub reconcile-IsAllowed :
      (w : World) (h : History) (object : HorizontalPodAutoscaler) (rs : ReplicaSet)
      → object.spec.min_replicas ≤ object.spec.max_replicas
      → w.target ≡ some (replica_set rs)
      → All (IsAllowed object rs) (reconcile f w h object).posted
  unfolding reconcile reconcile_replica_set compute_replicas after_decision scale post_status
  reconcile-IsAllowed w h object rs le t = rw (t, reconcile) (with_status object.status refl)
    where
      with_status :
          (o : Option HpaStatus)
          → object.status ≡ o
          → All (IsAllowed object rs) (reconcile_with f w h object (some (replica_set rs)) o).posted
      with_status none s = tt
      with_status (some status) s = arm-IsAllowed w h object status rs le s
