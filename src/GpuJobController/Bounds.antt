-- ===== src/GpuJobController/Bounds.antt =====
-- The pods of a GPU job against its limits: the controller on a store of pods that changes.
use Prim.Native.Nat.{compare, Ordering, lt, eq, gt}
use r_mini_k8s.Prelude.{
  ℕ, ◌+◌, ◌≤◌, ◌<◌, ◌≡◌, refl, ap, Outcome, ok, error, panics, ◌>>=◌, String, Bool, true, false,
  ◌&&◌, not, Option, none, some, List, [], ◌∷◌, ◌++◌, count, filter, count-append, arith, u32_mod,
  if◌then◌else◌, ◌==◌,
}
use r_mini_k8s.Prelude.HashMap.{HashMap, values}
use r_mini_k8s.Objects.{
  Pod, PodStatus, PodPhase, failed, pending, running, succeeded, phase_eq, GpuJob, GpuJobStatus,
}
use r_mini_k8s.GpuJobController.Defs.{
  post_pod, delete_pod, is_owned, get_pods, get_pod_to_delete, counts_active, has_succeeded,
  calculate_status, counted_status, counted_or_panic, phase_is, want_active, tune, reconcile,
}

-- The pods of the job in the store that run or wait to, and those that have succeeded.
unfoldable pub active_in : GpuJob → HashMap String Pod → ℕ
unfolding count is_owned
active_in job store = count (λ pod. counts_active pod && is_owned job pod) (values store)

unfoldable pub succeeded_in : GpuJob → HashMap String Pod → ℕ
unfolding count is_owned
succeeded_in job store = count (λ pod. has_succeeded pod && is_owned job pod) (values store)

-- No more pods are active than may run at a time, nor more than completions are left.
abbrev pub IsWithin : GpuJob → HashMap String Pod → Type 0
IsWithin job store =
    (active_in job store ≤ job.spec.parallelism)
    × (active_in job store + succeeded_in job store ≤ job.spec.completions)

-- The controller sees the status that it has just computed and posts a pod, which does not start out
-- as succeeded; an active pod changes; a pod is removed.
pub data Step (job : GpuJob) : HashMap String Pod → HashMap String Pod → Type 0 where
  created :
      (store : HashMap String Pod) (status : GpuJobStatus) (posted : Pod) (key : String) (pod : Pod)
      → calculate_status store job ≡ ok status
      → reconcile store (record job { status = some status }) ≡ ok (post_pod posted ∷ [])
      → has_succeeded pod ≡ false
      → Step job store (store ++ (key, pod) ∷ [])
  changed :
      (before after : HashMap String Pod) (key : String) (pod pod' : Pod)
      → counts_active pod ≡ true
      → is_owned job pod' ≡ is_owned job pod
      → Step job (before ++ (key, pod) ∷ after) (before ++ (key, pod') ∷ after)
  removed :
      (before after : HashMap String Pod) (key : String) (pod : Pod)
      → Step job (before ++ (key, pod) ∷ after) (before ++ after)

pub data Steps (job : GpuJob) : HashMap String Pod → HashMap String Pod → Type 0 where
  done : (store : HashMap String Pod) → Steps job store store
  next :
      (store store' store'' : HashMap String Pod)
      → Step job store store'
      → Steps job store' store''
      → Steps job store store''

values-append : (xs ys : HashMap String Pod) → values (xs ++ ys) ≡ values xs ++ values ys
values-append [] ys = refl
values-append ((k, v) ∷ xs) ys = ap (λ vs. v ∷ vs) (values-append xs ys)

count-filter :
    (p q : Pod → Bool) (pods : List Pod)
    → count p (filter q pods) ≡ count (λ pod. p pod && q pod) pods
unfolding count filter
count-filter p q [] = refl
count-filter p q (pod ∷ pods) = ground (arith, count-filter p q pods)

count-entry :
    (p : Pod → Bool) (before after : HashMap String Pod) (key : String) (pod : Pod)
    → count p (values (before ++ (key, pod) ∷ after))
      ≡ count p (values before) + (if p pod then 1 else 0) + count p (values after)
unfolding count
count-entry p before after key pod = ground (
  arith,
  values-append before ((key, pod) ∷ after),
  count-append p (values before) (pod ∷ values after),
)

count-values_append :
    (p : Pod → Bool) (before after : HashMap String Pod)
    → count p (values (before ++ after)) ≡ count p (values before) + count p (values after)
count-values_append p before after =
    ground (arith, values-append before after, count-append p (values before) (values after))

posts-lt :
    (store : HashMap String Pod) (job : GpuJob) (order : Ordering) (posted : Pod)
    → tune store job order ≡ ok (post_pod posted ∷ [])
    → order ≡ lt
unfolding tune
posts-lt store job lt posted e = refl
posts-lt store job eq posted e = ground arith
posts-lt store job gt posted e = by_name (get_pod_to_delete store job) e
  where
    by_name :
        (r : Outcome String)
        → (r >>= λ name. ok (delete_pod name ∷ [])) ≡ ok (post_pod posted ∷ [])
        → gt ≡ lt
    by_name (ok name) e' = ground arith
    by_name error e' = ground arith
    by_name panics e' = ground arith

-- An active pod has not succeeded.
not_both : (pod : Pod) → (counts_active pod && has_succeeded pod) ≡ false
not_both pod = by_status pod.status
  where
    by_phase :
        (phase : PodPhase)
        → ((not (phase == failed) && not (phase == succeeded)) && phase == succeeded) ≡ false
    by_phase failed = refl
    by_phase pending = refl
    by_phase running = refl
    by_phase succeeded = refl

    by_status :
        (o : Option PodStatus)
        → (phase_is (λ phase. not (phase == failed) && not (phase == succeeded)) o
            && phase_is (λ phase. phase == succeeded) o)
          ≡ false
    by_status none = refl
    by_status (some status) = by_phase status.phase

-- The status that is computed has the counts of the store, if they fit.
calculated :
    (job : GpuJob) (store : HashMap String Pod) (status : GpuJobStatus)
    → active_in job store < u32_mod
    → succeeded_in job store < u32_mod
    → calculate_status store job ≡ ok status
    → (status.active ≡ active_in job store) × (status.succeeded ≡ succeeded_in job store)
unfolding active_in succeeded_in calculate_status counted_status get_pods counted_or_panic
calculated job store status a d e = by_status job.status e
  where
    pods : List Pod
    pods = filter (is_owned job) (values store)

    by_status :
        (o : Option GpuJobStatus)
        → counted_or_panic pods o ≡ ok status
        → (status.active ≡ active_in job store) × (status.succeeded ≡ succeeded_in job store)
    by_status none e' = ground arith
    by_status (some old) e' =
        let a' = count-filter counts_active (is_owned job) (values store) in
        let d' = count-filter has_succeeded (is_owned job) (values store) in
        ground (arith, a', d', a, d)

-- A pod is posted only below the limits.
created_below :
    (job : GpuJob) (store : HashMap String Pod) (status : GpuJobStatus) (posted : Pod)
    → job.spec.completions < u32_mod
    → calculate_status store job ≡ ok status
    → reconcile store (record job { status = some status }) ≡ ok (post_pod posted ∷ [])
    → IsWithin job store
    → (active_in job store < job.spec.parallelism)
      × (active_in job store + succeeded_in job store < job.spec.completions)
unfolding reconcile
created_below job store status posted c e r w =
    let counts = calculated job store status (omega arith) (omega arith) e in
    let order =
      posts-lt store (record job { status = some status })
        (compare status.active (want_active job status)) posted r in
    ground (arith, counts)

Step-IsWithin :
    (job : GpuJob) (store store' : HashMap String Pod)
    → job.spec.completions < u32_mod
    → Step job store store'
    → IsWithin job store
    → IsWithin job store'
unfolding active_in succeeded_in
Step-IsWithin job _ _ c (removed before after key pod) w = ground (
  arith,
  count-entry (λ pod. counts_active pod && is_owned job pod) before after key pod,
  count-entry (λ pod. has_succeeded pod && is_owned job pod) before after key pod,
  count-values_append (λ pod. counts_active pod && is_owned job pod) before after,
  count-values_append (λ pod. has_succeeded pod && is_owned job pod) before after,
)
Step-IsWithin job _ _ c (changed before after key pod pod' a o) w = ground (
  arith,
  count-entry (λ pod. counts_active pod && is_owned job pod) before after key pod,
  count-entry (λ pod. has_succeeded pod && is_owned job pod) before after key pod,
  count-entry (λ pod. counts_active pod && is_owned job pod) before after key pod',
  count-entry (λ pod. has_succeeded pod && is_owned job pod) before after key pod',
  not_both pod,
  not_both pod',
)
Step-IsWithin job _ _ c (created store status posted key pod e r n) w =
    let less = created_below job store status posted c e r w in
    ground (
      arith,
      less,
      count-entry (λ pod. counts_active pod && is_owned job pod) store [] key pod,
      count-entry (λ pod. has_succeeded pod && is_owned job pod) store [] key pod,
    )

-- From a store that is within the limits of the job, whose completions are below 2^32, any sequence
-- of posts by the controller, each after a status that it has just computed, changes of active pods
-- and removals of pods leads to a store within the limits: no more pods of the job are active than
-- its parallelism, nor active or succeeded than its completions.
pub Steps-IsWithin :
    (job : GpuJob) (store store' : HashMap String Pod)
    → job.spec.completions < u32_mod
    → Steps job store store'
    → IsWithin job store
    → IsWithin job store'
Steps-IsWithin job _ _ c (done store) w = w
Steps-IsWithin job _ _ c (next store store' store'' s rest) w =
    Steps-IsWithin job store' store'' c rest (Step-IsWithin job store store' c s w)
