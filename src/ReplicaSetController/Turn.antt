-- ===== src/ReplicaSetController/Turn.antt =====
-- A turn of the control loop: the controller looks at a store of pods, and the request that it makes
-- is carried out on the store.
use Prim.Native.String
use r_mini_k8s.Prelude.{
  ok, ◌≢◌, ◌+◌, ◌-◌, ◌<◌, ◌≡◌, ℕ, arith, String, Bool, true, none, some, List, [], ◌∷◌, string_eq,
  filter, count, if◌then◌else◌, All, In, inl, inr, remove_absent, u32_mod,
}
use r_mini_k8s.Prelude.HashMap.{HashMap, values, get, insert, remove, IsMap}
use r_mini_k8s.Objects.{Pod, matches, ReplicaSet}
use r_mini_k8s.ReplicaSetController.Defs.{
  post_pod, delete_pod, calculate_status, new_pod, reconcile,
}
use r_mini_k8s.ReplicaSetController.Victim.{HaveStatus}

-- The replica set with its status up to date.
abbrev pub observed : HashMap String Pod → ReplicaSet → ReplicaSet
observed store rs = record rs { status = some (calculate_status store rs) }

-- The key of the pod with this name.
abbrev pub pod_uri : String → String
pod_uri name = String.◌++◌ "/api/v1/pods" (String.◌++◌ "/" name)

-- A posted pod gets a new name and a status; the other requests are as they say.
pub data Turn (rs : ReplicaSet) : HashMap String Pod → HashMap String Pod → Type 0 where
  created :
      {store : HashMap String Pod}
      → reconcile store (observed store rs) ≡ ok (post_pod (new_pod (observed store rs)) ∷ [])
      → (pod : Pod) → get (pod_uri pod.metadata.name) store ≡ none
      → pod.metadata.labels ≡ (new_pod (observed store rs)).metadata.labels
      → pod.status ≢ none
      → Turn rs store (insert (pod_uri pod.metadata.name) pod store)
  deleted :
      {store : HashMap String Pod} {name : String}
      → reconcile store (observed store rs) ≡ ok (delete_pod name ∷ [])
      → Turn rs store (remove (pod_uri name) store)
  idle :
      {store : HashMap String Pod}
      → reconcile store (observed store rs) ≡ ok []
      → Turn rs store store

-- How many pods match the selector, and how far that is from what is wanted.
unfoldable pub matching : ReplicaSet → HashMap String Pod → ℕ
matching rs store = count (λ pod. matches pod.metadata.labels rs.spec.selector) (values store)

unfoldable pub gap : ReplicaSet → HashMap String Pod → ℕ
gap rs store = (matching rs store - rs.spec.replicas) + (rs.spec.replicas - matching rs store)

-- Each pod is filed under its name.
abbrev pub PodsFiled : HashMap String Pod → Type 0
PodsFiled store = All (λ ((k, pod) : String × Pod). k ≡ pod_uri pod.metadata.name) store

pub record IsStore (rs : ReplicaSet) (store : HashMap String Pod) : Type 0 where
  pub distinct : IsMap store
  pub filed : PodsFiled store
  pub statuses : HaveStatus (values store)
  pub fits : matching rs store < u32_mod

module _ (p : Pod → Bool) where
  pub count-insert :
      (k : String) (pod : Pod) (store : HashMap String Pod)
      → get k store ≡ none
      → count p (values (insert k pod store)) ≡ count p (values store) + (if p pod then 1 else 0)
  unfolding get insert count
  count-insert k pod [] h = ground arith
  count-insert k pod ((j, q) ∷ store) h = ground (arith, count-insert k pod store)

  pub count-remove :
      (k : String) (pod : Pod) (store : HashMap String Pod)
      → IsMap store
      → get k store ≡ some pod
      → count p (values store) ≡ count p (values (remove k store)) + (if p pod then 1 else 0)
  unfolding get remove count
  count-remove k pod [] d h = ground arith
  count-remove k pod ((j, q) ∷ store) d h =
      ground (arith, count-remove k pod store, remove_absent k store, string_eq.beq_iff j k)

pub In-filter :
    (p : Pod → Bool) (pod : Pod) (pods : List Pod)
    → In pod (filter p pods)
    → In pod pods × (p pod ≡ true)
unfolding filter
In-filter p pod [] i = elim i [ ]
In-filter p pod (q ∷ pods) i = ground (arith, In-filter p pod pods)

pub get_of_In :
    (pod : Pod) (store : HashMap String Pod)
    → IsMap store
    → PodsFiled store
    → In pod (values store)
    → get (pod_uri pod.metadata.name) store ≡ some pod
unfolding get
get_of_In pod [] d f i = elim i [ ]
get_of_In pod ((k, q) ∷ store) d f (inl e) =
    ground (arith, e, f.0, string_eq.beq_iff k (pod_uri pod.metadata.name))
get_of_In pod ((k, q) ∷ store) d f (inr i) =
    ground
      (arith, get_of_In pod store d.1 f.1 i, d.0, string_eq.beq_iff k (pod_uri pod.metadata.name))
