-- ===== src/ReplicaSetController/Stores.antt =====
-- A pod that enters or leaves a well-formed store.
use r_mini_k8s.Prelude.{◌≢◌, refl, arith, String, none, [], ◌∷◌, string_eq, All}
use r_mini_k8s.Prelude.HashMap.{HashMap, values, insert, remove}
use r_mini_k8s.Objects.{Pod}
use r_mini_k8s.ReplicaSetController.Victim.{HaveStatus}
use r_mini_k8s.ReplicaSetController.Turn.{pod_uri, PodsFiled}

pub insert-PodsFiled :
    (pod : Pod) (store : HashMap String Pod)
    → PodsFiled store
    → PodsFiled (insert (pod_uri pod.metadata.name) pod store)
unfolding insert
insert-PodsFiled pod [] f = (refl, tt)
insert-PodsFiled pod ((k, q) ∷ store) f =
    ground (arith, insert-PodsFiled pod store f.1, string_eq.beq_iff k (pod_uri pod.metadata.name))

pub insert-HaveStatus :
    (k : String) (pod : Pod) (store : HashMap String Pod)
    → pod.status ≢ none
    → HaveStatus (values store)
    → HaveStatus (values (insert k pod store))
unfolding insert
insert-HaveStatus k pod [] p h = (p, tt)
insert-HaveStatus k pod ((j, q) ∷ store) p h = ground (arith, insert-HaveStatus k pod store p h.1)

pub All-remove :
    (P : String × Pod → Type 0) (k : String) (store : HashMap String Pod)
    → All P store
    → All P (remove k store)
unfolding remove
All-remove P k [] h = tt
All-remove P k ((j, q) ∷ store) h = ground (arith, All-remove P k store h.1)

pub remove-HaveStatus :
    (k : String) (store : HashMap String Pod)
    → HaveStatus (values store)
    → HaveStatus (values (remove k store))
unfolding remove
remove-HaveStatus k [] h = tt
remove-HaveStatus k ((j, q) ∷ store) h = ground (arith, remove-HaveStatus k store h.1)
