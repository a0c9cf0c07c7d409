-- ===== src/ReplicaSetController/Sorting.antt =====
-- The order that sorts the pods, and the first pod of the sorted ones.
use r_mini_k8s.Prelude.{
  ◌↔◌, ◌⊎◌, inl, inr, ◌*◌, ◌+◌, ◌≤◌, ◌<◌, ◌≡◌, refl, ℕ, arith, true, false, List, [], ◌∷◌, nat_eq,
  if◌then◌else◌, All, Bool-cases,
}
use r_mini_k8s.Objects.{Pod, PodStatus, phase_eq, is_ready}
use r_mini_k8s.ReplicaSetController.Defs.{
  phase_order, compare_pods, is_greater, insert_sorted, sort_pods,
}

-- The phase first (failed, pending, running, succeeded), then whether the pod is ready.
pub rank : Pod × PodStatus → ℕ
rank (pod, status) = 2 * phase_order status.phase + (if is_ready pod then 1 else 0)

-- `p` has the smaller rank, or the same and did not start later.
pub Precedes : Pod × PodStatus → Pod × PodStatus → Type 0
Precedes p q = (rank p < rank q) ⊎ ((rank p ≡ rank q) × (p.1.start_time ≤ q.1.start_time))

not_greater-Precedes :
    (p q : Pod × PodStatus) → is_greater (compare_pods p q) ≡ false → Precedes p q
unfolding compare_pods Precedes rank phase_order
not_greater-Precedes p q h = ground arith

greater-Precedes : (p q : Pod × PodStatus) → is_greater (compare_pods p q) ≡ true → Precedes q p
unfolding compare_pods Precedes rank phase_order
greater-Precedes p q h = ground arith

Precedes-trans : (p q r : Pod × PodStatus) → Precedes p q → Precedes q r → Precedes p r
unfolding Precedes
Precedes-trans p q r h k = ground arith

pub Precedes-refl : (p : Pod × PodStatus) → Precedes p p
unfolding Precedes
Precedes-refl p = inr (refl, ground arith)

All-trans :
    (p q : Pod × PodStatus) (rs : List (Pod × PodStatus))
    → Precedes p q
    → All (Precedes q) rs
    → All (Precedes p) rs
All-trans p q [] h a = tt
All-trans p q (r ∷ rs) h a = (Precedes-trans p q r h a.0, All-trans p q rs h a.1)

All-insert_sorted :
    (P : Pod × PodStatus → Type 0) (p : Pod × PodStatus) (qs : List (Pod × PodStatus))
    → All P (insert_sorted p qs) ↔ (P p × All P qs)
unfolding insert_sorted
All-insert_sorted P p [] = (λ h. h, λ h. h)
All-insert_sorted P p (q ∷ qs) = ground (arith, All-insert_sorted P p qs)

pub All-sort_pods :
    (P : Pod × PodStatus → Type 0) (ps : List (Pod × PodStatus)) → All P (sort_pods ps) ↔ All P ps
unfolding sort_pods
All-sort_pods P [] = (λ h. h, λ h. h)
All-sort_pods P (p ∷ ps) = ground (arith, All-insert_sorted P p (sort_pods ps), All-sort_pods P ps)

-- The first element precedes the others.
abbrev pub HeadPrecedes : List (Pod × PodStatus) → Type 0
HeadPrecedes [] = Unit
HeadPrecedes (p ∷ ps) = All (Precedes p) ps

insert_sorted-HeadPrecedes :
    (p : Pod × PodStatus) (qs : List (Pod × PodStatus))
    → HeadPrecedes qs
    → HeadPrecedes (insert_sorted p qs)
unfolding insert_sorted
insert_sorted-HeadPrecedes p [] h = tt
insert_sorted-HeadPrecedes p (q ∷ qs) h = elim (Bool-cases (is_greater (compare_pods p q))) [
  | inl greater ↦
      rw (greater, insert_sorted)
        ((All-insert_sorted (Precedes q) p qs).1 (greater-Precedes p q greater, h))
  | inr not_greater ↦
      let pq = not_greater-Precedes p q not_greater in
      rw (not_greater, insert_sorted) (pq, All-trans p q qs pq h)
]

pub sort_pods-HeadPrecedes : (ps : List (Pod × PodStatus)) → HeadPrecedes (sort_pods ps)
unfolding sort_pods
sort_pods-HeadPrecedes [] = tt
sort_pods-HeadPrecedes (p ∷ ps) =
    insert_sorted-HeadPrecedes p (sort_pods ps) (sort_pods-HeadPrecedes ps)
