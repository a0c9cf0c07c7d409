-- ===== src/ReplicaSetController/Victim.antt =====
-- Which pod `get_pod_to_delete` names.
use mathlib.Core.Path.{subst}
use r_mini_k8s.Prelude.{
  ok, ◌≢◌, ◌↔◌, inl, inr, ◌≡◌, refl, sym, ◌∙◌, arith, String, Option, none, some, List, [], ◌∷◌,
  nat_eq, All, In, Option-cases,
}
use r_mini_k8s.Prelude.HashMap.{HashMap}
use r_mini_k8s.Objects.{Pod, PodStatus, phase_eq, ReplicaSet}
use r_mini_k8s.ReplicaSetController.Defs.{
  sort_pods, with_statuses, first_name, first_sorted, least_of, get_pods, get_pod_to_delete,
}
use r_mini_k8s.ReplicaSetController.Sorting.{
  Precedes, Precedes-refl, HeadPrecedes, All-sort_pods, sort_pods-HeadPrecedes,
}

some_inj : (s t : PodStatus) → some s ≡ some t → s ≡ t
some_inj s t e = cc

-- `pod` is one of `pods`, and it precedes each of them, as far as both have a status.
pub record IsFirst (pods : List Pod) (pod : Pod) : Type 0 where
  pub present : In pod pods
  pub first :
      (status : PodStatus)
      → pod.status ≡ some status
      → All
          (λ (other : Pod).
            (s : PodStatus) → other.status ≡ some s → Precedes (pod, status) (other, s))
          pods

-- Every pod has a status.
abbrev pub HaveStatus : List Pod → Type 0
HaveStatus pods = All (λ (pod : Pod). pod.status ≢ none) pods

-- The pairs are the pods, each with its status.
abbrev pub Paired : List Pod → List (Pod × PodStatus) → Type 0
Paired [] [] = Unit
Paired (pod ∷ pods) ((p, s) ∷ ps) = (p ≡ pod) × (pod.status ≡ some s) × Paired pods ps
Paired _ _ = ⊥

pub with_statuses-Paired :
    (pods : List Pod)
    → HaveStatus pods
    → (ps : List (Pod × PodStatus)) × (with_statuses pods ≡ some ps) × Paired pods ps
unfolding with_statuses
with_statuses-Paired [] h = ([], refl, tt)
with_statuses-Paired (pod ∷ pods) h =
    let (ps, e, paired) = with_statuses-Paired pods h.1 in
    elim (Option-cases pod.status) [
      | inl n ↦ elim (h.0 n) [ ]
      | inr (s, q) ↦ ((pod, s) ∷ ps, ground (arith, e, q), (refl, q, paired))
    ]

Paired-with_statuses :
    (pods : List Pod) (ps : List (Pod × PodStatus)) → with_statuses pods ≡ some ps → Paired pods ps
unfolding with_statuses
Paired-with_statuses [] [] e = tt
Paired-with_statuses [] (p ∷ ps) e = ground arith
Paired-with_statuses (pod ∷ pods) [] e = ground arith
Paired-with_statuses (pod ∷ pods) ((p, s) ∷ ps) e = elim (Option-cases (with_statuses pods)) [
  | inl n ↦ ground (arith, n)
  | inr (qs, q) ↦ ground (arith, q, Paired-with_statuses pods ps)
]

All-Paired :
    (P : Pod × PodStatus → Type 0) (pods : List Pod) (ps : List (Pod × PodStatus))
    → Paired pods ps
    → All P ps
    → All (λ (other : Pod). (s : PodStatus) → other.status ≡ some s → P (other, s)) pods
All-Paired P [] ps d a = tt
All-Paired P (pod ∷ pods) ((p, t) ∷ ps) (e, q, d) a =
    let t_is : (s : PodStatus) → pod.status ≡ some s → t ≡ s = λ s r. cc in
    (
      (λ s r. subst (λ x. P (pod, x)) (t_is s r) (subst (λ x. P (x, t)) e a.0)),
      All-Paired P pods ps d a.1,
    )
All-Paired P (pod ∷ pods) [] d a = elim d [ ]

Paired-In :
    (pods all : List Pod) (ps : List (Pod × PodStatus))
    → Paired pods ps
    → All (λ (pod : Pod). In pod all) pods
    → All (λ ((p, s) : Pod × PodStatus). In p all × (p.status ≡ some s)) ps
Paired-In [] all [] d h = tt
Paired-In (pod ∷ pods) all ((p, t) ∷ ps) (e, q, d) h =
    ((subst (λ x. In x all) (sym e) h.0, cc), Paired-In pods all ps d h.1)
Paired-In [] all (p ∷ ps) d h = elim d [ ]
Paired-In (pod ∷ pods) all [] d h = elim d [ ]

All-In_self : (pods : List Pod) → All (λ (pod : Pod). In pod pods) pods
All-In_self pods = All_of_sub pods pods λ p i. i
  where
    All_of_sub :
        (all xs : List Pod) → ((p : Pod) → In p xs → In p all) → All (λ (pod : Pod). In pod all) xs
    All_of_sub all [] f = tt
    All_of_sub all (x ∷ xs) f = (f x (inl refl), All_of_sub all xs λ p i. f p (inr i))

-- The first of the sorted pairs.
sorted-IsFirst :
    (pods : List Pod) (ps qs : List (Pod × PodStatus)) (name : String)
    → Paired pods ps
    → HeadPrecedes qs
    → ((P : Pod × PodStatus → Type 0) → All P qs ↔ All P ps)
    → first_name qs ≡ ok name
    → (pod : Pod) × (pod.metadata.name ≡ name) × IsFirst pods pod
sorted-IsFirst pods ps [] name d h same e = ground arith
sorted-IsFirst pods ps ((pod, s) ∷ qs) name d h same e =
    let (present, has) = ((same _).1 (Paired-In pods pods ps d (All-In_self pods))).0 in
    let least = All-Paired (Precedes (pod, s)) pods ps d ((same _).0 (Precedes-refl (pod, s), h)) in
    (
      pod,
      cc,
      record {
        present = present;
        first = λ status r.
            subst
              (λ x.
                All
                  (λ (other : Pod).
                    (t : PodStatus) → other.status ≡ some t → Precedes (pod, x) (other, t))
                  pods)
              (some_inj s status (sym has ∙ r)) least;
      },
    )

first_sorted-IsFirst :
    (pods : List Pod) (o : Option (List (Pod × PodStatus))) (name : String)
    → with_statuses pods ≡ o
    → first_sorted o ≡ ok name
    → (pod : Pod) × (pod.metadata.name ≡ name) × IsFirst pods pod
unfolding first_sorted
first_sorted-IsFirst pods none name w e = ground arith
first_sorted-IsFirst pods (some ps) name w e =
    sorted-IsFirst pods ps (sort_pods ps) name (Paired-with_statuses pods ps w)
      (sort_pods-HeadPrecedes ps) (λ P. All-sort_pods P ps) e

-- The two cases in which `least_of` compares, and the two in which it does not.
least_of-IsFirst :
    (pods : List Pod) (name : String)
    → least_of pods ≡ ok name
    → (pod : Pod) × (pod.metadata.name ≡ name) × IsFirst pods pod
unfolding least_of
least_of-IsFirst [] name e = ground arith
least_of-IsFirst (pod ∷ []) name e = (
  pod,
  cc,
  record {
    present = inl refl;
    first = λ status r. (
      (λ s q.
          subst (λ x. Precedes (pod, status) (pod, x)) (some_inj status s (sym r ∙ q))
            (Precedes-refl (pod, status))),
      tt,
    );
  },
)
least_of-IsFirst (p ∷ q ∷ pods) name e =
    first_sorted-IsFirst (p ∷ q ∷ pods) (with_statuses (p ∷ q ∷ pods)) name refl e

-- A pod that `get_pod_to_delete` names matches the selector, and it precedes every other pod that
-- does: none of them has an earlier phase (failed, pending, running, succeeded), is unready in the
-- same phase where it is ready, or started earlier where these two agree.
pub get_pod_to_delete-IsFirst :
    (store : HashMap String Pod) (rs : ReplicaSet) (name : String)
    → get_pod_to_delete store rs ≡ ok name
    → (pod : Pod) × (pod.metadata.name ≡ name) × IsFirst (get_pods store rs) pod
unfolding get_pod_to_delete
get_pod_to_delete-IsFirst store rs name e = least_of-IsFirst (get_pods store rs) name e
