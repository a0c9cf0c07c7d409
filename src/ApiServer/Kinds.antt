-- ===== src/ApiServer/Kinds.antt =====
-- Keys and kinds of the objects that `bind` reads and writes.
use Prim.Native.String
use text.Mathlib.TextLemmas.{append_assoc}
use text.Mathlib.TextPositions.{slice-append_left}
use r_mini_k8s.Prelude.{
  ◌≢◌, ◌⊎◌, String, Option, none, some, ◌≡◌, refl, sym, ap, ◌∙◌, arith, string_eq, nat_eq, inl, inr,
}
use r_mini_k8s.Objects.{
  KubeObject, pod, node, binding, service, replica_set, ingress, hpa, gpu_job, function, workflow,
  uri, prefix, name_of, lowercase_kind, Pod, condition_eq, Node, Binding,
}
use r_mini_k8s.ApiServer.Etcd.{failure, StatusCode, of_kind}

-- The keys of pods and bindings are apart.
pub pod-apart : (p : Pod) (b : Binding) → uri (pod p) ≢ uri (binding b)
unfolding uri prefix lowercase_kind name_of
pod-apart p b e =
    let first : String → String = λ s. String.slice s 0 9 in
    let cut : (s t : String) → String.slice (String.◌++◌ s t) 0 (String.len s) ≡ s =
      slice-append_left in
    let left : uri (pod p)
        ≡ String.◌++◌ "/api/v1/p" (String.◌++◌ "ods" (String.◌++◌ "/" p.metadata.name)) =
      append_assoc "/api/v1/p" "ods" (String.◌++◌ "/" p.metadata.name) in
    let right : uri (binding b)
        ≡ String.◌++◌ "/api/v1/b" (String.◌++◌ "indings" (String.◌++◌ "/" b.metadata.name)) =
      append_assoc "/api/v1/b" "indings" (String.◌++◌ "/" b.metadata.name) in
    let same : "/api/v1/p" ≡ "/api/v1/b" =
      sym (cut "/api/v1/p" _) ∙ ap first (sym left ∙ e ∙ right) ∙ cut "/api/v1/b" _ in
    ground (arith, same, string_eq.beq_iff "/api/v1/p" "/api/v1/b")

pub of_kind-node :
    (o : Option KubeObject)
    → ((t : Node) × (o ≡ some (node t))) ⊎ ((code : StatusCode) × (of_kind "node" o ≡ failure code))
unfolding of_kind lowercase_kind
of_kind-node none = inr (_, refl)
of_kind-node (some (pod x)) = inr (_, refl)
of_kind-node (some (binding x)) = inr (_, refl)
of_kind-node (some (node x)) = inl (x, refl)
of_kind-node (some (service x)) = inr (_, refl)
of_kind-node (some (replica_set x)) = inr (_, refl)
of_kind-node (some (ingress x)) = inr (_, refl)
of_kind-node (some (hpa x)) = inr (_, refl)
of_kind-node (some (gpu_job x)) = inr (_, refl)
of_kind-node (some (function x)) = inr (_, refl)
of_kind-node (some (workflow x)) = inr (_, refl)

pub of_kind-pod :
    (o : Option KubeObject)
    → ((p : Pod) × (o ≡ some (pod p))) ⊎ ((code : StatusCode) × (of_kind "pod" o ≡ failure code))
unfolding of_kind lowercase_kind
of_kind-pod none = inr (_, refl)
of_kind-pod (some (pod x)) = inl (x, refl)
of_kind-pod (some (binding x)) = inr (_, refl)
of_kind-pod (some (node x)) = inr (_, refl)
of_kind-pod (some (service x)) = inr (_, refl)
of_kind-pod (some (replica_set x)) = inr (_, refl)
of_kind-pod (some (ingress x)) = inr (_, refl)
of_kind-pod (some (hpa x)) = inr (_, refl)
of_kind-pod (some (gpu_job x)) = inr (_, refl)
of_kind-pod (some (function x)) = inr (_, refl)
of_kind-pod (some (workflow x)) = inr (_, refl)
