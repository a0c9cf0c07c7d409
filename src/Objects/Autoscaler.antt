-- ===== src/Objects/Autoscaler.antt =====
-- The horizontal pod autoscaler's object: objects/hpa.rs.
use r_mini_k8s.Prelude.{
  ℕ, String, Bool, true, ◌&&◌, ◌≡◌, ◌↔◌, Option, List, [], ◌∷◌, arith, Eq, nat_eq, string_eq,
  option_eq, ◌==◌, max, ◌≤◌, All,
}
use r_mini_k8s.Objects.Meta.{Metadata, ObjectReference, NaiveDateTime}
use r_mini_k8s.Objects.ContainerSpec.{ResourceName, cpu_resource}

pub data PolicySelection : Type 0 where
  min_change max_change disabled : PolicySelection

pub data ScalingPolicyType : Type 0 where
  pods percent : ScalingPolicyType

pub record HpaScalingPolicy : Type 0 where
  pub type_ : ScalingPolicyType
  pub value : ℕ
  pub period_seconds : ℕ

pub record HpaScalingRules : Type 0 where
  pub policies : List HpaScalingPolicy
  pub select_policy : PolicySelection
  pub stabilization_window_seconds : ℕ

longest : List HpaScalingPolicy → ℕ
longest [] = 0
longest (p ∷ ps) = max p.period_seconds (longest ps)

-- `HPAScalingRules::longest_period`: the maximum, or 0 with no policy.
unfoldable pub longest_period : HpaScalingRules → ℕ
unfolding longest
longest_period rules = longest rules.policies

pub record HpaBehavior : Type 0 where
  pub scale_down : HpaScalingRules
  pub scale_up : HpaScalingRules

unfoldable pub default_scale_down_behavior : HpaScalingRules
default_scale_down_behavior = record {
  policies = record { type_ = percent; value = 100; period_seconds = 60 } ∷ [];
  select_policy = max_change;
  stabilization_window_seconds = 60;
}

unfoldable pub default_scale_up_behavior : HpaScalingRules
default_scale_up_behavior = record {
  policies =
      record { type_ = pods; value = 4; period_seconds = 60 }
      ∷ record { type_ = percent; value = 100; period_seconds = 60 }
      ∷ [];
  select_policy = max_change;
  stabilization_window_seconds = 0;
}

unfoldable pub default_behavior : HpaBehavior
unfolding default_scale_down_behavior default_scale_up_behavior
default_behavior = record {
  scale_down = default_scale_down_behavior;
  scale_up = default_scale_up_behavior;
}

pub data MetricTarget : Type 0 where
  average_utilization : ℕ → MetricTarget
  average_value : ℕ → MetricTarget

pub record ResourceMetricSource : Type 0 where
  pub name : ResourceName
  pub target : MetricTarget

pub record FunctionMetricSource : Type 0 where
  pub name : String
  pub target : ℕ

pub data MetricSource : Type 0 where
  resource : ResourceMetricSource → MetricSource
  function : FunctionMetricSource → MetricSource

pub record HpaSpec : Type 0 where
  pub max_replicas : ℕ
  pub min_replicas : ℕ
  pub scale_target_ref : ObjectReference
  pub behavior : HpaBehavior
  pub metrics : MetricSource

unfoldable pub default_min_replicas : ℕ
default_min_replicas = 1

unfoldable pub default_metrics : MetricSource
default_metrics = resource (record { name = cpu_resource; target = average_utilization 80 })

pub record HpaStatus : Type 0 where
  pub desired_replicas : ℕ
  pub current_replicas : ℕ
  pub last_scale_time : Option NaiveDateTime

abbrev hpa_status_beq : HpaStatus → HpaStatus → Bool
hpa_status_beq a b =
    a.desired_replicas == b.desired_replicas
    && a.current_replicas == b.current_replicas
    && a.last_scale_time == b.last_scale_time

pub hpa_status_beq_iff : (a b : HpaStatus) → (hpa_status_beq a b ≡ true) ↔ (a ≡ b)
hpa_status_beq_iff a b = ground arith

instance abbrev pub hpa_status_eq : Eq HpaStatus
hpa_status_eq = record { beq = hpa_status_beq; beq_iff = hpa_status_beq_iff }

pub record HorizontalPodAutoscaler : Type 0 where
  pub metadata : Metadata
  pub spec : HpaSpec
  pub status : Option HpaStatus

-- Every policy's period is within the longest one.
pub longest_period_bound :
    (rules : HpaScalingRules) → All (λ p. p.period_seconds ≤ longest_period rules) rules.policies
unfolding longest_period
longest_period_bound rules = go rules.policies
  where
    widen :
        (m n : ℕ) (ps : List HpaScalingPolicy)
        → m ≤ n
        → All (λ p. p.period_seconds ≤ m) ps
        → All (λ p. p.period_seconds ≤ n) ps
    widen m n [] l h = tt
    widen m n (p ∷ ps) l h = (omega arith, widen m n ps l h.1)

    go : (ps : List HpaScalingPolicy) → All (λ p. p.period_seconds ≤ longest ps) ps
    go [] = tt
    go (p ∷ ps) = (omega arith, widen (longest ps) (longest (p ∷ ps)) ps (omega arith) (go ps))
