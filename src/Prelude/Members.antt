-- ===== src/Prelude/Members.antt =====
-- A predicate that holds for a member of a list, and what a successful chain of calls was made of.
use mathlib.Core.Path.{◌≡◌, refl}
use mathlib.Core.List.{List, [], ◌∷◌, ◌++◌}
use mathlib.Core.Logic.{◌⊎◌, ◌↔◌, inl, inr}
use native.Mathlib.Omega.{arith}
use r_mini_k8s.Prelude.Results.{Outcome, ok, error, panics, ◌>>=◌}

-- A member of the list is as the predicate says.
abbrev pub Some : {A : Type 0} → (A → Type 0) → List A → Type 0
Some P [] = ⊥
Some P (x ∷ xs) = P x ⊎ Some P xs

pub bind-ok :
    {A B : Type 0} (x : Outcome A) (f : A → Outcome B) (b : B)
    → (x >>= f) ≡ ok b
    → (a : A) × (x ≡ ok a) × (f a ≡ ok b)
bind-ok (ok a) f b e = (a, refl, e)
bind-ok error f b e = ground arith
bind-ok panics f b e = ground arith

pub sum_iff : {A B C D : Type 0} → (A ↔ B) → (C ↔ D) → (A ⊎ C) ↔ (B ⊎ D)
sum_iff f g = (
  λ s. elim s [ inl a ↦ inl (f.0 a) | inr c ↦ inr (g.0 c) ],
  λ s. elim s [ inl b ↦ inl (f.1 b) | inr d ↦ inr (g.1 d) ],
)

pub ok_inj : {A : Type 0} (a b : A) → ok a ≡ ok b → a ≡ b
ok_inj a b e = ground arith

pub Some-append :
    {A : Type 0} (P : A → Type 0) (xs ys : List A) → Some P (xs ++ ys) ↔ (Some P xs ⊎ Some P ys)
Some-append P [] ys = (λ s. inr s, λ s. elim s [ inl e ↦ absurd e | inr t ↦ t ])
Some-append P (x ∷ xs) ys =
    let rest = Some-append P xs ys in
    (
      λ s. elim s [
        | inl p ↦ inl (inl p)
        | inr t ↦ elim (rest.0 t) [ inl a ↦ inl (inr a) | inr b ↦ inr b ]
      ],
      λ s. elim s [
        | inl a ↦ elim a [ inl p ↦ inl p | inr t ↦ inr (rest.1 (inl t)) ]
        | inr b ↦ inr (rest.1 (inr b))
      ],
    )

pub append-empty : {A : Type 0} (xs ys : List A) → (xs ++ ys) ≡ [] → (xs ≡ []) × (ys ≡ [])
append-empty [] ys e = (refl, e)
append-empty (x ∷ xs) ys e = ground arith
