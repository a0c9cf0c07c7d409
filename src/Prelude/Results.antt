-- ===== src/Prelude/Results.antt =====
-- A Rust `Result` whose error carries only a message, or a panic of the program.
pub data Outcome (A : Type 0) : Type 0 where
  ok : A → Outcome A
  error : Outcome A
  panics : Outcome A

infixl 5 ◌>>=◌
abbrev pub ◌>>=◌ : {A B : Type 0} → Outcome A → (A → Outcome B) → Outcome B
ok a >>= f = f a
error >>= f = error
panics >>= f = panics
