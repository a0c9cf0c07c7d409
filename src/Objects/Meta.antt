-- ===== src/Objects/Meta.antt =====
-- Metadata and references: objects/mod.rs, objects/object_reference.rs.
use r_mini_k8s.Prelude.{ℕ, String, Option, List, string_eq, ◌*◌}
use r_mini_k8s.Prelude.HashMap.{HashMap}

abbrev pub Uuid : Type 0
Uuid = ℕ

abbrev pub Ipv4Addr : Type 0
Ipv4Addr = ℕ

-- Nanoseconds.
abbrev pub NaiveDateTime : Type 0
NaiveDateTime = ℕ

-- `Duration::seconds`
abbrev pub seconds : ℕ → ℕ
seconds n = n * 1_000_000_000

abbrev pub Labels : Type 0
Labels = HashMap String String

pub record ObjectReference : Type 0 where
  pub kind : String
  pub name : String

pub record Metadata : Type 0 where
  pub name : String
  pub uid : Option Uuid
  pub labels : Labels
  pub owner_references : List ObjectReference
