-- ===== src/Types/Value.antt =====
-- The values that encoding/json gives for the code's `any`. A number is kept by its integer part,
-- which is all that the code reads of one.
use pi_go_coding_agent.Base.{String, Bool, true, false, Option, none, some, ◌==◌, if◌then◌else◌}
use pi_go_coding_agent.Base.Int.{ℤ}

mutual
  pub data Json : Type 0 where
    null : Json
    bool : Bool → Json
    num : ℤ → Json
    str : String → Json
    arr : Items → Json
    obj : Fields → Json

  pub data Items : Type 0 where
    nil : Items
    cons : Json → Items → Items

  pub data Fields : Type 0 where
    end : Fields
    field : String → Json → Fields → Fields

-- args[key]
unfoldable pub lookup_field : String → Fields → Option Json
lookup_field k end = none
lookup_field k (field j v fs) = if j == k then some v else lookup_field k fs

abbrev pub is_empty_fields : Fields → Bool
is_empty_fields end = true
is_empty_fields (field j v fs) = false
