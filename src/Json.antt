-- ===== src/Json.antt =====
-- The JSON values that the columns and the messages hold. Numbers are the non-negative integers.
use asynchronnous_agent_os.Prelude.{ℕ, Bool, String}

mutual
  pub data Json : Type 0 where
    null : Json
    boolean : Bool → Json
    number : ℕ → Json
    text : String → Json
    array : Items → Json
    object : Fields → Json

  pub data Items : Type 0 where
    no_items : Items
    item : Json → Items → Items

  pub data Fields : Type 0 where
    no_fields : Fields
    field : String → Json → Fields → Fields

-- `value ?? {}`
abbrev pub or_empty : Json → Json
or_empty null = object no_fields
or_empty value = value
