-- ===== src/Types/Json.antt =====
-- `serde_json::Value`, as the program matches on it.
use super_mem.Base.{ℕ, Bool, Text}

-- `serde_json::Number`: `as_i64` reads the first two cases; the last holds the bits of an `f64`.
-- `neg_int n` is -(n + 1).
pub data Number : Type 0 where
  pos_int : ℕ → Number
  neg_int : ℕ → Number
  float : ℕ → Number

mutual
  pub data Value : Type 0 where
    null : Value
    bool : Bool → Value
    number : Number → Value
    string : Text → Value
    array : Items → Value
    object : Fields → Value

  pub data Items : Type 0 where
    nil : Items
    cons : Value → Items → Items

  pub data Fields : Type 0 where
    end : Fields
    field : Text → Value → Fields → Fields
