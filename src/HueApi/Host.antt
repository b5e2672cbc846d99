-- ===== src/HueApi/Host.antt =====
-- What the resources use of the language and its standard library, and how they write JSON.
use ha_hue_entertainment.Prelude.{ℕ, String, List, [], ◌∷◌}
use ha_hue_entertainment.Prelude.Int.{pos}
use ha_hue_entertainment.Json.{Value, int, arr, Items}

-- What the resources use of the language and its standard library beside `PyText`.
pub record PyHost : Type 0 where
  pub upper : String → String
  pub lower : String → String
  pub without_colons : String → String  -- s.replace(":", "")
  pub before_last_dot : String → String  -- s.rsplit(".", 1)[0]
  pub uuid5_hex : String → String  -- uuid.uuid5(uuid.NAMESPACE_DNS, name).hex
  pub utc : String  -- the two timestamps of the request
  pub localtime : String

abbrev pub number : ℕ → Value
number n = int (pos n)

abbrev pub list_items : List Value → Items
list_items [] = Items.nil
list_items (v ∷ vs) = Items.cons v (list_items vs)

abbrev pub list : List Value → Value
list vs = arr (list_items vs)
