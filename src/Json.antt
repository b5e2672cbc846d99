-- ===== src/Json.antt =====
-- JSON values as Python's json module reads them, and the conversions of the language that the code
-- applies to them. A number with a fraction or an exponent is the decimal that the text names.
use Prim.Native.Nat.{◌^◌}
use text.Mathlib.Text.{◌==◌ as str_eq}
use ha_hue_entertainment.Prelude.{
  ℕ, suc, ◌&&◌, Bool, true, false, String, Option, none, some, ◌==◌, not, if◌then◌else◌,
}
use ha_hue_entertainment.Prelude.Int.{ℤ, times, pos, negsuc, Ratio, trunc_ratio}

mutual
  pub data Value : Type 0 where
    null : Value
    bool : Bool → Value
    int : ℤ → Value
    dec : ℤ → ℕ → Value  -- m / 10 ^ k
    str : String → Value
    arr : Items → Value
    obj : Fields → Value

  -- a dict: its keys are distinct, in the order of insertion
  pub data Fields : Type 0 where
    end : Fields
    field : String → Value → Fields → Fields

  pub data Items : Type 0 where
    nil : Items
    cons : Value → Items → Items

-- body.get(key)
unfoldable pub get : String → Fields → Option Value
get key end = none
get key (field k v fs) = if str_eq k key then some v else get key fs

-- key in body
abbrev pub is_some {ℓ} : {A : Type ℓ} → Option A → Bool
is_some none = false
is_some (some a) = true

-- `body.get(key) is b`
abbrev pub is_bool : Bool → Option Value → Bool
is_bool true (some (bool b)) = b
is_bool false (some (bool b)) = not b
is_bool _ _ = false

-- Conversions of the language: `int(text)` and `float(text)`, `none` where they raise ValueError,
-- `text.isdigit()` and `str(n)`.
pub record PyText : Type 0 where
  pub is_digit : String → Bool
  pub str_of : ℕ → String
  pub int_of : String → Option ℤ
  pub float_of : String → Option Ratio

abbrev of_bool : Bool → ℤ
of_bool true = pos 1
of_bool false = pos 0

-- int(value); `none` where it raises TypeError or ValueError
unfoldable pub to_int : PyText → Value → Option ℤ
unfolding trunc_ratio
to_int py null = none
to_int py (bool b) = some (of_bool b)
to_int py (int z) = some z
to_int py (dec m k) = some (trunc_ratio m (10 ^ k))
to_int py (str s) = py.int_of s
to_int py (arr xs) = none
to_int py (obj fs) = none

-- float(value)
unfoldable pub to_float : PyText → Value → Option Ratio
to_float py null = none
to_float py (bool b) = some (record { num = of_bool b; den = 1 })
to_float py (int z) = some (record { num = z; den = 1 })
to_float py (dec m k) = some (record { num = m; den = 10 ^ k })
to_float py (str s) = py.float_of s
to_float py (arr xs) = none
to_float py (obj fs) = none

abbrev is_zero : ℤ → Bool
is_zero (pos n) = n == 0
is_zero (negsuc n) = false

abbrev size : Fields → ℕ
size end = 0
size (field k v fs) = suc (size fs)

abbrev scaled : ℤ → ℕ → ℤ
scaled z k = times z (10 ^ k)

abbrev same_int : ℤ → ℤ → Bool
same_int (pos a) (pos b) = a == b
same_int (negsuc a) (negsuc b) = a == b
same_int _ _ = false

-- What a number or a boolean is as m / 10 ^ k.
abbrev decimal : Value → Option (ℤ × ℕ)
decimal (bool b) = some (of_bool b, 0)
decimal (int z) = some (z, 0)
decimal (dec m k) = some (m, k)
decimal _ = none

abbrev same_number : ℤ → ℕ → Option (ℤ × ℕ) → Bool
same_number m k none = false
same_number m k (some (n, l)) = same_int (scaled m l) (scaled n k)

abbrev is_null : Value → Bool
is_null null = true
is_null _ = false

abbrev is_str : String → Value → Bool
is_str s (str t) = str_eq s t
is_str s _ = false

-- `a == b`; numbers and booleans are compared by value, dicts without regard to order
unfoldable mutual
  unfolding get

  pub eq_value : Value → Value → Bool
  eq_value null b = is_null b
  eq_value (bool x) b = same_number (of_bool x) 0 (decimal b)
  eq_value (int z) b = same_number z 0 (decimal b)
  eq_value (dec m k) b = same_number m k (decimal b)
  eq_value (str s) b = is_str s b
  eq_value (arr xs) b = elim b [ arr ys ↦ eq_items xs ys | _ ↦ false ]
  eq_value (obj fs) b = elim b [ obj gs ↦ (size fs == size gs) && within fs gs | _ ↦ false ]

  pub eq_items : Items → Items → Bool
  eq_items nil ys = elim ys [ nil ↦ true | _ ↦ false ]
  eq_items (cons x xs) ys = elim ys [ nil ↦ false | cons y ys ↦ eq_value x y && eq_items xs ys ]

  pub within : Fields → Fields → Bool
  within end gs = true
  within (field k v fs) gs = elim (get k gs) [
    | none ↦ false
    | some w ↦ eq_value v w && within fs gs
  ]

-- `if value:`
unfoldable pub truthy : Value → Bool
truthy null = false
truthy (bool b) = b
truthy (int z) = not (is_zero z)
truthy (dec m k) = not (is_zero m)
truthy (str s) = not (str_eq s "")
truthy (arr nil) = false
truthy (arr (cons x xs)) = true
truthy (obj end) = false
truthy (obj (field k v fs)) = true
