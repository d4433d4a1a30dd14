-- ===== src/Engine.antt =====
-- What the code takes from the JavaScript engine and its locale data: IEEE doubles, the conversions
-- between numbers and text, upper case and collation. No source of these is in the repository, so
-- they are a parameter of every definition that uses them.
pub mod Text
pub mod Whole
use bigfleet_web_dashboard.Prelude.{ℕ, ◌≡◌, Bool, true, false, not, ◌||◌, String, if◌then◌else◌}
use bigfleet_web_dashboard.Prelude.Int.{ℤ, pos, negsuc}
use Prim.Native.Nat.{suc}

pub record Engine : Type 1 where
  pub Number : Type 0
  -- a natural number, exact below 2^53
  pub of_ℕ : ℕ → Number
  pub add : Number → Number → Number
  pub sub : Number → Number → Number
  pub mul : Number → Number → Number
  pub div : Number → Number → Number
  -- `a % b`
  pub rem : Number → Number → Number
  -- `a < b` and `a === b`
  pub lt : Number → Number → Bool
  pub eq : Number → Number → Bool
  pub is_nan : Number → Bool
  pub is_finite : Number → Bool
  -- `Math.floor`, `Math.round`, `Math.ceil`, `Math.abs`, `Math.log2`
  pub floor : Number → Number
  pub round : Number → Number
  pub ceil : Number → Number
  pub abs : Number → Number
  pub log2 : Number → Number
  -- `parseFloat(s)` and `Number(s)`
  pub parse_float : String → Number
  pub to_number : String → Number
  -- `n.toFixed(dp)`, `n.toLocaleString()` and `${n}`
  pub to_fixed : Number → ℕ → String
  pub to_locale_string : Number → String
  pub to_text : Number → String
  -- `s.toUpperCase()` and `s.toLowerCase()`
  pub upper_case : String → String
  pub lower_case : String → String
  -- `s.replace(/_/g, " ")`
  pub underscores_to_spaces : String → String
  -- `a < b` on texts
  pub text_before : String → String → Bool
  -- `a.localeCompare(b) < 0`
  pub locale_before : String → String → Bool

-- `Number::lessThan` of ECMAScript: a strict order of the numbers that are not NaN, which NaN
-- stands outside of.
pub record IsOrderedEngine (js : Engine) : Type 0 where
  pub lt_asym : (a b : js.Number) → js.lt a b ≡ true → js.lt b a ≡ false
  pub lt_cotrans :
      (a b c : js.Number)
      → js.is_nan c ≡ false
      → js.lt a b ≡ true
      → js.lt a c ≡ false
      → js.lt c b ≡ true
  pub lt_nan : (a b : js.Number) → js.is_nan b ≡ true → js.lt a b ≡ false
  pub of_ℕ_number : (n : ℕ) → js.is_nan (js.of_ℕ n) ≡ false

module _ (js : Engine) where
  -- `a <= b`
  abbrev pub le : js.Number → js.Number → Bool
  le a b = js.lt a b || js.eq a b

  -- A decimal literal: the double nearest to a / b.
  abbrev pub ratio : ℕ → ℕ → js.Number
  ratio a b = js.div (js.of_ℕ a) (js.of_ℕ b)

  abbrev pub of_ℤ : ℤ → js.Number
  of_ℤ (pos n) = js.of_ℕ n
  of_ℤ (negsuc n) = js.sub (js.of_ℕ 0) (js.of_ℕ (suc n))

  -- `Math.min(a, b)` and `Math.max(a, b)`
  abbrev pub min : js.Number → js.Number → js.Number
  min a b = if js.is_nan a then a else if js.is_nan b then b else if js.lt b a then b else a

  abbrev pub max : js.Number → js.Number → js.Number
  max a b = if js.is_nan a then a else if js.is_nan b then b else if js.lt a b then b else a

  -- `n || 0`
  abbrev pub or_zero : js.Number → js.Number
  or_zero n = if js.is_nan n || js.eq n (js.of_ℕ 0) then js.of_ℕ 0 else n
