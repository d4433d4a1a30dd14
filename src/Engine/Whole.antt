-- ===== src/Engine/Whole.antt =====
-- What ECMAScript has of the doubles that are whole numbers below 2^53, of texts of capitals, and of
-- differences, shares and multiples.
use bigfleet_web_dashboard.Prelude.{
  ℕ, ◌+◌, ◌<◌, ◌≤◌, ◌≡◌, Bool, true, false, not, ◌&&◌, ◌||◌, String, ltb, leb, ◌==◌,
}
use Prim.Native.Nat.{◌^◌}
use bigfleet_web_dashboard.Prelude.Show.{show}
use bigfleet_web_dashboard.Prelude.Show.Digits.{all_chars, is_numeral}
use bigfleet_web_dashboard.Engine.{Engine, ratio, le}

-- A digit, a capital of ASCII, or `_`.
abbrev pub is_capital : ℕ → Bool
is_capital c = is_numeral c || (leb b'A' c && leb c b'Z') || c == b'_'

abbrev pub limit : ℕ
limit = 9007199254740992

pub record IsWholeEngine (js : Engine) : Type 0 where
  pub finite : (n : ℕ) → n < limit → js.is_finite (js.of_ℕ n) ≡ true
  pub lt_of_ℕ : (m n : ℕ) → m < limit → n < limit → js.lt (js.of_ℕ m) (js.of_ℕ n) ≡ ltb m n
  pub eq_of_ℕ : (m n : ℕ) → m < limit → n < limit → js.eq (js.of_ℕ m) (js.of_ℕ n) ≡ (m == n)
  pub add_of_ℕ : (m n : ℕ) → m + n < limit → js.add (js.of_ℕ m) (js.of_ℕ n) ≡ js.of_ℕ (m + n)
  -- `Math.log2` may be off in its last place
  pub round_log2 : (k : ℕ) → k < 53 → js.round (js.log2 (js.of_ℕ (2 ^ k))) ≡ js.of_ℕ k
  pub parse_show : (n : ℕ) → n < limit → js.parse_float (show n) ≡ js.of_ℕ n
  pub upper_capital : (s : String) → all_chars is_capital s ≡ true → js.upper_case s ≡ s

-- What it has of -1, of 1/2 and of reading whole numbers.
pub record IsRankedEngine (js : Engine) : Type 0 where
  pub to_number_show : (n : ℕ) → n < limit → js.to_number (show n) ≡ js.of_ℕ n
  pub below_whole : (n : ℕ) → n < limit → js.lt (js.sub (js.of_ℕ 0) (js.of_ℕ 1)) (js.of_ℕ n) ≡ true
  pub whole_above : (n : ℕ) → n < limit → js.lt (js.of_ℕ n) (js.sub (js.of_ℕ 0) (js.of_ℕ 1)) ≡ false
  pub below_half : js.lt (js.sub (js.of_ℕ 0) (js.of_ℕ 1)) (ratio js 1 2) ≡ true
  pub half_above : js.lt (ratio js 1 2) (js.sub (js.of_ℕ 0) (js.of_ℕ 1)) ≡ false
  pub half_self : js.lt (ratio js 1 2) (ratio js 1 2) ≡ false
  pub whole-half : (n : ℕ) → n < limit → js.lt (js.of_ℕ n) (ratio js 1 2) ≡ (n == 0)
  pub half-whole : (n : ℕ) → n < limit → js.lt (ratio js 1 2) (js.of_ℕ n) ≡ ltb 0 n

-- What it has of shares: `a - b`, and 0 over a number.
pub record IsShareEngine (js : Engine) : Type 0 where
  pub finite_number : (a : js.Number) → js.is_finite a ≡ true → js.is_nan a ≡ false
  -- `a <= 0` is the opposite of `0 < a`, but for NaN
  pub not_positive :
      (a : js.Number) → js.is_nan a ≡ false → le js a (js.of_ℕ 0) ≡ not (js.lt (js.of_ℕ 0) a)
  pub sub_number :
      (a b : js.Number)
      → js.is_finite a ≡ true
      → js.is_finite b ≡ true
      → js.is_nan (js.sub a b) ≡ false
  pub sub_positive : (a b : js.Number) → js.lt (js.of_ℕ 0) (js.sub a b) ≡ js.lt b a
  pub zero_share : (a : js.Number) → js.lt (js.of_ℕ 0) a ≡ true → js.div (js.of_ℕ 0) a ≡ js.of_ℕ 0

-- What it has of one whole number over another, and of whole multiples: division and multiplication
-- round, but keep the order.
pub record IsScaleEngine (js : Engine) : Type 0 where
  pub div_finite :
      (a m : ℕ)
      → 0 < m
      → a < limit
      → m < limit
      → js.is_finite (js.div (js.of_ℕ a) (js.of_ℕ m)) ≡ true
  pub div_mono :
      (a b m : ℕ)
      → a ≤ b
      → 0 < m
      → b < limit
      → m < limit
      → js.lt (js.div (js.of_ℕ b) (js.of_ℕ m)) (js.div (js.of_ℕ a) (js.of_ℕ m)) ≡ false
  pub div_self : (m : ℕ) → 0 < m → m < limit → js.div (js.of_ℕ m) (js.of_ℕ m) ≡ js.of_ℕ 1
  pub mul_one : (n : ℕ) → n < limit → js.mul (js.of_ℕ 1) (js.of_ℕ n) ≡ js.of_ℕ n
  pub mul_number :
      (a : js.Number) (n : ℕ)
      → js.is_finite a ≡ true
      → n < limit
      → js.is_nan (js.mul a (js.of_ℕ n)) ≡ false
  pub mul_mono :
      (a b : js.Number) (n : ℕ)
      → js.lt b a ≡ false
      → js.lt (js.mul b (js.of_ℕ n)) (js.mul a (js.of_ℕ n)) ≡ false
