-- ===== src/Format/Penalty/Buckets.antt =====
-- The penalty buckets of the wire, as the notes of ui/src/lib/format.ts on the ladder list them.

use Prim.Native.Nat.{◌^◌}
use Prim.Native.String.{String}
use native.Mathlib.Nat.{pow-le-pow_right, two-pow-succ, one-le-pow}
use bigfleet_web_dashboard.Prelude.{
  ℕ, zero, suc, ◌+◌, ◌<◌, ◌≤◌, ◌≡◌, refl, ap, Bool, true, false, ◌&&◌, arith, truthy, str_eq,
  str_eq_iff, ltb, Bool-cases, inl, inr,
}
use bigfleet_web_dashboard.Prelude.Show.{show}
use bigfleet_web_dashboard.Prelude.Show.Digits.{all_chars, is_numeral}
use bigfleet_web_dashboard.Engine.Whole.{is_capital, limit}
use bigfleet_web_dashboard.Engine.Text.{keep, is_decimal}

-- The buckets: unset, $0, half a dollar, 2^k dollars for k below 24, and pinned.
pub data Bucket : Type 0 where
  unspecified free half_dollar pinned : Bucket
  dollars : (k : ℕ) → Bucket

-- How the wire spells a bucket.
abbrev pub wire : Bucket → String
wire unspecified = "UNSPECIFIED"
wire free = "ZERO"
wire half_dollar = "HALF_DOLLAR"
wire pinned = "PINNED"
wire (dollars k) = show (2 ^ k)

abbrev pub IsBucket : Bucket → Type 0
IsBucket (dollars k) = k < 24
IsBucket _ = Unit {0}

-- The place of a bucket on the ladder, from the cheapest to the dearest.
abbrev pub rank : Bucket → ℕ
rank unspecified = 0
rank free = 1
rank half_dollar = 2
rank (dollars k) = k + 3
rank pinned = 27

abbrev pub is_pinned : Bucket → Bool
is_pinned pinned = true
is_pinned _ = false

pub numeral-capital : (s : String) → all_chars is_numeral s ≡ true → all_chars is_capital s ≡ true
numeral-capital String.[] h = refl
numeral-capital (String.◌∷◌ c s) h = ground (arith, numeral-capital s)

pub keep-numerals : (s : String) → all_chars is_numeral s ≡ true → keep is_decimal s ≡ s
unfolding keep
keep-numerals String.[] h = refl
keep-numerals (String.◌∷◌ c s) h = ground (arith, keep-numerals s)

-- A text of digits is no text that has another character.
pub numerals_ne :
    (s t : String)
    → all_chars is_numeral s ≡ true
    → all_chars is_numeral t ≡ false
    → str_eq s t ≡ false
numerals_ne s t h k = elim (Bool-cases (str_eq s t)) [
  | inl e ↦ let same = (str_eq_iff s t).0 e in cc (h, k, ap (all_chars is_numeral) same)
  | inr e ↦ e
]

-- A text that is not empty is not the empty one.
pub truthy_ne : (s : String) → truthy s ≡ true → str_eq s "" ≡ false
truthy_ne s h = elim (Bool-cases (str_eq s "")) [
  | inl e ↦ let same = (str_eq_iff s "").0 e in cc (h, ap (λ t. truthy t) same)
  | inr e ↦ e
]

is_small_below : ℕ → Bool
is_small_below zero = true
is_small_below (suc n) = (ltb 0 (2 ^ n) && ltb (2 ^ n) limit) && is_small_below n

small_below : (n k : ℕ) → is_small_below n ≡ true → k < n → (0 < 2 ^ k) × (2 ^ k < limit)
unfolding is_small_below
small_below zero k h lt = absurd (omega arith)
small_below (suc n) k h lt = ground (arith, small_below n k)

small_checked : is_small_below 24 ≡ true
unfolding is_small_below
small_checked = refl

pub small_power : (k : ℕ) → k < 24 → (0 < 2 ^ k) × (2 ^ k < limit)
small_power k h = small_below 24 k small_checked h

pow_mono : (j k : ℕ) → j < k → 2 ^ j < 2 ^ k
pow_mono j k h =
    let up : 2 ^ suc j ≤ 2 ^ k = pow-le-pow_right (omega arith) (omega arith) in
    omega (arith, up, two-pow-succ j, one-le-pow j 2 (omega arith))

pow_le : (j k : ℕ) → j ≤ k → 2 ^ j ≤ 2 ^ k
pow_le j k h = pow-le-pow_right (omega arith) h

-- The powers stand in the order of their exponents.
pub ltb-pow : (j k : ℕ) → ltb (2 ^ j) (2 ^ k) ≡ ltb j k
ltb-pow j k = ground (arith, pow_mono j k, pow_le k j)
