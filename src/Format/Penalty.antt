-- ===== src/Format/Penalty.antt =====
-- ui/src/lib/format.ts: penalty buckets, and priorities.
pub mod Buckets
use bigfleet_web_dashboard.Prelude.{
  ℕ, Bool, not, ◌||◌, Option, none, some, String, if◌then◌else◌, ◌<>◌, str_eq, truthy,
}
use bigfleet_web_dashboard.Engine.{Engine, le}
use bigfleet_web_dashboard.Engine.Text.{keep, is_decimal}
use bigfleet_web_dashboard.Format.Quantity.{trim_num}

-- `PENALTY_LADDER_MAX`
abbrev pub penalty_ladder_max : ℕ
penalty_ladder_max = 27

module _ (js : Engine) where
  open js use {
    Number, of_ℕ, add, div, rem, lt, eq, is_finite, round, abs, log2, parse_float, to_number,
    to_fixed, to_locale_string, to_text, upper_case, is_nan,
  }

  -- `a >= b`
  abbrev ge : Number → Number → Bool
  ge a b = le js b a

  -- `n % m === 0`
  abbrev divides : Number → Number → Bool
  divides n m = eq (rem n m) (of_ℕ 0)

  unfoldable pub format_penalty_bucket : String → String
  format_penalty_bucket b =
      let n = to_number b in
      if str_eq b "pinned"
      then "Pinned"
      else if str_eq b "unspecified"
      then "unspec."
      else if not (is_finite n)
      then b
      else if eq n (of_ℕ 0)
      then "$0"
      else if lt n (of_ℕ 1)
      then "$" <> to_text n
      else if ge n (of_ℕ 1000000)
      then "$" <> to_fixed (div n (of_ℕ 1000000)) (if divides n (of_ℕ 1000000) then 0 else 1) <> "M"
      else if ge n (of_ℕ 1000)
      then "$" <> to_fixed (div n (of_ℕ 1000)) (if divides n (of_ℕ 1000) then 0 else 1) <> "K"
      else "$" <> to_text n

  unfoldable pub penalty_ordinal : Option String → Number
  unfolding keep
  penalty_ordinal none = of_ℕ 0
  penalty_ordinal (some bucket) =
      let b = upper_case bucket in
      let n = parse_float (keep is_decimal b) in
      if not (truthy bucket)
      then of_ℕ 0
      else if str_eq b "UNSPECIFIED" || str_eq b ""
      then of_ℕ 0
      else if str_eq b "ZERO" || str_eq b "$0"
      then of_ℕ 1
      else if str_eq b "HALF_DOLLAR" || str_eq b "$0.50"
      then of_ℕ 2
      else if str_eq b "PINNED"
      then of_ℕ penalty_ladder_max
      else if not (is_finite n) || le js n (of_ℕ 0)
      then of_ℕ 0
      else add (round (log2 n)) (of_ℕ 3)

  unfoldable pub format_penalty : Option String → String
  unfolding keep trim_num
  format_penalty none = "unset"
  format_penalty (some bucket) =
      let b = upper_case bucket in
      let n = parse_float (keep is_decimal b) in
      if not (truthy bucket)
      then "unset"
      else if str_eq b "UNSPECIFIED"
      then "unset"
      else if str_eq b "ZERO" || str_eq b "$0"
      then "$0"
      else if str_eq b "HALF_DOLLAR"
      then "$0.50"
      else if str_eq b "PINNED"
      then "pinned"
      else if not (is_finite n)
      then bucket
      else if ge n (of_ℕ 1000000)
      then "$" <> trim_num js (div n (of_ℕ 1000000)) 1 <> "M"
      else if ge n (of_ℕ 1000)
      then "$" <> trim_num js (div n (of_ℕ 1000)) 1 <> "K"
      else "$" <> to_locale_string n

  unfoldable pub format_priority_compact : Option Number → String
  unfolding trim_num
  format_priority_compact none = "—"
  format_priority_compact (some p) =
      if not (is_finite p)
      then "—"
      else if ge (abs p) (of_ℕ 1000000000)
      then trim_num js (div p (of_ℕ 1000000000)) 1 <> "B"
      else if ge (abs p) (of_ℕ 1000000)
      then trim_num js (div p (of_ℕ 1000000)) 1 <> "M"
      else to_locale_string (round p)
