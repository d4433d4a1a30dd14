-- ===== src/Format/Quantity.antt =====
-- ui/src/lib/format.ts: Kubernetes resource quantities.
pub mod Grammar
use bigfleet_web_dashboard.Prelude.{
  ℕ, not, ◌&&◌, ◌||◌, Option, none, some, List, [], ◌∷◌, map, String, if◌then◌else◌, ◌<>◌, str_eq,
  truthy, or_else, any,
}
use bigfleet_web_dashboard.Prelude.Dict.{Dict, get}
use bigfleet_web_dashboard.Prelude.Show.{join}
use bigfleet_web_dashboard.Prelude.Sort.{sort_by}
use bigfleet_web_dashboard.Engine.{Engine, le, ratio, or_zero}
use bigfleet_web_dashboard.Engine.Text.{
  trim, remove_prefix, after_last_slash, includes, ends_with, drop_zero_fraction,
  drop_trailing_zeros, take_while, drop_while, all_text, is_decimal, is_space, is_letter,
}

unfoldable pub short_resource_key : String → String
unfolding remove_prefix after_last_slash
short_resource_key k = after_last_slash (remove_prefix "nvidia.com/" k)

pub data QtyKind : Type 0 where
  cpu bytes count : QtyKind

binary_suffixes : List String
binary_suffixes = "Ki" ∷ "Mi" ∷ "Gi" ∷ "Ti" ∷ "Pi" ∷ []

unfoldable pub qty_kind : String → String → QtyKind
unfolding short_resource_key binary_suffixes ends_with trim includes
qty_kind key raw =
    let sk = short_resource_key key in
    if str_eq sk "cpu"
    then cpu
    else if str_eq sk "memory" || includes sk "storage"
    then bytes
    else if any (ends_with (trim raw)) binary_suffixes
    then bytes
    else count

-- The two groups of `/^([0-9.]+)\s*([a-zA-Z]*)$/` on a trimmed text: the text after the number and
-- the spaces is all letters.
unfoldable pub match_quantity : String → Option (String × String)
unfolding take_while drop_while all_text
match_quantity s =
    let digits = take_while is_decimal s in
    let suffix = drop_while is_space (drop_while is_decimal s) in
    if truthy digits && all_text is_letter suffix then some (digits, suffix) else none

module _ (js : Engine) where
  open js use {Number, of_ℕ, mul, div, lt, is_finite, parse_float, to_fixed, locale_before}

  unfoldable pub trim_num : Number → ℕ → String
  unfolding drop_zero_fraction drop_trailing_zeros
  trim_num n dp =
      if not (is_finite n) then "0" else drop_trailing_zeros (drop_zero_fraction (to_fixed n dp))

  abbrev pub binary_units : List (String × Number)
  binary_units =
      ("Pi", of_ℕ 1125899906842624)
      ∷ ("Ti", of_ℕ 1099511627776)
      ∷ ("Gi", of_ℕ 1073741824)
      ∷ ("Mi", of_ℕ 1048576)
      ∷ ("Ki", of_ℕ 1024)
      ∷ []

  abbrev pub qty_suffix : Dict Number
  qty_suffix =
      ("", of_ℕ 1)
      ∷ ("m", ratio js 1 1000)
      ∷ ("k", of_ℕ 1000)
      ∷ ("M", of_ℕ 1000000)
      ∷ ("G", of_ℕ 1000000000)
      ∷ ("T", of_ℕ 1000000000000)
      ∷ ("P", of_ℕ 1000000000000000)
      ∷ ("Ki", of_ℕ 1024)
      ∷ ("Mi", of_ℕ 1048576)
      ∷ ("Gi", of_ℕ 1073741824)
      ∷ ("Ti", of_ℕ 1099511627776)
      ∷ ("Pi", of_ℕ 1125899906842624)
      ∷ []

  unfoldable pub parse_quantity : Option String → Number
  unfolding match_quantity trim
  parse_quantity none = of_ℕ 0
  parse_quantity (some s) = if not (truthy s) then of_ℕ 0 else elim (match_quantity (trim s)) [
    | none ↦ or_zero js (parse_float s)
    | some (digits, suffix) ↦
        mul (or_zero js (parse_float digits)) (or_else (get suffix qty_suffix) (of_ℕ 1))
  ]

  -- The loop over the units, largest first.
  fmt_units : List (String × Number) → Number → String
  unfolding trim_num
  fmt_units [] n = trim_num n 0 <> " B"
  fmt_units ((unit, mult) ∷ us) n =
      let rest = fmt_units us n in
      if le js mult n then trim_num (div n mult) 1 <> " " <> unit else rest

  unfoldable pub fmt_bytes : Number → String
  unfolding fmt_units
  fmt_bytes n = fmt_units binary_units n

  unfoldable pub format_quantity_value : String → Option String → String
  unfolding qty_kind parse_quantity fmt_bytes trim_num
  format_quantity_value key none = "—"
  format_quantity_value key (some raw) = elim (qty_kind key raw) [
    | cpu ↦ trim_num (parse_quantity (some raw)) 2
    | bytes ↦ fmt_bytes (parse_quantity (some raw))
    | count ↦ trim_num (parse_quantity (some raw)) 2
  ]

  unfoldable pub format_quantity : String → Option String → String
  unfolding format_quantity_value qty_kind short_resource_key
  format_quantity key none = "—"
  format_quantity key (some raw) =
      let sk = short_resource_key key in
      let v = format_quantity_value key (some raw) in
      elim (qty_kind key raw) [
        | bytes ↦ if str_eq sk "memory" then v else v <> " " <> sk
        | _ ↦ v <> " " <> sk
      ]

  -- `Object.entries(m).sort((a, b) => a[0].localeCompare(b[0]))`
  abbrev pub by_key : Dict String → List (String × String)
  by_key m = sort_by (λ a b. locale_before a.0 b.0) m

  unfoldable pub format_resources : Option (Dict String) → String
  unfolding format_quantity join sort_by
  format_resources none = "—"
  format_resources (some m) = elim (by_key m) [
    | [] ↦ "—"
    | x ∷ xs ↦ join " · " (map (λ e. format_quantity e.0 (some e.1)) (x ∷ xs))
  ]

  unfoldable pub raw_resources : Option (Dict String) → String
  unfolding short_resource_key join sort_by
  raw_resources none = ""
  raw_resources (some m) = join " " (map (λ e. short_resource_key e.0 <> "=" <> e.1) (by_key m))
