-- ===== src/Format/Basic.antt =====
-- ui/src/lib/format.ts: durations, counts, rates, percentages and ages.
use bigfleet_web_dashboard.Prelude.{ℕ, not, ◌||◌, Option, none, some, String, if◌then◌else◌, ◌<>◌}
use bigfleet_web_dashboard.Engine.{Engine, le, ratio}

module _ (js : Engine) where
  open js use {
    Number, of_ℕ, sub, mul, div, lt, eq, is_finite, floor, round, abs, to_fixed, to_locale_string,
    to_number, to_text,
  }

  unfoldable pub format_duration : Option Number → String
  format_duration none = "—"
  format_duration (some seconds) =
      if not (is_finite seconds) || lt seconds (of_ℕ 0)
      then "—"
      else if lt seconds (ratio js 1 1000)
      then to_text (round (mul seconds (of_ℕ 1000000))) <> " µs"
      else if lt seconds (of_ℕ 1)
      then to_text (round (mul seconds (of_ℕ 1000))) <> " ms"
      else if lt seconds (of_ℕ 60)
      then to_fixed seconds 2 <> " s"
      else let m = floor (div seconds (of_ℕ 60)) in
        let s = round (sub seconds (mul m (of_ℕ 60))) in to_text m <> "m " <> to_text s <> "s"

  unfoldable pub format_int : Option Number → String
  format_int none = "—"
  format_int (some n) = if not (is_finite n) then "—" else to_locale_string (round n)

  unfoldable pub format_rate : Option Number → String
  format_rate none = "—"
  format_rate (some n) =
      if not (is_finite n)
      then "—"
      else if eq n (of_ℕ 0)
      then "0/s"
      else if lt n (ratio js 1 100)
      then to_fixed (mul n (of_ℕ 60)) 2 <> "/min"
      else to_fixed n 2 <> "/s"

  unfoldable pub format_percent : Option Number → ℕ → String
  format_percent none digits = "—"
  format_percent (some f) digits =
      if not (is_finite f) then "—" else to_fixed (mul f (of_ℕ 100)) digits <> "%"

  unfoldable pub format_relative : Option Number → Number → String
  format_relative none now = "—"
  format_relative (some t) now =
      if le js t (of_ℕ 0) || not (is_finite t)
      then "—"
      else let delta = sub now t in
        if lt delta (of_ℕ 60)
        then to_text (round delta) <> "s ago"
        else if lt delta (of_ℕ 3600)
        then to_text (round (div delta (of_ℕ 60))) <> "m ago"
        else if lt delta (of_ℕ 86400)
        then to_text (round (div delta (of_ℕ 3600))) <> "h ago"
        else to_text (round (div delta (of_ℕ 86400))) <> "d ago"
