-- ===== src/Pages/FinOps/Balance.antt =====
-- ui/src/pages/FinOps.tsx: demand against supply, the rates of the decision engine, and red flags.
pub mod Notes
use bigfleet_web_dashboard.Prelude.{
  Bool, ◌&&◌, ◌||◌, Option, none, some, List, [], ◌∷◌, map, String, if◌then◌else◌, ltb, ◌==◌, ◌<>◌,
  length, filter,
}
use bigfleet_web_dashboard.Prelude.Show.{show, join}
use bigfleet_web_dashboard.Engine.{Engine, ratio, max}
use bigfleet_web_dashboard.Format.Basic.{format_rate}
use bigfleet_web_dashboard.Format.Penalty.{format_penalty_bucket}
use bigfleet_web_dashboard.Api.Fleet.{FinOpsSnapshot, FinOpsRedFlag}
use bigfleet_web_dashboard.Needs.Kit.{Tone, neutral, warn, danger, muted}
use bigfleet_web_dashboard.Pages.FinOps.{TileView, at, int}

module _ (js : Engine) where
  open js use {Number, of_ℕ, sub, mul, div, lt, eq}

  pub record BucketRow : Type 0 where
    pub bucket : String
    pub demand : Number
    pub supply : Number

  unfoldable pub bucket_rows : FinOpsSnapshot Number → List BucketRow
  bucket_rows snapshot =
      filter (λ (r : BucketRow). lt (of_ℕ 0) r.demand || lt (of_ℕ 0) r.supply)
        (map
          (λ b. record {
            bucket = b;
            demand = at js snapshot.demand b;
            supply = at js snapshot.configured_by_bucket b;
          })
          snapshot.buckets)

  abbrev pub is_short : BucketRow → Bool
  is_short r = lt r.supply r.demand

  abbrev pub is_over : BucketRow → Bool
  is_over r = lt (mul r.demand (of_ℕ 2)) r.supply && lt (of_ℕ 0) r.demand

  unfoldable pub bar_max : List BucketRow → Number → Number
  bar_max [] m = m
  bar_max (r ∷ rs) m = bar_max rs (max js (max js m r.demand) r.supply)

  unfoldable pub bar_width : Number → Number → Number
  bar_width value top =
      if lt (of_ℕ 0) top then max js (of_ℕ 2) (mul (div value top) (of_ℕ 100)) else of_ℕ 0

  pub record GapRow : Type 0 where
    pub bucket_text : String
    pub demand_bar : Number × String
    pub supply_bar : Number × String
    pub gap_tone : Tone
    pub gap_text : String

  gap_row : Number → BucketRow → GapRow
  unfolding bar_width
  gap_row top r =
      let gap = sub r.supply r.demand in
      record {
        bucket_text = format_penalty_bucket js r.bucket;
        demand_bar = (bar_width r.demand top, "demand " <> int js r.demand);
        supply_bar = (bar_width r.supply top, "supply " <> int js r.supply);
        gap_tone =
            if lt gap (of_ℕ 0)
            then danger
            else if lt (mul r.demand (of_ℕ 2)) gap
            then warn
            else muted;
        gap_text =
            if eq gap (of_ℕ 0) then "" else (if lt (of_ℕ 0) gap then "+" else "") <> int js gap;
      }

  pub record BalanceView : Type 0 where
    pub gap_rows : List GapRow
    pub short_note : String
    pub over_note : String

  today : List BucketRow → String
  unfolding join
  today rows =
      if ltb 0 (length rows)
      then "Today: "
        <> join ", " (map (λ (r : BucketRow). format_penalty_bucket js r.bucket) rows)
        <> "."
      else "None right now."

  unfoldable pub demand_vs_supply : FinOpsSnapshot Number → BalanceView
  unfolding bucket_rows bar_max gap_row today
  demand_vs_supply snapshot =
      let rows = bucket_rows snapshot in
      record {
        gap_rows = map (gap_row (bar_max rows (of_ℕ 1))) rows;
        short_note = today (filter is_short rows);
        over_note = today (filter is_over rows);
      }

  rate_tile : FinOpsSnapshot Number → String → String → Tone → TileView js
  rate_tile snapshot label subtitle tone = record {
    label = label;
    value = format_rate js (some (at js snapshot.action_rates_per_sec label));
    subtitle = some subtitle;
    tone = tone;
  }

  unfoldable pub decision_engine : FinOpsSnapshot Number → List (TileView js)
  unfolding rate_tile
  decision_engine snapshot =
      let rate = at js snapshot.action_rates_per_sec in
      rate_tile snapshot "Bootstrap" "bind workload to existing machine" neutral
      ∷ rate_tile snapshot "Provision" "ask provider for a new machine" neutral
      ∷ rate_tile snapshot "Reclaim" "release a Configured machine"
          (if lt (of_ℕ 1) (rate "Reclaim") then warn else neutral)
      ∷ rate_tile snapshot "Preempt" "evict a low-priority workload to make room"
          (if lt (ratio js 1 10) (rate "Preempt") then warn else neutral)
      ∷ []

  -- The heading and, of each flag, where it is, how many machines it counts and what it says.
  pub record RedFlagsView : Type 0 where
    pub heading : String
    pub flags : List (String × String × String)

  unfoldable pub red_flags_view : List (FinOpsRedFlag Number) → Option RedFlagsView
  unfolding show
  red_flags_view [] = none
  red_flags_view (f ∷ fs) = some (record {
    heading = if length (f ∷ fs) == 1 then "1 red flag" else show (length (f ∷ fs)) <> " red flags";
    flags =
        map
          (λ (g : FinOpsRedFlag Number). (
            g.capacity_type <> " / " <> format_penalty_bucket js g.bucket,
            " · " <> int js g.count <> " machines",
            g.message,
          ))
          (f ∷ fs);
  })
