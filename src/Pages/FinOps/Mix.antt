-- ===== src/Pages/FinOps/Mix.antt =====
-- ui/src/pages/FinOps.tsx: the capacity mix and the matrix of capacity types and penalty buckets.
pub mod Bounds
use bigfleet_web_dashboard.Prelude.{
  ℕ, ◌+◌, Bool, ◌&&◌, ◌||◌, Option, none, some, List, [], ◌∷◌, map, String, if◌then◌else◌, ◌<>◌,
  or_else, find?, filter, str_eq,
}
use bigfleet_web_dashboard.Prelude.Dict.{get, values}
use bigfleet_web_dashboard.Prelude.Sort.{sort_by}
use bigfleet_web_dashboard.Engine.{Engine, ratio, min, le}
use bigfleet_web_dashboard.Format.Basic.{format_percent}
use bigfleet_web_dashboard.Format.Penalty.{format_penalty_bucket}
use bigfleet_web_dashboard.Ui.Widgets.{
  Segment, Slice, stacked_bar, colour_for, capacity_type_colours,
}
use bigfleet_web_dashboard.Api.Fleet.{FinOpsSnapshot}
use bigfleet_web_dashboard.Pages.FinOps.{MixRow, mix_rows, at, int, held_of}

unfoldable pub capacity_type_description : String → String
capacity_type_description ct =
    if str_eq ct "BareMetal"
    then "Fixed inventory. Free at the margin — already paid for."
    else if str_eq ct "Reserved"
    then "Committed cloud capacity. Discounted, never interrupted."
    else if str_eq ct "OnDemand"
    then "Pay-per-hour cloud. No commitment, no interruption."
    else if str_eq ct "Spot"
    then "Cheapest cloud tier. Can be reclaimed with short notice."
    else "Custom provider tier."

-- `xs.indexOf(x)` for an x that is in xs.
abbrev pub index_of : String → List String → ℕ
index_of x [] = 0
index_of x (y ∷ ys) = if str_eq x y then 0 else 1 + index_of x ys

module _ (js : Engine) where
  open js use {Number, of_ℕ, add, mul, div, lt, eq, is_finite, to_number, to_fixed}

  pub record TierCard : Type 0 where
    pub tier : String
    pub dot : String
    pub sum : String
    pub split : String
    pub description : String

  pub record CapacityMix : Type 0 where
    pub active : Option (List (Slice js))
    pub idle_bar : Option (List (Slice js))
    pub tiers : List TierCard

  segment : List String → (MixRow js → Number) → MixRow js → Segment Number
  segment types of_row r = record {
    label = r.ct;
    value = of_row r;
    colour = colour_for capacity_type_colours r.ct (index_of r.ct types);
  }

  tier_card : List (MixRow js) → String → TierCard
  tier_card rows tier =
      let row = find? (λ (r : MixRow js). str_eq r.ct tier) rows in
      let none_held : MixRow js = record { ct = tier; configured = of_ℕ 0; idle = of_ℕ 0 } in
      let r = or_else row none_held in
      record {
        tier = tier;
        dot = or_else (get tier capacity_type_colours) "#888";
        sum = int js (held_of js r);
        split = int js r.configured <> " active · " <> int js r.idle <> " idle";
        description = capacity_type_description tier;
      }

  unfoldable pub capacity_mix : FinOpsSnapshot Number → CapacityMix
  unfolding segment tier_card mix_rows
  capacity_mix snapshot =
      let rows = mix_rows js snapshot in
      let bar = λ (of_row : MixRow js → Number). stacked_bar js (int js) (
        map (segment snapshot.capacity_types of_row) (filter (λ r. lt (of_ℕ 0) (of_row r)) rows)) in
      record {
        active = bar (λ r. r.configured);
        idle_bar = bar (λ r. r.idle);
        tiers = map (tier_card rows) ("BareMetal" ∷ "Reserved" ∷ "OnDemand" ∷ "Spot" ∷ []);
      }

  -- `configured[ct]?.[b] ?? 0`
  abbrev pub cell_value : FinOpsSnapshot Number → String → String → Number
  cell_value snapshot ct b = at js (or_else (get ct snapshot.configured) []) b

  unfoldable pub row_max : FinOpsSnapshot Number → String → List String → Number → Number
  row_max snapshot ct [] m = m
  row_max snapshot ct (b ∷ bs) m =
      let v = cell_value snapshot ct b in row_max snapshot ct bs (if lt m v then v else m)

  unfoldable pub matrix_max : FinOpsSnapshot Number → List String → Number → Number
  unfolding row_max
  matrix_max snapshot [] m = m
  matrix_max snapshot (ct ∷ cts) m =
      matrix_max snapshot cts (row_max snapshot ct snapshot.buckets m)

  -- A cell: flagged in red with an opacity, empty, or a count with an opacity.
  pub data CellView : Type 0 where
    flagged_cell counted_cell : (opacity : String) (text : String) → CellView
    empty_cell : CellView

  unfoldable pub matrix_cell : Number → Number → Bool → CellView
  matrix_cell value max flagged =
      let intensity = if lt (of_ℕ 0) max then min js (of_ℕ 1) (div value max) else of_ℕ 0 in
      if flagged
      then flagged_cell (to_fixed (add (ratio js 25 100) (mul intensity (ratio js 6 10))) 3)
          (int js value)
      else if eq value (of_ℕ 0)
      then empty_cell
      else counted_cell (to_fixed (add (ratio js 8 100) (mul intensity (ratio js 65 100))) 3)
          (int js value)

  sum_values : List Number → Number → Number
  sum_values [] s = s
  sum_values (v ∷ vs) s = sum_values vs (add s v)

  -- A bucket of 1024 dollars and more, or pinned.
  unfoldable pub is_high_penalty : String → Bool
  is_high_penalty b = let n = to_number b in str_eq b "pinned" || is_finite n && le js (of_ℕ 1024) n

  pub record PenaltyView : Type 0 where
    pub top_bucket : String
    pub top_count : Option String
    pub high_share : String
    pub high_count : String
    pub pinned_count : String
    pub header : List String
    pub matrix : List (String × List CellView)
    pub demand_row : List String

  unfoldable pub penalty_distribution : FinOpsSnapshot Number → PenaltyView
  unfolding matrix_max sum_values is_high_penalty sort_by
  penalty_distribution snapshot =
      let zero = of_ℕ 0 in
      let max = matrix_max snapshot snapshot.capacity_types zero in
      let total = sum_values (values snapshot.configured_by_bucket) zero in
      let sorted =
        sort_by (λ (a : String × Number) b. lt b.1 a.1)
          (filter (λ (e : String × Number). lt zero e.1) snapshot.configured_by_bucket) in
      let high =
        sum_values (values (filter (λ (e : String × Number). is_high_penalty e.0) sorted)) zero in
      record {
        top_bucket = elim sorted [ [] ↦ "—" | e ∷ es ↦ format_penalty_bucket js e.0 ];
        top_count = elim sorted [ [] ↦ none | e ∷ es ↦ some (int js e.1 <> " machines") ];
        high_share = format_percent js (some (if lt zero total then div high total else zero)) 0;
        high_count = int js high <> " of " <> int js total <> " configured";
        pinned_count = int js (at js snapshot.configured_by_bucket "pinned");
        header = map (format_penalty_bucket js) snapshot.buckets;
        matrix =
            map
              (λ ct. (
                ct,
                map
                    (λ b.
                      let v = cell_value snapshot ct b in
                      matrix_cell v max (str_eq ct "Spot" && str_eq b "pinned" && lt zero v))
                    snapshot.buckets,
              ))
              snapshot.capacity_types;
        demand_row =
            map (λ b. let v = at js snapshot.demand b in if lt zero v then int js v else "")
              snapshot.buckets;
      }
