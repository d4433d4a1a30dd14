-- ===== src/Pages/ShardReports.antt =====
-- ui/src/pages/ShardReports.tsx.
pub mod Order
pub mod Sorting
pub mod Buckets
use bigfleet_web_dashboard.Prelude.{
  ℕ, ◌-◌, Bool, true, false, not, ◌&&◌, ◌||◌, Option, none, some, List, [], ◌∷◌, map, String,
  if◌then◌else◌, ltb, ◌==◌, ◌<>◌, truthy, or_else, length, all, take, str_eq, is_some,
}
use bigfleet_web_dashboard.Prelude.Int.{ltb_ℤ}
use bigfleet_web_dashboard.Prelude.Dict.{Dict}
use bigfleet_web_dashboard.Prelude.Show.{show, join}
use bigfleet_web_dashboard.Prelude.Sort.{sort_by}
use bigfleet_web_dashboard.Engine.{Engine, ratio, of_ℤ}
use bigfleet_web_dashboard.Engine.Text.{remove_prefix}
use bigfleet_web_dashboard.Format.Basic.{format_int}
use bigfleet_web_dashboard.Ui.Query.{Query}
use bigfleet_web_dashboard.Ui.Widgets.{FreshnessView, freshness}
use bigfleet_web_dashboard.Api.Reports.{ShardReport, ShardReportSummary, ShardReportShortfall}
use bigfleet_web_dashboard.Needs.Kit.{Tone, neutral, good, warn}

pub data SortField : Type 0 where
  priority age bucket : SortField

-- A text that names no field reads as `priority`.
unfoldable pub sort_field : String → SortField
sort_field raw = if str_eq raw "age" then age else if str_eq raw "bucket" then bucket else priority

unfoldable pub bucket_short : String → String
unfolding remove_prefix
bucket_short b = remove_prefix "PENALTY_BUCKET_" b

-- The rank of a bucket: `Number.POSITIVE_INFINITY` and -1 stand at the ends.
pub data Rank (Number : Type 0) : Type 0 where
  unranked infinite : Rank Number
  rank : Number → Rank Number

-- Entries by count, largest first.
abbrev pub by_count : Dict ℕ → Dict ℕ
by_count m = sort_by (λ a b. ltb b.1 a.1) m

pub record BreakdownView : Type 0 where
  pub listed : Dict ℕ
  pub more : Option ℕ

-- At most twelve entries, and how many more there are; `none` shows nothing.
unfoldable pub breakdown : Dict ℕ → Option BreakdownView
breakdown [] = none
breakdown (e ∷ es) = some (record {
  listed = take 12 (e ∷ es);
  more = if ltb 12 (length (e ∷ es)) then some (length (e ∷ es) - 12) else none;
})

-- `s.shortfalls?.length ?? 0`
abbrev pub shortfall_count : ShardReport → ℕ
shortfall_count s = length (or_else s.shortfalls [])

unfoldable pub all_empty : List ShardReport → Bool
all_empty shards =
    ltb 0 (length shards)
    && all (λ (s : ShardReport). not (is_some s.summary) && shortfall_count s == 0) shards

module _ (js : Engine) where
  open js use {Number, of_ℕ, lt, is_finite, to_number, locale_before}

  unfoldable pub bucket_rank : String → Rank Number
  unfolding bucket_short
  bucket_rank b =
      let s = bucket_short b in
      let n = to_number s in
      if str_eq s "PINNED"
      then infinite
      else if str_eq s "ZERO"
      then rank (of_ℕ 0)
      else if str_eq s "HALF_DOLLAR"
      then rank (ratio js 1 2)
      else if str_eq s "UNSPECIFIED" || str_eq s ""
      then unranked
      else if is_finite n
      then rank n
      else unranked

  -- `b - a < 0` on ranks: a stands before b. -1 is below a rank that is not below it, and the
  -- difference of two infinities is NaN, which is not below 0.
  abbrev pub rank_above : Rank Number → Rank Number → Bool
  rank_above infinite infinite = false
  rank_above infinite _ = true
  rank_above unranked (rank y) = lt y (js.sub (of_ℕ 0) (of_ℕ 1))
  rank_above unranked _ = false
  rank_above (rank x) unranked = lt (js.sub (of_ℕ 0) (of_ℕ 1)) x
  rank_above (rank x) infinite = false
  rank_above (rank x) (rank y) = lt y x

  -- The comparison of `sortShortfalls`, where it is negative.
  abbrev pub shortfall_before : SortField → ShardReportShortfall → ShardReportShortfall → Bool
  shortfall_before age a b = ltb b.age_cycles a.age_cycles
  shortfall_before bucket a b =
      rank_above (bucket_rank a.penalty_bucket) (bucket_rank b.penalty_bucket)
  shortfall_before priority a b = ltb_ℤ b.priority a.priority

  unfoldable pub sort_shortfalls : List ShardReportShortfall → SortField → List ShardReportShortfall
  sort_shortfalls rows field = sort_by (shortfall_before field) rows

  unfoldable pub res_str : Option (Dict String) → String
  unfolding join sort_by
  res_str none = "—"
  res_str (some m) = elim (sort_by (λ (a : String × String) b. locale_before a.0 b.0) m) [
    | [] ↦ "—"
    | x ∷ xs ↦ join " " (map (λ e. e.0 <> "=" <> e.1) (x ∷ xs))
  ]

  pub record ShortfallRow : Type 0 where
    pub priority_text : String
    pub bucket_text : String
    pub age_text : String
    pub deficit_text : String

  pub record ShardCard : Type 0 where
    pub shard_id : String
    pub updated : FreshnessView js
    pub provider : Option String
    pub machines : String
    pub free : String
    pub free_tone : Tone
    pub types : Option BreakdownView
    pub zones : Option BreakdownView
    pub type_count : String
    pub shortfall_count_text : String
    pub shortfall_tone : Tone
    pub rows : List ShortfallRow

  shortfall_row : ShardReportShortfall → ShortfallRow
  shortfall_row sf = record {
    priority_text = format_int js (some (of_ℤ js sf.priority));
    bucket_text = bucket_short sf.penalty_bucket;
    age_text = format_int js (some (of_ℕ sf.age_cycles));
    deficit_text = res_str (some sf.deficit);
  }

  abbrev pub no_summary : ShardReportSummary
  no_summary = record {
    total_machines = 0;
    free_machines = 0;
    instance_type_counts = [];
    zone_counts = [];
    provider_address = "";
  }

  unfoldable pub shard_card : Number → ShardReport → SortField → ShardCard
  unfolding shortfall_row sort_shortfalls
  shard_card now report field =
      let summary = or_else report.summary no_summary in
      let types = by_count summary.instance_type_counts in
      let shortfalls = sort_shortfalls (or_else report.shortfalls []) field in
      record {
        shard_id = report.shard_id;
        updated =
            freshness js now report.received_at_unix_ns (some report.cycle) 20
              "no data yet (rebuilding)";
        provider = if truthy summary.provider_address then some summary.provider_address else none;
        machines = format_int js (some (of_ℕ summary.total_machines));
        free = format_int js (some (of_ℕ summary.free_machines));
        free_tone = if ltb 0 summary.free_machines then good else neutral;
        types = breakdown types;
        zones = breakdown (by_count summary.zone_counts);
        type_count = format_int js (some (of_ℕ (length types)));
        shortfall_count_text = format_int js (some (of_ℕ (length shortfalls)));
        shortfall_tone = if ltb 0 (length shortfalls) then warn else good;
        rows = map shortfall_row shortfalls;
      }

  -- `[...reports].sort((a, b) => a.shardId.localeCompare(b.shardId))`
  abbrev pub by_shard_id : List ShardReport → List ShardReport
  by_shard_id rs = sort_by (λ (a : ShardReport) b. locale_before a.shard_id b.shard_id) rs

  pub record ShardReportsView : Type 0 where
    pub error : Option String
    pub none_yet : Bool
    pub rebuilding : Bool
    pub sort_control : Option SortField
    pub cards : List ShardCard

  unfoldable pub shard_reports_page :
      Number → Bool → Query (List ShardReport) → String → ShardReportsView
  unfolding shard_card
  shard_reports_page now on reports sort_raw =
      let shards = by_shard_id (or_else reports.result []) in
      let failed = is_some reports.error in
      record {
        error = if on then reports.error else none;
        none_yet = on && not failed && length shards == 0 && not reports.is_loading;
        rebuilding = on && all_empty shards;
        sort_control = if ltb 0 (length shards) then some (sort_field sort_raw) else none;
        cards =
            if on && not failed
            then map (λ s. shard_card now s (sort_field sort_raw)) shards
            else [];
      }
