-- ===== src/Pages/Clusters.antt =====
-- ui/src/pages/ClustersList.tsx, ui/src/pages/ClusterDetail.tsx and ui/src/pages/ShardsList.tsx.
-- `encode` is `encodeURIComponent`.
pub mod Lists
use bigfleet_web_dashboard.Prelude.{
  ℕ, Bool, not, ◌&&◌, Option, none, some, List, [], ◌∷◌, map, String, if◌then◌else◌, ltb, ◌==◌,
  ◌<>◌, or_else, truthy?, length, is_some,
}
use bigfleet_web_dashboard.Prelude.Dict.{Dict, get}
use bigfleet_web_dashboard.Engine.{Engine}
use bigfleet_web_dashboard.Format.Basic.{format_duration, format_int}
use bigfleet_web_dashboard.Ui.Query.{Query}
use bigfleet_web_dashboard.Ui.Widgets.{
  Slice, segments_from, stacked_bar, cr_phase_colours, upcoming_node_phase_colours,
}
use bigfleet_web_dashboard.Api.Fleet.{ShardSummary}
use bigfleet_web_dashboard.Api.Reports.{ClusterSummary, ClusterDetail}
use bigfleet_web_dashboard.Needs.Kit.{Tone, neutral, good, warn, danger, muted}
use bigfleet_web_dashboard.Pages.Fleet.{StatTile}

-- The table of a list page: the messages above the rows, and the rows.
pub record TableView (Row : Type 0) : Type 0 where
  pub loading : Bool
  pub none_found : Bool
  pub rows : List Row

-- What a list page shows: an error, or the table; nothing where its source is not wired.
pub record ListView (Row : Type 0) : Type 0 where
  pub error : Option String
  pub table : Option (TableView Row)

-- `{q.isLoading && ...}{q.data && items.length === 0 && ...}{q.data?.items.map(...)}`
unfoldable pub list_page : {A Row : Type 0} → (A → Row) → Bool → Query (List A) → ListView Row
list_page view on q = record {
  error = if on then q.error else none;
  table =
      if on && not (is_some q.error)
      then some (record {
        loading = q.is_loading;
        none_found = is_some q.result && length (or_else q.result []) == 0;
        rows = map view (or_else q.result []);
      })
      else none;
}

module _ (js : Engine) (encode : String → String) where
  open js use {Number, of_ℕ, lt}

  abbrev count_text : ℕ → String
  count_text n = format_int js (some (of_ℕ n))

  pub record ClusterRow : Type 0 where
    pub id : String
    pub link : String
    pub requests : String
    pub pending : String
    pub pending_tone : Tone
    pub upcoming : String
    pub status : Tone × String

  unfoldable pub cluster_link : String → String
  cluster_link id = "/clusters/" <> encode id

  unfoldable pub shard_link : String → String
  shard_link pod = "/shards/" <> encode pod

  unfoldable pub cluster_row : ClusterSummary → ClusterRow
  unfolding cluster_link
  cluster_row c =
      let failed = truthy? c.error in
      let count = λ (n : ℕ). if failed then "—" else count_text n in
      record {
        id = c.id;
        link = cluster_link c.id;
        requests = count c.capacity_requests;
        pending = count c.capacity_requests_pending;
        pending_tone = if ltb 0 c.capacity_requests_pending then warn else muted;
        upcoming = count c.upcoming_nodes;
        status = if failed then (danger, or_else c.error "") else (good, "ok");
      }

  unfoldable pub clusters_page : Bool → Query (List ClusterSummary) → ListView ClusterRow
  unfolding list_page cluster_row
  clusters_page on clusters = list_page cluster_row on clusters

  pub record ShardRow : Type 0 where
    pub pod : String
    pub link : String
    pub cycle : String
    pub cycle_tone : Tone
    pub machines : String
    pub sessions : String
    pub shortfalls : String
    pub shortfall_tone : Tone

  unfoldable pub shard_row : ShardSummary Number → ShardRow
  unfolding shard_link
  shard_row s = record {
    pod = s.pod;
    link = shard_link s.pod;
    cycle = format_duration js (some s.cycle_p99_seconds);
    cycle_tone =
        if lt (of_ℕ 5) s.cycle_p99_seconds
        then danger
        else if lt (of_ℕ 1) s.cycle_p99_seconds
        then warn
        else neutral;
    machines = format_int js (some s.machines);
    sessions = format_int js (some s.active_sessions);
    shortfalls = format_int js (some s.shortfalls);
    shortfall_tone = if lt (of_ℕ 0) s.shortfalls then danger else muted;
  }

  unfoldable pub shards_page : Bool → Query (List (ShardSummary Number)) → ListView ShardRow
  unfolding list_page shard_row
  shards_page on shards = list_page shard_row on shards

  pub record ClusterDetailView : Type 0 where
    pub tiles : List (StatTile js)
    pub requests_by_phase : Option (List (Slice js))
    pub nodes_by_phase : Option (List (Slice js))

  count_tile : String → ℕ → Tone → StatTile js
  count_tile label n tone = record {
    label = label;
    value = count_text n;
    subtitle = none;
    tone = tone;
  }

  number_entries : Dict ℕ → Dict Number
  number_entries m = map (λ e. (e.0, of_ℕ e.1)) m

  unfoldable pub cluster_detail : ClusterDetail → ClusterDetailView
  unfolding count_tile number_entries segments_from stacked_bar
  cluster_detail d =
      let pending = or_else (get "Pending" d.capacity_requests_by_phase) 0 in
      let failed = or_else (get "Failed" d.upcoming_nodes_by_phase) 0 in
      let bar = λ (palette : Dict String) (m : Dict ℕ).
        stacked_bar js (λ (v : Number). format_int js (some v))
          (segments_from palette 0 (number_entries m)) in
      record {
        tiles =
            count_tile "CapacityRequests" d.capacity_requests_total neutral
            ∷ count_tile "Pending CRs" pending (if ltb 0 pending then warn else neutral)
            ∷ count_tile "UpcomingNodes" d.upcoming_nodes_total neutral
            ∷ count_tile "Failed nodes" failed (if ltb 0 failed then danger else neutral)
            ∷ [];
        requests_by_phase = bar cr_phase_colours d.capacity_requests_by_phase;
        nodes_by_phase = bar upcoming_node_phase_colours d.upcoming_nodes_by_phase;
      }
