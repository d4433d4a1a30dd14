-- ===== src/Needs/View.antt =====
-- ui/src/pages/Needs.tsx: what the page shows of its state and of the three queries.
pub mod Body
pub mod Listing
use bigfleet_web_dashboard.Prelude.{
  Bool, not, ◌&&◌, Option, none, some, List, [], ◌∷◌, map, String, if◌then◌else◌, ltb, ◌==◌, ◌<>◌,
  truthy, length, is_some,
}
use bigfleet_web_dashboard.Prelude.Show.{show}
use bigfleet_web_dashboard.Engine.{Engine}
use bigfleet_web_dashboard.Ui.Query.{Query, wired}
use bigfleet_web_dashboard.Ui.Widgets.{FreshnessView, freshness}
use bigfleet_web_dashboard.Api.Fleet.{ClientConfig}
use bigfleet_web_dashboard.Api.Demand.{NeedView, NeedsResponse}
use bigfleet_web_dashboard.Needs.Kit.Panels.{int_text}
use bigfleet_web_dashboard.Needs.Walk.{build_walk}
use bigfleet_web_dashboard.Needs.Page.{
  State, StatusFilter, Tally, all_clusters, shard, cluster, status, clusters, scoped, rows, summary,
  show_cluster,
}
use bigfleet_web_dashboard.Needs.Table.{SummaryView, summary_bar, TableView, needs_table}
use bigfleet_web_dashboard.Needs.Report.{ReportView, drawer}

-- `needs.data?.needs ?? []`
abbrev pub all_needs : Query NeedsResponse → List NeedView
all_needs q = elim q.result [ none ↦ [] | some r ↦ r.needs ]

-- `enabled: wired && shard !== ""`
abbrev pub needs_enabled : Bool → State → Bool
needs_enabled on s = on && truthy (shard s)

module _ (js : Engine) (encode : String → String) (same : NeedView → NeedView → Bool) where
  open js use {Number, locale_before}

  -- An option of a select: its value and its text.
  pub record FilterView : Type 0 where
    pub shards : List (String × String)
    pub shard_value : String
    pub clusters_offered : List (String × String)
    pub cluster_value : String
    pub status_value : StatusFilter

  cluster_option : String × Tally → String × String
  unfolding show
  cluster_option (id, t) = (
    id,
    id
        <> " ("
        <> show t.total
        <> (if ltb 0 t.unmet then " · " <> show t.unmet <> " unmet" else "")
        <> ")",
  )

  unfoldable pub filter_view : State → List String → List NeedView → FilterView
  unfolding cluster_option
  filter_view s shard_ids needs = record {
    shards =
        if length shard_ids == 0
        then ("", "no shards registered") ∷ []
        else map (λ id. (id, id)) shard_ids;
    shard_value = shard s;
    clusters_offered =
        (all_clusters, "All clusters (" <> int_text js (length needs) <> ")")
        ∷ map cluster_option (clusters locale_before needs);
    cluster_value = cluster s;
    status_value = status s;
  }

  pub data Notice : Type 0 where
    rebuilding no_needs : Notice

  -- What stands below the filters; a part that is not shown is `none` or `false`. `table` is `none`
  -- for "Nothing matches".
  pub record ListedView : Type 0 where
    pub summary_view : SummaryView js
    pub table : Option (TableView js)

  pub record BodyView : Type 0 where
    pub error : Option String
    pub loading : Bool
    pub notice : Option Notice
    pub listed : Option ListedView

  unfoldable pub listed_view : Number → State → List NeedView → ListedView
  listed_view now s needs = record {
    summary_view = summary_bar js (summary s needs) (length (scoped s needs)) s.reason_filter;
    table =
        if length (rows s needs) == 0
        then none
        else some
            (needs_table js now (show_cluster s) (build_walk (rows s needs) (show_cluster s)));
  }

  unfoldable pub notice_of : Option NeedsResponse → Option Notice
  notice_of none = none
  notice_of (some r) =
      if length r.needs == 0 then some (if r.cycle == 0 then rebuilding else no_needs) else none

  unfoldable pub body_view : Number → Bool → State → Query NeedsResponse → BodyView
  unfolding listed_view notice_of
  body_view now on s q =
      let fine = on && not (is_some q.error) in
      record {
        error = if on then q.error else none;
        loading = fine && q.is_loading;
        notice = if fine then notice_of q.result else none;
        listed =
            if fine && ltb 0 (length (all_needs q))
            then some (listed_view now s (all_needs q))
            else none;
      }

  pub record PageView : Type 0 where
    pub updated : Option (FreshnessView js)
    pub unwired : Bool
    pub filters : Option FilterView
    pub body : BodyView
    pub report : Option (ReportView js encode same)

  unfoldable pub needs_page :
      Number → Query ClientConfig → List String → Query NeedsResponse → State → PageView
  unfolding filter_view body_view
  needs_page now cfg shard_ids q s =
      let on = wired (λ c. c.coordinator_wired) cfg in
      record {
        updated = elim q.result [
          | none ↦ none
          | some r ↦ some (
              freshness js now r.computed_at_unix_nanos (some r.cycle) 20
                "rebuilding (no cycle yet)")
        ];
        unwired = not cfg.is_loading && not on;
        filters = if on then some (filter_view s shard_ids (all_needs q)) else none;
        body = body_view now on s q;
        report = drawer js encode same now s.selected (all_needs q);
      }
