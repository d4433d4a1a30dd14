-- ===== src/Pages/Boards.antt =====
-- What the pages of the boards show of their queries: the components `FleetOverview`, `ShardDetail`,
-- `Topology` and `FinOps` of the files of those names in ui/src/pages.
use bigfleet_web_dashboard.Prelude.{
  ℕ, Bool, not, ◌&&◌, Option, none, some, List, [], ◌∷◌, String, if◌then◌else◌, truthy,
}
use bigfleet_web_dashboard.Engine.{Engine}
use bigfleet_web_dashboard.Api.Fleet.{
  ClientConfig, FleetOverview, FleetActionsSeries, ShardTrends, ShardDetail, FinOpsSnapshot,
}
use bigfleet_web_dashboard.Api.Reports.{Topology, ShardReport}
use bigfleet_web_dashboard.Ui.Query.{Query, wired, Gate, gate}
use bigfleet_web_dashboard.Ui.Widgets.{grafana_panel, grafana_link}
use bigfleet_web_dashboard.Pages.Fleet.{
  ActionsView, actions_card, StatTile, overview_tiles, LineView, trends_card, DetailView,
  shard_detail,
}
use bigfleet_web_dashboard.Pages.Topology.{TopologyView, topology_body}
use bigfleet_web_dashboard.Pages.FinOps.{TileView, posture_summary, key_metrics}
use bigfleet_web_dashboard.Pages.FinOps.Mix.{
  CapacityMix, capacity_mix, PenaltyView, penalty_distribution,
}
use bigfleet_web_dashboard.Pages.FinOps.Balance.{
  BalanceView, demand_vs_supply, decision_engine, RedFlagsView, red_flags_view,
}

abbrev pub scale_dashboard_uid : String
scale_dashboard_uid = "bigfleet-scaletest"

abbrev pub scale_dashboard_slug : String
scale_dashboard_slug = "bigfleet-scale-test"

-- The card of the embedded panels: the link, and the title and address of each panel.
pub record GrafanaView : Type 0 where
  pub link : Option String
  pub panels : List (String × Option String)

module _ (encode : String → String) where
  -- `GrafanaSection`; `theme` is the preferred colour scheme.
  unfoldable pub grafana_section : String → Option String → Option GrafanaView
  unfolding grafana_panel grafana_link
  grafana_section theme none = none
  grafana_section theme (some url) =
      let panel = λ (id : ℕ).
        grafana_panel encode (some url) scale_dashboard_uid scale_dashboard_slug id "now-1h" "now"
          theme in
      if not (truthy url)
      then none
      else some (record {
        link = grafana_link encode (some url) scale_dashboard_uid scale_dashboard_slug;
        panels = ("CR creates / sec", panel 2) ∷ ("Pod binds cumulative vs target", panel 96) ∷ [];
      })

module _ (js : Engine) where
  open js use {Number}

  -- The tiles, or their error; the card of the actions; and the section of Grafana.
  pub record OverviewBody : Type 0 where
    pub tiles_error : Option String
    pub tiles : Option (List (StatTile js))
    pub actions : ActionsView Number
    pub grafana : Option GrafanaView

  pub record OverviewView : Type 0 where
    pub unwired : Bool
    pub body : Option OverviewBody

  unfoldable pub overview_page :
      (String → String)
      → String
      → Query ClientConfig
      → Query (FleetOverview Number)
      → Query (FleetActionsSeries Number)
      → OverviewView
  unfolding grafana_section overview_tiles actions_card
  overview_page encode theme cfg overview actions =
      let on = wired (λ c. c.prometheus_wired) cfg in
      record {
        unwired = not cfg.is_loading && not on;
        body =
            if not on
            then none
            else some (record {
              tiles_error = overview.error;
              tiles = overview_tiles js overview.result overview.error overview.is_loading;
              actions = actions_card actions.result actions.error actions.is_loading;
              grafana =
                  grafana_section encode theme
                    (elim cfg.result [ none ↦ none | some c ↦ some c.grafana_url ]);
            });
      }

  -- `TrendsCard`: in each of its two cards the error, or the lines.
  pub record TrendsView : Type 0 where
    pub error : Option String
    pub lines : LineView Number × List (LineView Number)

  pub record ShardPage : Type 0 where
    pub title : String
    pub detail : Gate (DetailView js)
    pub trends : Option TrendsView

  -- What is shown of a query's data, with the notice, the error and the loading line as they are.
  abbrev with_body : {A B : Type 0} → (A → B) → Gate A → Gate B
  with_body f g = record {
    unwired = g.unwired;
    error = g.error;
    body = elim g.body [ none ↦ none | some a ↦ some (f a) ];
    loading = g.loading;
  }

  unfoldable pub shard_page :
      Query ClientConfig
      → String
      → Query (ShardDetail Number)
      → Query (ShardTrends Number)
      → ShardPage
  unfolding gate shard_detail trends_card
  shard_page cfg pod detail trends =
      let on = wired (λ c. c.prometheus_wired) cfg in
      record {
        title = pod;
        detail = with_body (shard_detail js) (gate cfg on detail);
        trends =
            if on && truthy pod
            then some (record { error = trends.error; lines = trends_card js trends.result })
            else none;
      }

  -- `reports` is `reports.data?.reports`.
  unfoldable pub topology_page :
      Number
      → Query ClientConfig
      → Query (Topology Number)
      → Option (List ShardReport)
      → Gate (TopologyView js)
  unfolding gate topology_body
  topology_page now cfg topology reports =
      with_body (λ d. topology_body js now d reports)
        (gate cfg (wired (λ c. c.coordinator_wired) cfg) topology)

  -- The sections of FinOps that show data, in their order; the others are fixed copy.
  pub record FinOpsView : Type 0 where
    pub red_flags : Option (RedFlagsView js)
    pub posture : List String
    pub metrics : List (TileView js)
    pub mix : CapacityMix js
    pub penalty : PenaltyView js
    pub balance : BalanceView js
    pub decisions : List (TileView js)

  unfoldable pub finops_body : FinOpsSnapshot Number → FinOpsView
  unfolding red_flags_view posture_summary key_metrics capacity_mix penalty_distribution
      demand_vs_supply decision_engine
  finops_body snapshot = record {
    red_flags = red_flags_view js snapshot.red_flags;
    posture = posture_summary js snapshot;
    metrics = key_metrics js snapshot;
    mix = capacity_mix js snapshot;
    penalty = penalty_distribution js snapshot;
    balance = demand_vs_supply js snapshot;
    decisions = decision_engine js snapshot;
  }

  unfoldable pub finops_page : Query ClientConfig → Query (FinOpsSnapshot Number) → Gate FinOpsView
  unfolding gate finops_body
  finops_page cfg snap = with_body finops_body (gate cfg (wired (λ c. c.prometheus_wired) cfg) snap)
