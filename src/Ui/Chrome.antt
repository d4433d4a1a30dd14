-- ===== src/Ui/Chrome.antt =====
-- ui/src/components/Layout.tsx and ui/src/App.tsx: the sidebar and the table of routes.
use bigfleet_web_dashboard.Prelude.{Bool, true, false, Option, none, some, List, [], ◌∷◌, String}
use bigfleet_web_dashboard.Api.Fleet.{ClientConfig}

-- An entry of the sidebar; `end` asks for an exact match.
pub record NavItem : Type 0 where
  pub to : String
  pub label : String
  pub end : Bool

pub record NavGroup : Type 0 where
  pub heading : Option String
  pub items : List NavItem

abbrev nav_item : String → String → NavItem
nav_item to label = record { to = to; label = label; end = false }

abbrev pub nav_groups : List NavGroup
nav_groups =
    record { heading = none; items = record { to = "/"; label = "Overview"; end = true } ∷ [] }
    ∷ record {
      heading = some "Infrastructure";
      items =
          nav_item "/shards" "Shards"
          ∷ nav_item "/shard-reports" "Shard capacity"
          ∷ nav_item "/topology" "Topology"
          ∷ [];
    }
    ∷ record {
      heading = some "Demand";
      items =
          nav_item "/clusters" "Clusters"
          ∷ nav_item "/available-capacity" "Available capacity"
          ∷ nav_item "/needs" "Needs"
          ∷ [];
    }
    ∷ record { heading = some "Cost"; items = nav_item "/finops" "FinOps" ∷ [] }
    ∷ []

-- The state of a data source: unknown while there is no configuration.
pub data WireStatus : Type 0 where
  unknown is_wired off : WireStatus

unfoldable pub wire_status : Option Bool → WireStatus
wire_status none = unknown
wire_status (some true) = is_wired
wire_status (some false) = off

unfoldable pub data_sources : Option ClientConfig → List (String × WireStatus)
unfolding wire_status
data_sources cfg =
    let source =
      λ (f : ClientConfig → Bool). wire_status (elim cfg [ none ↦ none | some c ↦ some (f c) ]) in
    ("Prometheus", source (λ c. c.prometheus_wired))
    ∷ ("Coordinator", source (λ c. c.coordinator_wired))
    ∷ ("Kubeconfig", source (λ c. c.kubeconfig_wired))
    ∷ []

-- The pages, with the parameter of their route.
pub data Screen : Type 0 where
  fleet_overview shards_list clusters_list available_capacity topology : Screen
  shard_reports needs finops not_found : Screen
  shard_detail : (pod : String) → Screen
  cluster_detail : (id : String) → Screen

-- A segment of a route's path: literal text, or a parameter.
pub data Segment : Type 0 where
  lit : String → Segment
  param : Segment

-- The routes but `*`, in order: the segments, and the page for the parameter's value, which is ""
-- where the route has none.
abbrev pub routes : List (List Segment × (String → Screen))
routes =
    ([], λ p. fleet_overview)
    ∷ (lit "shards" ∷ [], λ p. shards_list)
    ∷ (lit "shards" ∷ param ∷ [], shard_detail)
    ∷ (lit "clusters" ∷ [], λ p. clusters_list)
    ∷ (lit "clusters" ∷ param ∷ [], cluster_detail)
    ∷ (lit "available-capacity" ∷ [], λ p. available_capacity)
    ∷ (lit "topology" ∷ [], λ p. topology)
    ∷ (lit "shard-reports" ∷ [], λ p. shard_reports)
    ∷ (lit "needs" ∷ [], λ p. needs)
    ∷ (lit "finops" ∷ [], λ p. finops)
    ∷ []
