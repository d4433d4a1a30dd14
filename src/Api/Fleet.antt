-- ===== src/Api/Fleet.antt =====
-- ui/src/lib/api.ts: the responses of the pages over Prometheus. Their numbers are floats, whose
-- type is a parameter; a record of numbers is a dictionary.
use bigfleet_web_dashboard.Prelude.{String, Bool, List}
use bigfleet_web_dashboard.Prelude.Dict.{Dict}

pub record ClientConfig : Type 0 where
  pub grafana_url : String
  pub prometheus_wired : Bool
  pub coordinator_wired : Bool
  pub kubeconfig_wired : Bool

pub record FleetOverview (Number : Type 0) : Type 0 where
  pub shards : Number
  pub clusters : Number
  pub machines : Number
  pub machines_by_state : Dict Number
  pub shortfalls : Number
  pub cycle_p99_seconds : Number
  pub queried_at : String

pub record FleetActionsSeries (Number : Type 0) : Type 0 where
  pub timestamps : List Number
  pub kinds : List String
  pub values : List (List Number)

pub record ShardSummary (Number : Type 0) : Type 0 where
  pub pod : String
  pub cycle_p99_seconds : Number
  pub machines : Number
  pub shortfalls : Number
  pub active_sessions : Number

pub data Severity : Type 0 where
  warn danger : Severity

pub record FinOpsRedFlag (Number : Type 0) : Type 0 where
  pub severity : Severity
  pub capacity_type : String
  pub bucket : String
  pub count : Number
  pub message : String

pub record FinOpsTotals (Number : Type 0) : Type 0 where
  pub configured_machines : Number
  pub idle_machines : Number
  pub demand_machines : Number
  pub spot_configured_fraction : Number
  pub pinned_configured_fraction : Number

pub record FinOpsSnapshot (Number : Type 0) : Type 0 where
  pub totals : FinOpsTotals Number
  pub capacity_types : List String
  pub buckets : List String
  pub configured_by_capacity_type : Dict Number
  pub idle_by_capacity_type : Dict Number
  pub configured : Dict (Dict Number)
  pub configured_by_bucket : Dict Number
  pub demand : Dict Number
  pub action_rates_per_sec : Dict Number
  pub red_flags : List (FinOpsRedFlag Number)
  pub queried_at : String

pub record ShardTrends (Number : Type 0) : Type 0 where
  pub pod : String
  pub timestamps : List Number
  pub cycle_p99_seconds : List Number
  pub action_rates : Dict (List Number)
  pub queried_at : String

pub record ShardDetail (Number : Type 0) : Type 0 where
  pub pod : String
  pub cycle_p99_seconds : Number
  pub cycle_p99_by_phase_seconds : Dict Number
  pub machines : Number
  pub machines_by_state : Dict Number
  pub machines_by_capacity_type : Dict Number
  pub shortfalls : Number
  pub active_sessions : Number
  pub actions_by_kind_rate_per_sec : Dict Number
  pub occ_committed_per_sec : Number
  pub occ_conflict_per_sec : Number
  pub queried_at : String
