-- ===== src/Api/Reports.antt =====
-- ui/src/lib/api.ts: the responses of the coordinator and cluster pages. Rates and times are
-- floats, whose type is a parameter; counts are natural numbers and priorities integers.
use bigfleet_web_dashboard.Prelude.{ℕ, String, List, Option}
use bigfleet_web_dashboard.Prelude.Int.{ℤ}
use bigfleet_web_dashboard.Prelude.Dict.{Dict}

pub record CoordinatorHealth (Number : Type 0) : Type 0 where
  pub raft_term : Number
  pub apply_rate_per_sec : Number
  pub apply_error_rate_per_sec : Number
  pub pending_instructions_total : Number

pub record TopologyShard (Number : Type 0) : Type 0 where
  pub shard_id : String
  pub address : String
  pub registered_at_unix_sec : Number
  pub last_heartbeat_unix_sec : Number
  pub pending_instructions : Number

pub record TopologyDomainAssignment : Type 0 where
  pub topology_key : String
  pub topology_value : String
  pub shard_id : String

pub record Topology (Number : Type 0) : Type 0 where
  pub coordinator : CoordinatorHealth Number
  pub shards : List (TopologyShard Number)
  pub domain_assignments : List TopologyDomainAssignment
  pub warnings : Option (List String)
  pub queried_at : String

pub record ClusterSummary : Type 0 where
  pub id : String
  pub capacity_requests : ℕ
  pub capacity_requests_pending : ℕ
  pub upcoming_nodes : ℕ
  pub error : Option String

pub record ClusterDetail : Type 0 where
  pub id : String
  pub capacity_requests_total : ℕ
  pub capacity_requests_by_phase : Dict ℕ
  pub upcoming_nodes_total : ℕ
  pub upcoming_nodes_by_phase : Dict ℕ
  pub queried_at : String

pub record ShardReportSummary : Type 0 where
  pub total_machines : ℕ
  pub free_machines : ℕ
  pub instance_type_counts : Dict ℕ
  pub zone_counts : Dict ℕ
  pub provider_address : String

pub record ShardReportShortfall : Type 0 where
  pub priority : ℤ
  pub deficit : Dict String
  pub age_cycles : ℕ
  pub penalty_bucket : String

pub record ShardReport : Type 0 where
  pub shard_id : String
  pub cycle : ℕ
  pub received_at_unix_ns : ℕ
  pub summary : Option ShardReportSummary
  pub shortfalls : Option (List ShardReportShortfall)

pub record AvailableCapacityItem : Type 0 where
  pub name : String
  pub resources : Option (Dict String)
  pub available_count : ℕ
  pub availability : String
  pub cost : String
  pub requirements : Option (List String)

pub record AvailableCapacityCluster : Type 0 where
  pub id : String
  pub items : List AvailableCapacityItem
  pub error : Option String
