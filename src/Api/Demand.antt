-- ===== src/Api/Demand.antt =====
-- ui/src/lib/api.ts: the needs of a shard, as `NeedsResponse` carries them.
use bigfleet_web_dashboard.Prelude.{ℕ, String, Bool, List, Option}
use bigfleet_web_dashboard.Prelude.Int.{ℤ}
use bigfleet_web_dashboard.Prelude.Dict.{Dict}

pub record MatchingSupply : Type 0 where
  pub idle : ℕ
  pub configured : ℕ
  pub speculative : ℕ
  pub capped : Bool

pub record PreemptionSummary : Type 0 where
  pub victims_found : ℕ
  pub capacity_freed : Option (Dict String)

pub record DomainCoverage : Type 0 where
  pub domain : String
  pub coverage_per_mille : ℕ
  pub satisfiable : Bool

pub record Requirement : Type 0 where
  pub key : String
  pub operator : String
  pub values : Option (List String)

pub record TopologySpread : Type 0 where
  pub topology_key : String
  pub max_skew : ℕ
  pub when_unsatisfiable : Option String

-- `aggregateResources` is not optional in the type, but the code reads it with `?? {}`: the Go side
-- sends `null` for a nil map.
pub record NeedView : Type 0 where
  pub cluster_id : String
  pub priority : ℤ
  pub aggregate_resources : Option (Dict String)
  pub min_unit : Option (Dict String)
  pub group : Option String
  pub requirements : Option (List Requirement)
  pub spread : Option (List TopologySpread)
  pub interruption_penalty_bucket : String
  pub reclamation_penalty_bucket : String
  pub satisfied : Bool
  pub residual_deficit : Option (Dict String)
  pub claimed_machine_count : ℕ
  pub bootstrap_count : ℕ
  pub provision_count : ℕ
  pub same_domain : Option String
  pub same_satisfiable : Bool
  pub acquisition_parked : Bool
  pub parked_age_cycles : Option ℕ
  pub age_cycles_unmet : ℕ
  pub unmet_reason : String
  pub arrival_unix_nanos : Option ℕ
  pub profile_fingerprint : Option String
  pub matching_supply : Option MatchingSupply
  pub preemption : Option PreemptionSummary
  pub same_candidates : Option (List DomainCoverage)

pub record NeedsResponse : Type 0 where
  pub shard_id : String
  pub cycle : ℕ
  pub computed_at_unix_nanos : ℕ
  pub total_needs : ℕ
  pub needs : List NeedView
  pub queried_at : String
