-- ===== src/Examples/Samples.antt =====
-- A small engine whose numbers are natural numbers, and some data as the API sends it.
use bigfleet_web_dashboard.Prelude.{
  ℕ, ◌+◌, ◌-◌, ◌*◌, ◌/◌, ◌%◌, Bool, true, false, not, ◌&&◌, refl, none, some, List, [], ◌∷◌, String,
  arith, if◌then◌else◌, ltb, ◌==◌, str_eq,
}
use bigfleet_web_dashboard.Prelude.Int.{ℤ, pos, negsuc}
use bigfleet_web_dashboard.Prelude.Show.{show}
use bigfleet_web_dashboard.Engine.{Engine, IsOrderedEngine}
use bigfleet_web_dashboard.Api.Demand.{NeedView}
use bigfleet_web_dashboard.Api.Fleet.{FinOpsSnapshot}
use bigfleet_web_dashboard.Api.Reports.{ShardReportShortfall, TopologyDomainAssignment}
use bigfleet_web_dashboard.Needs.Page.{State}

-- The texts that the samples read as numbers.
abbrev read_number : String → ℕ
read_number s =
    if str_eq s "2" then 2 else if str_eq s "4" then 4 else if str_eq s "8" then 8 else 0

abbrev pub toy : Engine
toy = record {
  Number = ℕ;
  of_ℕ = λ n. n;
  add = λ a b. a + b;
  sub = λ a b. a - b;
  mul = λ a b. a * b;
  div = λ a b. a / b;
  rem = λ a b. a % b;
  lt = ltb;
  eq = λ a b. a == b;
  is_nan = λ n. false;
  is_finite = λ n. true;
  floor = λ n. n;
  round = λ n. n;
  ceil = λ n. n;
  abs = λ n. n;
  log2 = λ n. n;
  parse_float = read_number;
  to_number = read_number;
  to_fixed = λ n dp. show n;
  to_locale_string = show;
  to_text = show;
  upper_case = λ s. s;
  lower_case = λ s. s;
  underscores_to_spaces = λ s. s;
  text_before = λ a b. false;
  locale_before = λ a b. str_eq a "a" && not (str_eq b "a");
}

pub toy_laws : IsOrderedEngine toy
toy_laws = record {
  lt_asym = λ a b h. ground arith;
  lt_cotrans = λ a b c n h k. ground arith;
  lt_nan = λ a b h. ground arith;
  of_ℕ_number = λ n. refl;
}

-- A need of a fingerprint: its cluster, priority, whether it is met, and what it has claimed.
abbrev pub need : String → String → ℤ → Bool → ℕ → NeedView
need fingerprint cluster_id priority satisfied claimed = record {
  cluster_id = cluster_id;
  priority = priority;
  aggregate_resources = some (("cpu", "8") ∷ ("pods", "4") ∷ []);
  min_unit = none;
  group = none;
  requirements = none;
  spread = none;
  interruption_penalty_bucket = "2";
  reclamation_penalty_bucket = "2";
  satisfied = satisfied;
  residual_deficit = some (("cpu", "2") ∷ []);
  claimed_machine_count = claimed;
  bootstrap_count = 0;
  provision_count = 0;
  same_domain = none;
  same_satisfiable = true;
  acquisition_parked = false;
  parked_age_cycles = none;
  age_cycles_unmet = 0;
  unmet_reason = if satisfied then "" else "NO_SUPPLY";
  arrival_unix_nanos = some 5;
  profile_fingerprint = some fingerprint;
  matching_supply = some (record { idle = 2; configured = 1; speculative = 3; capped = false });
  preemption = none;
  same_candidates = none;
}

-- Two needs of one fingerprint, with a cut between them, and one of another.
abbrev pub first : NeedView
first = need "x" "east" (pos 9) true 2

abbrev pub second : NeedView
second = need "x" "west" (pos 3) false 0

abbrev pub alone : NeedView
alone = need "y" "east" (negsuc 0) false 0

abbrev pub needs : List NeedView
needs = second ∷ first ∷ alone ∷ []

-- The page with no parameter but the shard, and no reason picked.
abbrev pub fresh_page : State
fresh_page = record { params = ("shard", "s1") ∷ []; reason_filter = none; selected = none }

abbrev pub shortfall : ℤ → ℕ → ShardReportShortfall
shortfall priority age_cycles = record {
  priority = priority;
  deficit = ("cpu", "2") ∷ [];
  age_cycles = age_cycles;
  penalty_bucket = "PENALTY_BUCKET_ZERO";
}

abbrev pub shortfalls : List ShardReportShortfall
shortfalls = shortfall (pos 1) 2 ∷ shortfall (pos 4) 7 ∷ []

abbrev pub assignments : List TopologyDomainAssignment
assignments =
    record { topology_key = "zone"; topology_value = "b"; shard_id = "s1" }
    ∷ record { topology_key = "a"; topology_value = "r1"; shard_id = "s1" }
    ∷ record { topology_key = "zone"; topology_value = "a"; shard_id = "s2" }
    ∷ []

abbrev pub snapshot : FinOpsSnapshot ℕ
snapshot = record {
  totals = record {
    configured_machines = 7;
    idle_machines = 1;
    demand_machines = 9;
    spot_configured_fraction = 0;
    pinned_configured_fraction = 0;
  };
  capacity_types = "Spot" ∷ "Reserved" ∷ [];
  buckets = "8" ∷ "pinned" ∷ [];
  configured_by_capacity_type = ("Spot", 3) ∷ ("Reserved", 4) ∷ [];
  idle_by_capacity_type = ("Spot", 1) ∷ [];
  configured = ("Spot", ("8", 3) ∷ []) ∷ ("Reserved", ("pinned", 4) ∷ []) ∷ [];
  configured_by_bucket = ("8", 3) ∷ ("pinned", 4) ∷ [];
  demand = ("8", 9) ∷ [];
  action_rates_per_sec = [];
  red_flags = [];
  queried_at = "";
}

-- A number as a difference of two natural numbers.
abbrev difference : ℕ × ℕ → ℕ × ℕ → ℕ × ℕ
difference a b = (a.0 + b.1, a.1 + b.0)

-- An engine whose numbers are such differences, with `+`, `-` and `<` and nothing more.
abbrev pub differences : Engine
differences = record {
  Number = ℕ × ℕ;
  of_ℕ = λ n. (n, 0);
  add = λ a b. (a.0 + b.0, a.1 + b.1);
  sub = difference;
  mul = λ a b. a;
  div = λ a b. a;
  rem = λ a b. a;
  lt = λ a b. ltb (a.0 + b.1) (b.0 + a.1);
  eq = λ a b. a.0 + b.1 == b.0 + a.1;
  is_nan = λ n. false;
  is_finite = λ n. true;
  floor = λ n. n;
  round = λ n. n;
  ceil = λ n. n;
  abs = λ n. n;
  log2 = λ n. n;
  parse_float = λ s. (read_number s, 0);
  to_number = λ s. (read_number s, 0);
  to_fixed = λ n dp. show (n.0 - n.1);
  to_locale_string = λ n. show (n.0 - n.1);
  to_text = λ n. show (n.0 - n.1);
  upper_case = λ s. s;
  lower_case = λ s. s;
  underscores_to_spaces = λ s. s;
  text_before = λ a b. false;
  locale_before = λ a b. false;
}

-- One bucket with less supply than demand, and one with more.
abbrev pub uneven : FinOpsSnapshot (ℕ × ℕ)
uneven = record {
  totals = record {
    configured_machines = (7, 0);
    idle_machines = (1, 0);
    demand_machines = (9, 0);
    spot_configured_fraction = (0, 0);
    pinned_configured_fraction = (0, 0);
  };
  capacity_types = "Spot" ∷ [];
  buckets = "8" ∷ "4" ∷ [];
  configured_by_capacity_type = ("Spot", (7, 0)) ∷ [];
  idle_by_capacity_type = ("Spot", (1, 0)) ∷ [];
  configured = ("Spot", ("8", (3, 0)) ∷ ("4", (4, 0)) ∷ []) ∷ [];
  configured_by_bucket = ("8", (3, 0)) ∷ ("4", (4, 0)) ∷ [];
  demand = ("8", (9, 0)) ∷ ("4", (1, 0)) ∷ [];
  action_rates_per_sec = [];
  red_flags = [];
  queried_at = "";
}
