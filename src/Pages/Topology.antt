-- ===== src/Pages/Topology.antt =====
-- ui/src/pages/Topology.tsx.
pub mod Domains
use bigfleet_web_dashboard.Prelude.{
  ℕ, ◌-◌, Bool, true, false, not, ◌&&◌, Option, none, some, List, [], ◌∷◌, ◌++◌, map, String,
  if◌then◌else◌, ltb, ◌<>◌, truthy, or_else, length, take,
}
use bigfleet_web_dashboard.Prelude.Dict.{Dict, get, set}
use bigfleet_web_dashboard.Prelude.Show.{join}
use bigfleet_web_dashboard.Prelude.Sort.{sort_by}
use bigfleet_web_dashboard.Engine.{Engine, ratio, of_ℤ}
use bigfleet_web_dashboard.Format.Basic.{format_int, format_rate, format_relative}
use bigfleet_web_dashboard.Ui.Query.{Query, Gate, gate}
use bigfleet_web_dashboard.Ui.Widgets.{FreshnessView, freshness}
use bigfleet_web_dashboard.Api.Fleet.{ClientConfig}
use bigfleet_web_dashboard.Api.Reports.{
  Topology, TopologyShard, TopologyDomainAssignment, CoordinatorHealth, ShardReport,
  ShardReportShortfall,
}
use bigfleet_web_dashboard.Needs.Kit.{Tone, neutral, good, warn, danger, muted}
use bigfleet_web_dashboard.Pages.ShardReports.{by_count, by_shard_id, no_summary}

module _ (js : Engine) where
  open js use {Number, of_ℕ, sub, lt, locale_before}

  abbrev pub apply_tone : CoordinatorHealth Number → Tone
  apply_tone c =
      if lt (ratio js 1 1000) c.apply_error_rate_per_sec
      then danger
      else if lt (of_ℕ 0) c.apply_error_rate_per_sec
      then warn
      else good

  pub record ShardRow : Type 0 where
    pub shard_id : String
    pub address : String
    pub heartbeat : String
    pub heartbeat_tone : Tone
    pub pending : String
    pub is_pending : Bool

  -- `now` is `Date.now() / 1000`.
  unfoldable pub shard_row : Number → TopologyShard Number → ShardRow
  shard_row now s =
      let age = sub now s.last_heartbeat_unix_sec in
      record {
        shard_id = s.shard_id;
        address = if truthy s.address then s.address else "—";
        heartbeat = format_relative js (some s.last_heartbeat_unix_sec) now;
        heartbeat_tone =
            if lt (of_ℕ 60) age then danger else if lt (of_ℕ 30) age then warn else muted;
        pending = format_int js (some s.pending_instructions);
        is_pending = lt (of_ℕ 0) s.pending_instructions;
      }

  -- `Object.entries(deficit)` by key; no entry reads "—".
  unfoldable pub format_deficit : Dict String → String
  unfolding join sort_by
  format_deficit [] = "—"
  format_deficit (e ∷ es) = join " " (
      map (λ (x : String × String). x.0 <> "=" <> x.1)
        (sort_by (λ (a : String × String) b. locale_before a.0 b.0) (e ∷ es)))

  pub record ReportCard : Type 0 where
    pub shard_id : String
    pub machines : String
    pub updated : FreshnessView js
    pub types : List String
    pub more : Option ℕ
    pub shortfalls : List (String × String)

  shortfall_line : ShardReportShortfall → String × String
  shortfall_line s = (
    "shortfall p"
        <> format_int js (some (of_ℤ js s.priority))
        <> " · bucket "
        <> s.penalty_bucket
        <> " · age "
        <> format_int js (some (of_ℕ s.age_cycles)),
    format_deficit s.deficit,
  )

  unfoldable pub report_card : Number → ShardReport → ReportCard
  unfolding shortfall_line
  report_card now r =
      let summary = or_else r.summary (no_summary js) in
      let types = by_count summary.instance_type_counts in
      record {
        shard_id = r.shard_id;
        machines =
            format_int js (some (of_ℕ summary.free_machines))
            <> " free / "
            <> format_int js (some (of_ℕ summary.total_machines))
            <> " machines";
        updated =
            freshness js now r.received_at_unix_ns (some r.cycle) 20 "no data yet (rebuilding)";
        types =
            map (λ (e : String × ℕ). e.0 <> ": " <> format_int js (some (of_ℕ e.1))) (take 6 types);
        more = if ltb 6 (length types) then some (length types - 6) else none;
        shortfalls = map shortfall_line (or_else r.shortfalls []);
      }

  -- `none` is "Loading…".
  unfoldable pub report_cards : Number → Option (List ShardReport) → Option (List ReportCard)
  unfolding report_card
  report_cards now none = none
  report_cards now (some rs) = some (map (report_card now) (by_shard_id js rs))

  -- The loop that groups the assignments.
  unfoldable pub group_domains :
      List TopologyDomainAssignment
      → Dict (List TopologyDomainAssignment)
      → Dict (List TopologyDomainAssignment)
  group_domains [] out = out
  group_domains (a ∷ rest) out =
      group_domains rest (set a.topology_key (or_else (get a.topology_key out) [] ++ a ∷ []) out)

  -- `arr.sort((x, y) => x.topologyValue.localeCompare(y.topologyValue))` for each group
  abbrev pub sort_groups :
      Dict (List TopologyDomainAssignment) → Dict (List TopologyDomainAssignment)
  sort_groups [] = []
  sort_groups ((k, g) ∷ m) =
      (
        k,
        sort_by
            (λ (x : TopologyDomainAssignment) y. locale_before x.topology_value y.topology_value) g,
      )
      ∷ sort_groups m

  unfoldable pub domains : List TopologyDomainAssignment → Dict (List TopologyDomainAssignment)
  domains assignments =
      sort_by (λ (a : String × List TopologyDomainAssignment) b. locale_before a.0 b.0)
        (sort_groups (group_domains assignments []))

  pub record TopologyView : Type 0 where
    pub warnings : List String
    pub tiles : List (String × String)
    pub errors_tone : Tone
    pub shards : List ShardRow
    pub reports : Option (List ReportCard)
    pub domain_groups : Dict (List TopologyDomainAssignment)

  unfoldable pub topology_body : Number → Topology Number → Option (List ShardReport) → TopologyView
  unfolding shard_row report_cards domains
  topology_body now d reports = record {
    warnings = or_else d.warnings [];
    tiles =
        ("Raft term", format_int js (some d.coordinator.raft_term))
        ∷ ("Apply rate", format_rate js (some d.coordinator.apply_rate_per_sec))
        ∷ ("Apply errors", format_rate js (some d.coordinator.apply_error_rate_per_sec))
        ∷ ("Pending instructions", format_int js (some d.coordinator.pending_instructions_total))
        ∷ [];
    errors_tone = apply_tone d.coordinator;
    shards = map (shard_row now) d.shards;
    reports = report_cards now reports;
    domain_groups = domains d.domain_assignments;
  }
