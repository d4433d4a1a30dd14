-- ===== src/Needs/Report.antt =====
-- ui/src/pages/Needs.tsx: the decision report of a need, which the drawer shows.
use bigfleet_web_dashboard.Prelude.{
  Bool, not, ◌&&◌, ◌||◌, Option, none, some, List, [], ◌∷◌, map, String, if◌then◌else◌, ltb, ◌==◌,
  ◌<>◌, or_else, truthy?, length, is_some, str_eq,
}
use bigfleet_web_dashboard.Engine.{Engine, max, of_ℤ}
use bigfleet_web_dashboard.Format.Basic.{format_int, format_relative}
use bigfleet_web_dashboard.Format.Penalty.{format_penalty, format_priority_compact}
use bigfleet_web_dashboard.Format.Quantity.{format_resources}
use bigfleet_web_dashboard.Api.Demand.{NeedView, DomainCoverage}
use bigfleet_web_dashboard.Needs.Competition.{competitors_for}
use bigfleet_web_dashboard.Needs.Kit.{Tone, good, violet, reason_meta}
use bigfleet_web_dashboard.Needs.Kit.Panels.{int_text}
use bigfleet_web_dashboard.Needs.Kit.Verdict.{Trace, decision_trace, FunnelView, supply_funnel}
use bigfleet_web_dashboard.Needs.Kit.Shape.{KeyCard, aggregation_key_card, DemandView, demand_shape}

-- `same` tells whether two needs are one object, `encode` is `encodeURIComponent`.
module _ (js : Engine) (encode : String → String) (same : NeedView → NeedView → Bool) where
  open js use {Number, of_ℕ, div, round, to_text}

  pub record CompetitorRow : Type 0 where
    pub cluster : String
    pub this_cluster : Bool
    pub priority : String
    pub priority_title : String
    pub wants : String
    pub claimed : String

  competitor_row : NeedView → NeedView → CompetitorRow
  competitor_row n c = record {
    cluster = c.cluster_id;
    this_cluster = str_eq c.cluster_id n.cluster_id;
    priority = format_priority_compact js (some (of_ℤ js c.priority));
    priority_title = format_int js (some (of_ℤ js c.priority));
    wants = format_resources js c.aggregate_resources;
    claimed = int_text js c.claimed_machine_count;
  }

  -- `none` is "No higher-precedence need with a compatible shape claimed machines this cycle.".
  unfoldable pub competition : NeedView → List NeedView → Option (List CompetitorRow)
  unfolding competitor_row
  competition n all = elim (competitors_for same n all) [
    | [] ↦ none
    | c ∷ cs ↦ some (map (competitor_row n) (c ∷ cs))
  ]

  pub record CandidateRow : Type 0 where
    pub domain : String
    pub satisfiable : Bool
    pub width : Number
    pub percent : String

  candidate_row : NeedView → DomainCoverage → CandidateRow
  candidate_row n c =
      let percent = div (of_ℕ c.coverage_per_mille) (of_ℕ 10) in
      record {
        domain =
            c.domain
            <> (if str_eq c.domain (or_else n.same_domain "") && is_some n.same_domain
                then " ◀ chosen"
                else "");
        satisfiable = c.satisfiable;
        width = max js (of_ℕ 2) percent;
        percent = to_text (round percent) <> "%";
      }

  pub record TopologyBlockView : Type 0 where
    pub gang : Option String
    pub chosen : Option (String × Tone × String)
    pub candidates : List CandidateRow

  unfoldable pub topology_block : NeedView → TopologyBlockView
  unfolding candidate_row
  topology_block n = record {
    gang = if truthy? n.group then n.group else none;
    chosen =
        if truthy? n.same_domain
        then some (
          or_else n.same_domain "",
          if n.same_satisfiable then good else violet,
          if n.same_satisfiable then "satisfiable" else "unsatisfiable",
        )
        else none;
    candidates = map (candidate_row n) (or_else n.same_candidates []);
  }

  pub record AgingView : Type 0 where
    pub unmet_for : Option String
    pub since : Option String
    pub parked : Option String
    pub priority : String
    pub interruption : String
    pub reclamation : String

  -- `now` is `Date.now() / 1000`. An arrival of 0 shows as the bare number, which React draws.
  unfoldable pub aging : Number → NeedView → AgingView
  aging now n =
      let parked = or_else n.parked_age_cycles 0 in
      record {
        unmet_for =
            if not n.satisfied
            then some (
                int_text js n.age_cycles_unmet
                <> " cycles"
                <> (if ltb 5 n.age_cycles_unmet then " (escalated)" else ""))
            else none;
        since = elim n.arrival_unix_nanos [
          | none ↦ none
          | some t ↦ some (
              if t == 0
              then "0"
              else format_relative js (some (div (of_ℕ t) (of_ℕ 1000000000))) now)
        ];
        parked =
            if n.acquisition_parked
            then some ("parked " <> (if ltb 0 parked then int_text js parked <> "c" else ""))
            else none;
        priority = "prio " <> format_priority_compact js (some (of_ℤ js n.priority));
        interruption = "int " <> format_penalty js (some n.interruption_penalty_bucket);
        reclamation = "rec " <> format_penalty js (some n.reclamation_penalty_bucket);
      }

  -- The sections of the report; those that a need does not have are `none`.
  pub record ReportView : Type 0 where
    pub title : String
    pub subtitle : String
    pub verdict : Tone × String
    pub acts : Bool
    pub key : KeyCard js
    pub demand : DemandView js
    pub trace_title : String
    pub trace : Trace js
    pub funnel : Option (FunnelView js)
    pub ahead : Option (Option (List CompetitorRow))
    pub topology : Option TopologyBlockView
    pub timing : AgingView
    pub links : List String

  unfoldable pub decision_report : Number → NeedView → List NeedView → ReportView
  unfolding competition topology_block aging
  decision_report now n all =
      let meta = reason_meta js n.satisfied n.unmet_reason in
      record {
        title = n.cluster_id;
        subtitle =
            "priority "
            <> format_int js (some (of_ℤ js n.priority))
            <> (if truthy? n.group then " · gang " <> or_else n.group "" else "")
            <> " · "
            <> format_resources js n.aggregate_resources;
        verdict = (meta.tone, if n.satisfied then "satisfied" else "unmet · " <> meta.label);
        acts = meta.acts;
        key = aggregation_key_card js n;
        demand = demand_shape js n;
        trace_title = if n.satisfied then "How it's held" else "Decision trace";
        trace = decision_trace js n;
        funnel =
            if not n.satisfied && is_some n.matching_supply
            then some (supply_funnel js n)
            else none;
        ahead =
            if not n.satisfied && str_eq n.unmet_reason "PRIORITY_STARVED"
            then some (competition n all)
            else none;
        topology =
            if truthy? n.same_domain || ltb 0 (length (or_else n.same_candidates []))
            then some (topology_block n)
            else none;
        timing = aging now n;
        links = ("/clusters/" <> encode n.cluster_id) ∷ "/available-capacity" ∷ [];
      }

  -- The drawer renders nothing when no need is selected.
  unfoldable pub drawer : Number → Option NeedView → List NeedView → Option ReportView
  unfolding decision_report
  drawer now none all = none
  drawer now (some n) all = some (decision_report now n all)
