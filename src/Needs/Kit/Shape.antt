-- ===== src/Needs/Kit/Shape.antt =====
-- ui/src/pages/needsKit.tsx: the aggregation key, the demand shape, and the cohort header.
use bigfleet_web_dashboard.Prelude.{
  ℕ, Bool, ◌&&◌, Option, none, some, List, [], ◌∷◌, map, String, if◌then◌else◌, ltb, ◌<>◌, truthy,
  truthy?, or_else, is_some,
}
use bigfleet_web_dashboard.Prelude.Dict.{Dict, get, keys}
use bigfleet_web_dashboard.Prelude.Sort.{sort_by}
use bigfleet_web_dashboard.Engine.{Engine, le, max, of_ℤ}
use bigfleet_web_dashboard.Format.Basic.{format_int}
use bigfleet_web_dashboard.Format.Quantity.{
  parse_quantity, short_resource_key, format_resources, format_quantity_value, raw_resources,
}
use bigfleet_web_dashboard.Engine.Text.{first_chars}
use bigfleet_web_dashboard.Api.Demand.{NeedView, MatchingSupply}
use bigfleet_web_dashboard.Needs.Kit.{Tone, good, warn, chunk_estimate}
use bigfleet_web_dashboard.Needs.Kit.Panels.{
  plural, int_text, RequirementView, requirement_chip, SpreadView, spread_chip, LadderView,
  penalty_ladder, ChunkView, chunk_meter,
}
use bigfleet_web_dashboard.Needs.Kit.Verdict.{matching}

module _ (js : Engine) where
  open js use {Number, of_ℕ, sub, mul, div, lt, eq, text_before}

  pub record KeyCard : Type 0 where
    pub requirements : List RequirementView
    pub priority : String
    pub spread : List SpreadView
    pub interruption : LadderView js
    pub reclamation : LadderView js
    pub group : Option String
    -- the title and the text of the fingerprint
    pub profile : Option (String × String)

  unfoldable pub aggregation_key_card : NeedView → KeyCard
  aggregation_key_card n = record {
    requirements = map requirement_chip (or_else n.requirements []);
    priority = format_int js (some (of_ℤ js n.priority));
    spread = map spread_chip (or_else n.spread []);
    interruption = penalty_ladder js n.interruption_penalty_bucket;
    reclamation = penalty_ladder js n.reclamation_penalty_bucket;
    group = if truthy? n.group then n.group else none;
    profile =
        let fp = or_else n.profile_fingerprint "" in
        if truthy fp then some ("aggregation profile " <> fp, first_chars 12 fp) else none;
  }

  pub record CoverageRow : Type 0 where
    pub key : String
    pub width : Number
    pub tone : Tone
    pub value : String
    pub short : Option String

  coverage_row : NeedView → String → CoverageRow
  coverage_row n k =
      let raw = get k (or_else n.aggregate_resources []) in
      let deficit = get k (or_else n.residual_deficit []) in
      let want = parse_quantity js raw in
      let short = if n.satisfied then of_ℕ 0 else parse_quantity js deficit in
      let got = max js (of_ℕ 0) (sub want short) in
      let frac = if lt (of_ℕ 0) want then div got want else of_ℕ 1 in
      record {
        key = short_resource_key k;
        width = max js (of_ℕ 2) (mul frac (of_ℕ 100));
        tone = if le js (of_ℕ 1) frac then good else warn;
        value = format_quantity_value js k raw;
        short =
            if lt (of_ℕ 0) short then some (" · −" <> format_quantity_value js k deficit) else none;
      }

  -- `keys.sort()` orders by `<` on the texts.
  unfoldable pub resource_coverage : NeedView → List CoverageRow
  unfolding coverage_row
  resource_coverage n =
      map (coverage_row n) (sort_by text_before (keys (or_else n.aggregate_resources [])))

  pub record DemandView : Type 0 where
    pub aggregate : String
    pub raw : String
    -- the title and the text
    pub min_unit : Option (String × String)
    pub chunks : Option String
    pub bound_by : Option String
    pub meter : Option (ChunkView js)
    pub coverage_rows : List CoverageRow

  abbrev min_unit_text : Option (Dict String) → Option (String × String)
  min_unit_text none = none
  min_unit_text (some []) = none
  min_unit_text (some (x ∷ xs)) =
      some (raw_resources js (some (x ∷ xs)), format_resources js (some (x ∷ xs)))

  chunks_text : Option (Number × String) → Option String
  chunks_text none = none
  chunks_text (some (total, dim)) =
      some
        ("≈ " <> format_int js (some total) <> " chunk" <> (if eq total (of_ℕ 1) then "" else "s"))

  bound_text : Option (Number × String) → Option String
  bound_text none = none
  bound_text (some (total, dim)) = if truthy dim then some (short_resource_key dim) else none

  unfoldable pub demand_shape : NeedView → DemandView
  unfolding chunks_text bound_text resource_coverage
  demand_shape n =
      let est = chunk_estimate js n in
      record {
        aggregate = format_resources js n.aggregate_resources;
        raw = raw_resources js n.aggregate_resources;
        min_unit = min_unit_text n.min_unit;
        chunks = chunks_text est;
        bound_by = bound_text est;
        meter = if is_some est then some (chunk_meter js n) else none;
        coverage_rows = resource_coverage n;
      }

  pub record PoolView : Type 0 where
    pub idle : Number
    pub configured : Number
    pub speculative : Number
    pub total : String

  pub record HeaderView : Type 0 where
    pub title : String
    -- the title and the text of the fingerprint
    pub profile : String × String
    pub count : String
    pub pool : Option PoolView

  pool_view : MatchingSupply → PoolView
  pool_view ms =
      let total = of_ℕ (matching js (some ms)) in
      let share = λ (v : ℕ). mul (div (of_ℕ v) total) (of_ℕ 100) in
      record {
        idle = share ms.idle;
        configured = share ms.configured;
        speculative = share ms.speculative;
        total = format_int js (some total) <> (if ms.capped then "+" else "");
      }

  unfoldable pub cohort_header : String → ℕ → Bool → Option MatchingSupply → HeaderView
  unfolding pool_view
  cohort_header fingerprint count contested supply = record {
    title = if contested then "contested shape" else "shared shape";
    profile = ("aggregation profile " <> fingerprint, first_chars 10 fingerprint);
    count = "· " <> int_text js count <> " need" <> plural count;
    pool = elim supply [
      | none ↦ none
      | some ms ↦ if contested && ltb 0 (matching js (some ms)) then some (pool_view ms) else none
    ];
  }

  unfoldable pub cut_line : ℕ → String
  cut_line below =
      "supply exhausted here · "
      <> int_text js below
      <> " need"
      <> plural below
      <> " below the cut-line"
