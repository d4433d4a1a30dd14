-- ===== src/Needs/Kit/Panels.antt =====
-- ui/src/pages/needsKit.tsx: the panels. Each is a record of what the component computes and draws;
-- class names and fixed copy are left out.
pub mod Ladder
use bigfleet_web_dashboard.Prelude.{
  ℕ, zero, suc, ◌+◌, Bool, Option, none, some, List, [], ◌∷◌, String, if◌then◌else◌, ◌==◌, ◌<>◌,
  str_eq, truthy, or_else,
}
use bigfleet_web_dashboard.Prelude.Dict.{Dict, get}
use bigfleet_web_dashboard.Prelude.Show.{show, join}
use bigfleet_web_dashboard.Engine.{Engine, le, min, max}
use bigfleet_web_dashboard.Format.Basic.{format_int}
use bigfleet_web_dashboard.Format.Penalty.{format_penalty, penalty_ordinal, penalty_ladder_max}
use bigfleet_web_dashboard.Format.Quantity.{short_resource_key}
use bigfleet_web_dashboard.Api.Demand.{NeedView, Requirement, TopologySpread}
use bigfleet_web_dashboard.Needs.Kit.{Tone, good, warn, danger, coverage, chunk_estimate}

-- `s` after a count, unless the count is one
abbrev pub plural : ℕ → String
plural n = if n == 1 then "" else "s"

-- `OP_GLYPH`
abbrev pub op_glyph : Dict String
op_glyph =
    ("In", "∈") ∷ ("NotIn", "∉") ∷ ("Exists", "∃") ∷ ("DoesNotExist", "∄") ∷ ("Same", "⋈") ∷ []

pub record RequirementView : Type 0 where
  pub title : String
  pub key : String
  pub glyph : String
  pub vals : String
  pub co_located : Bool

unfoldable pub requirement_chip : Requirement → RequirementView
requirement_chip req =
    let vals = join ", " (or_else req.values []) in
    record {
      title = req.key <> " " <> req.operator <> (if truthy vals then " [" <> vals <> "]" else "");
      key = short_resource_key req.key;
      glyph = or_else (get req.operator op_glyph) req.operator;
      vals = vals;
      co_located = str_eq req.operator "Same";
    }

pub record SpreadView : Type 0 where
  pub title : String
  pub key : String
  pub skew : ℕ
  pub hard : Bool

-- An absent `whenUnsatisfiable` prints as "undefined" in the title.
unfoldable pub spread_chip : TopologySpread → SpreadView
spread_chip s = record {
  title =
      "topology spread on "
      <> s.topology_key
      <> ", maxSkew "
      <> show s.max_skew
      <> ", "
      <> or_else s.when_unsatisfiable "undefined";
  key = short_resource_key s.topology_key;
  skew = s.max_skew;
  hard = str_eq (or_else s.when_unsatisfiable "undefined") "DoNotSchedule";
}

module _ (js : Engine) where
  open js use {Number, of_ℕ, add, sub, mul, div, lt, round, upper_case}

  abbrev pub int_text : ℕ → String
  int_text n = format_int js (some (of_ℕ n))

  unfoldable pub penalty_pill : String → String
  penalty_pill bucket =
      if str_eq (upper_case bucket) "PINNED" then "📌" else format_penalty js (some bucket)

  -- The stops of the thermometer from the i-th on, filled below the ordinal.
  ladder_stops : ℕ → ℕ → Number → List Bool
  ladder_stops zero i ord = []
  ladder_stops (suc n) i ord = lt (of_ℕ i) ord ∷ ladder_stops n (i + 1) ord

  pub record LadderView : Type 0 where
    pub stops : List Bool
    pub label : String
    pub pinned : Bool

  unfoldable pub penalty_ladder : String → LadderView
  unfolding ladder_stops
  penalty_ladder bucket =
      let ord = penalty_ordinal js (some bucket) in
      record {
        stops = ladder_stops penalty_ladder_max 0 ord;
        label = format_penalty js (some bucket);
        pinned = le js (of_ℕ penalty_ladder_max) ord;
      }

  -- The chunks drawn, how many of them count as covered, and the text for those past the cap.
  pub record ChunkView : Type 0 where
    pub shown : Number
    pub covered : Number
    pub more : Option String

  unfoldable pub chunk_meter : NeedView → ChunkView
  chunk_meter n =
      let cap = of_ℕ 16 in
      let total : Number = elim (chunk_estimate js n) [ none ↦ of_ℕ 1 | some est ↦ est.0 ] in
      let shown = min js total cap in
      record {
        shown = shown;
        covered = if n.satisfied then shown else round (mul (coverage js n) shown);
        more = if lt cap total then some ("+" <> format_int js (some (sub total cap))) else none;
      }

  -- The fill's tone and its width in percent.
  unfoldable pub coverage_bar : NeedView → Tone × Number
  coverage_bar n =
      let cov = coverage js n in
      (
        if n.satisfied then good else if lt (of_ℕ 0) cov then warn else danger,
        max js (of_ℕ 3) (mul cov (of_ℕ 100)),
      )
