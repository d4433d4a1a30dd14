-- ===== src/Needs/Table.antt =====
-- ui/src/pages/Needs.tsx: the summary bar, a need's row, and the table of the walk.
pub mod Virtual
pub mod Items
use bigfleet_web_dashboard.Prelude.{
  ℕ, ◌-◌, Bool, true, false, not, ◌&&◌, Option, none, some, List, [], ◌∷◌, map, String,
  if◌then◌else◌, ltb, leb, ◌==◌, ◌<>◌, or_else, truthy?, length, is_some, filter, take, str_eq,
}
use bigfleet_web_dashboard.Prelude.Dict.{Dict}
use bigfleet_web_dashboard.Prelude.Show.{show}
use bigfleet_web_dashboard.Prelude.Sort.{sort_by}
use bigfleet_web_dashboard.Engine.{Engine, of_ℤ}
use bigfleet_web_dashboard.Engine.Text.{remove_first}
use bigfleet_web_dashboard.Format.Basic.{format_int, format_relative}
use bigfleet_web_dashboard.Format.Penalty.{format_priority_compact}
use bigfleet_web_dashboard.Format.Quantity.{format_resources}
use bigfleet_web_dashboard.Api.Demand.{NeedView}
use bigfleet_web_dashboard.Needs.Kit.{Tone, reason_meta}
use bigfleet_web_dashboard.Needs.Kit.Panels.{
  RequirementView, requirement_chip, coverage_bar, penalty_pill, int_text,
}
use bigfleet_web_dashboard.Needs.Kit.Shape.{HeaderView, cohort_header, cut_line}
use bigfleet_web_dashboard.Needs.Walk.{WalkItem, header, cutline, row}

-- `VIRTUALIZE_OVER`
abbrev pub virtualize_over : ℕ
virtualize_over = 150

unfoldable pub is_row : WalkItem → Bool
is_row (header key fp count contested supply) = false
is_row (cutline key below) = false
is_row (row key n) = true

-- `estimateSize`: the estimate of an item's height in pixels, from which the virtualizer starts.
unfoldable pub estimate_size : WalkItem → ℕ
estimate_size (header key fp count contested supply) = 34
estimate_size (cutline key below) = 30
estimate_size (row key n) = 42

-- The headings of the table, left to right.
unfoldable pub head_cells : Bool → List String
head_cells show_cluster =
    let rest : List String =
      "Priority" ∷ "Shape → coverage" ∷ "Penalties (int · rec)" ∷ "Age" ∷ "" ∷ [] in
    "Status" ∷ (if show_cluster then "Cluster" ∷ rest else rest)

module _ (js : Engine) where
  open js use {Number, of_ℕ, div}

  -- A pill of the summary: what it picks, its badge, its title, and whether it is dimmed.
  pub record Pill : Type 0 where
    pub reason : String
    pub tone : Tone
    pub text : String
    pub title : String
    pub dimmed : Bool

  pub record SummaryView : Type 0 where
    pub total : String
    pub satisfied : String
    pub pills : List Pill
    pub all_satisfied : Bool

  unfoldable pub pill : Option String → String × ℕ → Pill
  pill active (reason, n) =
      let meta = reason_meta js false reason in
      let on : Bool = elim active [ none ↦ false | some r ↦ str_eq r reason ] in
      record {
        reason = reason;
        tone = meta.tone;
        text = int_text js n <> " " <> meta.label;
        title = if on then "clear filter" else "filter to " <> meta.label;
        dimmed = truthy? active && not on;
      }

  unfoldable pub summary_bar : ℕ × Dict ℕ → ℕ → Option String → SummaryView
  unfolding pill sort_by
  summary_bar (done, by_reason) total active = record {
    total = int_text js total <> " needs ·";
    satisfied = int_text js done <> " satisfied";
    pills = map (pill active) (sort_by (λ (a : String × ℕ) b. ltb b.1 a.1) by_reason);
    all_satisfied = length by_reason == 0 && ltb 0 done;
  }

  pub record SupplyView : Type 0 where
    pub bar : Tone × Number
    pub chips : List RequirementView
    -- the resources, where there are no chips
    pub shape : Option String
    pub more : Option String
    pub short : Option String

  unfoldable pub supply_cell : NeedView → SupplyView
  unfolding show
  supply_cell n =
      let reqs = or_else n.requirements [] in
      record {
        bar = coverage_bar js n;
        chips = map requirement_chip (take 2 reqs);
        shape =
            if ltb 0 (length reqs) then none else some (format_resources js n.aggregate_resources);
        more = if ltb 2 (length reqs) then some ("+" <> show (length reqs - 2)) else none;
        short =
            if not n.satisfied && is_some n.residual_deficit
            then some ("short " <> format_resources js n.residual_deficit)
            else none;
      }

  -- The age of a need: its text and its title. `now` is `Date.now() / 1000`.
  unfoldable pub age_cell : Number → NeedView → String × String
  age_cell now n =
      let since = or_else n.arrival_unix_nanos 0 in
      if not n.satisfied
      then (
        if ltb 0 n.age_cycles_unmet then int_text js n.age_cycles_unmet <> "c" else "—",
        "unmet for " <> int_text js n.age_cycles_unmet <> " cycles",
      )
      else if ltb 0 since
      then (
        remove_first " ago" (format_relative js (some (div (of_ℕ since) (of_ℕ 1000000000))) now),
        "held since",
      )
      else ("—", "")

  pub record RowView : Type 0 where
    pub status : Tone × String
    pub cluster : Option String
    pub priority : String
    pub priority_title : String
    pub supply : SupplyView
    pub interruption : String
    pub reclamation : String
    pub age : String × String
    pub in_gang : Bool

  unfoldable pub need_row : Number → Bool → NeedView → RowView
  unfolding supply_cell age_cell
  need_row now show_cluster n =
      let meta = reason_meta js n.satisfied n.unmet_reason in
      let p = some (of_ℤ js n.priority) in
      record {
        status = (meta.tone, meta.label);
        cluster = if show_cluster then some n.cluster_id else none;
        priority = format_priority_compact js p;
        priority_title = format_int js p;
        supply = supply_cell n;
        interruption = penalty_pill js n.interruption_penalty_bucket;
        reclamation = penalty_pill js n.reclamation_penalty_bucket;
        age = age_cell now n;
        in_gang = truthy? n.group;
      }

  pub data ItemView : Type 0 where
    header_view : HeaderView js → ItemView
    cut_view : String → ItemView
    row_view : RowView → ItemView

  unfoldable pub walk_row : Number → Bool → WalkItem → ItemView
  unfolding need_row
  walk_row now show_cluster (header key fp count contested supply) =
      header_view (cohort_header js fp count contested supply)
  walk_row now show_cluster (cutline key below) = cut_view (cut_line js below)
  walk_row now show_cluster (row key n) = row_view (need_row now show_cluster n)

  -- The table: all the items, or, past the threshold, with the estimates from which the virtual list
  -- chooses what it draws.
  pub data TableView : Type 0 where
    whole : List String → List ItemView → TableView
    virtual : List String → List (ℕ × ItemView) → TableView

  unfoldable pub needs_table : Number → Bool → List WalkItem → TableView
  unfolding head_cells is_row estimate_size walk_row
  needs_table now show_cluster items =
      if leb (length (filter is_row items)) virtualize_over
      then whole (head_cells show_cluster) (map (walk_row now show_cluster) items)
      else virtual (head_cells show_cluster)
          (map (λ it. (estimate_size it, walk_row now show_cluster it)) items)
