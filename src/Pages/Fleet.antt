-- ===== src/Pages/Fleet.antt =====
-- ui/src/pages/FleetOverview.tsx and ui/src/pages/ShardDetail.tsx.
use bigfleet_web_dashboard.Prelude.{
  ℕ, ◌%◌, suc, Bool, true, false, Option, none, some, List, [], ◌∷◌, map, String, if◌then◌else◌,
  ◌==◌, ◌<>◌, or_else, truthy, length, take, filter,
}
use bigfleet_web_dashboard.Prelude.Dict.{Dict, get}
use bigfleet_web_dashboard.Prelude.Show.{join}
use bigfleet_web_dashboard.Prelude.Sort.{sort_by}
use bigfleet_web_dashboard.Engine.{Engine, ratio}
use bigfleet_web_dashboard.Format.Basic.{format_duration, format_int, format_rate}
use bigfleet_web_dashboard.Ui.Widgets.{
  get_elem?, Slice, segments_from, stacked_bar, state_colours, capacity_type_colours,
}
use bigfleet_web_dashboard.Api.Fleet.{FleetOverview, FleetActionsSeries, ShardTrends, ShardDetail}
use bigfleet_web_dashboard.Needs.Kit.{Tone, neutral, good, warn, danger}

abbrev pub kind_colours : Dict String
kind_colours =
    ("Bootstrap", "#2563eb")
    ∷ ("Provision", "#16a34a")
    ∷ ("Reclaim", "#f59e0b")
    ∷ ("Preempt", "#dc2626")
    ∷ []

abbrev pub trend_fallback : List String
trend_fallback = "#0891b2" ∷ "#7c3aed" ∷ "#db2777" ∷ "#65a30d" ∷ []

unfoldable pub kind_colour : String → ℕ → String
kind_colour kind i =
    or_else (get kind kind_colours) (or_else (get_elem? trend_fallback (i % 4)) "#888")

-- A series of a chart: its label, its values and its colour.
pub record LineView (Number : Type 0) : Type 0 where
  pub label : String
  pub line : List Number
  pub colour : String

unfoldable pub trend_lines :
    {Number : Type 0} → ℕ → List (String × List Number) → List (LineView Number)
unfolding kind_colour
trend_lines i [] = []
trend_lines i ((kind, vs) ∷ rest) =
    record { label = kind; line = vs; colour = kind_colour kind i } ∷ trend_lines (suc i) rest

-- `data.kinds.map((kind, idx) => ...)`
unfoldable pub legend : ℕ → List String → List (String × String)
unfolding kind_colour
legend i [] = []
legend i (kind ∷ kinds) = (kind, kind_colour kind i) ∷ legend (suc i) kinds

-- The body of the card of action rates, once the container has a width.
pub data ActionsView (Number : Type 0) : Type 0 where
  actions_error : String → ActionsView Number
  actions_loading actions_none : ActionsView Number
  actions_chart : List (List Number) → List (String × String) → ActionsView Number

unfoldable pub actions_card :
    {Number : Type 0}
    → Option (FleetActionsSeries Number)
    → Option String
    → Bool
    → ActionsView Number
unfolding legend
actions_card series (some e) loading = actions_error e
actions_card series none true = actions_loading
actions_card none none false = actions_none
actions_card (some d) none false =
    if length d.timestamps == 0
    then actions_none
    else actions_chart (d.timestamps ∷ d.values) (legend 0 d.kinds)

module _ (js : Engine) where
  open js use {Number, of_ℕ, add, mul, div, lt, to_fixed, locale_before}

  pub record StatTile : Type 0 where
    pub label : String
    pub value : String
    pub subtitle : Option String
    pub tone : Tone

  abbrev pub by_value : Dict Number → Dict Number
  by_value m = sort_by (λ (a : String × Number) b. lt b.1 a.1) m

  -- The tone of a cycle's p99.
  unfoldable pub cycle_tone : Number → Tone
  cycle_tone p99 = if lt (of_ℕ 5) p99 then danger else if lt (of_ℕ 1) p99 then warn else good

  unfoldable pub state_summary : Dict Number → String
  unfolding join sort_by
  state_summary m = join " · " (
      map (λ (e : String × Number). e.0 <> " " <> format_int js (some e.1))
        (take 4 (by_value (filter (λ (e : String × Number). lt (of_ℕ 0) e.1) m))))

  -- `Tiles`: an error, or the five tiles.
  unfoldable pub overview_tiles :
      Option (FleetOverview Number) → Option String → Bool → Option (List StatTile)
  unfolding state_summary cycle_tone
  overview_tiles ov (some e) loading = none
  overview_tiles ov none loading =
      let field : (FleetOverview Number → Number) → Option Number =
        λ f. elim ov [ none ↦ none | some o ↦ some (f o) ] in
      let summary = state_summary (elim ov [ none ↦ [] | some o ↦ o.machines_by_state ]) in
      let int = λ (n : Option Number). if loading then "…" else format_int js n in
      some (
        record {
          label = "Shards";
          value = int (field (λ o. o.shards));
          subtitle = none;
          tone = neutral;
        }
        ∷ record {
          label = "Clusters";
          value = int (field (λ o. o.clusters));
          subtitle = none;
          tone = neutral;
        }
        ∷ record {
          label = "Machines";
          value = int (field (λ o. o.machines));
          subtitle = if truthy summary then some summary else none;
          tone = neutral;
        }
        ∷ record {
          label = "Shortfalls";
          value = int (field (λ o. o.shortfalls));
          subtitle = none;
          tone =
              if loading
              then neutral
              else if lt (of_ℕ 0) (or_else (field (λ o. o.shortfalls)) (of_ℕ 0))
              then danger
              else good;
        }
        ∷ record {
          label = "Cycle p99 (worst shard)";
          value = if loading then "…" else format_duration js (field (λ o. o.cycle_p99_seconds));
          subtitle = none;
          tone =
              if loading
              then neutral
              else elim (field (λ o. o.cycle_p99_seconds)) [ none ↦ good | some p ↦ cycle_tone p ];
        }
        ∷ [])

  -- `TrendsCard`, once there is no error: the line of the cycle and the lines of the actions.
  unfoldable pub trends_card :
      Option (ShardTrends Number) → LineView Number × List (LineView Number)
  unfolding trend_lines sort_by
  trends_card d =
      let rates : List (String × List Number) = elim d [ none ↦ [] | some t ↦ t.action_rates ] in
      (
        record {
          label = "cycle p99 (s)";
          line = elim d [ none ↦ [] | some t ↦ t.cycle_p99_seconds ];
          colour = "#7c3aed";
        },
        trend_lines 0 (sort_by (λ (a : String × List Number) b. locale_before a.0 b.0) rates),
      )

  pub record DetailView : Type 0 where
    pub tiles : List StatTile
    pub by_state : Option (List (Slice js))
    pub by_capacity_type : Option (List (Slice js))
    pub phase_rows : List (String × String)
    pub action_rows : List (String × String)

  -- The share of optimistic commits that conflicted.
  unfoldable pub conflict_ratio : ShardDetail Number → Number
  conflict_ratio d =
      let attempts = add d.occ_committed_per_sec d.occ_conflict_per_sec in
      if lt (of_ℕ 0) attempts then div d.occ_conflict_per_sec attempts else of_ℕ 0

  unfoldable pub shard_detail : ShardDetail Number → DetailView
  unfolding cycle_tone conflict_ratio segments_from stacked_bar sort_by
  shard_detail d =
      let conflicts = conflict_ratio d in
      let int = λ (n : Number). format_int js (some n) in
      record {
        tiles =
            record {
              label = "Cycle p99";
              value = format_duration js (some d.cycle_p99_seconds);
              subtitle = none;
              tone = cycle_tone d.cycle_p99_seconds;
            }
            ∷ record { label = "Machines"; value = int d.machines; subtitle = none; tone = neutral }
            ∷ record {
              label = "Sessions";
              value = int d.active_sessions;
              subtitle = none;
              tone = neutral;
            }
            ∷ record {
              label = "Shortfalls";
              value = int d.shortfalls;
              subtitle = none;
              tone = if lt (of_ℕ 0) d.shortfalls then danger else good;
            }
            ∷ record {
              label = "OCC conflict rate";
              value = to_fixed (mul conflicts (of_ℕ 100)) 1 <> "%";
              subtitle = some (
                  format_rate js (some d.occ_committed_per_sec)
                  <> " committed · "
                  <> format_rate js (some d.occ_conflict_per_sec)
                  <> " conflict");
              tone =
                  if lt (ratio js 3 10) conflicts
                  then danger
                  else if lt (ratio js 15 100) conflicts
                  then warn
                  else good;
            }
            ∷ [];
        by_state = stacked_bar js int (segments_from state_colours 0 d.machines_by_state);
        by_capacity_type =
            stacked_bar js int (segments_from capacity_type_colours 0 d.machines_by_capacity_type);
        phase_rows =
            map (λ (e : String × Number). (e.0, format_duration js (some e.1)))
              (by_value d.cycle_p99_by_phase_seconds);
        action_rows =
            map (λ (e : String × Number). (e.0, format_rate js (some e.1)))
              (by_value d.actions_by_kind_rate_per_sec);
      }
