-- ===== src/Ui/Widgets.antt =====
-- ui/src/components and ui/src/lib/colours.ts: freshness, stacked bars, the chart's alignment, links.
use bigfleet_web_dashboard.Prelude.{
  ℕ, zero, suc, ◌%◌, not, ◌||◌, Option, none, some, List, [], ◌∷◌, map, String, if◌then◌else◌, ltb,
  ◌==◌, ◌<>◌, truthy, or_else, filter, length,
}
use bigfleet_web_dashboard.Prelude.Dict.{Dict, get}
use bigfleet_web_dashboard.Prelude.Show.{show}
use bigfleet_web_dashboard.Engine.{Engine}
use bigfleet_web_dashboard.Engine.Text.{drop_slashes}
use bigfleet_web_dashboard.Format.Basic.{format_relative}

abbrev pub state_colours : Dict String
state_colours =
    ("Speculative", "#94a3b8")
    ∷ ("Creating", "#93c5fd")
    ∷ ("Idle", "#3b82f6")
    ∷ ("Configuring", "#fbbf24")
    ∷ ("Configured", "#10b981")
    ∷ ("Draining", "#f59e0b")
    ∷ ("Deleting", "#b45309")
    ∷ ("Failed", "#ef4444")
    ∷ []

abbrev pub capacity_type_colours : Dict String
capacity_type_colours =
    ("BareMetal", "#475569")
    ∷ ("Reserved", "#6366f1")
    ∷ ("OnDemand", "#3b82f6")
    ∷ ("Spot", "#f59e0b")
    ∷ []

abbrev pub fallback : List String
fallback = "#0891b2" ∷ "#7c3aed" ∷ "#db2777" ∷ "#65a30d" ∷ "#ea580c" ∷ "#0ea5e9" ∷ []

abbrev pub cr_phase_colours : Dict String
cr_phase_colours = ("Pending", "#f59e0b") ∷ ("Acknowledged", "#10b981") ∷ []

abbrev pub upcoming_node_phase_colours : Dict String
upcoming_node_phase_colours =
    ("Provisioning", "#93c5fd")
    ∷ ("Launched", "#3b82f6")
    ∷ ("Registered", "#6366f1")
    ∷ ("Ready", "#10b981")
    ∷ ("Draining", "#f59e0b")
    ∷ ("Drained", "#94a3b8")
    ∷ ("Failed", "#ef4444")
    ∷ []

-- `xs[i]`
abbrev pub get_elem? : {A : Type 0} → List A → ℕ → Option A
get_elem? [] i = none
get_elem? (x ∷ xs) zero = some x
get_elem? (x ∷ xs) (suc i) = get_elem? xs i

unfoldable pub colour_for : Dict String → String → ℕ → String
colour_for palette key idx =
    or_else (get key palette) (or_else (get_elem? fallback (idx % length fallback)) "#888")

-- A segment of a stacked bar, over the type of its value.
pub record Segment (Number : Type 0) : Type 0 where
  pub label : String
  pub value : Number
  pub colour : String

-- `Object.entries(m ?? {}).map(([k, v], i) => ({ label: k, value: v, colour: colourFor(palette, k, i) }))`
unfoldable pub segments_from :
    {Number : Type 0} → Dict String → ℕ → Dict Number → List (Segment Number)
unfolding colour_for
segments_from palette i [] = []
segments_from palette i ((k, v) ∷ m) =
    record { label = k; value = v; colour = colour_for palette k i }
    ∷ segments_from palette (suc i) m

module _ (js : Engine) where
  open js use {Number, of_ℕ, add, sub, mul, div, lt, eq, is_nan}

  -- One slice: its width in percent, its colour, and its tooltip.
  pub record Slice : Type 0 where
    pub width : Number
    pub colour : String
    pub title : String

  unfoldable pub total_of : List (Segment Number) → Number → Number
  total_of [] s = s
  total_of (x ∷ xs) s = total_of xs (add s x.value)

  -- `none` is "No data.".
  unfoldable pub stacked_bar : (Number → String) → List (Segment Number) → Option (List Slice)
  unfolding total_of
  stacked_bar format segments =
      let sum = total_of segments (of_ℕ 0) in
      let visible = filter (λ (s : Segment Number). lt (of_ℕ 0) s.value) segments in
      if length visible == 0 || eq sum (of_ℕ 0)
      then none
      else some (
          map
            (λ (s : Segment Number). record {
              width = mul (div s.value sum) (of_ℕ 100);
              colour = s.colour;
              title = s.label <> ": " <> format s.value;
            })
            visible)

  pub data FreshnessView : Type 0 where
    empty : String → FreshnessView
    fresh stale : (cycle : Option String) (updated : String) → FreshnessView

  -- `now` is `Date.now() / 1000`.
  unfoldable pub freshness : Number → ℕ → Option ℕ → ℕ → String → FreshnessView
  freshness now nanos cycle stale_after empty_label =
      let sec = div (of_ℕ nanos) (of_ℕ 1000000000) in
      let cycle_text : Option String = elim cycle [
        | none ↦ none
        | some c ↦ some ("cycle " <> show c <> " · ")
      ] in
      let updated = "updated " <> format_relative js (some sec) now in
      if nanos == 0
      then empty empty_label
      else if lt (of_ℕ stale_after) (sub now sec)
      then stale cycle_text updated
      else fresh cycle_text updated

  pub record TrendSeries : Type 0 where
    pub label : String
    pub values : List Number
    pub color : String

  -- The series that have values, behind the timestamps; `none` where there is nothing to draw.
  unfoldable pub aligned :
      List Number → List TrendSeries → Option (List (List Number) × List String)
  aligned timestamps series =
      let non_empty = filter (λ (s : TrendSeries). ltb 0 (length s.values)) series in
      if length timestamps == 0 || length non_empty == 0
      then none
      else some (timestamps ∷ map (λ s. s.values) non_empty, map (λ s. s.label) non_empty)

-- ui/src/components/GrafanaPanel.tsx: `base`
unfoldable pub grafana_base : String → String
unfolding drop_slashes
grafana_base url = drop_slashes url

module _ (encode : String → String) where
  -- The panel's address; an unset address of Grafana shows nothing. `encode` is
  -- `encodeURIComponent`, `theme` the preferred colour scheme.
  unfoldable pub grafana_panel :
      Option String → String → String → ℕ → String → String → String → Option String
  unfolding grafana_base
  grafana_panel none uid slug panel from to theme = none
  grafana_panel (some url) uid slug panel from to theme =
      if not (truthy url)
      then none
      else some (
          grafana_base url
          <> "/d-solo/"
          <> encode uid
          <> "/"
          <> encode slug
          <> "?orgId=1&panelId="
          <> show panel
          <> "&from="
          <> encode from
          <> "&to="
          <> encode to
          <> "&theme="
          <> theme)

  unfoldable pub grafana_link : Option String → String → String → Option String
  unfolding grafana_base
  grafana_link none uid slug = none
  grafana_link (some url) uid slug =
      if not (truthy url)
      then none
      else some (grafana_base url <> "/d/" <> encode uid <> "/" <> encode slug)
