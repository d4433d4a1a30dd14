-- ===== src/Ui/Chart.antt =====
-- ui/src/components/TimeSeriesChart.tsx: the width that the observer reports, and what the chart
-- gives to the plot. `ResizeObserver` is the browser's: the entries that it hands over are arguments.
use bigfleet_web_dashboard.Prelude.{
  none, some, List, map, String, if◌then◌else◌, ltb, length, filter, head?,
}
use bigfleet_web_dashboard.Engine.{Engine, max}
use bigfleet_web_dashboard.Ui.Widgets.{TrendSeries, aligned}

module _ (js : Engine) where
  open js use {Number, of_ℕ, sub, lt}

  -- The callback of the observer: the widths of the entries, and the width before.
  unfoldable pub observe : List Number → Number → Number
  observe entries width = elim (head? entries) [ none ↦ width | some w ↦ max js (of_ℕ 200) w ]

  -- What `Sparkline` is given: the data, the label and the stroke of each line, and the size.
  pub record ChartProps : Type 0 where
    pub columns : List (List Number)
    pub lines : List (String × String)
    pub width : Number
    pub height : Number

  pub data ChartView : Type 0 where
    chart : ChartProps → ChartView
    hint : String → ChartView

  unfoldable pub time_series_chart :
      List Number → List (TrendSeries js) → Number → Number → String → ChartView
  unfolding aligned
  time_series_chart timestamps series width height empty =
      let shown = filter (λ (s : TrendSeries js). ltb 0 (length s.values)) series in
      elim (aligned js timestamps series) [
        | none ↦ hint empty
        | some (columns, labels) ↦
            if lt (of_ℕ 0) width
            then chart (record {
              columns = columns;
              lines = map (λ (s : TrendSeries js). (s.label, s.color)) shown;
              width = width;
              height = sub height (of_ℕ 8);
            })
            else hint empty
      ]
