-- ===== src/Examples.antt =====
-- The theorems on concrete needs, reports and parameters, and runs of the walk and the formatters.
pub mod Samples
pub mod Page
pub mod Screens
pub mod Engines
pub mod Wire
use bigfleet_web_dashboard.Prelude.{
  ℕ, ◌+◌, ◌<◌, ◌≤◌, ◌≡◌, refl, ◌↔◌, ◌⊎◌, Bool, true, false, not, ◌&&◌, Option, none, some, List, [],
  ◌∷◌, ◌++◌, map, Perm, String, arith, if◌then◌else◌, ltb, ◌==◌, or_else, truthy, is_some, length,
  filter, count, take, drop, All, Ordered, str_eq,
}
use Prim.Native.Nat.{min}
use bigfleet_web_dashboard.Prelude.Int.{ℤ, pos, negsuc, pos_part, neg_part, ltb_ℤ, eqb_ℤ}
use bigfleet_web_dashboard.Prelude.Show.{show}
use bigfleet_web_dashboard.Prelude.Dict.{Dict, get, values}
use bigfleet_web_dashboard.Prelude.Buckets.{members}
use bigfleet_web_dashboard.Prelude.Sort.{sort_by, NotAfter}
use bigfleet_web_dashboard.Api.Demand.{NeedView}
use bigfleet_web_dashboard.Api.Fleet.{ClientConfig}
use bigfleet_web_dashboard.Api.Reports.{ShardReportShortfall}
use bigfleet_web_dashboard.Ui.SearchParam.{value, set_value, value-set_value, get-set_value}
use bigfleet_web_dashboard.Ui.Query.{Query, gate, gate_lem, one_if}
use bigfleet_web_dashboard.Needs.Precedence.{precedes, precedes_iff, arrival}
use bigfleet_web_dashboard.Needs.Competition.{competitors_for, competitors_for_lem, is_ahead}
use bigfleet_web_dashboard.Needs.Walk.{
  Group, header, cutline, row, build_walk, flat_rows, all_cohort_items, cohort_items, cohort_rows,
  contested, pool, cohorts, grouping, group_all, place, find_cut, flat_tail, push_singles, leads,
}
use bigfleet_web_dashboard.Needs.Walk.Alone.{IsAlone}
use bigfleet_web_dashboard.Needs.Walk.Rows.{needs_of, build_walk-perm}
use bigfleet_web_dashboard.Needs.Walk.Shape.{IsCohort, build_walk_grouped, build_walk_shown}
use bigfleet_web_dashboard.Needs.Walk.Cut.{NoCut, Split, cohort_items_cases}
use bigfleet_web_dashboard.Needs.Kit.{coverage}
use bigfleet_web_dashboard.Needs.Kit.Coverage.{coverage_lem, shares, IsOneOf}
use bigfleet_web_dashboard.Needs.Kit.Verdict.{supply_funnel, FunnelStage}
use bigfleet_web_dashboard.Needs.Kit.Verdict.Widths.{supply_funnel_widths}
use bigfleet_web_dashboard.Needs.Page.{
  State, all, status_filter, status, act, pick_reason, rows, summary, scoped, tally, clusters,
}
use bigfleet_web_dashboard.Needs.Page.Tallies.{
  summary_lem, clusters_lem, of_cluster, unmet_of_cluster, unmet_for, sum,
}
use bigfleet_web_dashboard.Needs.Page.Filters.{
  rows_lem, pick_reason-count, pick_reason_empty, in_scope, has_status, has_reason,
}
use bigfleet_web_dashboard.Pages.ShardReports.{
  SortField, priority, age, sort_shortfalls, BreakdownView, breakdown,
}
use bigfleet_web_dashboard.Pages.ShardReports.Order.{sort_shortfalls_lem, breakdown_lem}
use bigfleet_web_dashboard.Pages.Topology.{domains}
use bigfleet_web_dashboard.Pages.Topology.Domains.{domains-perm}
use bigfleet_web_dashboard.Pages.FinOps.Mix.{matrix_max, cell_value}
use bigfleet_web_dashboard.Pages.FinOps.Mix.Bounds.{matrix_max_lem}
use bigfleet_web_dashboard.Examples.Engines.{
  wholes, wholes_ordered, wholes_whole, wholes_share, wholes_scale,
}
use bigfleet_web_dashboard.Examples.Samples.{
  snapshot, toy, toy_laws, need, first, second, alone, needs, fresh_page, shortfalls, assignments,
}

-- The walk of the samples: a cohort cut once, and the need that is alone.
walk_run :
    build_walk needs false
    ≡ header "h:x" "x" 2 (contested (first ∷ second ∷ [])) (pool (first ∷ second ∷ []))
      ∷ row "r:x:0" first
      ∷ cutline "c:x" 1
      ∷ row "r:x:1" second
      ∷ flat_rows 0 (alone ∷ [])
unfolding build_walk flat_rows cohort_items cohort_rows all_cohort_items sort_by cohorts grouping
    group_all precedes eqb_ℤ ltb_ℤ place str_eq show find_cut flat_tail push_singles
walk_run = refl

build_walk-perm_example : Perm (needs_of (build_walk needs false)) needs
build_walk-perm_example = build_walk-perm needs false

build_walk_grouped_example :
    (es : List Group) × (rest : List NeedView) × (build_walk needs false
      ≡ all_cohort_items es ++ flat_rows 0 rest)
    × All (IsCohort needs) es
    × Ordered (NotAfter leads) es
    × Ordered (NotAfter precedes) rest
    × All (IsAlone needs) rest
build_walk_grouped_example = build_walk_grouped needs

abbrev cohort : List NeedView
cohort = first ∷ second ∷ []

cohort_items_cases_example :
    (NoCut cohort
      × (cohort_items ("x", cohort)
          ≡ header "h:x" "x" (length cohort) (contested cohort) (pool cohort)
            ∷ cohort_rows "x" (length cohort) none 0 cohort))
    ⊎ ((s : Split cohort) × (cohort_items ("x", cohort)
          ≡ header "h:x" "x" (length cohort) (contested cohort) (pool cohort)
            ∷ (cohort_rows "x" (length cohort) none 0 (s.above ++ s.x ∷ [])
                ++ cutline "c:x" (length (s.y ∷ s.below))
                  ∷ cohort_rows "x" (length cohort) none (length s.above + 1) (s.y ∷ s.below))))
cohort_items_cases_example = cohort_items_cases "x" cohort

-- No two needs of the sample are one object.
abbrev never : NeedView → NeedView → Bool
never a b = false

competitors_for_lem_example :
    (rest : List NeedView) × Perm
      (competitors_for never second needs ++ rest)
      (filter (is_ahead second) needs)
    × Ordered (NotAfter precedes) (competitors_for never second needs ++ rest)
    × (length (competitors_for never second needs)
        ≡ min 8 (length (filter (is_ahead second) needs)))
competitors_for_lem_example = competitors_for_lem never (λ a b h. ground arith) second needs

coverage_lem_example :
    ((coverage wholes second ≡ 1)
      ⊎ IsOneOf wholes wholes_ordered
          (coverage wholes second)
          (shares wholes wholes_ordered second (("cpu", "8") ∷ ("pods", "4") ∷ [])))
    × (ltb 1 (coverage wholes second) ≡ false)
    × All
        (λ f. ltb f (coverage wholes second) ≡ false)
        (shares wholes wholes_ordered second (("cpu", "8") ∷ ("pods", "4") ∷ []))
coverage_lem_example =
    coverage_lem wholes wholes_ordered wholes_share second refl ((refl, refl), ((refl, refl), tt))

supply_funnel_widths_example :
    All
      (λ (st : FunnelStage wholes).
        (false ≡ false) × (ltb st.width 6 ≡ false) × (ltb 100 st.width ≡ false))
      (supply_funnel wholes second).stages
    × All
        (λ (a : FunnelStage wholes).
          All
            (λ (b : FunnelStage wholes). a.value ≤ b.value → ltb b.width a.width ≡ false)
            (supply_funnel wholes second).stages)
        (supply_funnel wholes second).stages
    × All
        (λ (a : FunnelStage wholes).
          0 < a.value
          → All (λ (b : FunnelStage wholes). b.value ≤ a.value) (supply_funnel wholes second).stages
          → a.width ≡ 100)
        (supply_funnel wholes second).stages
supply_funnel_widths_example =
    supply_funnel_widths wholes wholes_ordered wholes_whole wholes_scale second (omega arith)
      (omega arith)

rows_lem_example :
    rows fresh_page needs
    ≡ filter
        (λ n.
          (in_scope fresh_page n && has_status (status fresh_page) n)
          && has_reason fresh_page.reason_filter n)
        needs
rows_lem_example = rows_lem fresh_page needs

fresh_page-status : status fresh_page ≡ all
unfolding value status_filter str_eq
fresh_page-status = refl

no_supply_named : truthy "NO_SUPPLY" ≡ true
unfolding str_eq
no_supply_named = refl

pick_reason-count_example :
    length (rows (act (pick_reason "NO_SUPPLY") fresh_page) needs)
    ≡ or_else (get "NO_SUPPLY" (summary fresh_page needs).1) 0
pick_reason-count_example =
    pick_reason-count fresh_page needs "NO_SUPPLY" refl fresh_page-status no_supply_named

summary_lem_example :
    ((summary fresh_page needs).0 ≡ count (λ n. n.satisfied) (scoped fresh_page needs))
    × ((summary fresh_page needs).0 + sum (values (summary fresh_page needs).1)
        ≡ length (scoped fresh_page needs))
    × ((r : String)
        → or_else (get r (summary fresh_page needs).1) 0
          ≡ count (unmet_for r) (scoped fresh_page needs))
summary_lem_example = summary_lem fresh_page needs

clusters_lem_example :
    Perm (clusters toy.locale_before needs) (tally needs [])
    × ((k : String)
        → get k (tally needs []) ≡ (
            if count (of_cluster k) needs == 0
            then none
            else some (record {
              total = count (of_cluster k) needs;
              unmet = count (unmet_of_cluster k) needs;
            })))
clusters_lem_example = clusters_lem toy.locale_before needs

precedes_iff_example :
    (precedes first second ≡ true) ↔ ((3 + 0 < 9 + 0) ⊎ ((pos 9 ≡ pos 3) × (5 < 5)))
precedes_iff_example = precedes_iff first second

value-set_value_example :
    (value "status" "all" (set_value "status" "all" "unmet" (("shard", "s1") ∷ []))
      ≡ (if truthy "unmet" then "unmet" else "all"))
    × ((j other : String)
        → str_eq "status" j ≡ false
        → value j other (set_value "status" "all" "unmet" (("shard", "s1") ∷ []))
          ≡ value j other (("shard", "s1") ∷ []))
value-set_value_example = value-set_value "status" "all" "unmet" (("shard", "s1") ∷ [])

abbrev config : Query ClientConfig
config = record { result = none; error = none; is_loading = true }

abbrev answered : Query ℕ
answered = record { result = some 4; error = none; is_loading = false }

gate_lem_example :
    (one_if (is_some (gate config true answered).error)
        + one_if (is_some (gate config true answered).body)
        + one_if (gate config true answered).loading
      ≡ 1)
    × ((a : ℕ) → (gate config true answered).body ≡ some a → some 4 ≡ some a)
    × ((gate config true answered).unwired ≡ false)
gate_lem_example = gate_lem config true answered

sort_shortfalls_lem_example :
    ((field : SortField) → Perm (sort_shortfalls toy shortfalls field) shortfalls)
    × Ordered (λ a b. b.age_cycles ≤ a.age_cycles) (sort_shortfalls toy shortfalls age)
    × ((n : ℕ)
        → filter (λ r. r.age_cycles == n) (sort_shortfalls toy shortfalls age)
          ≡ filter (λ r. r.age_cycles == n) shortfalls)
    × Ordered (λ a b. ltb_ℤ a.priority b.priority ≡ false) (sort_shortfalls toy shortfalls priority)
sort_shortfalls_lem_example = sort_shortfalls_lem toy shortfalls

domains-perm_example : Perm (members (domains toy assignments)) assignments
domains-perm_example = domains-perm toy assignments

matrix_max_lem_example :
    All
      (λ ct.
        All
          (λ b.
            ltb (matrix_max toy snapshot snapshot.capacity_types 0) (cell_value toy snapshot ct b)
            ≡ false)
          snapshot.buckets)
      snapshot.capacity_types
matrix_max_lem_example = matrix_max_lem toy toy_laws snapshot
