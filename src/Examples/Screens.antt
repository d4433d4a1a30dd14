-- ===== src/Examples/Screens.antt =====
-- The theorems on the listing, the order of the needs, the queries, the drawer, the plot and the
-- notes of FinOps, on concrete data.
use mathlib.Core.List.{Permᴰ, Mem}
use bigfleet_web_dashboard.Prelude.{
  ℕ, ◌+◌, ◌≡◌, ◌↔◌, refl, Bool, true, false, none, some, List, [], ◌∷◌, ◌++◌, map, String, arith,
  if◌then◌else◌, filter, All, Ordered, Perm, str_eq, inl, inr,
}
use bigfleet_web_dashboard.Prelude.Int.{eqb_ℤ, ltb_ℤ}
use bigfleet_web_dashboard.Prelude.Sort.Ties.{NoTie}
use bigfleet_web_dashboard.Api.Demand.{NeedView, NeedsResponse}
use bigfleet_web_dashboard.Api.Fleet.{ClientConfig}
use bigfleet_web_dashboard.Ui.Query.{Query}
use bigfleet_web_dashboard.Ui.Chrome.{Screen}
use bigfleet_web_dashboard.Ui.Drawer.{Props, Window, run_effect, press, here, next, mount}
use bigfleet_web_dashboard.Ui.Drawer.Listening.{own, Reach-press}
use bigfleet_web_dashboard.Ui.Sparkline
use bigfleet_web_dashboard.Ui.Sparkline.Current.{current, Live-plot}
use bigfleet_web_dashboard.Needs.Precedence.{precedes, precedes-IsStrictWeak}
use bigfleet_web_dashboard.Needs.Walk.{build_walk}
use bigfleet_web_dashboard.Needs.Walk.Ties.{build_walk-permᴰ}
use bigfleet_web_dashboard.Needs.Page.{State, Action, rows, show_cluster}
use bigfleet_web_dashboard.Needs.Page.Runs.{run}
use bigfleet_web_dashboard.Needs.Page.Offers.{Allowed}
use bigfleet_web_dashboard.Needs.Page.Stuck.{has_unmet}
use bigfleet_web_dashboard.Needs.Page.Clearing.{can_clear, Lists, list_all}
use bigfleet_web_dashboard.Needs.Table.{need_row, TableView}
use bigfleet_web_dashboard.Needs.View.{ListedView, needs_page}
use bigfleet_web_dashboard.Needs.View.Listing.{is_match, table_rows, needs_page_lem}
use bigfleet_web_dashboard.Pages.Queries.{screen_queries}
use bigfleet_web_dashboard.Pages.Queries.Keys.{screen_queries-keys}
use bigfleet_web_dashboard.Pages.Queries.Requests.{can_answer, screen_queries-enabled}
use bigfleet_web_dashboard.Pages.FinOps.Balance.{GapRow, demand_vs_supply}
use bigfleet_web_dashboard.Pages.FinOps.Balance.Notes.{note_of, is_red, short_note_lem}
use bigfleet_web_dashboard.Examples.Samples.{
  toy, differences, uneven, first, second, alone, needs, fresh_page,
}

abbrev wired_config : Query ClientConfig
wired_config = record {
  result = some (record {
    grafana_url = "";
    prometheus_wired = true;
    coordinator_wired = true;
    kubeconfig_wired = false;
  });
  error = none;
  is_loading = false;
}

abbrev response : NeedsResponse
response = record {
  shard_id = "s1";
  cycle = 4;
  computed_at_unix_nanos = 9;
  total_needs = 3;
  needs = needs;
  queried_at = "";
}

abbrev answered : Query NeedsResponse
answered = record { result = some response; error = none; is_loading = false }

abbrev same_text : String → String
same_text s = s

abbrev never_same : NeedView → NeedView → Bool
never_same a b = false

needs_page_lem_example :
    (v : ListedView toy same_text never_same) × ((needs_page toy same_text never_same 7 wired_config
        ("s1" ∷ [])
        answered
        fresh_page).body.listed
      ≡ some v)
    × ((v.table ≡ none) ↔ (filter (is_match fresh_page) needs ≡ []))
    × ((t : TableView toy)
        → v.table ≡ some t
        → Perm
            (table_rows toy t)
            (map (need_row toy 7 (show_cluster fresh_page)) (filter (is_match fresh_page) needs)))
needs_page_lem_example =
    needs_page_lem toy same_text never_same 7 wired_config ("s1" ∷ []) answered fresh_page response
      refl refl refl (λ e. ground arith)

-- A page with a reason picked that no need of the sample has.
abbrev picked_page : State
picked_page = record {
  params = ("shard", "s1") ∷ [];
  reason_filter = some "QUOTA";
  selected = some second;
}

list_all_example :
    (can_clear picked_page needs ≡ true
      → (n : NeedView) → Mem n needs
      → Lists toy.locale_before ("s1" ∷ []) needs picked_page n 6)
    × (can_clear picked_page needs ≡ false
        → (steps : List (List NeedView × Action)) (later : List NeedView)
        → Allowed toy.locale_before ("s1" ∷ []) picked_page steps
        → All (λ e. has_unmet e.0 ≡ false) steps
        → has_unmet later ≡ false
        → rows (run (map (λ e. e.1) steps) picked_page) later ≡ [])
list_all_example = list_all toy.locale_before ("s1" ∷ []) picked_page needs

needs-NoTie : Ordered (NoTie precedes precedes-IsStrictWeak) needs
unfolding precedes eqb_ℤ ltb_ℤ
needs-NoTie = ((inr refl, (inl refl, tt)), ((inl refl, tt), (tt, tt)))

build_walk-permᴰ_example : build_walk needs false ≡ build_walk (first ∷ second ∷ alone ∷ []) false
build_walk-permᴰ_example = build_walk-permᴰ false (Permᴰ.swap refl refl) needs-NoTie

screen_queries-keys_example :
    All
      (λ q.
        All
          (λ r. (q.query_key ≡ r.query_key) ↔ (q.endpoint ≡ r.endpoint))
          (screen_queries wired_config "s2" Screen.needs))
      (screen_queries wired_config "s1" Screen.topology)
screen_queries-keys_example =
    screen_queries-keys wired_config wired_config "s1" "s2" Screen.topology Screen.needs

screen_queries-enabled_example :
    All
      (λ q. q.enabled ≡ can_answer wired_config q.endpoint)
      (screen_queries wired_config "s1" Screen.needs)
screen_queries-enabled_example = screen_queries-enabled wired_config "s1" Screen.needs

-- An open drawer in a window with the listener of another.
abbrev open_drawer : Props ℕ
open_drawer = record { is_open = true; on_close = 7 }

abbrev window : Window ℕ
window = record { keydown = record { id = 0; on_close = 3 } ∷ []; cleanup = none; fresh = 1 }

Reach-press_example :
    ((key : String)
      → press ℕ key (run_effect ℕ open_drawer window).keydown
        ≡ press ℕ key window.keydown
          ++ (if str_eq key "Escape" then own ℕ (some open_drawer) else []))
    × (some open_drawer ≡ none → (run_effect ℕ open_drawer window).keydown ≡ window.keydown)
Reach-press_example =
    Reach-press ℕ {o = some open_drawer} window (run_effect ℕ open_drawer window)
      (next here (mount open_drawer window)) refl (ground arith, tt)

-- The data are numbers, and so are the series and the formatter.
abbrev narrow : Sparkline.Props ℕ ℕ ℕ
narrow = record { values = 1; series = 5; width = 200; height = 80; y_format = none }

abbrev wide : Sparkline.Props ℕ ℕ ℕ
wide = record { values = 2; series = 6; width = 640; height = 80; y_format = none }

abbrev no_chart : Sparkline.Chart ℕ ℕ ℕ
no_chart = record { plot = none; alive = 0 }

-- The chart after the commit that brought the wide props.
abbrev widened : Sparkline.Chart ℕ ℕ ℕ
widened = Sparkline.update ℕ ℕ ℕ true true wide (Sparkline.mount ℕ ℕ ℕ narrow no_chart)

widened-Live : Sparkline.Live ℕ ℕ ℕ narrow no_chart wide widened
widened-Live =
    Sparkline.committed wide true true Sparkline.mounted (λ h. ground arith) (λ h. ground arith)

Live-plot_example :
    (widened.plot ≡ some (current ℕ ℕ ℕ narrow wide))
    × (widened.alive ≡ 0 + 1)
    × (Sparkline.destroy ℕ ℕ ℕ widened ≡ no_chart)
Live-plot_example = Live-plot ℕ ℕ ℕ no_chart widened widened-Live refl

short_note_lem_example :
    (demand_vs_supply differences uneven).short_note
    ≡ note_of (
        map
          (λ (g : GapRow differences). g.bucket_text)
          (filter (is_red differences) (demand_vs_supply differences uneven).gap_rows))
short_note_lem_example = short_note_lem differences (λ a b. ground arith) uneven
