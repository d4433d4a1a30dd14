-- ===== src/Examples/Page.antt =====
-- The theorems on the needs page, the lists and the requests, on concrete data.
use bigfleet_web_dashboard.Prelude.{
  ℕ, ◌+◌, ◌≤◌, ◌<◌, ◌≡◌, refl, Bool, true, false, Option, none, some, List, [], ◌∷◌, map, String,
  arith, if◌then◌else◌, or_else, truthy, truthy?, is_some, length, All, Ordered, str_eq, ◌<>◌,
}
use bigfleet_web_dashboard.Prelude.Dict.{get}
use bigfleet_web_dashboard.Prelude.Sort.{sort_by, IsStrictWeak}
use bigfleet_web_dashboard.Api.Demand.{NeedView, NeedsResponse}
use bigfleet_web_dashboard.Api.Reports.{AvailableCapacityCluster}
use bigfleet_web_dashboard.Api.Request.{
  Response, answer, failure, get_json, normalize_base, api_base,
}
use bigfleet_web_dashboard.Api.Request.Answer.{get_json_lem}
use bigfleet_web_dashboard.Api.Request.Base.{api_base-normalize_base}
use bigfleet_web_dashboard.Engine.Text.{drop_slashes, drop_while}
use bigfleet_web_dashboard.Ui.Query.{Query, one_if}
use bigfleet_web_dashboard.Needs.Walk.{build_walk}
use bigfleet_web_dashboard.Needs.Walk.Keys.{Differ}
use bigfleet_web_dashboard.Needs.Walk.Keys.Items.{build_walk-Differ}
use bigfleet_web_dashboard.Needs.Page.{
  State, Action, set_cluster, set_status, pick_reason, act, shard, cluster, status, settle_shard,
  settle_cluster, clusters, Tally, tally,
}
use bigfleet_web_dashboard.Needs.Page.Runs.{choice_of, run, replay, run_refines}
use bigfleet_web_dashboard.Needs.Page.Url.{here, next, user, IsTidy, is_own, Reach-IsTidy}
use bigfleet_web_dashboard.Needs.Page.Effects.{settle_cluster_lem}
use bigfleet_web_dashboard.Needs.Page.Effects.Order.{
  Effect, on_shard, on_cluster, run_effects, run_effects_settle,
}
use bigfleet_web_dashboard.Needs.Table.{
  virtualize_over, estimate_size, head_cells, walk_row, whole, virtual, needs_table,
}
use bigfleet_web_dashboard.Needs.Table.Items.{needs_table_lem}
use bigfleet_web_dashboard.Needs.View.{body_view}
use bigfleet_web_dashboard.Needs.View.Body.{parts_shown, body_view_lem}
use bigfleet_web_dashboard.Pages.Clusters.{list_page, TableView}
use bigfleet_web_dashboard.Pages.Clusters.Lists.{messages, list_page_lem}
use bigfleet_web_dashboard.Pages.AvailableCapacity.{capacity_page}
use bigfleet_web_dashboard.Pages.AvailableCapacity.Cards.{is_failed, capacity_page_lem}
use bigfleet_web_dashboard.Examples.Samples.{toy, needs, fresh_page}

abbrev actions : List Action
actions = set_cluster "east" ∷ set_status "unmet" ∷ pick_reason "NO_SUPPLY" ∷ []

run_refines_example : choice_of (run actions fresh_page) ≡ replay actions (choice_of fresh_page)
run_refines_example = run_refines actions fresh_page

abbrev never_before : String → String → Bool
never_before a b = false

abbrev empty_page : State
empty_page = record { params = ("theme", "dark") ∷ []; reason_filter = none; selected = none }

empty_page-IsTidy : IsTidy empty_page.params
unfolding str_eq
empty_page-IsTidy = record {
  shard_said = λ e. ground arith;
  cluster_said = λ e. ground arith;
  status_said = λ e. ground arith;
  status_not_default = λ e. ground arith;
}

Reach-IsTidy_example :
    IsTidy (act (set_status "all") empty_page).params
    × ((j : String)
        → is_own j ≡ false
        → get j (act (set_status "all") empty_page).params ≡ get j empty_page.params)
Reach-IsTidy_example =
    Reach-IsTidy never_before (next here (user (set_status "all") empty_page)) empty_page-IsTidy

never_before-IsStrictWeak : IsStrictWeak never_before
never_before-IsStrictWeak = record { asym = λ a b h. refl; cotrans = λ a b c h k. ground arith }

abbrev west : Tally
west = record { total = 1; unmet = 1 }

abbrev east : Tally
east = record { total = 2; unmet = 1 }

clusters_run : clusters never_before needs ≡ ("west", west) ∷ ("east", east) ∷ []
unfolding clusters tally sort_by str_eq
clusters_run = refl

settle_cluster_lem_example :
    (cluster (settle_cluster never_before needs fresh_page)
      ≡ (if truthy (cluster fresh_page) then cluster fresh_page else "west"))
    × All (λ (e : String × Tally). e.1.unmet ≤ west.unmet) (("east", east) ∷ [])
    × (shard (settle_cluster never_before needs fresh_page) ≡ shard fresh_page)
    × (status (settle_cluster never_before needs fresh_page) ≡ status fresh_page)
    × (settle_cluster never_before needs (settle_cluster never_before needs fresh_page)
        ≡ settle_cluster never_before needs fresh_page)
settle_cluster_lem_example =
    settle_cluster_lem never_before never_before-IsStrictWeak needs fresh_page "west" west
      (("east", east) ∷ []) clusters_run refl

abbrev response : NeedsResponse
response = record {
  shard_id = "s1";
  cycle = 4;
  computed_at_unix_nanos = 9;
  total_needs = 3;
  needs = needs;
  queried_at = "";
}

abbrev answered : Query NeedsResponse
answered = record { result = some response; error = none; is_loading = false }

abbrev plain_encode : String → String
plain_encode s = s

abbrev never_same : NeedView → NeedView → Bool
never_same a b = false

abbrev shown : ℕ
shown =
    parts_shown toy plain_encode never_same
      (body_view toy plain_encode never_same 7 true fresh_page answered)

body_view_lem_example :
    (shown ≤ 1)
    × (is_some answered.error ≡ true → shown ≡ 1)
    × (answered.is_loading ≡ true → shown ≡ 1)
    × (is_some answered.result ≡ true → shown ≡ 1)
body_view_lem_example =
    body_view_lem toy plain_encode never_same 7 true fresh_page answered (λ e. ground arith)

needs_table_lem_example :
    (length needs ≤ virtualize_over
      → needs_table toy 7 false (build_walk needs false)
        ≡ whole (head_cells false) (map (walk_row toy 7 false) (build_walk needs false)))
    × (virtualize_over < length needs
        → needs_table toy 7 false (build_walk needs false)
          ≡ virtual
              (head_cells false)
              (map (λ it. (estimate_size it, walk_row toy 7 false it)) (build_walk needs false)))
needs_table_lem_example = needs_table_lem toy 7 false needs

abbrev refused : Option (Response ℕ)
refused =
    some
      (record { ok = false; status = 502; status_text = "Bad Gateway"; body = none; error = none })

get_json_lem_example :
    ((a : ℕ)
      → get_json refused ≡ answer a
      → (res : Response ℕ) × (refused ≡ some res) × (res.ok ≡ true) × (res.body ≡ some a))
    × ((m : String)
        → get_json refused ≡ failure m
        → (res : Response ℕ) × (refused ≡ some res)
          × (res.ok ≡ false)
          × (truthy m ≡ true)
          × (truthy? res.error ≡ true → res.error ≡ some m))
get_json_lem_example = get_json_lem refused

base_run : str_eq (normalize_base (some "/fleet/")) "//" ≡ false
unfolding normalize_base str_eq drop_slashes drop_while
base_run = refl

api_base-normalize_base_example :
    api_base (normalize_base (some "/fleet/")) <> "/" ≡ normalize_base (some "/fleet/")
api_base-normalize_base_example = api_base-normalize_base (some "/fleet/") base_run

abbrev summaries : Query (List ℕ)
summaries = record { result = some (3 ∷ 5 ∷ []); error = none; is_loading = false }

list_page_lem_example :
    (one_if (is_some (list_page (λ (n : ℕ). n) true summaries).error)
        + one_if (is_some (list_page (λ (n : ℕ). n) true summaries).table)
      ≡ 1)
    × ((t : TableView ℕ)
        → (list_page (λ (n : ℕ). n) true summaries).table ≡ some t
        → (summaries.error ≡ none)
          × (length t.rows ≡ length (or_else summaries.result []))
          × (messages t ≤ 1)
          × (summaries.is_loading ≡ true → messages t ≡ 1)
          × (is_some summaries.result ≡ true → messages t ≡ 1))
list_page_lem_example = list_page_lem (λ (n : ℕ). n) true summaries (λ e. ground arith)

abbrev capacity : Query (List AvailableCapacityCluster)
capacity = record {
  result = some (record { id = "east"; items = []; error = some "forbidden" } ∷ []);
  error = none;
  is_loading = false;
}

capacity_page_lem_example :
    ((capacity_page toy true capacity).no_hints ≡ true
      → ((capacity_page toy true capacity).error ≡ none)
        × ((capacity_page toy true capacity).no_clusters ≡ false)
        × All (λ k. is_failed toy k ≡ true) (capacity_page toy true capacity).cards)
    × ((capacity_page toy true capacity).no_clusters ≡ true
        → ((capacity_page toy true capacity).error ≡ none)
          × ((capacity_page toy true capacity).cards ≡ []))
    × (is_some (capacity_page toy true capacity).error ≡ true
        → (capacity_page toy true capacity).cards ≡ [])
capacity_page_lem_example = capacity_page_lem toy true capacity

build_walk-Differ_example : Ordered Differ (build_walk needs false)
build_walk-Differ_example = build_walk-Differ needs false

-- The effects, the cluster's before and after the shard's.
abbrev both_effects : List Effect
both_effects = on_cluster ∷ on_shard ∷ on_cluster ∷ []

abbrev settled_page : State
settled_page = run_effects never_before ("s1" ∷ []) needs both_effects empty_page

run_effects_settle_example :
    (shard settled_page ≡ (if truthy (shard empty_page) then shard empty_page else "s1"))
    × (cluster settled_page ≡ (if truthy (cluster empty_page) then cluster empty_page else "west"))
    × (status settled_page ≡ status empty_page)
    × (settle_shard ("s1" ∷ []) settled_page ≡ settled_page)
    × (settle_cluster never_before needs settled_page ≡ settled_page)
run_effects_settle_example =
    run_effects_settle never_before ("s1" ∷ []) needs never_before-IsStrictWeak "s1" [] refl refl tt
      "west" west (("east", east) ∷ []) clusters_run refl both_effects empty_page refl refl
