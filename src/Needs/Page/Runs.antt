-- ===== src/Needs/Page/Runs.antt =====
-- The needs page as a machine: what its state means, and what a run of actions does to it.
use bigfleet_web_dashboard.Prelude.{
  ◌≡◌, refl, ap, ◌∙◌, Option, none, some, List, [], ◌∷◌, String, if◌then◌else◌, truthy, str_eq,
}
use bigfleet_web_dashboard.Prelude.Dict.{Dict}
use bigfleet_web_dashboard.Api.Demand.{NeedView}
use bigfleet_web_dashboard.Ui.SearchParam.{value, set_value, value-set_value}
use bigfleet_web_dashboard.Needs.Page.{
  State, StatusFilter, Action, set_shard, set_cluster, set_status, pick_reason, select, close,
  status_filter, shard, cluster, status, toggle, act,
}

-- What the page remembers, with no URL.
pub record Choice : Type 0 where
  pub shard_id : String
  pub cluster_id : String
  pub shown : StatusFilter
  pub reason : Option String
  pub opened : Option NeedView

-- An action, as the user means it.
unfoldable pub choose : Action → Choice → Choice
choose (set_shard v) c = record c { shard_id = v }
choose (set_cluster v) c = record c { cluster_id = v }
choose (set_status v) c = record c { shown = status_filter v }
choose (pick_reason r) c = record c { reason = toggle r c.reason }
choose (select n) c = record c { opened = some n }
choose close c = record c { opened = none }

-- What the page reads from its state.
abbrev pub choice_of : State → Choice
choice_of s = record {
  shard_id = shard s;
  cluster_id = cluster s;
  shown = status s;
  reason = s.reason_filter;
  opened = s.selected;
}

unfoldable pub run : List Action → State → State
run [] s = s
run (a ∷ as') s = run as' (act a s)

unfoldable pub replay : List Action → Choice → Choice
replay [] c = c
replay (a ∷ as') c = replay as' (choose a c)

pub if_truthy : (v : String) → (if truthy v then v else "") ≡ v
if_truthy String.[] = refl
if_truthy (String.◌∷◌ c s) = refl

status_of_empty : (v : String) → status_filter (if truthy v then v else "all") ≡ status_filter v
unfolding status_filter str_eq
status_of_empty String.[] = refl
status_of_empty (String.◌∷◌ c s) = refl

-- A write to one parameter, read back there and elsewhere.
read_back : (key v : String) (m : Dict String) → value key "" (set_value key "" v m) ≡ v
read_back key v m = (value-set_value key "" v m).0 ∙ if_truthy v

pub choice_of-act : (a : Action) (s : State) → choice_of (act a s) ≡ choose a (choice_of s)
unfolding act choose str_eq
choice_of-act (set_shard v) s =
    let other = (value-set_value "shard" "" v s.params).1 in
    cc (
      read_back "shard" v s.params,
      other "cluster" "" refl,
      ap status_filter (other "status" "all" refl),
    )
choice_of-act (set_cluster v) s =
    let other = (value-set_value "cluster" "" v s.params).1 in
    cc (
      read_back "cluster" v s.params,
      other "shard" "" refl,
      ap status_filter (other "status" "all" refl),
    )
choice_of-act (set_status v) s =
    let (own, other) = value-set_value "status" "all" v s.params in
    cc (other "shard" "" refl, other "cluster" "" refl, ap status_filter own ∙ status_of_empty v)
choice_of-act (pick_reason r) s = refl
choice_of-act (select n) s = refl
choice_of-act close s = refl

-- The page, whose state lives partly in the URL, behaves over every run of actions as the plain
-- record of the user's choices does.
pub run_refines :
    (actions : List Action) (s : State) → choice_of (run actions s) ≡ replay actions (choice_of s)
unfolding run replay
run_refines [] s = refl
run_refines (a ∷ as') s = run_refines as' (act a s) ∙ ap (replay as') (choice_of-act a s)
