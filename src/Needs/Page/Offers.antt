-- ===== src/Needs/Page/Offers.antt =====
-- What the needs page offers to the user, of ui/src/pages/Needs.tsx: the options of its three
-- selects, the pills of its summary, the rows that it lists, and the closing of an open report. The
-- coordinator is wired and the needs have arrived without an error.
use bigfleet_web_dashboard.Prelude.{◌≡◌, Bool, true, List, [], ◌∷◌, map, String, is_some}
use mathlib.Core.List.{Mem}
use bigfleet_web_dashboard.Prelude.Dict.{has, keys}
use bigfleet_web_dashboard.Api.Demand.{NeedView}
use bigfleet_web_dashboard.Needs.Page.{
  State, Tally, Action, set_shard, set_cluster, set_status, pick_reason, select, close, act,
  all_clusters, clusters, rows, summary,
}

module _ (locale_before : String → String → Bool) (shard_ids : List String) where
  -- With the given needs as the answer, the action is one that an element of the page takes. To
  -- choose what a select already shows is no change.
  abbrev pub IsOffered : List NeedView → State → Action → Type 0
  IsOffered needs s (set_shard v) = has v shard_ids ≡ true
  IsOffered needs s (set_cluster v) =
      has v (all_clusters ∷ map (λ (e : String × Tally). e.0) (clusters locale_before needs)) ≡ true
  IsOffered needs s (set_status v) = has v ("all" ∷ "unmet" ∷ "satisfied" ∷ []) ≡ true
  IsOffered needs s (pick_reason r) = has r (keys (summary s needs).1) ≡ true
  IsOffered needs s (select n) = Mem n (rows s needs)
  IsOffered needs s close = is_some s.selected ≡ true

  -- Each action is offered in its turn, with the answer that the page then has.
  abbrev pub Allowed : State → List (List NeedView × Action) → Type 0
  Allowed s [] = Unit
  Allowed s ((needs, a) ∷ steps) = IsOffered needs s a × Allowed (act a s) steps
