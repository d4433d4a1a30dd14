-- ===== src/Needs/Page.antt =====
-- ui/src/pages/Needs.tsx: the state of the needs page, the needs it derives from that state, and
-- what it shows. The URL's parameters are the state of shard, cluster and status.
pub mod Tallies
pub mod Filters
pub mod Runs
pub mod Effects
pub mod Offers
pub mod Stuck
pub mod Clearing
pub mod Url
use bigfleet_web_dashboard.Prelude.{
  ℕ, ◌+◌, Bool, true, false, not, ◌&&◌, ◌||◌, Option, none, some, List, [], ◌∷◌, map, String,
  if◌then◌else◌, ltb, ◌==◌, or_else, truthy, filter, length, str_eq, head?, is_some,
}
use bigfleet_web_dashboard.Prelude.Dict.{Dict, get, set}
use bigfleet_web_dashboard.Prelude.Sort.{sort_by}
use bigfleet_web_dashboard.Api.Demand.{NeedView}
use bigfleet_web_dashboard.Ui.SearchParam.{value, set_value}

pub data StatusFilter : Type 0 where
  all satisfied unmet : StatusFilter

-- `ALL`
abbrev pub all_clusters : String
all_clusters = "*"

-- A text that names no status reads as `all`.
unfoldable pub status_filter : String → StatusFilter
status_filter raw =
    if str_eq raw "satisfied" then satisfied else if str_eq raw "unmet" then unmet else all

-- The state: URL parameters, `reasonFilter`, `selected`.
pub record State : Type 0 where
  pub params : Dict String
  pub reason_filter : Option String
  pub selected : Option NeedView

abbrev pub shard : State → String
shard s = value "shard" "" s.params

abbrev pub cluster : State → String
cluster s = value "cluster" "" s.params

abbrev pub status : State → StatusFilter
status s = status_filter (value "status" "all" s.params)

-- What the user does.
pub data Action : Type 0 where
  set_shard set_cluster set_status pick_reason : String → Action
  select : NeedView → Action
  close : Action

-- `(cur) => (cur === r ? null : r)`
abbrev pub toggle : String → Option String → Option String
toggle r none = some r
toggle r (some cur) = if str_eq cur r then none else some r

unfoldable pub act : Action → State → State
act (set_shard v) s = record s { params = set_value "shard" "" v s.params }
act (set_cluster v) s = record s { params = set_value "cluster" "" v s.params }
act (set_status v) s = record s { params = set_value "status" "all" v s.params }
act (pick_reason r) s = record s { reason_filter = toggle r s.reason_filter }
act (select n) s = record s { selected = some n }
act close s = record s { selected = none }

-- How many needs a cluster has, and how many of them are unmet.
pub record Tally : Type 0 where
  pub total : ℕ
  pub unmet : ℕ

abbrev pub bump : NeedView → Option Tally → Tally
bump n e =
    let old : Tally = or_else e (record { total = 0; unmet = 0 }) in
    record { total = old.total + 1; unmet = if n.satisfied then old.unmet else old.unmet + 1 }

-- The loop over the needs that fills the map.
unfoldable pub tally : List NeedView → Dict Tally → Dict Tally
tally [] m = m
tally (n ∷ ns) m = tally ns (set n.cluster_id (bump n (get n.cluster_id m)) m)

-- The effects that fill in an empty shard and, below, an empty cluster.
unfoldable pub settle_shard : List String → State → State
settle_shard shards s = elim (head? shards) [
  | none ↦ s
  | some first ↦ if not (truthy (shard s)) then act (set_shard first) s else s
]

module _ (locale_before : String → String → Bool) where
  -- `b.unmet - a.unmet || a.id.localeCompare(b.id)` is negative.
  abbrev pub cluster_before : String × Tally → String × Tally → Bool
  cluster_before (a, s) (b, t) =
      if s.unmet == t.unmet then locale_before a b else ltb t.unmet s.unmet

  unfoldable pub clusters : List NeedView → List (String × Tally)
  clusters needs = sort_by cluster_before (tally needs [])

  unfoldable pub settle_cluster : List NeedView → State → State
  settle_cluster needs s = elim (head? (clusters needs)) [
    | none ↦ s
    | some (first, t) ↦ if not (truthy (cluster s)) then act (set_cluster first) s else s
  ]

unfoldable pub scoped : State → List NeedView → List NeedView
scoped s needs =
    if truthy (cluster s) && not (str_eq (cluster s) all_clusters)
    then filter (λ n. str_eq n.cluster_id (cluster s)) needs
    else needs

abbrev pub by_status : StatusFilter → List NeedView → List NeedView
by_status satisfied r = filter (λ n. n.satisfied) r
by_status unmet r = filter (λ n. not n.satisfied) r
by_status all r = r

abbrev pub by_reason : Option String → List NeedView → List NeedView
by_reason none r = r
by_reason (some reason) r =
    if truthy reason then filter (λ n. not n.satisfied && str_eq n.unmet_reason reason) r else r

unfoldable pub rows : State → List NeedView → List NeedView
rows s needs = by_reason s.reason_filter (by_status (status s) (scoped s needs))

-- The loop of `summary`.
unfoldable pub summarize : List NeedView → ℕ × Dict ℕ → ℕ × Dict ℕ
summarize [] st = st
summarize (n ∷ ns) (done, by_reason') = summarize ns (
    if n.satisfied
    then (done + 1, by_reason')
    else (done, set n.unmet_reason (or_else (get n.unmet_reason by_reason') 0 + 1) by_reason'))

unfoldable pub summary : State → List NeedView → ℕ × Dict ℕ
summary s needs = summarize (scoped s needs) (0, [])

abbrev pub show_cluster : State → Bool
show_cluster s = str_eq (cluster s) all_clusters
