-- ===== src/Needs/Walk/Ties.antt =====
-- The walk and the order in which the needs are given.
use mathlib.Core.List.{Permᴰ}
use bigfleet_web_dashboard.Prelude.{◌≡◌, ap, Bool, List, [], Ordered}
use bigfleet_web_dashboard.Prelude.Sort.Ties.{NoTie, sort_by-permᴰ}
use bigfleet_web_dashboard.Api.Demand.{NeedView}
use bigfleet_web_dashboard.Needs.Precedence.{precedes, precedes-IsStrictWeak}
use bigfleet_web_dashboard.Needs.Walk.{group_all, grouping, build_walk, walk_of}

-- Where no two needs have the same precedence, the whole walk, with its cohorts, its cut-lines and
-- its keys, is the same in whatever order the needs are given.
pub build_walk-permᴰ :
    {rows rows' : List NeedView} (show_cluster : Bool)
    → Permᴰ rows rows'
    → Ordered (NoTie precedes precedes-IsStrictWeak) rows
    → build_walk rows show_cluster ≡ build_walk rows' show_cluster
unfolding build_walk grouping
build_walk-permᴰ show_cluster p h =
    ap (λ ns. walk_of (group_all show_cluster ns ([], [])))
      (sort_by-permᴰ precedes precedes-IsStrictWeak p h)
