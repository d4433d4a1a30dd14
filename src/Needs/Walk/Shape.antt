-- ===== src/Needs/Walk/Shape.antt =====
-- The shape of the walk: which cohorts it has, in which order their rows stand, and what it is
-- where needs are not grouped.
use bigfleet_web_dashboard.Prelude.{
  ◌≡◌, refl, sym, ap, ◌∙◌, ◌≤◌, true, false, List, [], ◌∷◌, ◌++◌, arith, truthy, filter, All,
  All-imp₂, All-filter, filter-All, length, Ordered, Ordered-filter, str_eq, leb→le,
}
use mathlib.Core.List.{append-nil, append_assoc}
use bigfleet_web_dashboard.Prelude.Dict.{keys}
use bigfleet_web_dashboard.Prelude.Sort.{
  sort_by, sort_by-Ordered, sort_by-All, sort_by_of_Ordered, NotAfter,
}
use bigfleet_web_dashboard.Api.Demand.{NeedView}
use bigfleet_web_dashboard.Needs.Precedence.{precedes, precedes-IsStrictWeak}
use bigfleet_web_dashboard.Needs.Walk.{
  Group, Grouping, fingerprint, place, group_all, grouping, is_cohort, cohorts, leads, push_singles,
  flat_tail, all_cohort_items, flat_rows, build_walk, walk_of,
}
use bigfleet_web_dashboard.Needs.Walk.Leaders.{cohorts-Ordered}
use bigfleet_web_dashboard.Needs.Walk.Whole.{groups_whole}
use bigfleet_web_dashboard.Needs.Walk.Alone.{IsAlone, flat_tail-IsAlone}
use bigfleet_web_dashboard.Needs.Walk.Groups.{IsGroup, grouping-Invariant}

place_shown : (n : NeedView) (st : Grouping) → place true n st ≡ (st.0, st.1 ++ n ∷ [])
unfolding place
place_shown n (groups, flat) = ground arith

-- With clusters shown nothing is grouped.
group_all_shown : (ns : List NeedView) (st : Grouping) → group_all true ns st ≡ (st.0, st.1 ++ ns)
unfolding group_all
group_all_shown [] st = ap (λ l. (st.0, l)) (sym (append-nil st.1))
group_all_shown (n ∷ ns) st = rw (place_shown n st) (
    group_all_shown ns (st.0, st.1 ++ n ∷ []) ∙ ap (λ l. (st.0, l)) (append_assoc st.1 (n ∷ []) ns))

-- A cohort of the walk over `rows`: at least two needs, all the needs of a fingerprint that is not
-- empty, in the order of the walk.
pub record IsCohort (rows : List NeedView) (e : Group) : Type 0 where
  pub named : truthy e.0 ≡ true
  pub contended : 2 ≤ length e.1
  pub whole : e.1 ≡ filter (λ n. str_eq (fingerprint n) e.0) (sort_by precedes rows)
  pub in_order : Ordered (NotAfter precedes) e.1

walk_of_flat : (ns : List NeedView) → walk_of ([], ns) ≡ flat_rows 0 (sort_by precedes ns)
unfolding all_cohort_items cohorts flat_tail push_singles sort_by
walk_of_flat ns = refl

-- With clusters shown the walk is one row for each need, in the order of the walk.
pub build_walk_shown :
    (rows : List NeedView) → build_walk rows true ≡ flat_rows 0 (sort_by precedes rows)
unfolding build_walk grouping
build_walk_shown rows =
    let sorted = sort_by precedes rows in
    ap walk_of (group_all_shown sorted ([], []))
    ∙ walk_of_flat sorted
    ∙ ap (flat_rows 0)
        (sort_by_of_Ordered precedes sorted (sort_by-Ordered precedes precedes-IsStrictWeak rows))

module _ (rows : List NeedView) where
  group-IsCohort :
      (e : Group)
      → IsGroup e
      → e.1 ≡ filter (λ n. str_eq (fingerprint n) e.0) (sort_by precedes rows)
      → is_cohort e ≡ true
      → IsCohort rows e
  group-IsCohort e alike whole big = record {
    named = alike.0;
    contended = leb→le 2 (length e.1) big;
    whole = whole;
    in_order = rw whole (
        Ordered-filter (NotAfter precedes) (λ n. str_eq (fingerprint n) e.0) (sort_by precedes rows)
          (sort_by-Ordered precedes precedes-IsStrictWeak rows));
  }

  cohorts-IsCohort : All (IsCohort rows) (sort_by leads (cohorts (grouping rows false).0))
  unfolding cohorts
  cohorts-IsCohort =
      let groups = (grouping rows false).0 in
      sort_by-All leads (IsCohort rows) (filter is_cohort groups) (
        All-imp₂ (filter is_cohort groups) (λ e h big. group-IsCohort e h.0 h.1 big)
          (All-filter
            (λ e.
              IsGroup e × (e.1 ≡ filter (λ n. str_eq (fingerprint n) e.0) (sort_by precedes rows)))
            is_cohort groups
            (All-imp₂ groups (λ e h k. (h, k)) (grouping-Invariant rows false).1
              (groups_whole rows)))
          (filter-All is_cohort groups))

-- With needs grouped, the walk is the items of some cohorts, ordered by their first needs, each of
-- at least two needs and all the needs of its fingerprint, which is not empty, in the order of the
-- walk, and behind them one row for each need of a list that is in that order, of which each has
-- an empty fingerprint or is the only need with its fingerprint.
pub build_walk_grouped :
    (rows : List NeedView)
    → (es : List Group) × (rest : List NeedView) × (build_walk rows false
        ≡ all_cohort_items es ++ flat_rows 0 rest)
      × All (IsCohort rows) es
      × Ordered (NotAfter leads) es
      × Ordered (NotAfter precedes) rest
      × All (IsAlone rows) rest
unfolding build_walk flat_tail
build_walk_grouped rows =
    let st = grouping rows false in
    (
      sort_by leads (cohorts st.0),
      flat_tail st,
      refl,
      cohorts-IsCohort rows,
      cohorts-Ordered st.0,
      sort_by-Ordered precedes precedes-IsStrictWeak (push_singles (keys (cohorts st.0)) st.0 st.1),
      flat_tail-IsAlone rows,
    )
